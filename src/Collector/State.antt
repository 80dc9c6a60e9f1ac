-- ===== src/Collector/State.antt =====
-- internal/collector/mirror.go: the state of a mirror, its directory, and its calls of the system.
-- A session's file is known by its sequence number, which is all that its name depends on; a file
-- that does not exist yet is an empty one. A write may fail after any part of it. The directory entry
-- of a session's file is taken as durable: the records count only once persistState has synced it.
use ipcap.Base.{ℕ, ◌+◌, Option, none, some, List, length, take, ◌==◌, if◌then◌else◌}
use ipcap.Storage.Io.{Io, raise, modify, syscall, quiet, ◌>>◌}
use ipcap.Storage.File.{File, write_at, truncate, sync}
use ipcap.Pcap.{GlobalHeader}
use ipcap.Proto.Messages.{DecodeError}
use Prim.Native.String.{String}

pub record ResumeState : Type 0 where
  pub committed_gpidx : ℕ
  pub session_seq : ℕ
  pub session_start_gpidx : ℕ
  pub last_seq : ℕ
  pub epoch : String

abbrev pub zero_state : ResumeState
zero_state = record {
  committed_gpidx = 0;
  session_seq = 0;
  session_start_gpidx = 0;
  last_seq = 0;
  epoch = "";
}

-- The mirror's directory. A rename of resume.json is visible at once (`resume`), and survives a
-- crash once the directory has been synced (`resume_synced`).
pub record Disk : Type 0 where
  pub files : ℕ → File
  pub resume : Option ResumeState
  pub resume_synced : Option ResumeState

-- `file` is the session whose file is open, if any, and `pos` its write position. `committed` and
-- the three fields behind it are the atomics that other goroutines read.
pub record Mirror : Type 0 where
  pub gh : GlobalHeader
  pub file : Option ℕ
  pub pos : ℕ
  pub file_len : ℕ
  pub state : ResumeState
  pub committed : ℕ
  pub session_start : ℕ
  pub session_seq : ℕ
  pub committed_len : ℕ
  pub disk : Disk

-- `io`: a call of the system failed; `closed`: the file is not open; `forward_jump` is the demux's.
pub data CollectorError : Type 0 where
  io closed : CollectorError
  forward_jump : ℕ → ℕ → CollectorError
  bad_gap : DecodeError → CollectorError

abbrev pub M : Type 0 → Type 0
M = Io CollectorError Mirror

abbrev pub update : ℕ → (File → File) → (ℕ → File) → ℕ → File
update q f files k = if k == q then f (files q) else files k

abbrev pub on_disk : ℕ → (File → File) → Mirror → Mirror
on_disk q f m = record m { disk = record m.disk { files = update q f m.disk.files } }

-- `f.Write(bs)`
abbrev pub write_effect : ℕ → List ℕ → Mirror → Mirror
write_effect q bs m = record (on_disk q (write_at m.pos bs) m) { pos = m.pos + length bs }

unfoldable pub write : ℕ → List ℕ → M (Unit {0})
write q bs = syscall io (write_effect q bs) (λ n. write_effect q (take n bs))

unfoldable pub truncate_file : ℕ → ℕ → M (Unit {0})
truncate_file q n = syscall io (on_disk q (truncate n)) (λ k m. m)

unfoldable pub fdatasync : ℕ → M (Unit {0})
fdatasync q = syscall io (on_disk q sync) (λ k m. m)

unfoldable pub seek_start : M (Unit {0})
seek_start = syscall io (λ m. record m { pos = 0 }) (λ k m. m)

unfoldable pub seek_end : ℕ → M (Unit {0})
seek_end q = syscall io (λ m. record m { pos = length (m.disk.files q).bytes }) (λ k m. m)

abbrev pub on_open : {A : Type 0} → Option ℕ → (ℕ → M A) → M A
on_open none f = raise closed
on_open (some q) f = f q

-- A method of `m.file` fails on a file that is nil or closed.
unfoldable pub with_file : {A : Type 0} → (ℕ → M A) → M A
with_file f s = on_open s.state.file f s

-- `publish`
abbrev pub published : Mirror → Mirror
published m = record m {
  committed = m.state.committed_gpidx;
  session_start = m.state.session_start_gpidx;
  session_seq = m.state.session_seq;
  committed_len = m.file_len;
}

unfoldable pub publish : M (Unit {0})
publish = modify published

-- `SyncDir`: the open of the directory, and its sync.
unfoldable pub sync_dir : M (Unit {0})
sync_dir =
    quiet io
    >> syscall io (λ m. record m { disk = record m.disk { resume_synced = m.disk.resume } })
        (λ k m. m)

-- `WriteFileAtomic` of the resume state, durably: open, write, sync and close of the temporary
-- file, which nothing reads, then the rename and the sync of the directory.
unfoldable pub write_resume : ResumeState → M (Unit {0})
unfolding sync_dir
write_resume st =
    quiet io
    >> quiet io
    >> quiet io
    >> quiet io
    >> syscall io (λ m. record m { disk = record m.disk { resume = some st } }) (λ k m. m)
    >> sync_dir

unfoldable pub persist_state : M (Unit {0})
unfolding write_resume
persist_state s = write_resume s.state.state s
