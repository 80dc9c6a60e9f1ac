-- ===== src/Collector/Mirror.antt =====
-- internal/collector/mirror.go: the operations of the mirror.
pub mod Retry
pub mod Reopen
pub mod Recovery
pub mod Offset
pub mod Stored
pub mod Commit
pub mod Recoverable
pub mod Stages
use ipcap.Base.{
  ℕ, zero, suc, ◌+◌, ◌<◌, Option, none, some, List, [], ◌∷◌, ◌++◌, length, take, Bool, true, false,
  not, ◌&&◌, ltb, ◌==◌, if◌then◌else◌, add64, sub64, Result, ok, err,
}
use ipcap.Storage.Io.{Sys, Io, pure, raise, gets, modify, syscall, quiet, ◌>>=◌, ◌>>◌}
use ipcap.Storage.File.{File, write_at, truncate, sync}
use ipcap.Pcap.{
  GlobalHeader, Record, append_global_header, append_record, parse_record_header, read_at,
  global_header_len, record_header_len,
}
use ipcap.Proto.Messages.{DecodeError}
use Prim.Native.String.{String}
use text.Mathlib.Text.{◌==◌ as str_eq}
use ipcap.Collector.State.{
  CollectorError, Disk, M, Mirror, ResumeState, bad_gap, closed, fdatasync, forward_jump, io,
  on_disk, on_open, persist_state, publish, published, seek_end, seek_start, sync_dir,
  truncate_file, update, with_file, write, write_effect, write_resume, zero_state,
}

unfoldable pub encode_all : List Record → List ℕ → List ℕ
encode_all [] buf = buf
encode_all (r ∷ rs) buf = encode_all rs (append_record r buf)

-- What `Append` does to the state between the sync and `persistState`.
abbrev pub advance : ℕ → ℕ → ℕ → Mirror → Mirror
advance bytes count last_seq m = record m {
  file_len = m.file_len + bytes;
  state = record m.state {
    committed_gpidx = add64 m.state.committed_gpidx count;
    last_seq = last_seq;
  };
}

append_bytes : List ℕ → ℕ → ℕ → M (Unit {0})
unfolding write fdatasync with_file persist_state publish
append_bytes buf count last_seq =
    with_file (λ q. write q buf)
    >> with_file fdatasync
    >> modify (advance (length buf) count last_seq)
    >> persist_state
    >> publish

unfoldable pub append : List Record → ℕ → M (Unit {0})
unfolding append_bytes encode_all
append [] last_seq = pure tt
append (r ∷ rs) last_seq = append_bytes (encode_all (r ∷ rs) []) (length (r ∷ rs)) last_seq

-- `recordOffsetForCount` from an offset and a count on, with `want` more records to find.
unfoldable pub record_offset_for_count : List ℕ → ℕ → ℕ → ℕ → ℕ → ℕ × ℕ
record_offset_for_count file snaplen zero offset have = (offset, have)
record_offset_for_count file snaplen (suc want) offset have =
    elim (read_at record_header_len offset file) [
      | err e ↦ (offset, have)
      | ok hdr ↦
          let cap_len = (parse_record_header hdr).0 in
          elim (ltb snaplen cap_len) [
            | true ↦ (offset, have)
            | false ↦
                record_offset_for_count file snaplen want (offset + record_header_len + cap_len)
                  (have + 1)
          ]
    ]

-- The state with the commit point that `have` of `want` records allow.
abbrev pub lowered : ℕ → ℕ → ResumeState → ResumeState
lowered have want st =
    if ltb have want then record st { committed_gpidx = add64 st.session_start_gpidx have } else st

abbrev pub recover_tail : ℕ → ℕ → ℕ × ℕ → M (Unit {0})
recover_tail q want (offset, have) =
    modify (λ m. record m { state = lowered have want m.state }) >> truncate_file q offset

abbrev pub fresh_header : ℕ → GlobalHeader → M (Unit {0})
fresh_header q gh = truncate_file q 0 >> write q (append_global_header gh [])

-- The two branches of `openSession` on the size of the file.
unfoldable pub recover_session : ℕ → M (Unit {0})
unfolding record_offset_for_count truncate_file write
recover_session q s =
    let m = s.state in
    let file = (m.disk.files q).bytes in
    let want = sub64 m.state.committed_gpidx m.state.session_start_gpidx in
    if ltb (length file) global_header_len
    then fresh_header q m.gh s
    else recover_tail q want (record_offset_for_count file m.gh.snaplen want global_header_len 0) s

-- `OpenFile`, `Stat`, the recovery, the sync and the seek; the handle is kept at the end.
unfoldable pub open_file_of : ℕ → M (Unit {0})
unfolding recover_session fdatasync seek_end
open_file_of q =
    syscall io (λ m. record m { pos = 0 }) (λ k m. m)
    >> quiet io
    >> recover_session q
    >> fdatasync q
    >> seek_end q
    >> modify (λ m. record m { file = some q; file_len = m.pos })

unfoldable pub open_session : M (Unit {0})
unfolding open_file_of
open_session s = open_file_of s.state.state.session_seq s

abbrev pub loaded : Option ResumeState → ResumeState
loaded none = zero_state
loaded (some st) = st

-- `ReadFile` and `json.Unmarshal` of a state that `persistState` wrote.
unfoldable pub load_state : M (Unit {0})
load_state = quiet io >> modify (λ m. record m { state = loaded m.disk.resume })

-- The mirror that `OpenMirror` starts from.
abbrev pub new_mirror : GlobalHeader → Disk → Mirror
new_mirror gh disk = record {
  gh = gh;
  file = none;
  pos = 0;
  file_len = 0;
  state = zero_state;
  committed = 0;
  session_start = 0;
  session_seq = 0;
  committed_len = 0;
  disk = disk;
}

-- `OpenMirror`, from `new_mirror`.
unfoldable pub open_mirror : M (Unit {0})
unfolding load_state open_session publish
open_mirror = quiet io >> load_state >> open_session >> publish

-- A session that has records keeps its header.
unfoldable pub write_header : GlobalHeader → M (Unit {0})
unfolding with_file truncate_file seek_start write fdatasync seek_end
write_header gh =
    with_file (λ q. truncate_file q 0)
    >> with_file (λ q. seek_start)
    >> with_file (λ q. write q (append_global_header gh []))
    >> with_file fdatasync
    >> with_file seek_end

abbrev pub same_header : GlobalHeader → GlobalHeader → Bool
same_header g h = g.snaplen == h.snaplen && g.link_type == h.link_type

unfoldable pub set_header : GlobalHeader → M (Unit {0})
unfolding write_header
set_header h s =
    let m = s.state in
    if same_header m.gh h
    then pure tt s
    else if not (m.state.committed_gpidx == m.state.session_start_gpidx)
    then modify (λ (m : Mirror). record m { gh = h }) s
    else (modify (λ (m : Mirror). record m { gh = h }) >> write_header h) s

unfoldable pub new_session : ℕ → M (Unit {0})
unfolding open_session persist_state publish
new_session start_gpidx =
    modify (λ m. record m {
      file = none;
      state = record m.state {
        session_seq = add64 m.state.session_seq 1;
        session_start_gpidx = start_gpidx;
        committed_gpidx = start_gpidx;
      };
    })
    >> open_session
    >> persist_state
    >> publish

abbrev pub set_epoch : String → Mirror → Mirror
set_epoch epoch m = record m { state = record m.state { epoch = epoch } }

unfoldable pub adopt_epoch : String → M (Unit {0})
unfolding persist_state
adopt_epoch epoch s =
    if str_eq s.state.state.epoch epoch
    then pure tt s
    else (modify (set_epoch epoch) >> persist_state) s

unfoldable pub reset_for_epoch : String → ℕ → M (Unit {0})
unfolding new_session
reset_for_epoch epoch base = modify (set_epoch epoch) >> new_session base
