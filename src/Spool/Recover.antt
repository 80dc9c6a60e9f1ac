-- ===== src/Spool/Recover.antt =====
-- internal/spool/recover.go: the durable state, rebuilt from the manifest and the segment files.
use ipcap.Base.{
  ℕ, ◌+◌, Option, none, some, List, [], ◌∷◌, ◌++◌, length, take, drop, Bool, true, false, not, ◌&&◌,
  ltb, ◌==◌, if◌then◌else◌, add64, Result, ok, err, max,
}
use ipcap.Storage.Io.{Io, pure, raise, lift, gets, syscall, quiet, ◌>>=◌, ◌>>◌}
use ipcap.Storage.File.{File, write_at, truncate, sync}
use ipcap.Pcap.{
  GlobalHeader, Record, PcapError, ScanResult, append_global_header, parse_global_header,
  scan_records, global_header_len,
}
use ipcap.Spool.{
  Segment, Dir, SpoolError, io, missing_header, bad_header, non_contiguous, find_segment,
  load_manifest,
}

abbrev pub S : Type 0 → Type 0
S = Io SpoolError Dir

-- `recovered`; the sealed segments are listed in the order of their files.
pub record Recovered : Type 0 where
  pub sealed : List Segment
  pub reseal : List Segment
  pub active : Option Segment
  pub head : ℕ
  pub next_seq : ℕ
  pub oldest_gpidx : ℕ

-- The variables of the loop of `recoverSpool`.
pub record Walk : Type 0 where
  pub running : ℕ
  pub have_running : Bool
  pub r : Recovered

abbrev pub on_file : ℕ → (File → File) → Dir → Dir
on_file q f d = record d { files = λ k. if k == q then f (d.files q) else d.files k }

-- `f.Write` of the header at the start of the file, which is empty.
unfoldable pub reset_segment : ℕ → ℕ → ℕ → S (ℕ × ℕ)
reset_segment seq snaplen link_type =
    let header = append_global_header (record { snaplen = snaplen; link_type = link_type }) [] in
    syscall io (on_file seq (truncate 0)) (λ n d. d)
    >> quiet io
    >> syscall io (on_file seq (write_at 0 header)) (λ n. on_file seq (write_at 0 (take n header)))
    >> syscall io (on_file seq sync) (λ n d. d)
    >> pure (0, 0)

-- The callback of the scan is nil.
abbrev pub no_callback : Record → Option ⊥
no_callback r = none

-- The scan always ends, so that the first case never arises.
abbrev pub scanned : Option (ScanResult ⊥) → ℕ × ℕ
scanned none = (0, 0)
scanned (some r) = (r.valid_bytes, r.count)

unfoldable pub cut_tail : ℕ → Bool → ℕ → ℕ × ℕ → S (ℕ × ℕ)
cut_tail seq repair size (valid_bytes, count) =
    let want = global_header_len + valid_bytes in
    if repair && not (size == want)
    then syscall io (on_file seq (truncate want)) (λ n d. d)
      >> syscall io (on_file seq sync) (λ n d. d)
      >> pure (valid_bytes, count)
    else pure (valid_bytes, count)

abbrev pub check_header : ℕ → ℕ → ℕ → Bool → List ℕ → Result PcapError GlobalHeader → S (ℕ × ℕ)
check_header seq snaplen link_type repair bytes (err e) =
    if repair then reset_segment seq snaplen link_type else raise bad_header
check_header seq snaplen link_type repair bytes (ok gh) =
    cut_tail seq repair (length bytes)
      (scanned (scan_records (drop global_header_len bytes) snaplen no_callback))

-- `scanSegment` behind the open and the `Stat`, on the bytes of the file.
abbrev pub scan_bytes : ℕ → ℕ → ℕ → Bool → List ℕ → S (ℕ × ℕ)
scan_bytes seq snaplen link_type repair bytes =
    if ltb (length bytes) global_header_len
    then if repair then reset_segment seq snaplen link_type else raise missing_header
    else check_header seq snaplen link_type repair bytes
        (parse_global_header (take global_header_len bytes))

unfoldable pub scan_segment : ℕ → ℕ → ℕ → Bool → S (ℕ × ℕ)
unfolding reset_segment cut_tail parse_global_header scan_records
scan_segment seq snaplen link_type repair =
    quiet io
    >> quiet io
    >> (gets (λ (d : Dir). (d.files seq).bytes) >>= scan_bytes seq snaplen link_type repair)

-- The first segment of the walk sets the running counter.
abbrev pub begin : ℕ → Walk → Walk
begin start w =
    if w.have_running
    then w
    else record w { running = start; have_running = true; r = record w.r { oldest_gpidx = start } }

-- A segment that the manifest has.
unfoldable pub sealed_step : Segment → Walk → Result SpoolError Walk
sealed_step seg w =
    let w' = begin seg.start_gpidx w in
    if not (seg.start_gpidx == w'.running)
    then err (non_contiguous seg.seq seg.start_gpidx w'.running)
    else ok (record w' {
      running = seg.end_gpidx;
      r = record w'.r { sealed = w'.r.sealed ++ (seg ∷ []) };
    })

-- One that it has not: the active segment, or one whose line was lost.
unfoldable pub unsealed_step : ℕ → Bool → Walk → ℕ × ℕ → Walk
unsealed_step seq is_last w (valid_bytes, count) =
    let w' = begin 0 w in
    let seg : Segment = record {
      seq = seq;
      start_gpidx = w'.running;
      end_gpidx = add64 w'.running count;
      valid_len = global_header_len + valid_bytes;
      sealed = not is_last;
    } in
    if is_last
    then record w' { running = seg.end_gpidx; r = record w'.r { active = some seg } }
    else record w' {
      running = seg.end_gpidx;
      r = record w'.r { sealed = w'.r.sealed ++ (seg ∷ []); reseal = w'.r.reseal ++ (seg ∷ []) };
    }

abbrev pub is_nil : List ℕ → Bool
is_nil [] = true
is_nil (x ∷ xs) = false

abbrev pub step_with : ℕ → ℕ → ℕ → Bool → Walk → Option Segment → S Walk
step_with snaplen link_type seq is_last w (some seg) = lift (sealed_step seg w)
step_with snaplen link_type seq is_last w none =
    scan_segment seq snaplen link_type is_last >>= λ c. pure (unsealed_step seq is_last w c)

unfoldable pub walk : ℕ → ℕ → List Segment → List ℕ → Walk → S Walk
unfolding scan_segment sealed_step unsealed_step find_segment
walk snaplen link_type manifest [] w = pure w
walk snaplen link_type manifest (seq ∷ seqs) w =
    step_with snaplen link_type seq (is_nil seqs) w (find_segment seq manifest)
    >>= walk snaplen link_type manifest seqs

abbrev pub max_end : List Segment → ℕ
max_end [] = 0
max_end (s ∷ ss) = max s.end_gpidx (max_end ss)

abbrev pub max_seq : List Segment → ℕ
max_seq [] = 0
max_seq (s ∷ ss) = max s.seq (max_seq ss)

-- Where the manifest names segments and no file is there.
abbrev pub no_files : List Segment → Recovered
no_files manifest = record {
  sealed = [];
  reseal = [];
  active = none;
  head = max_end manifest;
  next_seq = elim manifest [ [] ↦ 0 | s ∷ ss ↦ add64 (max_seq (s ∷ ss)) 1 ];
  oldest_gpidx = max_end manifest;
}

abbrev pub start_walk : Walk
start_walk = record { running = 0; have_running = false; r = record (no_files []) { next_seq = 0 } }

abbrev pub last_seq : List ℕ → ℕ
last_seq [] = 0
last_seq (q ∷ []) = q
last_seq (q ∷ (p ∷ ps)) = last_seq (p ∷ ps)

abbrev pub finished : List ℕ → Walk → Recovered
finished seqs w = record w.r {
  head = w.running;
  next_seq = elim w.r.active [ some seg ↦ add64 seg.seq 1 | none ↦ add64 (last_seq seqs) 1 ];
}

abbrev pub recover_files : ℕ → ℕ → List Segment → List ℕ → S Recovered
recover_files snaplen link_type manifest [] = pure (no_files manifest)
recover_files snaplen link_type manifest (q ∷ qs) =
    walk snaplen link_type manifest (q ∷ qs) start_walk >>= λ w. pure (finished (q ∷ qs) w)

-- `recoverSpool`; the two reads of the directory may fail.
unfoldable pub recover_spool : ℕ → ℕ → S Recovered
unfolding load_manifest walk
recover_spool snaplen link_type =
    quiet io
    >> quiet io
    >> (gets (λ (d : Dir). d) >>= λ (d : Dir).
        recover_files snaplen link_type (load_manifest d) d.seqs)
