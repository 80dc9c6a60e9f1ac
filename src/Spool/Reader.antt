-- ===== src/Spool/Reader.antt =====
-- internal/spool/reader.go: a tailing view of the spool, which reads what is durable and no more.
-- The directory stands still during one call. Reads of it that fail are left out, but for a segment
-- file that is gone and a header that is cut short.
use ipcap.Base.{
  ℕ, zero, suc, ◌+◌, ◌-◌, Option, none, some, List, [], ◌∷◌, Bool, true, false, ◌&&◌, ltb, leb,
  ◌==◌, if◌then◌else◌, add64, Result, ok, err,
}
use ipcap.Bytes.{ReadError}
use ipcap.Pcap.{
  GlobalHeader, parse_global_header, Record, PcapError, short, parse_record_header, read_at,
  read_record_at, global_header_len, record_header_len,
}
use ipcap.Spool.{Segment, Dir, load_manifest, put_segment}

pub data ReaderError : Type 0 where
  no_data reaped not_found : ReaderError
  failed : PcapError → ReaderError

-- `file` is the segment whose file is open, if any.
pub record Reader : Type 0 where
  pub snaplen : ℕ
  pub view : List Segment
  pub oldest : ℕ
  pub head : ℕ
  pub gpidx : ℕ
  pub file : Option ℕ
  pub offset : ℕ

unfoldable pub exists : ℕ → List ℕ → Bool
exists seq [] = false
exists seq (q ∷ qs) = let rest = exists seq qs in if q == seq then true else rest

-- The entries of the manifest whose files are there.
abbrev pub add_existing : List ℕ → Segment → List Segment → List Segment
add_existing seqs s rest = if exists s.seq seqs then put_segment s rest else rest

unfoldable pub existing : List ℕ → List Segment → List Segment
unfolding exists put_segment
existing seqs [] = []
existing seqs (s ∷ ss) = add_existing seqs s (existing seqs ss)

abbrev pub with_active : List ℕ → Option Segment → List Segment → List Segment
with_active seqs none segs = segs
with_active seqs (some active) segs = add_existing seqs active segs

-- `sort.Slice` by the start.
unfoldable pub insert_by_start : Segment → List Segment → List Segment
insert_by_start s [] = s ∷ []
insert_by_start s (t ∷ ts) =
    let rest = insert_by_start s ts in
    if leb s.start_gpidx t.start_gpidx then s ∷ (t ∷ ts) else t ∷ rest

unfoldable pub sort_by_start : List Segment → List Segment
unfolding insert_by_start
sort_by_start [] = []
sort_by_start (s ∷ ss) = insert_by_start s (sort_by_start ss)

abbrev pub first_start : List Segment → ℕ
first_start [] = 0
first_start (s ∷ ss) = s.start_gpidx

abbrev pub last_end : List Segment → ℕ
last_end [] = 0
last_end (s ∷ []) = s.end_gpidx
last_end (s ∷ (t ∷ ts)) = last_end (t ∷ ts)

unfoldable pub refresh : Dir → Reader → Reader
unfolding existing sort_by_start load_manifest
refresh d r =
    let view = sort_by_start (with_active d.seqs d.head_file (existing d.seqs (load_manifest d))) in
    record r { view = view; oldest = first_start view; head = last_end view }

-- `OpenReader`: the reader, its position, and whether the position was behind retention.
unfoldable pub open_reader : Dir → ℕ → ℕ → Reader × ℕ × Bool
unfolding refresh
open_reader d snaplen from_gpidx =
    let r = refresh d (record {
      snaplen = snaplen;
      view = [];
      oldest = 0;
      head = 0;
      gpidx = 0;
      file = none;
      offset = 0;
    }) in
    let behind = ltb from_gpidx r.oldest in
    let clamped = if behind then r.oldest else from_gpidx in
    let from = if ltb r.head clamped then r.oldest else clamped in
    (record r { gpidx = from }, from, behind)

unfoldable pub owning : ℕ → List Segment → Option Segment
owning gpidx [] = none
owning gpidx (s ∷ ss) =
    let rest = owning gpidx ss in
    if leb s.start_gpidx gpidx && ltb gpidx s.end_gpidx then some s else rest

-- The loop of `position` over the records to skip: the offset that it reaches, and its error.
unfoldable pub skip_records : List ℕ → ℕ → ℕ → ℕ × Option ReadError
skip_records file zero offset = (offset, none)
skip_records file (suc n) offset = elim (read_at record_header_len offset file) [
  | err e ↦ (offset, some e)
  | ok hdr ↦ skip_records file n (offset + record_header_len + (parse_record_header hdr).0)
]

abbrev pub positioned : Reader → ℕ × Option ReadError → Result ReaderError (Unit {0}) × Reader
positioned r (offset, some e) = (err (failed (short e)), record r { offset = offset })
positioned r (offset, none) = (ok tt, record r { offset = offset })

unfoldable pub position : Dir → Segment → ℕ → Reader → Result ReaderError (Unit {0}) × Reader
unfolding skip_records exists
position d seg target r =
    if exists seg.seq d.seqs
    then positioned (record r { file = some seg.seq })
        (skip_records (d.files seg.seq).bytes (target - seg.start_gpidx) global_header_len)
    else (err not_found, r)

abbrev pub Outcome : Type 0
Outcome = Option (Result ReaderError (Record × ℕ) × Reader)

abbrev pub is_open : Option ℕ → ℕ → Bool
is_open none seq = false
is_open (some q) seq = q == seq

-- `Next` behind `readAt`.
abbrev pub delivered :
    (Reader → Outcome) → Dir → Reader → Result PcapError (Option (Record × ℕ)) → Outcome
delivered again d r (err e) = some (err (failed e), r)
delivered again d r (ok none) =
    let r' = refresh d r in if leb r'.head r'.gpidx then some (err no_data, r') else again r'
delivered again d r (ok (some (rec, next))) =
    some (ok (rec, r.gpidx), record r { offset = next; gpidx = add64 r.gpidx 1 })

-- `readAt`, on the file that is open.
abbrev pub read_segment :
    (Reader → Outcome) → Dir → Segment → Result ReaderError (Unit {0}) × Reader → Outcome
read_segment again d seg (err e, r) = some (err e, r)
read_segment again d seg (ok u, r) =
    delivered again d r (read_record_at (d.files seg.seq).bytes r.offset seg.valid_len r.snaplen)

abbrev pub locate : (Reader → Outcome) → Dir → Reader → Option Segment → Outcome
locate again d r none =
    let r' = refresh d r in
    elim (owning r'.gpidx r'.view) [ none ↦ some (err no_data, r') | some seg ↦ again r' ]
locate again d r (some seg) =
    read_segment again d seg
      (if is_open r.file seg.seq then (ok tt, r) else position d seg r.gpidx r)

abbrev pub caught_up : (Reader → Outcome) → Dir → Reader → Outcome
caught_up again d r =
    if ltb r.gpidx r.oldest
    then some (err reaped, r)
    else if leb r.head r.gpidx
    then some (err no_data, r)
    else locate again d r (owning r.gpidx r.view)

-- `Next`; `none` says that the rounds ran out.
unfoldable pub next : ℕ → Dir → Reader → Outcome
unfolding refresh owning position read_record_at
next zero d r = none
next (suc fuel) d r =
    if ltb r.gpidx r.oldest
    then some (err reaped, r)
    else if leb r.head r.gpidx
    then caught_up (next fuel d) d (refresh d r)
    else locate (next fuel d) d r (owning r.gpidx r.view)

-- `SourceHeader`; a file that is shorter than a header is an error of the read.
unfoldable pub source_header : Dir → List ℕ → Result ReaderError GlobalHeader
unfolding read_at parse_global_header
source_header d [] = err not_found
source_header d (q ∷ []) = elim (read_at global_header_len 0 (d.files q).bytes) [
  | err e ↦ err (failed (short e))
  | ok gh ↦ elim (parse_global_header gh) [ err e ↦ err (failed e) | ok h ↦ ok h ]
]
source_header d (q ∷ (p ∷ ps)) = source_header d (p ∷ ps)
