-- ===== src/Pcap/Encoding.antt =====
-- Global headers and records, written and read back.
use ipcap.Base.{
  ℕ, ◌+◌, ◌%◌, ◌^◌, ◌≤◌, ◌<◌, ◌≡◌, refl, sym, ap, ◌∙◌, arith, List, [], ◌++◌, length, take, drop,
  All, false, ltb, le→ltb, ok, append_assoc, All-take, All-drop, length-take, length-drop,
  length-append, take-append-drop, drop-drop, take-length,
}
use ipcap.Bytes.{IsByte, put_le, get_le}
use ipcap.Bytes.RoundTrip.{get_le-put_le, get_le-lt, put_le-get_le, read_full-append}
use ipcap.Pcap.{
  GlobalHeader, Record, append_global_header, parse_global_header, record_header, append_record,
  parse_record_header, read_record, uint32_at,
}

-- A header whose fields are 32-bit values, as Go's types say.
pub record IsGlobalHeader (g : GlobalHeader) : Type 0 where
  pub snaplen_bound : g.snaplen < 2 ^ 32
  pub link_type_bound : g.link_type < 2 ^ 32

-- A record that a capture with this snapshot length writes: 32-bit fields and a body that fits.
pub record IsRecord (snaplen : ℕ) (r : Record) : Type 0 where
  pub ts_sec_bound : r.ts_sec < 2 ^ 32
  pub ts_usec_bound : r.ts_usec < 2 ^ 32
  pub orig_len_bound : r.orig_len < 2 ^ 32
  pub body_bound : length r.body ≤ snaplen
  pub body_bytes : All IsByte r.body

pub length-append_global_header : (g : GlobalHeader) → length (append_global_header g []) ≡ 24
unfolding append_global_header
length-append_global_header g = refl

-- Parsing what `AppendTo` wrote gives the header back, whatever follows.
pub parse_global_header-append :
    (g : GlobalHeader) (rest : List ℕ)
    → IsGlobalHeader g
    → parse_global_header (append_global_header g [] ++ rest) ≡ ok g
unfolding parse_global_header append_global_header
parse_global_header-append g rest h =
    let s : get_le (put_le 4 g.snaplen) ≡ g.snaplen = get_le-put_le 4 g.snaplen h.snaplen_bound in
    let l : get_le (put_le 4 g.link_type) ≡ g.link_type =
      get_le-put_le 4 g.link_type h.link_type_bound in
    let fits : ltb (length (append_global_header g [] ++ rest)) 24 ≡ false =
      le→ltb _ _ (omega arith) in
    rw fits (λ i. ok (record { snaplen = s i; link_type = l i }))

pub length-record_header : (r : Record) → length (record_header r) ≡ 16
unfolding record_header
length-record_header r = refl

pub length-append_record : (r : Record) → length (append_record r []) ≡ 16 + length r.body
unfolding append_record
length-append_record r =
    omega (arith, length-append (record_header r) r.body, length-record_header r)

pub parse_record_header-record_header :
    (snaplen : ℕ) (r : Record)
    → IsRecord snaplen r
    → snaplen < 2 ^ 32
    → parse_record_header (record_header r) ≡ (length r.body, record r { body = [] })
unfolding parse_record_header record_header
parse_record_header-record_header snaplen r h hs =
    let m : length r.body % 2 ^ 32 ≡ length r.body = omega (arith, h.body_bound) in
    let a : get_le (put_le 4 r.ts_sec) ≡ r.ts_sec = get_le-put_le 4 _ h.ts_sec_bound in
    let b : get_le (put_le 4 r.ts_usec) ≡ r.ts_usec = get_le-put_le 4 _ h.ts_usec_bound in
    let c : get_le (put_le 4 (length r.body % 2 ^ 32)) ≡ length r.body =
      get_le-put_le 4 _ (omega arith) ∙ m in
    let d : get_le (put_le 4 r.orig_len) ≡ r.orig_len = get_le-put_le 4 _ h.orig_len_bound in
    λ i. (c i, record { ts_sec = a i; ts_usec = b i; orig_len = d i; body = [] })

-- A whole record at the head of a stream is read back, and the stream goes on behind it.
pub read_record-append_record :
    (snaplen : ℕ) (r : Record) (rest : List ℕ)
    → IsRecord snaplen r
    → snaplen < 2 ^ 32
    → read_record (append_record r [] ++ rest) snaplen ≡ ok (r, rest)
unfolding read_record append_record
read_record-append_record snaplen r rest h hs =
    let p = parse_record_header-record_header snaplen r h hs in
    rw
      (
        append_assoc (record_header r) r.body rest,
        read_full-append 16 (record_header r) (r.body ++ rest) (length-record_header r),
        p,
        le→ltb snaplen (length r.body) h.body_bound,
        read_full-append (length r.body) r.body rest refl,
        read_record,
      )
      (λ i. ok (
        record {
          ts_sec = (p i).1.ts_sec;
          ts_usec = (p i).1.ts_usec;
          orig_len = (p i).1.orig_len;
          body = r.body;
        },
        rest,
      ))

-- The four fields of a header are its four words, and writing them again gives its bytes.
uint32_at-lt : (off : ℕ) (hdr : List ℕ) → All IsByte hdr → uint32_at off hdr < 2 ^ 32
uint32_at-lt off hdr h =
    let word = take 4 (drop off hdr) in
    get_le-lt 4 word (All-take IsByte 4 _ (All-drop IsByte off _ h))
      (omega (arith, length-take 4 (drop off hdr)))

put_le-uint32_at :
    (off : ℕ) (hdr : List ℕ)
    → All IsByte hdr
    → off + 4 ≤ length hdr
    → put_le 4 (uint32_at off hdr) ≡ take 4 (drop off hdr)
put_le-uint32_at off hdr h fits =
    let word = take 4 (drop off hdr) in
    let four : length word ≡ 4 = omega (arith, length-take 4 (drop off hdr), length-drop off hdr) in
    ap (λ k. put_le k (get_le word)) (sym four)
    ∙ put_le-get_le word (All-take IsByte 4 _ (All-drop IsByte off _ h))

four_words :
    (hdr : List ℕ)
    → length hdr ≡ 16
    → take 4 hdr ++ (take 4 (drop 4 hdr) ++ (take 4 (drop 8 hdr) ++ take 4 (drop 12 hdr))) ≡ hdr
four_words hdr h =
    let last : take 4 (drop 12 hdr) ≡ drop 12 hdr =
      ap (λ k. take k (drop 12 hdr)) {x = 4} {y = length (drop 12 hdr)}
        (omega (arith, length-drop 12 hdr))
      ∙ take-length (drop 12 hdr) in
    let from_8 : take 4 (drop 8 hdr) ++ drop 12 hdr ≡ drop 8 hdr =
      rw (drop-drop 8 4 hdr) at (take-append-drop 4 (drop 8 hdr)) in
    let from_4 : take 4 (drop 4 hdr) ++ drop 8 hdr ≡ drop 4 hdr =
      rw (drop-drop 4 4 hdr) at (take-append-drop 4 (drop 4 hdr)) in
    rw (last, from_8, from_4) (take-append-drop 4 hdr)

-- The record that `ReadRecord`, `ReadRecordAt` and `ScanRecords` make of a header and a body.
abbrev pub parsed : List ℕ → List ℕ → Record
parsed hdr body = record (parse_record_header hdr).1 { body = body }

-- A parsed record is written again as the bytes that it was parsed from.
pub append_record-parsed :
    (hdr body : List ℕ)
    → length hdr ≡ 16
    → All IsByte hdr
    → length body ≡ uint32_at 8 hdr
    → append_record (parsed hdr body) [] ≡ hdr ++ body
unfolding append_record record_header parse_record_header
append_record-parsed hdr body h16 hb hl =
    let cap : length body % 2 ^ 32 ≡ uint32_at 8 hdr = omega (arith, uint32_at-lt 8 hdr hb) in
    let w0 = put_le-uint32_at 0 hdr hb (omega arith) in
    let w4 = put_le-uint32_at 4 hdr hb (omega arith) in
    let w8 = ap (put_le 4) cap ∙ put_le-uint32_at 8 hdr hb (omega arith) in
    let w12 = put_le-uint32_at 12 hdr hb (omega arith) in
    (λ i. (w0 i ++ (w4 i ++ (w8 i ++ w12 i))) ++ body) ∙ ap (λ b. b ++ body) (four_words hdr h16)

pub parsed-IsRecord :
    (snaplen : ℕ) (hdr body : List ℕ)
    → All IsByte hdr
    → All IsByte body
    → length body ≤ snaplen
    → IsRecord snaplen (parsed hdr body)
unfolding parse_record_header
parsed-IsRecord snaplen hdr body hh hb le = record {
  ts_sec_bound = uint32_at-lt 0 hdr hh;
  ts_usec_bound = uint32_at-lt 4 hdr hh;
  orig_len_bound = uint32_at-lt 12 hdr hh;
  body_bound = le;
  body_bytes = hb;
}
