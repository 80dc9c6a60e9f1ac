-- ===== src/Pcap/Scan.antt =====
-- The forward scan of a segment: it takes the whole records at the head of the stream, all of
-- them, and stops at the first torn or implausible one.
use ipcap.Base.{
  Result, ℕ, zero, suc, ◌+◌, ◌^◌, ◌<◌, ◌≡◌, refl, sym, ap, ◌∙◌, arith, Option, none, List, [], ◌∷◌,
  ◌++◌, length, All, ok, length-append, subst, append_assoc, All-of_append,
}
use ipcap.Bytes.{IsByte, eof, read_full}
use ipcap.Pcap.{PcapError, Record, short, append_record, read_record, stop, scan_loop, scan_records}
use ipcap.Pcap.Encoding.{
  IsRecord, parsed, append_record-parsed, parsed-IsRecord, read_record-append_record,
  length-append_record,
}
use ipcap.Pcap.Head.{IsTorn, whole, torn, head}

-- The bytes of consecutive records.
abbrev pub encode_records : List Record → List ℕ
encode_records [] = []
encode_records (r ∷ rs) = append_record r [] ++ encode_records rs

zero_plus : (n : ℕ) → 0 + n ≡ n
zero_plus n = omega arith

plus_zero : (n : ℕ) → n ≡ n + 0
plus_zero n = omega arith

module _ {E : Type 0} (snaplen : ℕ) (on_record : Record → Option E) where
  -- What a scan of `s` from the counters `vb` and `c` on has found.
  record Found (fuel : ℕ) (s : List ℕ) (vb c : ℕ) : Type 0 where
    records : List Record
    tail : List ℕ
    split : s ≡ encode_records records ++ tail
    valid : All (IsRecord snaplen) records
    torn_tail : IsTorn snaplen tail
    result :
        scan_loop snaplen on_record fuel s vb c
        ≡ stop (vb + length (encode_records records)) (c + length records) none

  Found-torn :
      (fuel vb c : ℕ) (s : List ℕ)
      → IsTorn snaplen s
      → scan_loop snaplen on_record (suc fuel) s vb c ≡ stop vb c none
      → Found (suc fuel) s vb c
  Found-torn fuel vb c s t e = record {
    records = [];
    tail = s;
    split = refl;
    valid = tt;
    torn_tail = t;
    result = e ∙ (λ i. stop (plus_zero vb i) (plus_zero c i) none);
  }

  Found-whole :
      (fuel vb c : ℕ) (s hdr body s2 : List ℕ)
      → s ≡ (hdr ++ body) ++ s2
      → append_record (parsed hdr body) [] ≡ hdr ++ body
      → length hdr ≡ 16
      → IsRecord snaplen (parsed hdr body)
      → scan_loop snaplen on_record (suc fuel) s vb c
        ≡ scan_loop snaplen on_record fuel s2 (vb + (16 + length body)) (c + 1)
      → Found fuel s2 (vb + (16 + length body)) (c + 1)
      → Found (suc fuel) s vb c
  Found-whole fuel vb c s hdr body s2 split again h16 valid step rest = record {
    records = parsed hdr body ∷ rest.records;
    tail = rest.tail;
    split =
        split
        ∙ ap (λ t. (hdr ++ body) ++ t) rest.split
        ∙ sym (append_assoc (hdr ++ body) (encode_records rest.records) rest.tail)
        ∙ ap (λ t. (t ++ encode_records rest.records) ++ rest.tail) (sym again);
    valid = (valid, rest.valid);
    torn_tail = rest.torn_tail;
    result =
        let bytes : vb + (16 + length body) + length (encode_records rest.records)
            ≡ vb + length (append_record (parsed hdr body) [] ++ encode_records rest.records) =
          rw again (
            omega (
              arith,
              length-append (hdr ++ body) (encode_records rest.records),
              length-append hdr body,
            )) in
        let more : c + 1 + length rest.records ≡ c + length (parsed hdr body ∷ rest.records) =
          omega arith in
        step ∙ rest.result ∙ (λ i. stop (bytes i) (more i) none);
  }

  module _ (accepts : (r : Record) → on_record r ≡ none) where
    scan_loop-Found :
        (fuel : ℕ) (s : List ℕ) (vb c : ℕ) → All IsByte s → length s < fuel → Found fuel s vb c
    scan_loop-Found zero s vb c hb lt = absurd (omega arith)
    scan_loop-Found (suc fuel) s vb c hb lt = elim (head snaplen on_record s) [
      | torn t e ↦ Found-torn fuel vb c s t (e fuel vb c)
      | whole hdr body s2 split h16 hl le read step ↦
          let bytes : All IsByte ((hdr ++ body) ++ s2) = subst (All IsByte) split hb in
          let (front, back) = All-of_append IsByte (hdr ++ body) s2 bytes in
          let (hdr_bytes, body_bytes) = All-of_append IsByte hdr body front in
          let shorter : length s2 < fuel =
            omega
              (arith, ap length split, length-append (hdr ++ body) s2, length-append hdr body) in
          Found-whole fuel vb c s hdr body s2 split (append_record-parsed hdr body h16 hdr_bytes hl)
            h16 (parsed-IsRecord snaplen hdr body hdr_bytes body_bytes le)
            (step fuel vb c (accepts (parsed hdr body)))
            (scan_loop-Found fuel s2 (vb + (16 + length body)) (c + 1) back shorter)
    ]

    first_read :
        (r : Record) (rs : List Record) (tail : List ℕ)
        → IsRecord snaplen r
        → snaplen < 2 ^ 32
        → read_record ((append_record r [] ++ encode_records rs) ++ tail) snaplen
          ≡ ok (r, encode_records rs ++ tail)
    first_read r rs tail hr hs =
        ap (λ s. read_record s snaplen) (append_assoc (append_record r []) (encode_records rs) tail)
        ∙ read_record-append_record snaplen r (encode_records rs ++ tail) hr hs

    -- Records at the head of the stream are all found, also where a torn tail follows them.
    scan_loop-encode_records :
        (rs : List Record) (tail : List ℕ) (fuel vb c : ℕ)
        → All (IsRecord snaplen) rs
        → snaplen < 2 ^ 32
        → IsTorn snaplen tail
        → length (encode_records rs ++ tail) < fuel
        → scan_loop snaplen on_record fuel (encode_records rs ++ tail) vb c
          ≡ stop (vb + length (encode_records rs)) (c + length rs) none
    scan_loop-encode_records rs tail zero vb c hr hs t lt = absurd (omega arith)
    scan_loop-encode_records [] tail (suc fuel) vb c hr hs (e, t) lt =
        elim (head snaplen on_record tail) [
          | torn t' step ↦ step fuel vb c ∙ (λ i. stop (plus_zero vb i) (plus_zero c i) none)
          | whole hdr body s2 split h16 hl le read step ↦ cc
        ]
    scan_loop-encode_records (r ∷ rs) tail (suc fuel) vb c hr hs t lt =
        elim (head snaplen on_record ((append_record r [] ++ encode_records rs) ++ tail)) [
          | torn (e, t') step ↦ cc (first_read r rs tail hr.0 hs)
          | whole hdr body s2 split h16 hl le read step ↦
              let same : ◌≡◌ {A = Result PcapError (Record × List ℕ)} (ok (parsed hdr body, s2))
                  (ok (r, encode_records rs ++ tail)) =
                sym read ∙ first_read r rs tail hr.0 hs in
              let rest : s2 ≡ encode_records rs ++ tail = cc same in
              let rec_same : parsed hdr body ≡ r = cc same in
              let body_same : body ≡ r.body = ap (λ (q : Record). q.body) rec_same in
              let sizes = length-append (append_record r []) (encode_records rs) in
              let bytes : vb + (16 + length body) + length (encode_records rs)
                  ≡ vb + length (encode_records (r ∷ rs)) =
                omega (arith, sizes, length-append_record r, ap length body_same) in
              let more : c + 1 + length rs ≡ c + length (r ∷ rs) = omega arith in
              step fuel vb c (accepts (parsed hdr body))
              ∙ rw rest (
                  scan_loop-encode_records rs tail fuel (vb + (16 + length body)) (c + 1) hr.1 hs t
                    (omega (
                      arith,
                      sizes,
                      length-append_record r,
                      length-append (encode_records (r ∷ rs)) tail,
                      length-append (encode_records rs) tail,
                    )))
              ∙ (λ i. stop (bytes i) (more i) none)
        ]

-- `ScanRecords` ends on every stream. The stream is the records that it counted, each of them
-- plausible, followed by bytes at whose head no whole plausible record stands; `validBytes` is
-- the exact length of those records, and there is no error when the callback makes none.
pub scan_records_complete :
    {E : Type 0} (snaplen : ℕ) (on_record : Record → Option E) (s : List ℕ)
    → ((r : Record) → on_record r ≡ none)
    → All IsByte s
    → (rs : List Record) × (tail : List ℕ) × (s ≡ encode_records rs ++ tail)
      × All (IsRecord snaplen) rs
      × IsTorn snaplen tail
      × (scan_records s snaplen on_record ≡ stop (length (encode_records rs)) (length rs) none)
unfolding scan_records
scan_records_complete snaplen on_record s accepts hb =
    let found = scan_loop-Found snaplen on_record accepts (suc (length s)) s 0 0 hb (omega arith) in
    (
      found.records,
      found.tail,
      found.split,
      found.valid,
      found.torn_tail,
      found.result ∙ (λ i.
          stop (zero_plus (length (encode_records found.records)) i)
            (zero_plus (length found.records) i) none),
    )

-- A segment that holds the records `rs` and then a torn tail scans to exactly those records.
pub scan_records-encode_records :
    {E : Type 0} (snaplen : ℕ) (on_record : Record → Option E) (rs : List Record) (tail : List ℕ)
    → ((r : Record) → on_record r ≡ none)
    → All (IsRecord snaplen) rs
    → snaplen < 2 ^ 32
    → IsTorn snaplen tail
    → scan_records (encode_records rs ++ tail) snaplen on_record
      ≡ stop (length (encode_records rs)) (length rs) none
unfolding scan_records
scan_records-encode_records snaplen on_record rs tail accepts hr hs t =
    scan_loop-encode_records snaplen on_record accepts rs tail _ 0 0 hr hs t (omega arith)
    ∙ (λ i. stop (zero_plus (length (encode_records rs)) i) (zero_plus (length rs) i) none)

-- Nothing is torn about the end of a file.
pub IsTorn-nil : (snaplen : ℕ) → IsTorn snaplen []
unfolding read_record read_full
IsTorn-nil snaplen = (short eof, refl)

pub encode_records-append :
    (xs ys : List Record) → encode_records (xs ++ ys) ≡ encode_records xs ++ encode_records ys
encode_records-append [] ys = refl
encode_records-append (x ∷ xs) ys =
    ap (λ t. append_record x [] ++ t) (encode_records-append xs ys)
    ∙ sym (append_assoc (append_record x []) (encode_records xs) (encode_records ys))
