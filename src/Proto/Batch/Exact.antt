-- ===== src/Proto/Batch/Exact.antt =====
-- What `DecodePktBatch` accepts.
use ipcap.Base.{
  ℕ, zero, suc, ◌+◌, ◌%◌, ◌^◌, ◌≤◌, ◌<◌, ◌≡◌, refl, sym, ap, ◌∙◌, arith, some, List, [], ◌∷◌, ◌++◌,
  length, take, drop, All, ltb, ok, ltb→le, append_assoc, subst, take-append-drop, take-add_at,
  length-take, length-drop, All-take, All-drop, err-ne-ok, ok-injective, Option-cases, Result-cases,
  Bool-cases, inl, inr,
}
use ipcap.Bytes.{IsByte, put_be, uint_be_at}
use ipcap.Bytes.RoundTrip.{put_be-uint_be_at, uint_be_at-lt}
use ipcap.Proto.Types.{max_payload_len}
use ipcap.Proto.Batch.{
  PktRecord, append_pkt, parsed_pkt, parse_pkt_record, decode_records, decode_pkt_batch,
  encode_pkt_batch, IsPktRecord,
}
use ipcap.Proto.Batch.RoundTrip.{encode_pkts, append_pkts-encode_pkts}

record Parsed (b : List ℕ) (r : PktRecord) (n : ℕ) : Type 0 where
  long : 20 ≤ length b
  fits : uint_be_at 4 16 b ≤ max_payload_len
  whole : 20 + uint_be_at 4 16 b ≤ length b
  rec : r ≡ parsed_pkt b
  taken : n ≡ 20 + uint_be_at 4 16 b

parse_pkt_record-eq_some :
    (b : List ℕ) (r : PktRecord) (n : ℕ) → parse_pkt_record b ≡ some (r, n) → Parsed b r n
unfolding parse_pkt_record
parse_pkt_record-eq_some b r n h = ground arith

-- The parsed record is written again as the bytes that it was parsed from.
append_pkt-parsed_pkt :
    (b : List ℕ)
    → All IsByte b
    → 20 ≤ length b
    → append_pkt (parsed_pkt b) [] ≡ take (20 + uint_be_at 4 16 b) b
unfolding append_pkt parsed_pkt
append_pkt-parsed_pkt b hb long =
    let field = λ (k off : ℕ) (fits : off + k ≤ length b). put_be-uint_be_at k off b hb fits in
    let w0 = field 8 0 (omega arith) in
    let w8 = field 4 8 (omega arith) in
    let w12 = field 4 12 (omega arith) in
    let w16 = field 4 16 (omega arith) in
    let n = uint_be_at 4 16 b in
    (λ i. w0 i ++ (w8 i ++ (w12 i ++ (w16 i ++ take n (drop 20 b)))))
    ∙ rw
        (
          take-add_at 4 n 16 b,
          take-add_at 4 (4 + n) 12 b,
          take-add_at 4 (4 + (4 + n)) 8 b,
          take-add_at 8 (4 + (4 + (4 + n))) 0 b,
        )
        (ap (λ k. take k b) {x = 8 + (4 + (4 + (4 + n)))} {y = 20 + n} (omega arith))

parsed_pkt-IsPktRecord :
    (b : List ℕ)
    → All IsByte b
    → 20 + uint_be_at 4 16 b ≤ length b
    → uint_be_at 4 16 b ≤ max_payload_len
    → IsPktRecord (parsed_pkt b)
unfolding parsed_pkt
parsed_pkt-IsPktRecord b hb whole fits = record {
  ts_sec_bound = uint_be_at-lt 8 0 b hb (omega arith);
  ts_nsec_bound = uint_be_at-lt 4 8 b hb (omega arith);
  orig_len_bound = uint_be_at-lt 4 12 b hb (omega arith);
  cap_len_bound = fits;
  cap_len_exact = omega (arith, length-take (uint_be_at 4 16 b) (drop 20 b), length-drop 20 b);
  body_bytes = All-take IsByte _ _ (All-drop IsByte 20 _ hb);
}

-- What a decoded batch is: valid records, written one after the other at the front of the bytes.
record Decoded (count : ℕ) (b : List ℕ) (rs : List PktRecord) : Type 0 where
  valid : All IsPktRecord rs
  counted : length rs ≡ count
  rest : List ℕ
  split : b ≡ encode_pkts rs ++ rest

Decoded-cons :
    (count n : ℕ) (b : List ℕ) (r : PktRecord) (rs : List PktRecord)
    → All IsByte b
    → Parsed b r n
    → Decoded count (drop n b) rs
    → Decoded (suc count) b (r ∷ rs)
Decoded-cons count n b r rs hb p d =
    let front : append_pkt r [] ≡ take n b =
      ap (λ q. append_pkt q []) p.rec
      ∙ append_pkt-parsed_pkt b hb p.long
      ∙ ap (λ k. take k b) (sym p.taken) in
    record {
      valid = (subst IsPktRecord (sym p.rec) (parsed_pkt-IsPktRecord b hb p.whole p.fits), d.valid);
      counted = ap suc d.counted;
      rest = d.rest;
      split =
          sym (take-append-drop n b)
          ∙ ap (λ t. take n b ++ t) d.split
          ∙ sym (append_assoc (take n b) (encode_pkts rs) d.rest)
          ∙ ap (λ t. (t ++ encode_pkts rs) ++ d.rest) (sym front);
    }

decode_records-eq_ok :
    (count : ℕ) (b : List ℕ) (rs : List PktRecord)
    → All IsByte b
    → decode_records count b ≡ ok rs
    → Decoded count b rs
unfolding decode_records
decode_records-eq_ok zero b rs hb h =
    subst (Decoded 0 b) (ok-injective h)
      (record { valid = tt; counted = refl; rest = b; split = refl })
decode_records-eq_ok (suc count) b rs hb h = elim (Option-cases (parse_pkt_record b)) [
  | inl e ↦ err-ne-ok (rw (e, decode_records) at h)
  | inr ((r, n), e) ↦ elim (Result-cases (decode_records count (drop n b))) [
    | inr (x, e2) ↦ err-ne-ok (rw (e, e2, decode_records) at h)
    | inl (tail, e2) ↦
        let same : r ∷ tail ≡ rs = ok-injective (rw (e, e2, decode_records) at h) in
        subst (Decoded (suc count) b) same (
          Decoded-cons count n b r tail hb (parse_pkt_record-eq_some b r n e)
            (decode_records-eq_ok count (drop n b) tail (All-drop IsByte n b hb) e2))
  ]
]

count_field :
    (payload : List ℕ)
    → All IsByte payload
    → 2 ≤ length payload
    → put_be 2 (uint_be_at 2 0 payload) ++ drop 2 payload ≡ payload
count_field payload hb long =
    ap (λ t. t ++ drop 2 payload) (put_be-uint_be_at 2 0 payload hb (omega arith))
    ∙ take-append-drop 2 payload

-- A payload that decodes is an encoded batch, followed by bytes that the decoder ignores: its
-- records are valid, and there are fewer than 65536 of them.
pub decode_pkt_batch_exact :
    (payload : List ℕ) (rs : List PktRecord)
    → All IsByte payload
    → decode_pkt_batch payload ≡ ok rs
    → All IsPktRecord rs
      × (length rs < 2 ^ 16)
      × (rest : List ℕ) × (payload ≡ encode_pkt_batch rs ++ rest)
unfolding decode_pkt_batch encode_pkt_batch
decode_pkt_batch_exact payload rs hb h = elim (Bool-cases (ltb (length payload) 2)) [
  | inl short ↦ err-ne-ok (rw short at h)
  | inr long ↦
      let two = ltb→le (length payload) 2 long in
      let d = decode_records-eq_ok _ _ rs (All-drop IsByte 2 _ hb) (rw long at h) in
      let small = uint_be_at-lt 2 0 payload hb two in
      let count : uint_be_at 2 0 payload ≡ length rs % 2 ^ 16 = omega (arith, d.counted) in
      (
        d.valid,
        omega (arith, d.counted),
        d.rest,
        sym (count_field payload hb two)
            ∙ (λ i. put_be 2 (count i) ++ d.split i)
            ∙ sym (append_assoc (put_be 2 (length rs % 2 ^ 16)) (encode_pkts rs) d.rest)
            ∙ ap (λ t. t ++ d.rest)
                (sym (append_pkts-encode_pkts rs (put_be 2 (length rs % 2 ^ 16)))),
      )
]
