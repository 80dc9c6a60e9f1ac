-- ===== src/Proto/Batch/RoundTrip.antt =====
-- A batch is read back as the records that were put into it, and a decoded batch is one.
use ipcap.Base.{
  ℕ, zero, suc, ◌+◌, ◌%◌, ◌^◌, ◌≤◌, ◌≡◌, refl, sym, ap, ◌∙◌, arith, some, List, [], ◌∷◌, ◌++◌,
  length, take, All, ltb, ok, le→ltb, false, append_assoc, append-nil, length-append,
  take-append_length, drop-append_length,
}
use ipcap.Bytes.{put_be, get_be}
use ipcap.Bytes.RoundTrip.{get_be-put_be}
use ipcap.Proto.Types.{max_payload_len}
use ipcap.Proto.Batch.{
  PktRecord, pkt_header, append_pkt, append_pkts, parse_pkt_record, encode_pkt_batch,
  decode_records, decode_pkt_batch, IsPktRecord,
}

-- The bytes of consecutive packet records.
abbrev pub encode_pkts : List PktRecord → List ℕ
encode_pkts [] = []
encode_pkts (r ∷ rs) = append_pkt r [] ++ encode_pkts rs

pub append_pkts-encode_pkts :
    (rs : List PktRecord) (out : List ℕ) → append_pkts rs out ≡ out ++ encode_pkts rs
unfolding append_pkts append_pkt
append_pkts-encode_pkts [] out = sym (append-nil out)
append_pkts-encode_pkts (r ∷ rs) out =
    append_pkts-encode_pkts rs (append_pkt r out)
    ∙ append_assoc (out ++ pkt_header r) r.body (encode_pkts rs)
    ∙ append_assoc out (pkt_header r) (r.body ++ encode_pkts rs)

pub length-append_pkt : (r : PktRecord) → length (append_pkt r []) ≡ 20 + length r.body
unfolding append_pkt
length-append_pkt r = omega arith

parse_pkt_record-append :
    (r : PktRecord) (rest : List ℕ)
    → IsPktRecord r
    → parse_pkt_record (append_pkt r [] ++ rest) ≡ some (r, length (append_pkt r []))
unfolding parse_pkt_record append_pkt
parse_pkt_record-append r rest h =
    let t = get_be-put_be 8 r.ts_sec h.ts_sec_bound in
    let n = get_be-put_be 4 r.ts_nsec h.ts_nsec_bound in
    let o = get_be-put_be 4 r.orig_len h.orig_len_bound in
    let c : get_be (put_be 4 r.cap_len) ≡ r.cap_len =
      get_be-put_be 4 r.cap_len (omega (arith, h.cap_len_bound)) in
    let body : take (get_be (put_be 4 r.cap_len)) (r.body ++ rest) ≡ r.body =
      ap (λ k. take k (r.body ++ rest)) (c ∙ sym h.cap_len_exact)
      ∙ take-append_length r.body rest in
    let taken : 20 + get_be (put_be 4 r.cap_len) ≡ length (append_pkt r []) =
      omega (arith, c, h.cap_len_exact) in
    let sizes = length-append r.body rest in
    let long : ltb (length (append_pkt r [] ++ rest)) 20 ≡ false = le→ltb _ _ (omega arith) in
    let fits : ltb max_payload_len (get_be (put_be 4 r.cap_len)) ≡ false =
      le→ltb _ _ (omega (arith, c, h.cap_len_bound)) in
    let whole : ltb (length (append_pkt r [] ++ rest)) (20 + get_be (put_be 4 r.cap_len)) ≡ false =
      le→ltb _ _ (omega (arith, c, h.cap_len_exact, sizes)) in
    rw (long, fits, whole)
      (λ i. some (
        record { ts_sec = t i; ts_nsec = n i; orig_len = o i; cap_len = c i; body = body i },
        taken i,
      ))

decode_records-encode_pkts :
    (k : ℕ) (rs : List PktRecord) (rest : List ℕ)
    → All IsPktRecord rs
    → k ≤ length rs
    → decode_records k (encode_pkts rs ++ rest) ≡ ok (take k rs)
unfolding decode_records
decode_records-encode_pkts zero rs rest h le = refl
decode_records-encode_pkts (suc k) [] rest h le = absurd (omega arith)
decode_records-encode_pkts (suc k) (r ∷ rs) rest h le =
    let tail = encode_pkts rs ++ rest in
    ap (decode_records (suc k)) (append_assoc (append_pkt r []) (encode_pkts rs) rest)
    ∙ rw
        (
          parse_pkt_record-append r tail h.0,
          drop-append_length (append_pkt r []) tail,
          decode_records-encode_pkts k rs rest h.1 (omega arith),
          decode_records,
        )
        refl

-- Decoding an encoded batch gives its records back, in order: all of them below 65536 records,
-- and in general as many as the 16-bit count says.
pub decode_pkt_batch-encode_pkt_batch :
    (rs : List PktRecord)
    → All IsPktRecord rs
    → decode_pkt_batch (encode_pkt_batch rs) ≡ ok (take (length rs % 2 ^ 16) rs)
unfolding decode_pkt_batch encode_pkt_batch
decode_pkt_batch-encode_pkt_batch rs h =
    let count = put_be 2 (length rs % 2 ^ 16) in
    let n : get_be count ≡ length rs % 2 ^ 16 =
      get_be-put_be 2 (length rs % 2 ^ 16) (omega arith) in
    let long : ltb (length (count ++ encode_pkts rs)) 2 ≡ false = le→ltb _ _ (omega arith) in
    ap decode_pkt_batch (append_pkts-encode_pkts rs count)
    ∙ rw long (
        ap (λ k. decode_records k (encode_pkts rs)) n
        ∙ ap (decode_records (length rs % 2 ^ 16)) (sym (append-nil (encode_pkts rs)))
        ∙ decode_records-encode_pkts (length rs % 2 ^ 16) rs [] h (omega arith))
