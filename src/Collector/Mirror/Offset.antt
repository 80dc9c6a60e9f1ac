-- ===== src/Collector/Mirror/Offset.antt =====
-- `recordOffsetForCount` on a session's file.
use ipcap.Base.{
  ℕ, suc, ◌+◌, ◌<◌, ◌^◌, ◌≡◌, sym, ap, ◌∙◌, arith, List, [], ◌∷◌, ◌++◌, length, All, false, ltb,
  le→ltb, append_assoc, length-append,
}
use ipcap.Pcap.{Record, append_record, record_header, parse_record_header}
use ipcap.Pcap.Encoding.{
  IsRecord, parse_record_header-record_header, length-record_header, length-append_record,
}
use ipcap.Pcap.ReadAt.{read_at-append}
use ipcap.Pcap.Scan.{encode_records}
use ipcap.Collector.Mirror.{record_offset_for_count}

offset_step :
    (snaplen want have : ℕ) (front : List ℕ) (r : Record) (back : List ℕ)
    → IsRecord snaplen r
    → snaplen < 2 ^ 32
    → record_offset_for_count
        (front ++ (append_record r [] ++ back))
        snaplen
        (suc want)
        (length front)
        have
      ≡ record_offset_for_count
          (front ++ (append_record r [] ++ back))
          snaplen
          want
          (length front + 16 + length r.body)
          (have + 1)
unfolding record_offset_for_count append_record
offset_step snaplen want have front r back h hs =
    let p = parse_record_header-record_header snaplen r h hs in
    let hdr_read =
      read_at-append 16 front (record_header r) (r.body ++ back) (length-record_header r) in
    let e : (record_header r ++ r.body) ++ back ≡ record_header r ++ (r.body ++ back) =
      append_assoc (record_header r) r.body back in
    let cap : (parse_record_header (record_header r)).0 ≡ length r.body = ap (λ x. x.0) p in
    let small : ltb snaplen (parse_record_header (record_header r)).0 ≡ false =
      ap (ltb snaplen) cap ∙ le→ltb _ _ h.body_bound in
    rw (e, hdr_read, small, record_offset_for_count)
      (ap
        (λ c.
          record_offset_for_count (front ++ (append_record r [] ++ back)) snaplen want
            (length front + 16 + c) (have + 1))
        cap)

pub record_offset-encode_records :
    (snaplen have : ℕ) (front : List ℕ) (rs : List Record) (rest : List ℕ)
    → All (IsRecord snaplen) rs
    → snaplen < 2 ^ 32
    → record_offset_for_count
        (front ++ (encode_records rs ++ rest))
        snaplen
        (length rs)
        (length front)
        have
      ≡ (length front + length (encode_records rs), have + length rs)
unfolding record_offset_for_count
record_offset-encode_records snaplen have front [] rest h hs =
    let a : length front ≡ length front + 0 = omega arith in
    let b : have ≡ have + 0 = omega arith in λ i. (a i, b i)
record_offset-encode_records snaplen have front (r ∷ rs) rest h hs =
    let one = append_record r [] in
    let file = front ++ (one ++ (encode_records rs ++ rest)) in
    let regroup : (front ++ one) ++ (encode_records rs ++ rest) ≡ file =
      append_assoc front one (encode_records rs ++ rest) in
    let len : length front + 16 + length r.body ≡ length (front ++ one) =
      omega (arith, length-append front one, length-append_record r) in
    let bytes : length (front ++ one) + length (encode_records rs)
        ≡ length front + length (encode_records (r ∷ rs)) =
      omega (arith, length-append front one, length-append one (encode_records rs)) in
    let count : have + 1 + length rs ≡ have + length (r ∷ rs) = omega arith in
    ap (λ t. record_offset_for_count (front ++ t) snaplen (suc (length rs)) (length front) have)
      (append_assoc one (encode_records rs) rest)
    ∙ offset_step snaplen (length rs) have front r (encode_records rs ++ rest) h.0 hs
    ∙ (λ i. record_offset_for_count (sym regroup i) snaplen (length rs) (len i) (have + 1))
    ∙ record_offset-encode_records snaplen (have + 1) (front ++ one) rs rest h.1 hs
    ∙ (λ i. (bytes i, count i))
