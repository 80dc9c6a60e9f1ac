-- ===== src/Pcap/ReadAt.antt =====
-- `ReadRecordAt`: one record at an offset, within the durable extent.
use ipcap.Base.{
  ℕ, ◌+◌, ◌^◌, ◌≤◌, ◌<◌, ◌≡◌, refl, sym, ap, ◌∙◌, arith, some, List, [], ◌++◌, length, take, true,
  false, ltb, leb, ok, Result-cases, Bool-cases, length-append, inl, inr, ltb→le, le→leb, le→ltb,
  append_assoc, take-append_length, drop-append_length, length-take, take-drop-take,
}
use ipcap.Pcap.{
  Record, append_record, record_header, parse_record_header, uint32_at, read_at, read_body_at,
  read_record_at, size,
}
use ipcap.Pcap.Encoding.{IsRecord, parse_record_header-record_header, length-record_header}

-- Within the first `limit` bytes of a file that has them, `ReadAt` does not see the others.
read_at-take :
    (n off limit : ℕ) (file : List ℕ)
    → off + n ≤ limit
    → limit ≤ length file
    → read_at n off (take limit file) ≡ read_at n off file
unfolding read_at
read_at-take n off limit file fits have =
    let l : leb (off + n) (length (take limit file)) ≡ true =
      le→leb _ _ (omega (arith, length-take limit file)) in
    let r : leb (off + n) (length file) ≡ true = le→leb _ _ (omega arith) in
    rw (l, r, take-drop-take n off limit file fits) refl

pub read_at-append :
    (n : ℕ) (front xs back : List ℕ)
    → length xs ≡ n
    → read_at n (length front) (front ++ (xs ++ back)) ≡ ok xs
unfolding read_at
read_at-append n front xs back h =
    let fits : leb (length front + n) (length (front ++ (xs ++ back))) ≡ true =
      le→leb _ _ (omega (arith, length-append front (xs ++ back), length-append xs back)) in
    rw (fits, drop-append_length front (xs ++ back), ← h, take-append_length xs back) refl

read_body_at-take :
    (file : List ℕ) (off limit snaplen : ℕ) (hdr : List ℕ)
    → limit ≤ length file
    → read_body_at (take limit file) off limit snaplen hdr ≡ read_body_at file off limit snaplen hdr
unfolding read_body_at parse_record_header
read_body_at-take file off limit snaplen hdr have =
    elim (Bool-cases (ltb snaplen (uint32_at 8 hdr))) [
      | inl big ↦ rw big refl
      | inr small ↦ elim (Bool-cases (ltb limit (off + 16 + uint32_at 8 hdr))) [
        | inl out ↦ rw (small, out) refl
        | inr inside ↦
            let h = read_at-take (uint32_at 8 hdr) (off + 16) limit file (ltb→le _ _ inside) have in
            rw (small, inside, h, read_body_at) refl
      ]
    ]

-- `ReadRecordAt` never looks past `limit`: on a file that has so many bytes, it returns the same
-- as on the file cut there.
pub read_record_at-take :
    (file : List ℕ) (off limit snaplen : ℕ)
    → limit ≤ length file
    → read_record_at (take limit file) off limit snaplen ≡ read_record_at file off limit snaplen
unfolding read_record_at
read_record_at-take file off limit snaplen have = elim (Bool-cases (ltb limit (off + 16))) [
  | inl out ↦ rw out refl
  | inr inside ↦
      let h = read_at-take 16 off limit file (ltb→le _ _ inside) have in
      elim (Result-cases (read_at 16 off file)) [
        | inl (hdr, e) ↦
            rw (inside, h, e, read_record_at) (read_body_at-take file off limit snaplen hdr have)
        | inr (x, e) ↦ rw (inside, h, e, read_record_at) refl
      ]
]

read_body_at_whole :
    (file : List ℕ) (off limit snaplen : ℕ) (hdr body : List ℕ) (cap_len : ℕ) (rec : Record)
    → parse_record_header hdr ≡ (cap_len, rec)
    → cap_len ≤ snaplen
    → off + 16 + cap_len ≤ limit
    → read_at cap_len (off + 16) file ≡ ok body
    → read_body_at file off limit snaplen hdr
      ≡ ok (some (record rec { body = body }, off + 16 + cap_len))
unfolding read_body_at
read_body_at_whole file off limit snaplen hdr body cap_len rec p small inside e =
    rw (p, le→ltb _ _ small, le→ltb _ _ inside, e, read_body_at)
      (λ i. ok (
        some (
          record {
            ts_sec = (p i).1.ts_sec;
            ts_usec = (p i).1.ts_usec;
            orig_len = (p i).1.orig_len;
            body = body;
          },
          off + 16 + (p i).0,
        )))

body_at :
    (front : List ℕ) (r : Record) (back : List ℕ)
    → read_at (length r.body) (length front + 16) (front ++ (record_header r ++ (r.body ++ back)))
      ≡ ok r.body
body_at front r back =
    let off : length (front ++ record_header r) ≡ length front + 16 =
      omega (arith, length-append front (record_header r), length-record_header r) in
    ap (read_at (length r.body) (length front + 16))
      (sym (append_assoc front (record_header r) (r.body ++ back)))
    ∙ rw (← off) (read_at-append _ (front ++ record_header r) r.body back refl)

-- A record that stands whole at the offset, inside the limit, is read, and `next` is its end.
pub read_record_at-append_record :
    (snaplen limit : ℕ) (front : List ℕ) (r : Record) (back : List ℕ)
    → IsRecord snaplen r
    → snaplen < 2 ^ 32
    → length front + size r ≤ limit
    → read_record_at (front ++ (append_record r [] ++ back)) (length front) limit snaplen
      ≡ ok (some (r, length front + size r))
unfolding read_record_at read_body_at append_record size
read_record_at-append_record snaplen limit front r back h hs fits =
    let p = parse_record_header-record_header snaplen r h hs in
    let file = front ++ (record_header r ++ (r.body ++ back)) in
    let body_read =
      read_body_at_whole file (length front) limit snaplen (record_header r) r.body (length r.body)
        (record r { body = [] }) p h.body_bound (omega arith) (body_at front r back) in
    let hdr_read =
      read_at-append 16 front (record_header r) (r.body ++ back) (length-record_header r) in
    let inside : ltb limit (length front + 16) ≡ false = le→ltb _ _ (omega arith) in
    let next : length front + 16 + length r.body ≡ length front + (16 + length r.body) =
      omega arith in
    ap (λ t. read_record_at (front ++ t) (length front) limit snaplen)
      (append_assoc (record_header r) r.body back)
    ∙ rw (inside, hdr_read, read_record_at) (body_read ∙ (λ i. ok (some (r, next i))))
