-- ===== src/Spool/Next.antt =====
-- `Next` on a segment whose durable part holds the packet that is wanted.
use ipcap.Base.{
  ℕ, suc, ◌+◌, ◌-◌, ◌≤◌, ◌<◌, ◌^◌, ◌≡◌, refl, sym, ap, ◌∙◌, arith, none, some, List, [], ◌∷◌, ◌++◌,
  length, All, true, false, ltb, leb, ==_refl, le→ltb, lt→leb, add64, ok, inl, inr, ◌⊎◌, append-nil,
  append_assoc, length-append, if◌then◌else◌, All-of_append,
}
use ipcap.Pcap.{
  GlobalHeader, Record, append_global_header, append_record, record_header, read_record_at, size,
}
use ipcap.Pcap.Encoding.{
  IsRecord, length-append_global_header, length-append_record, length-record_header,
  parse_record_header-record_header,
}
use ipcap.Pcap.ReadAt.{read_at-append, read_record_at-append_record}
use ipcap.Pcap.Scan.{encode_records, encode_records-append}
use ipcap.Spool.{Segment, Dir}
use ipcap.Spool.Reader.{
  Reader, Outcome, exists, owning, skip_records, position, positioned, is_open, delivered,
  read_segment, next,
}

skip_one :
    (snaplen n : ℕ) (front : List ℕ) (r : Record) (back : List ℕ)
    → IsRecord snaplen r
    → snaplen < 2 ^ 32
    → skip_records (front ++ (append_record r [] ++ back)) (suc n) (length front)
      ≡ skip_records (front ++ (append_record r [] ++ back)) n (length front + 16 + length r.body)
unfolding skip_records append_record
skip_one snaplen n front r back h hs =
    let p = parse_record_header-record_header snaplen r h hs in
    let hdr_read =
      read_at-append 16 front (record_header r) (r.body ++ back) (length-record_header r) in
    let e : (record_header r ++ r.body) ++ back ≡ record_header r ++ (r.body ++ back) =
      append_assoc (record_header r) r.body back in
    rw (e, hdr_read, skip_records)
      (ap
        (λ (x : ℕ × Record).
          skip_records (front ++ (append_record r [] ++ back)) n (length front + 16 + x.0))
        p)

skip_records-whole :
    (snaplen : ℕ) (front : List ℕ) (rs : List Record) (rest : List ℕ)
    → All (IsRecord snaplen) rs
    → snaplen < 2 ^ 32
    → skip_records (front ++ (encode_records rs ++ rest)) (length rs) (length front)
      ≡ (length front + length (encode_records rs), none)
unfolding skip_records
skip_records-whole snaplen front [] rest h hs =
    let a : length front ≡ length front + 0 = omega arith in λ i. (a i, none)
skip_records-whole snaplen front (r ∷ rs) rest h hs =
    let one = append_record r [] in
    let regroup : (front ++ one) ++ (encode_records rs ++ rest)
        ≡ front ++ (one ++ (encode_records rs ++ rest)) =
      append_assoc front one (encode_records rs ++ rest) in
    let len : length front + 16 + length r.body ≡ length (front ++ one) =
      omega (arith, length-append front one, length-append_record r) in
    let bytes : length (front ++ one) + length (encode_records rs)
        ≡ length front + length (encode_records (r ∷ rs)) =
      omega (arith, length-append front one, length-append one (encode_records rs)) in
    ap (λ t. skip_records (front ++ t) (suc (length rs)) (length front))
      (append_assoc one (encode_records rs) rest)
    ∙ skip_one snaplen (length rs) front r (encode_records rs ++ rest) h.0 hs
    ∙ (λ i. skip_records (sym regroup i) (length rs) (len i))
    ∙ skip_records-whole snaplen (front ++ one) rs rest h.1 hs
    ∙ (λ i. (bytes i, none))

module _ (d : Dir) (r : Reader) (seg : Segment) (gh : GlobalHeader) (before after : List Record)
    (rec : Record) (rest : List ℕ) where
  abbrev pub image : List Record → List ℕ
  image rs = append_global_header gh [] ++ encode_records rs

  -- The reader stands at the packet, which lies in the durable part of the segment's file.
  pub record Holds : Type 0 where
    pub found : owning r.gpidx r.view ≡ some seg
    pub there : exists seg.seq d.seqs ≡ true
    pub content : (d.files seg.seq).bytes ≡ image (before ++ (rec ∷ after)) ++ rest
    pub durable : length (image (before ++ (rec ∷ []))) ≤ seg.valid_len
    pub number : r.gpidx ≡ seg.start_gpidx + length before
    pub retained : r.oldest ≤ r.gpidx
    pub available : r.gpidx < r.head
    pub valid : All (IsRecord r.snaplen) (before ++ (rec ∷ []))
    pub snaplen_bound : r.snaplen < 2 ^ 32
    pub handle :
        (is_open r.file seg.seq ≡ false)
        ⊎ ((r.file ≡ some seg.seq) × (r.offset ≡ length (image before)))

  module _ (h : Holds) where
    abbrev file : List ℕ
    file = image before ++ (append_record rec [] ++ (encode_records after ++ rest))

    split : (d.files seg.seq).bytes ≡ file
    split = h.content ∙ simp (encode_records-append, append_assoc)

    image_end :
        length (image (before ++ (rec ∷ []))) ≡ length (image before ++ append_record rec [])
    image_end = ap length (simp (encode_records-append, append_assoc, append-nil))

    size_lem : size rec ≡ 16 + length rec.body
    unfolding size
    size_lem = refl

    abbrev at_packet : Reader
    at_packet = record r { file = some seg.seq; offset = length (image before) }

    skipped :
        skip_records (d.files seg.seq).bytes (r.gpidx - seg.start_gpidx) 24
        ≡ (length (image before), none)
    skipped =
        let header = append_global_header gh [] in
        let back = append_record rec [] ++ (encode_records after ++ rest) in
        let count : r.gpidx - seg.start_gpidx ≡ length before = omega (arith, h.number) in
        let total : length header + length (encode_records before) ≡ length (image before) =
          sym (length-append header (encode_records before)) in
        (λ i.
          skip_records ((split ∙ append_assoc header (encode_records before) back) i) (count i)
            (sym (length-append_global_header gh) i))
        ∙ skip_records-whole r.snaplen header before back
            (All-of_append (IsRecord r.snaplen) before (rec ∷ []) h.valid).0 h.snaplen_bound
        ∙ (λ i. (total i, none))

    opened :
        (if is_open r.file seg.seq then (ok tt, r) else position d seg r.gpidx r)
        ≡ (ok tt, at_packet)
    unfolding position
    opened = elim h.handle [
      | inl closed ↦
          rw (closed, h.there) (ap (positioned (record r { file = some seg.seq })) skipped)
      | inr (f, o) ↦
          let held : is_open r.file seg.seq ≡ true =
            ap (λ x. is_open x seg.seq) f ∙ ==_refl seg.seq in
          rw held (λ i. (ok tt, record r { file = f i; offset = o i }))
    ]

    abbrev pub behind_packet : Reader
    behind_packet = record at_packet {
      offset = length (image (before ++ (rec ∷ [])));
      gpidx = add64 r.gpidx 1;
    }

    read :
        (again : Reader → Outcome)
        → read_segment again d seg (ok tt, at_packet) ≡ some (ok (rec, r.gpidx), behind_packet)
    read again =
        let own : IsRecord r.snaplen rec =
          (All-of_append (IsRecord r.snaplen) before (rec ∷ []) h.valid).1.0 in
        let end : length (image before) + size rec ≡ length (image (before ++ (rec ∷ []))) = omega (
          arith,
          image_end,
          length-append (image before) (append_record rec []),
          length-append_record rec,
          size_lem,
        ) in
        let got : read_record_at (d.files seg.seq).bytes (length (image before)) seg.valid_len
              r.snaplen
            ≡ ok (some (rec, length (image (before ++ (rec ∷ []))))) =
          ap (λ b. read_record_at b (length (image before)) seg.valid_len r.snaplen) split
          ∙ read_record_at-append_record r.snaplen seg.valid_len (image before) rec
              (encode_records after ++ rest) own h.snaplen_bound (omega (arith, end, h.durable))
          ∙ ap (λ e. ok (some (rec, e))) end in
        ap (delivered again d at_packet) got

    -- Next returns the packet with its number, and the reader stands at the one behind it.
    pub next-Holds : (fuel : ℕ) → next (suc fuel) d r ≡ some (ok (rec, r.gpidx), behind_packet)
    unfolding next
    next-Holds fuel =
        let kept : ltb r.gpidx r.oldest ≡ false = le→ltb _ _ h.retained in
        let ahead : leb r.head r.gpidx ≡ false = lt→leb _ _ h.available in
        rw (kept, ahead, h.found)
          (ap (read_segment (next fuel d) d seg) opened ∙ read (next fuel d))
