-- ===== src/Pcap/Head.antt =====
-- What stands at the head of a stream: a whole record, or nothing that is one.
use ipcap.Base.{
  ℕ, suc, ◌+◌, ◌≤◌, ◌≡◌, refl, sym, ap, ◌∙◌, arith, Option, none, List, ◌++◌, length, false, ltb,
  ltb→le, ok, err, Result-cases, Bool-cases, append_assoc, inl, inr,
}
use ipcap.Bytes.{read_full}
use ipcap.Bytes.RoundTrip.{read_full-eq_ok}
use ipcap.Pcap.{
  Record, PcapError, short, bad_record, body_error, parse_record_header, read_record, uint32_at,
  stop, scan_loop,
}
use ipcap.Pcap.Encoding.{parsed}

-- No whole record stands at the head of these bytes.
abbrev pub IsTorn : ℕ → List ℕ → Type 0
IsTorn snaplen s = (e : PcapError) × (read_record s snaplen ≡ err e)

module _ {E : Type 0} (snaplen : ℕ) (on_record : Record → Option E) where
  scan_loop_whole :
      (fuel vb c : ℕ) (s hdr s1 body s2 : List ℕ)
      → read_full 16 s ≡ ok (hdr, s1)
      → ltb snaplen (uint32_at 8 hdr) ≡ false
      → read_full (uint32_at 8 hdr) s1 ≡ ok (body, s2)
      → on_record (parsed hdr body) ≡ none
      → scan_loop snaplen on_record (suc fuel) s vb c
        ≡ scan_loop snaplen on_record fuel s2 (vb + (16 + uint32_at 8 hdr)) (c + 1)
  unfolding scan_loop parse_record_header
  scan_loop_whole fuel vb c s hdr s1 body s2 e1 e2 e3 e4 = rw (e1, e2, e3, e4, scan_loop) refl

  -- What `ReadRecord` and one round of `ScanRecords` find at the head of a stream.
  pub data Head (s : List ℕ) : Type 0 where
    whole :
        (hdr body s2 : List ℕ)
        → s ≡ (hdr ++ body) ++ s2
        → length hdr ≡ 16
        → length body ≡ uint32_at 8 hdr
        → length body ≤ snaplen
        → read_record s snaplen ≡ ok (parsed hdr body, s2)
        → ((fuel vb c : ℕ)
            → on_record (parsed hdr body) ≡ none
            → scan_loop snaplen on_record (suc fuel) s vb c
              ≡ scan_loop snaplen on_record fuel s2 (vb + (16 + length body)) (c + 1))
        → Head s
    torn :
        IsTorn snaplen s
        → ((fuel vb c : ℕ) → scan_loop snaplen on_record (suc fuel) s vb c ≡ stop vb c none)
        → Head s

  whole_parts :
      (s hdr s1 body s2 : List ℕ)
      → read_full 16 s ≡ ok (hdr, s1)
      → ltb snaplen (uint32_at 8 hdr) ≡ false
      → read_full (uint32_at 8 hdr) s1 ≡ ok (body, s2)
      → Head s
  unfolding read_record parse_record_header
  whole_parts s hdr s1 body s2 e1 e2 e3 =
      let (split1, len1) = read_full-eq_ok _ s hdr s1 e1 in
      let (split2, len2) = read_full-eq_ok _ s1 body s2 e3 in
      let le : uint32_at 8 hdr ≤ snaplen = ltb→le _ _ e2 in
      whole hdr body s2 (split1 ∙ ap (λ t. hdr ++ t) split2 ∙ sym (append_assoc hdr body s2)) len1
        len2 (omega arith) (rw (e1, e2, e3, read_record) refl)
        (λ fuel vb c e4. rw len2 (scan_loop_whole fuel vb c s hdr s1 body s2 e1 e2 e3 e4))

  pub head : (s : List ℕ) → Head s
  unfolding read_record scan_loop parse_record_header
  head s = elim (Result-cases (read_full 16 s)) [
    | inr (e, e1) ↦ torn (short e, rw (e1, read_record) refl) (λ fuel vb c. rw (e1, scan_loop) refl)
    | inl ((hdr, s1), e1) ↦ elim (Bool-cases (ltb snaplen (uint32_at 8 hdr))) [
      | inl e2 ↦
          torn (bad_record, rw (e1, e2, read_record) refl)
            (λ fuel vb c. rw (e1, e2, scan_loop) refl)
      | inr e2 ↦ elim (Result-cases (read_full (uint32_at 8 hdr) s1)) [
        | inr (e, e3) ↦
            torn (short (body_error e), rw (e1, e2, e3, read_record) refl)
              (λ fuel vb c. rw (e1, e2, e3, scan_loop) refl)
        | inl ((body, s2), e3) ↦ whole_parts s hdr s1 body s2 e1 e2 e3
      ]
    ]
  ]
