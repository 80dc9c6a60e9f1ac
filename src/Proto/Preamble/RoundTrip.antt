-- ===== src/Proto/Preamble/RoundTrip.antt =====
-- The preamble is read back when its body is below 65536 bytes; the writer also accepts a body of
-- exactly 65536 bytes, whose length field wraps to 0.
use ipcap.Base.{
  Bool-cases, inl, inr, ◌⊎◌, ℕ, ◌%◌, ◌^◌, ◌<◌, ◌≡◌, ◌≢◌, refl, sym, ap, ◌∙◌, arith, List, [], ◌++◌,
  length, false, ltb, ◌==◌, le→ltb, ok, err, ok-injective, ==_iff,
}
use ipcap.Bytes.{put_be, uint_be_at}
use ipcap.Bytes.RoundTrip.{get_be-put_be, read_full-append}
use ipcap.Proto.Crc.{crc32c, crc32c-lt, crc32c-nil}
use ipcap.Proto.Preamble.{
  PreambleHeader, bad_header_crc, Cbor, preamble_bytes, write_preamble, read_body, check_fixed,
  read_preamble, preamble_magic, max_preamble_header, bytes_eq,
}
use ipcap.Proto.Types.{protocol_version}

-- The twelve bytes in front of the body.
abbrev fixed_part : List ℕ → List ℕ
fixed_part body =
    preamble_magic
    ++ (put_be 2 protocol_version ++ (put_be 4 (crc32c body) ++ put_be 2 (length body % 2 ^ 16)))

length_field : (body : List ℕ) → uint_be_at 2 10 (fixed_part body) ≡ length body % 2 ^ 16
length_field body = get_be-put_be 2 (length body % 2 ^ 16) (omega arith)

crc_field : (body : List ℕ) → uint_be_at 4 6 (fixed_part body) ≡ crc32c body
crc_field body = get_be-put_be 4 (crc32c body) (crc32c-lt body)

check_fixed-fixed_part :
    (c : Cbor) (body s : List ℕ)
    → check_fixed c (fixed_part body) s ≡ read_body c (fixed_part body) s
unfolding check_fixed bytes_eq
check_fixed-fixed_part c body s =
    rw
      (le→ltb max_preamble_header (uint_be_at 2 10 (fixed_part body))
        (omega (arith, length_field body)))
      refl

read_preamble-preamble_bytes :
    (c : Cbor) (body rest : List ℕ)
    → read_preamble c (preamble_bytes body ++ rest) ≡ read_body c (fixed_part body) (body ++ rest)
unfolding preamble_bytes read_preamble
read_preamble-preamble_bytes c body rest =
    rw (read_full-append 12 (fixed_part body) (body ++ rest) refl, read_preamble)
      (check_fixed-fixed_part c body (body ++ rest))

read_body_whole :
    (c : Cbor) (h : PreambleHeader) (body rest : List ℕ)
    → length body < 2 ^ 16
    → c.unmarshal body ≡ ok h
    → read_body c (fixed_part body) (body ++ rest) ≡ ok (h, rest)
unfolding read_body
read_body_whole c h body rest small back =
    let size : uint_be_at 2 10 (fixed_part body) ≡ length body = omega (arith, length_field body) in
    rw
      (
        size,
        read_full-append (length body) body rest refl,
        (==_iff (crc32c body) (uint_be_at 4 6 (fixed_part body))).1 (sym (crc_field body)),
        back,
        read_body,
      )
      refl

-- With a CBOR package that reads back what it wrote, `ReadPreamble` returns the header that
-- `WritePreamble` wrote and leaves what follows it, for every body below 65536 bytes.
pub read_preamble-write_preamble :
    (c : Cbor) (h : PreambleHeader) (body bytes rest : List ℕ)
    → c.marshal h ≡ ok body
    → c.unmarshal body ≡ ok h
    → length body < 2 ^ 16
    → write_preamble c h ≡ ok bytes
    → read_preamble c (bytes ++ rest) ≡ ok (h, rest)
unfolding write_preamble
read_preamble-write_preamble c h body bytes rest there back small written =
    let fits : ltb max_preamble_header (length body) ≡ false = le→ltb _ _ (omega arith) in
    let same : preamble_bytes body ≡ bytes =
      ok-injective (rw (there, fits, write_preamble) at written) in
    ap (λ t. read_preamble c (t ++ rest)) (sym same)
    ∙ read_preamble-preamble_bytes c body rest
    ∙ read_body_whole c h body rest small back

read_body_wrapped :
    (c : Cbor) (body rest : List ℕ)
    → length body ≡ 2 ^ 16
    → crc32c body ≢ 0
    → read_body c (fixed_part body) (body ++ rest) ≡ err bad_header_crc
unfolding read_body
read_body_wrapped c body rest size sum =
    let none_left : uint_be_at 2 10 (fixed_part body) ≡ 0 = omega (arith, length_field body) in
    let differs : (crc32c [] == uint_be_at 4 6 (fixed_part body)) ≡ false =
      ground (arith, crc32c-nil, crc_field body, sum) in
    rw (none_left, read_full-append 0 [] (body ++ rest) refl, differs, read_body) refl

-- At exactly 65536 bytes `WritePreamble` succeeds all the same, and `ReadPreamble` rejects what it
-- wrote, unless the checksum of the body is 0: the length field has wrapped to 0.
pub read_preamble_wrapped :
    (c : Cbor) (h : PreambleHeader) (body rest : List ℕ)
    → c.marshal h ≡ ok body
    → length body ≡ 2 ^ 16
    → (bytes : List ℕ) × (write_preamble c h ≡ ok bytes)
      × ((read_preamble c (bytes ++ rest) ≡ err bad_header_crc) ⊎ (crc32c body ≡ 0))
unfolding write_preamble
read_preamble_wrapped c h body rest there size =
    let fits : ltb max_preamble_header (length body) ≡ false = le→ltb _ _ (omega arith) in
    let rejected : (read_preamble c (preamble_bytes body ++ rest) ≡ err bad_header_crc)
        ⊎ (crc32c body ≡ 0) =
      elim (Bool-cases (crc32c body == 0)) [
        | inl zero_sum ↦ inr ((==_iff (crc32c body) 0).0 zero_sum)
        | inr sum ↦ inl (
            read_preamble-preamble_bytes c body rest
            ∙ read_body_wrapped c body rest size (λ e. ground (arith, e)))
      ] in
    (preamble_bytes body, rw (there, fits, write_preamble) refl, rejected)
