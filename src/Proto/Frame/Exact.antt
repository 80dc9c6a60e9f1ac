-- ===== src/Proto/Frame/Exact.antt =====
-- `ReadFrame` accepts nothing but what `AppendTo` writes.
use ipcap.Base.{
  ℕ, ◌+◌, ◌%◌, ◌^◌, ◌≤◌, ◌≡◌, sym, ap, ◌∙◌, arith, List, [], ◌∷◌, ◌++◌, length, take, drop, All,
  true, ◌==◌, ok, err-ne-ok, ok-injective, append_assoc, take-append-drop, take-append-drop_at,
  take_all, length-drop, All-of_append, Result-cases, Bool-cases, inl, inr, ==_iff, subst,
}
use ipcap.Bytes.{IsByte, put_be, byte_at, uint_be_at, read_full}
use ipcap.Bytes.RoundTrip.{
  put_be-uint_be_at, uint_be_at-lt, byte_at-lt, byte_at-take, read_full-eq_ok,
}
use ipcap.Proto.Crc.{crc32c}
use ipcap.Proto.Types.{max_payload_len, frame_magic, protocol_version}
use ipcap.Proto.Frame.{
  Frame, header_front, marshal_header, append_frame, parsed_frame, read_payload, check_header,
  read_frame, IsFrame,
}

-- The 28 bytes in front of the header's checksum, from the fields read out of them.
front-parsed_frame :
    (hdr payload : List ℕ)
    → All IsByte hdr
    → length hdr ≡ 32
    → uint_be_at 2 0 hdr ≡ frame_magic
    → byte_at 2 hdr ≡ protocol_version
    → uint_be_at 4 24 hdr ≡ length payload
    → header_front (parsed_frame hdr payload) (length payload) ++ drop 28 hdr ≡ hdr
unfolding header_front parsed_frame
front-parsed_frame hdr payload hb h32 magic version size =
    let field = λ (k off : ℕ) (fits : off + k ≤ length hdr). put_be-uint_be_at k off hdr hb fits in
    let fits : length payload % 2 ^ 32 ≡ uint_be_at 4 24 hdr =
      omega (arith, uint_be_at-lt 4 24 hdr hb (omega arith)) in
    let byte : byte_at 3 hdr % 256 ≡ byte_at 3 hdr = omega (arith, byte_at-lt 3 hdr hb) in
    let w0 = ap (put_be 2) (sym magic) ∙ field 2 0 (omega arith) in
    let w2 = ap (λ b. b ∷ []) (sym version) ∙ byte_at-take 2 hdr (omega arith) in
    let w3 = ap (λ b. b ∷ []) byte ∙ byte_at-take 3 hdr (omega arith) in
    let w4 = field 2 4 (omega arith) in
    let w6 = field 2 6 (omega arith) in
    let w8 = field 8 8 (omega arith) in
    let w16 = field 8 16 (omega arith) in
    let w24 = ap (put_be 4) fits ∙ field 4 24 (omega arith) in
    (λ i.
      w0 i ++ (w2 i ++ (w3 i ++ (w4 i ++ (w6 i ++ (w8 i ++ (w16 i ++ (w24 i ++ drop 28 hdr))))))))
    ∙ rw
        (
          take-append-drop_at 4 24 hdr,
          take-append-drop_at 8 16 hdr,
          take-append-drop_at 8 8 hdr,
          take-append-drop_at 2 6 hdr,
          take-append-drop_at 2 4 hdr,
          take-append-drop_at 1 3 hdr,
          take-append-drop_at 1 2 hdr,
        )
        (take-append-drop 2 hdr)

-- A header that passed the tests is written again as the same 32 bytes.
marshal_header-parsed_frame :
    (hdr payload : List ℕ)
    → All IsByte hdr
    → length hdr ≡ 32
    → uint_be_at 2 0 hdr ≡ frame_magic
    → byte_at 2 hdr ≡ protocol_version
    → crc32c (take 28 hdr) ≡ uint_be_at 4 28 hdr
    → uint_be_at 4 24 hdr ≡ length payload
    → marshal_header (parsed_frame hdr payload) (length payload) ≡ hdr
unfolding marshal_header
marshal_header-parsed_frame hdr payload hb h32 magic version crc size =
    let whole = front-parsed_frame hdr payload hb h32 magic version size in
    let front : header_front (parsed_frame hdr payload) (length payload) ≡ take 28 hdr =
      ap (take 28) whole in
    let sum : put_be 4 (crc32c (take 28 hdr)) ≡ drop 28 hdr =
      ap (put_be 4) crc
      ∙ put_be-uint_be_at 4 28 hdr hb (omega arith)
      ∙ take_all 4 (drop 28 hdr) (omega (arith, length-drop 28 hdr)) in
    (λ i. header_front (parsed_frame hdr payload) (length payload) ++ put_be 4 (crc32c (front i)))
    ∙ ap (λ t. header_front (parsed_frame hdr payload) (length payload) ++ t) sum
    ∙ whole

-- What the four tests say when the header passes.
record Passes (hdr : List ℕ) : Type 0 where
  magic : uint_be_at 2 0 hdr ≡ frame_magic
  version : byte_at 2 hdr ≡ protocol_version
  checksum : crc32c (take 28 hdr) ≡ uint_be_at 4 28 hdr
  size : uint_be_at 4 24 hdr ≤ max_payload_len

check_header-eq_ok :
    (hdr s : List ℕ) (f : Frame) (rest : List ℕ)
    → check_header hdr s ≡ ok (f, rest)
    → Passes hdr × (read_payload hdr s ≡ ok (f, rest))
unfolding check_header
check_header-eq_ok hdr s f rest h =
    let magic = Bool-cases (uint_be_at 2 0 hdr == frame_magic) in
    let version = Bool-cases (byte_at 2 hdr == protocol_version) in ground arith

checksum_bytes :
    (payload s1 crc s2 : List ℕ)
    → All IsByte (payload ++ s1)
    → s1 ≡ crc ++ s2
    → length crc ≡ 4
    → (crc32c payload == uint_be_at 4 0 crc) ≡ true
    → put_be 4 (crc32c payload) ≡ crc
checksum_bytes payload s1 crc s2 hb split four e =
    let behind = (All-of_append IsByte payload s1 hb).1 in
    let bytes = (All-of_append IsByte crc s2 (subst (All IsByte) split behind)).0 in
    ap (put_be 4) ((==_iff (crc32c payload) (uint_be_at 4 0 crc)).0 e)
    ∙ put_be-uint_be_at 4 0 crc bytes (omega arith)
    ∙ take_all 4 crc (omega arith)

read_payload-eq_ok :
    (hdr s : List ℕ) (f : Frame) (rest : List ℕ)
    → All IsByte s
    → read_payload hdr s ≡ ok (f, rest)
    → (payload : List ℕ) × (s ≡ payload ++ (put_be 4 (crc32c payload) ++ rest))
      × (length payload ≡ uint_be_at 4 24 hdr)
      × (f ≡ parsed_frame hdr payload)
unfolding read_payload
read_payload-eq_ok hdr s f rest hb h = elim (Result-cases (read_full (uint_be_at 4 24 hdr) s)) [
  | inr (e, e1) ↦ err-ne-ok (rw (e1, read_payload) at h)
  | inl ((payload, s1), e1) ↦ elim (Result-cases (read_full 4 s1)) [
    | inr (e, e2) ↦ err-ne-ok (rw (e1, e2, read_payload) at h)
    | inl ((crc, s2), e2) ↦ elim (Bool-cases (crc32c payload == uint_be_at 4 0 crc)) [
      | inr e3 ↦ err-ne-ok (rw (e1, e2, e3, read_payload) at h)
      | inl e3 ↦
          let (split1, size) = read_full-eq_ok _ s payload s1 e1 in
          let (split2, four) = read_full-eq_ok 4 s1 crc s2 e2 in
          let result : (parsed_frame hdr payload, s2) ≡ (f, rest) =
            ok-injective (rw (e1, e2, e3, read_payload) at h) in
          (
            payload,
            split1
                ∙ ap (λ t. payload ++ t)
                    (split2
                      ∙ ap (λ t. t ++ s2)
                          (sym (
                            checksum_bytes payload s1 crc s2 (subst (All IsByte) split1 hb) split2
                              four e3))
                      ∙ ap (λ t. put_be 4 (crc32c payload) ++ t) (ap (λ q. q.1) result)),
            size,
            sym (ap (λ q. q.0) result),
          )
    ]
  ]
]

parsed_frame-IsFrame :
    (hdr payload : List ℕ)
    → All IsByte hdr
    → All IsByte payload
    → length hdr ≡ 32
    → length payload ≤ max_payload_len
    → IsFrame (parsed_frame hdr payload)
unfolding parsed_frame
parsed_frame-IsFrame hdr payload hb pb h32 size = record {
  type_bound = byte_at-lt 3 hdr hb;
  flags_bound = uint_be_at-lt 2 4 hdr hb (omega arith);
  source_bound = uint_be_at-lt 2 6 hdr hb (omega arith);
  base_bound = uint_be_at-lt 8 8 hdr hb (omega arith);
  seq_bound = uint_be_at-lt 8 16 hdr hb (omega arith);
  payload_bound = size;
  payload_bytes = pb;
}

append_frame-parsed_frame :
    (hdr payload rest : List ℕ)
    → marshal_header (parsed_frame hdr payload) (length payload) ≡ hdr
    → append_frame (parsed_frame hdr payload) [] ++ rest
      ≡ hdr ++ (payload ++ (put_be 4 (crc32c payload) ++ rest))
unfolding append_frame parsed_frame
append_frame-parsed_frame hdr payload rest again =
    let sum = put_be 4 (crc32c payload) in
    ap (λ m. ((m ++ payload) ++ sum) ++ rest) again
    ∙ append_assoc (hdr ++ payload) sum rest
    ∙ append_assoc hdr payload (sum ++ rest)

-- A frame that `ReadFrame` returns has fields of their widths and a payload within the cap, and
-- the bytes that were taken from the stream are exactly those that `AppendTo` writes for it.
pub read_frame_exact :
    (s : List ℕ) (f : Frame) (rest : List ℕ)
    → All IsByte s
    → read_frame s ≡ ok (f, rest)
    → IsFrame f × (s ≡ append_frame f [] ++ rest)
unfolding read_frame
read_frame_exact s f rest hb h = elim (Result-cases (read_full 32 s)) [
  | inr (e, e1) ↦ err-ne-ok (rw (e1, read_frame) at h)
  | inl ((hdr, s1), e1) ↦
      let (split, h32) = read_full-eq_ok 32 s hdr s1 e1 in
      let (hdr_bytes, s1_bytes) = All-of_append IsByte hdr s1 (subst (All IsByte) split hb) in
      let (passes, body) = check_header-eq_ok hdr s1 f rest (rw (e1, read_frame) at h) in
      let (payload, split1, size, same) = read_payload-eq_ok hdr s1 f rest s1_bytes body in
      let sum = put_be 4 (crc32c payload) in
      let payload_bytes =
        (All-of_append IsByte payload (sum ++ rest) (subst (All IsByte) split1 s1_bytes)).0 in
      let again =
        marshal_header-parsed_frame hdr payload hdr_bytes h32 passes.magic passes.version
          passes.checksum (sym size) in
      subst (λ g. IsFrame g × (s ≡ append_frame g [] ++ rest)) (sym same)
        (
          parsed_frame-IsFrame hdr payload hdr_bytes payload_bytes h32 (omega (arith, passes.size)),
          split
              ∙ ap (λ t. hdr ++ t) split1
              ∙ sym (append_frame-parsed_frame hdr payload rest again),
        )
]
