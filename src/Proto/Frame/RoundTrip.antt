-- ===== src/Proto/Frame/RoundTrip.antt =====
-- Every frame that a peer writes is read back, and nothing but a frame is read.
use ipcap.Base.{
  ℕ, ◌%◌, ◌^◌, ◌≤◌, ◌≡◌, refl, sym, ap, ◌∙◌, arith, List, [], ◌++◌, length, take, le→ltb, ok,
  append_assoc, ==_iff,
}
use ipcap.Bytes.{put_be, get_be, byte_at, uint_be_at}
use ipcap.Bytes.RoundTrip.{get_be-put_be, read_full-append}
use ipcap.Proto.Crc.{crc32c, crc32c-lt}
use ipcap.Proto.Types.{max_payload_len, frame_magic, protocol_version}
use ipcap.Proto.Frame.{
  Frame, header_front, marshal_header, append_frame, parsed_frame, read_payload, check_header,
  read_frame, IsFrame,
}

length-marshal_header : (f : Frame) (n : ℕ) → length (marshal_header f n) ≡ 32
unfolding marshal_header
length-marshal_header f n = refl

parsed_frame-marshal_header :
    (f : Frame) → IsFrame f → parsed_frame (marshal_header f (length f.payload)) f.payload ≡ f
unfolding parsed_frame marshal_header
parsed_frame-marshal_header f h =
    let t : f.frame_type % 256 ≡ f.frame_type = omega arith in
    let fl : get_be (put_be 2 f.flags) ≡ f.flags = get_be-put_be 2 _ h.flags_bound in
    let so : get_be (put_be 2 f.source_id) ≡ f.source_id = get_be-put_be 2 _ h.source_bound in
    let ba : get_be (put_be 8 f.base_gpidx) ≡ f.base_gpidx = get_be-put_be 8 _ h.base_bound in
    let se : get_be (put_be 8 f.seq) ≡ f.seq = get_be-put_be 8 _ h.seq_bound in
    λ i. record {
      frame_type = t i;
      flags = fl i;
      source_id = so i;
      base_gpidx = ba i;
      seq = se i;
      payload = f.payload;
    }

payload_len-marshal_header :
    (f : Frame)
    → IsFrame f
    → uint_be_at 4 24 (marshal_header f (length f.payload)) ≡ length f.payload
unfolding marshal_header
payload_len-marshal_header f h =
    let m : length f.payload % 2 ^ 32 ≡ length f.payload = omega (arith, h.payload_bound) in
    get_be-put_be 4 (length f.payload % 2 ^ 32) (omega arith) ∙ m

-- A header that passes the four tests leads to the payload.
check_header_pass :
    (hdr s : List ℕ)
    → uint_be_at 2 0 hdr ≡ frame_magic
    → byte_at 2 hdr ≡ protocol_version
    → crc32c (take 28 hdr) ≡ uint_be_at 4 28 hdr
    → uint_be_at 4 24 hdr ≤ max_payload_len
    → check_header hdr s ≡ read_payload hdr s
unfolding check_header
check_header_pass hdr s magic version crc size =
    rw
      (
        (==_iff (uint_be_at 2 0 hdr) frame_magic).1 magic,
        (==_iff (byte_at 2 hdr) protocol_version).1 version,
        (==_iff (crc32c (take 28 hdr)) (uint_be_at 4 28 hdr)).1 crc,
        le→ltb max_payload_len (uint_be_at 4 24 hdr) size,
      )
      refl

magic-marshal_header : (f : Frame) (n : ℕ) → uint_be_at 2 0 (marshal_header f n) ≡ frame_magic
unfolding marshal_header
magic-marshal_header f n = refl

version-marshal_header : (f : Frame) (n : ℕ) → byte_at 2 (marshal_header f n) ≡ protocol_version
unfolding marshal_header
version-marshal_header f n = refl

crc-marshal_header :
    (f : Frame) (n : ℕ)
    → crc32c (take 28 (marshal_header f n)) ≡ uint_be_at 4 28 (marshal_header f n)
unfolding marshal_header
crc-marshal_header f n =
    sym (get_be-put_be 4 (crc32c (header_front f n)) (crc32c-lt (header_front f n)))

-- A payload and its checksum, read behind a header that declares its length.
read_payload_pass :
    (hdr payload rest : List ℕ)
    → uint_be_at 4 24 hdr ≡ length payload
    → read_payload hdr (payload ++ (put_be 4 (crc32c payload) ++ rest))
      ≡ ok (parsed_frame hdr payload, rest)
unfolding read_payload
read_payload_pass hdr payload rest size =
    let crc = get_be-put_be 4 (crc32c payload) (crc32c-lt payload) in
    rw
      (
        size,
        read_full-append (length payload) payload (put_be 4 (crc32c payload) ++ rest) refl,
        read_full-append 4 (put_be 4 (crc32c payload)) rest refl,
        (==_iff (crc32c payload) (get_be (put_be 4 (crc32c payload)))).1 (sym crc),
        read_payload,
      )
      refl

-- `ReadFrame` returns the frame that `AppendTo` wrote, and leaves what follows it in the stream.
pub read_frame-append_frame :
    (f : Frame) (rest : List ℕ) → IsFrame f → read_frame (append_frame f [] ++ rest) ≡ ok (f, rest)
unfolding read_frame append_frame
read_frame-append_frame f rest h =
    let hdr = marshal_header f (length f.payload) in
    let tail = put_be 4 (crc32c f.payload) ++ rest in
    let size = payload_len-marshal_header f h in
    let split : ((hdr ++ f.payload) ++ put_be 4 (crc32c f.payload)) ++ rest
        ≡ hdr ++ (f.payload ++ tail) =
      append_assoc (hdr ++ f.payload) (put_be 4 (crc32c f.payload)) rest
      ∙ append_assoc hdr f.payload tail in
    ap read_frame split
    ∙ rw (read_full-append 32 hdr (f.payload ++ tail) (length-marshal_header f _), read_frame)
        (check_header_pass hdr _ (magic-marshal_header f _) (version-marshal_header f _)
            (crc-marshal_header f _) (omega (arith, size, h.payload_bound))
          ∙ read_payload_pass hdr f.payload rest size
          ∙ (λ i. ok (parsed_frame-marshal_header f h i, rest)))
