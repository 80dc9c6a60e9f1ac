-- ===== src/Proto/Frame.antt =====
-- internal/proto/frame.go: one frame, written and read.
pub mod RoundTrip
pub mod Exact
pub mod Cut
use ipcap.Base.{
  ℕ, ◌%◌, ◌^◌, ◌≤◌, ◌<◌, List, [], ◌∷◌, ◌++◌, length, take, All, not, ltb, ◌==◌, if◌then◌else◌,
  Result, ok, err,
}
use ipcap.Bytes.{IsByte, put_be, byte_at, uint_be_at, ReadError, read_full}
use ipcap.Proto.Crc.{crc32c}
use ipcap.Proto.Types.{protocol_version, frame_magic, frame_header_len, max_payload_len}

pub data FrameError : Type 0 where
  bad_magic bad_version hdr_crc pay_crc : FrameError
  payload_huge : ℕ → FrameError
  short : ReadError → FrameError

-- `frame_type` is the field `Type`.
pub record Frame : Type 0 where
  pub frame_type : ℕ
  pub flags : ℕ
  pub source_id : ℕ
  pub base_gpidx : ℕ
  pub seq : ℕ
  pub payload : List ℕ

-- The bytes that the header CRC covers.
header_front : Frame → ℕ → List ℕ
header_front f payload_len =
    put_be 2 frame_magic
    ++ (protocol_version
        ∷ (f.frame_type % 256
            ∷ (put_be 2 f.flags
                ++ (put_be 2 f.source_id
                    ++ (put_be 8 f.base_gpidx
                        ++ (put_be 8 f.seq ++ put_be 4 (payload_len % 2 ^ 32)))))))

-- `Frame.marshalHeader`
unfoldable pub marshal_header : Frame → ℕ → List ℕ
unfolding header_front
marshal_header f payload_len =
    header_front f payload_len ++ put_be 4 (crc32c (header_front f payload_len))

-- `Frame.AppendTo`
unfoldable pub append_frame : Frame → List ℕ → List ℕ
append_frame f dst =
    ((dst ++ marshal_header f (length f.payload)) ++ f.payload) ++ put_be 4 (crc32c f.payload)

-- The frame that `ReadFrame` returns.
parsed_frame : List ℕ → List ℕ → Frame
parsed_frame hdr payload = record {
  frame_type = byte_at 3 hdr;
  flags = uint_be_at 2 4 hdr;
  source_id = uint_be_at 2 6 hdr;
  base_gpidx = uint_be_at 8 8 hdr;
  seq = uint_be_at 8 16 hdr;
  payload = payload;
}

-- `ReadFrame` from the payload on.
read_payload : List ℕ → List ℕ → Result FrameError (Frame × List ℕ)
read_payload hdr s = elim (read_full (uint_be_at 4 24 hdr) s) [
  | err e ↦ err (short e)
  | ok (payload, s1) ↦ elim (read_full 4 s1) [
    | err e ↦ err (short e)
    | ok (crc, s2) ↦
        if not (crc32c payload == uint_be_at 4 0 crc)
        then err pay_crc
        else ok (parsed_frame hdr payload, s2)
  ]
]

-- The four tests of `ReadFrame` on the header, in their order.
check_header : List ℕ → List ℕ → Result FrameError (Frame × List ℕ)
check_header hdr s =
    if not (uint_be_at 2 0 hdr == frame_magic)
    then err bad_magic
    else if not (byte_at 2 hdr == protocol_version)
    then err bad_version
    else if not (crc32c (take 28 hdr) == uint_be_at 4 28 hdr)
    then err hdr_crc
    else if ltb max_payload_len (uint_be_at 4 24 hdr)
    then err (payload_huge (uint_be_at 4 24 hdr))
    else read_payload hdr s

-- `ReadFrame` on the bytes still to come: the frame and the bytes behind it.
unfoldable pub read_frame : List ℕ → Result FrameError (Frame × List ℕ)
unfolding check_header read_payload parsed_frame
read_frame s = elim (read_full frame_header_len s) [
  | err e ↦ err (short e)
  | ok (hdr, s1) ↦ check_header hdr s1
]

-- A frame whose fields have their Go types' widths, with a payload that the reader accepts.
pub record IsFrame (f : Frame) : Type 0 where
  pub type_bound : f.frame_type < 256
  pub flags_bound : f.flags < 2 ^ 16
  pub source_bound : f.source_id < 2 ^ 16
  pub base_bound : f.base_gpidx < 2 ^ 64
  pub seq_bound : f.seq < 2 ^ 64
  pub payload_bound : length f.payload ≤ max_payload_len
  pub payload_bytes : All IsByte f.payload
