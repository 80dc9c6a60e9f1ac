-- ===== src/Proto/Runs.antt =====
-- Concrete runs of the wire format, and the theorems at concrete inputs.
use ipcap.Base.{take, err}
use ipcap.Proto.Frame.{FrameError}
use ipcap.Proto.Frame.Cut.{read_frame-cut}
use ipcap.Base.{
  ℕ, ◌%◌, ◌^◌, ◌≤◌, ◌<◌, ◌≡◌, ◌↔◌, refl, arith, true, List, [], ◌∷◌, ◌++◌, take, replicate,
  length-replicate, ◌⊎◌, All, ok, err,
}
use ipcap.Bytes.{IsByte}
use ipcap.Proto.Crc.{crc32c}
use ipcap.Proto.Types.{frame_heartbeat, skippable, skippable_iff}
use ipcap.Proto.Frame.{Frame, append_frame, marshal_header, read_frame, IsFrame}
use ipcap.Proto.Frame.RoundTrip.{read_frame-append_frame}
use ipcap.Proto.Frame.Exact.{read_frame_exact}
use ipcap.Proto.Batch.{PktRecord, append_pkt, encode_pkt_batch, decode_pkt_batch, IsPktRecord}
use ipcap.Proto.Batch.RoundTrip.{decode_pkt_batch-encode_pkt_batch}
use ipcap.Proto.Batch.Exact.{decode_pkt_batch_exact}
use ipcap.Proto.Messages.{encode_ack, decode_ack, decode_ack-encode_ack}
use ipcap.Proto.Preamble.{PreambleHeader, Cbor, bad_header_crc, write_preamble, read_preamble}
use ipcap.Proto.Preamble.RoundTrip.{read_preamble-write_preamble, read_preamble_wrapped}

abbrev beat : Frame
beat = record {
  frame_type = frame_heartbeat;
  flags = 0;
  source_id = 1;
  base_gpidx = 0;
  seq = 7;
  payload = 1 ∷ 2 ∷ 3 ∷ [];
}

beat-IsFrame : IsFrame beat
beat-IsFrame = omega arith

skippable_iff_example : (skippable 0xa1 ≡ true) ↔ (128 ≤ 0xa1)
skippable_iff_example = skippable_iff 0xa1 (omega arith)

read_frame-append_frame_example : read_frame (append_frame beat [] ++ (9 ∷ [])) ≡ ok (beat, 9 ∷ [])
read_frame-append_frame_example = read_frame-append_frame beat (9 ∷ []) beat-IsFrame

beat-IsByte : All IsByte (append_frame beat [] ++ (9 ∷ []))
unfolding append_frame marshal_header
beat-IsByte = omega arith

read_frame_exact_example :
    IsFrame beat × (append_frame beat [] ++ (9 ∷ []) ≡ append_frame beat [] ++ (9 ∷ []))
read_frame_exact_example =
    read_frame_exact (append_frame beat [] ++ (9 ∷ [])) beat (9 ∷ []) beat-IsByte
      (read_frame-append_frame beat (9 ∷ []) beat-IsFrame)

abbrev one_packet : List PktRecord
one_packet =
    record {
      ts_sec = 1_700_000_000;
      ts_nsec = 5000;
      orig_len = 3;
      cap_len = 2;
      body = 0xaa ∷ 0xbb ∷ [];
    }
    ∷ []

one_packet-IsPktRecord : All IsPktRecord one_packet
one_packet-IsPktRecord = omega arith

decode_pkt_batch-encode_pkt_batch_example :
    decode_pkt_batch (encode_pkt_batch one_packet) ≡ ok (take (1 % 2 ^ 16) one_packet)
decode_pkt_batch-encode_pkt_batch_example =
    decode_pkt_batch-encode_pkt_batch one_packet one_packet-IsPktRecord

one_packet-IsByte : All IsByte (encode_pkt_batch one_packet)
unfolding encode_pkt_batch append_pkt
one_packet-IsByte = omega arith

decode_pkt_batch_exact_example :
    All IsPktRecord one_packet
    × (1 < 2 ^ 16)
    × (rest : List ℕ) × (encode_pkt_batch one_packet ≡ encode_pkt_batch one_packet ++ rest)
decode_pkt_batch_exact_example =
    decode_pkt_batch_exact (encode_pkt_batch one_packet) one_packet one_packet-IsByte
      (decode_pkt_batch-encode_pkt_batch one_packet one_packet-IsPktRecord)

decode_ack-encode_ack_example :
    decode_ack (encode_ack (record { src_id = 1; acked_gpidx = 2; last_seq = 3 }) ++ [])
    ≡ ok (record { src_id = 1; acked_gpidx = 2; last_seq = 3 })
decode_ack-encode_ack_example =
    decode_ack-encode_ack (record { src_id = 1; acked_gpidx = 2; last_seq = 3 }) [] (omega arith)
      (omega arith) (omega arith)

abbrev greeting : PreambleHeader
greeting = record { compression = "none"; sources = []; resume_ack = (1, 40) ∷ [] }

-- A package that knows the one header, with a body of `n` bytes.
abbrev tiny_cbor : ℕ → Cbor
tiny_cbor n = record { marshal = λ h. ok (replicate n 7); unmarshal = λ b. ok greeting }

greeting_bytes : (bytes : List ℕ) × (write_preamble (tiny_cbor 3) greeting ≡ ok bytes)
unfolding write_preamble
greeting_bytes = (_, refl)

read_preamble-write_preamble_example :
    read_preamble (tiny_cbor 3) (greeting_bytes.0 ++ (9 ∷ [])) ≡ ok (greeting, 9 ∷ [])
read_preamble-write_preamble_example =
    read_preamble-write_preamble (tiny_cbor 3) greeting (7 ∷ 7 ∷ 7 ∷ []) greeting_bytes.0 (9 ∷ [])
      refl refl (omega arith) greeting_bytes.1

read_preamble_wrapped_example :
    (bytes : List ℕ) × (write_preamble (tiny_cbor (2 ^ 16)) greeting ≡ ok bytes)
    × ((read_preamble (tiny_cbor (2 ^ 16)) (bytes ++ []) ≡ err bad_header_crc)
        ⊎ (crc32c (replicate (2 ^ 16) 7) ≡ 0))
read_preamble_wrapped_example =
    read_preamble_wrapped (tiny_cbor (2 ^ 16)) greeting (replicate (2 ^ 16) 7) [] refl
      (length-replicate {A = ℕ} (2 ^ 16) 7)

read_frame-cut_example : (e : FrameError) × (read_frame (take 35 (append_frame beat [])) ≡ err e)
unfolding append_frame marshal_header
read_frame-cut_example = read_frame-cut beat 35 beat-IsFrame (omega arith)
