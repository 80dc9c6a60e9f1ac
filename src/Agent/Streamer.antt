-- ===== src/Agent/Streamer.antt =====
-- internal/agent/serve_cmd.go: the streamer, which frames what it is given and numbers the frames of
-- each type.
use Prim.Native.String.{String}
use ipcap.Base.{
  ℕ, ◌*◌, ◌%◌, ◌^◌, Option, none, some, List, [], ◌++◌, length, take, Bool, ◌==◌, if◌then◌else◌,
  add64,
}
use ipcap.Storage.Io.{Io, pure, raise, gets, modify, syscall, ◌>>=◌, ◌>>◌}
use ipcap.Pcap.{Record}
use ipcap.Proto.Types.{
  frame_pkt_batch, frame_heartbeat, frame_tls_keylog, frame_stats, frame_gap, flag_compressed,
  flag_gap,
}
use ipcap.Proto.Frame.{Frame, append_frame}
use ipcap.Proto.Zstd.{Zstd, compress_batch}
use ipcap.Proto.Batch.{PktRecord, encode_pkt_batch}
use ipcap.Proto.Messages.{encode_heartbeat, encode_gap}
use ipcap.Spool.Reader.{Reader, ReaderError}
use ipcap.Keylog.{valid}

-- One key log file that is tailed: what is read of it, and the line that has no end yet.
pub record KeylogSource : Type 0 where
  pub offset : ℕ
  pub partial : List ℕ

-- The state of one RunServe. `out` is what has been written to the connection's buffer, `seq` the
-- streamer's map (a type that is not in it is at 0), `files` that of the key log tailer.
pub record Serve : Type 0 where
  pub out : List ℕ
  pub seq : ℕ → ℕ
  pub batch : List PktRecord
  pub batch_bytes : ℕ
  pub base_gpidx : ℕ
  pub reader : Reader
  pub last_beat : ℕ
  pub files : String → KeylogSource

-- `io`: a write failed; `encoding`: the encoder of the statistics failed.
pub data ServeError : Type 0 where
  io encoding stuck : ServeError
  reading : ReaderError → ServeError

abbrev pub M : Type 0 → Type 0
M = Io ServeError Serve

-- What is fixed during one RunServe, with the zstd package.
pub record Options : Type 0 where
  pub src_id : ℕ
  pub compress : Bool
  pub zstd : Zstd
  pub batch_max_packets : ℕ
  pub batch_max_bytes : ℕ

-- `pcapToProto`
unfoldable pub pcap_to_proto : Record → PktRecord
pcap_to_proto rec = record {
  ts_sec = rec.ts_sec;
  ts_nsec = rec.ts_usec * 1000 % 2 ^ 32;
  orig_len = rec.orig_len;
  cap_len = length rec.body % 2 ^ 32;
  body = rec.body;
}

abbrev pub set_seq : (ℕ → ℕ) → ℕ → ℕ → ℕ → ℕ
set_seq seq t v u = if u == t then v else seq u

-- `streamer.next`: the number, and the map behind it.
unfoldable pub next_seq : ℕ → M ℕ
next_seq t = gets (λ s. s.seq t) >>= λ v.
    modify (λ s. record s { seq = set_seq s.seq t (add64 v 1) }) >> pure v

-- `f.WriteTo(s.out)`; a write that fails has written some part of the frame.
unfoldable pub write_frame : Frame → M (Unit {0})
write_frame f =
    syscall io (λ s. record s { out = s.out ++ append_frame f [] })
      (λ n s. record s { out = s.out ++ take n (append_frame f []) })

-- A frame of the source with the number that is next for its type, written.
unfoldable pub send_frame : ℕ → ℕ → ℕ → ℕ → List ℕ → M (Unit {0})
unfolding next_seq write_frame
send_frame src_id frame_type flags base_gpidx payload = next_seq frame_type >>= λ seq.
    write_frame (record {
      frame_type = frame_type;
      flags = flags;
      source_id = src_id;
      base_gpidx = base_gpidx;
      seq = seq;
      payload = payload;
    })

-- `sendBatch`
unfoldable pub send_batch : Options → ℕ → List PktRecord → M (Unit {0})
unfolding send_frame
send_batch o base_gpidx recs =
    let payload = encode_pkt_batch recs in
    if o.compress
    then send_frame o.src_id frame_pkt_batch flag_compressed base_gpidx
        (compress_batch o.zstd payload)
    else send_frame o.src_id frame_pkt_batch 0 base_gpidx payload

-- `sendHeartbeat`; `ts_nsec` is the wall clock.
unfoldable pub send_heartbeat : Options → ℕ → ℕ → M (Unit {0})
unfolding send_frame
send_heartbeat o ts_nsec head =
    send_frame o.src_id frame_heartbeat 0 0
      (encode_heartbeat (record { ts_nsec = ts_nsec; head_gpidx = head }))

-- `sendKeylog`
unfoldable pub send_keylog : Options → List ℕ → M (Unit {0})
unfolding send_frame
send_keylog o line = if valid line then send_frame o.src_id frame_tls_keylog 0 0 line else pure tt

-- `sendStats`; `payload` is what `proto.EncodeStats` gives, `none` for its error.
unfoldable pub send_stats : Options → Option (List ℕ) → M (Unit {0})
unfolding send_frame
send_stats o none = raise encoding
send_stats o (some payload) = send_frame o.src_id frame_stats 0 0 payload

-- `sendGap`
unfoldable pub send_gap : Options → ℕ → ℕ → M (Unit {0})
unfolding send_frame
send_gap o from to =
    send_frame o.src_id frame_gap flag_gap 0
      (encode_gap (record { src_id = o.src_id; from_gpidx = from; to_gpidx = to }))
