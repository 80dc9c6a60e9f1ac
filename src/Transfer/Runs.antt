-- ===== src/Transfer/Runs.antt =====
-- Runs of the collector's loop over an agent's stream, and the theorems on them.
use ipcap.Base.{
  length, ltb, le→ltb, false, if◌then◌else◌, ℕ, ◌<◌, ◌≤◌, ◌≡◌, ◌↔◌, refl, inl, max, Option, none,
  some, List, [], ◌∷◌, take, true, false, arith,
}
use ipcap.Proto.Zstd.{Zstd, Inverts, max_decompressed}
use ipcap.Storage.Io.{Sys}
use ipcap.Storage.Triple.{After}
use ipcap.Bytes.{eof}
use ipcap.Proto.Frame.{short}
use ipcap.Proto.Batch.{IsPktRecord, encode_pkt_batch, append_pkt}
use ipcap.Collector.Runs.{ethernet, packet, fresh_mirror, source, source-IsRecord, fresh-Holds}
use ipcap.Collector.Demux.{proto_to_pcap}
use ipcap.Collector.Demux.ExactlyOnce.{packets}
use ipcap.Collector.State.{zero_state}
use ipcap.Collector.Demux.Loop.{Conn, reading, Tick, run_frames}
use ipcap.Agent.Streamer.{Options, pcap_to_proto}
use ipcap.Agent.Log.{Item, packet_batch, note, wire, Follows}
use ipcap.Agent.Sent.{from_zero}
use ipcap.Transfer.Held.{At, Failed}
use ipcap.Transfer.Step.{AreFrames}
use ipcap.Transfer.Delivery.{delivers_prefix, delivers_all}
use ipcap.Transfer.Conversion.{proto_to_pcap-pcap_to_proto}

-- The toy package puts a byte in front, and its decoder looks at its memory.
abbrev decode_toy : ℕ → List ℕ → Option (List ℕ)
decode_toy n [] = none
decode_toy n (c ∷ b) = if ltb n (length b) then none else some b

abbrev zstd : Zstd
zstd = record { encode_all = λ b. 9 ∷ b; decode_all = decode_toy }

zstd-Inverts : Inverts zstd
zstd-Inverts = record {
  inverse = λ b fits.
      let held : ltb max_decompressed (length b) ≡ false = le→ltb _ _ fits in rw held refl;
}

abbrev options : Options
options = record {
  src_id = 1;
  compress = true;
  zstd = zstd;
  batch_max_packets = 4;
  batch_max_bytes = 100;
}

source-IsPktRecord : (i : ℕ) → IsPktRecord (source i)
source-IsPktRecord i = omega arith

-- Two batches and a heartbeat.
abbrev log : List Item
log =
    packet_batch 0 (packets source 0 2)
    ∷ note 0x11 (1 ∷ [])
    ∷ packet_batch 2 (packets source 2 1)
    ∷ []

log-Follows : Follows options 10 source 0 log 3
log-Follows = (
  2,
  (refl, refl, refl, omega arith, omega arith, omega arith),
  (2, (inl refl, refl), (3, (refl, refl, refl, omega arith, omega arith, omega arith), refl)),
)

log-AreFrames : AreFrames options from_zero log
unfolding encode_pkt_batch append_pkt ipcap.Proto.Zstd.compress_batch
log-AreFrames = omega arith

abbrev conn : Conn
conn = record {
  mirror = fresh_mirror;
  sink = none;
  acks = record { src_id = 1; last_ack_at = 0; committed_at = 0 };
  head_gpidx = 0;
  ack_out = [];
}

abbrev begun : Sys Conn
begun = record { state = conn; faults = [] }

conn-At : At ethernet source source-IsRecord 0 0 conn
conn-At = (zero_state, fresh-Holds, refl, refl)

abbrev ticks : List Tick
ticks =
    (record { now = 1; writes = true })
    ∷ (record { now = 2; writes = true })
    ∷ (record { now = 3; writes = false })
    ∷ (record { now = 4; writes = true })
    ∷ []

delivers_all_example :
    After
      (λ e c. (e ≡ reading (short eof)) × At ethernet source source-IsRecord 0 (max 0 3) c)
      (Failed ethernet source source-IsRecord 0 0 (max 0 3))
      []
      (run_frames zstd 1 ticks (wire options from_zero log) begun)
delivers_all_example =
    delivers_all ethernet source source-IsRecord 0 options zstd-Inverts source-IsPktRecord 10
      (omega arith) (λ on. omega arith) log 0 3 0 from_zero ticks begun log-Follows tt log-AreFrames
      (omega arith) (omega arith) conn-At (omega arith)

-- The connection breaks inside the second batch.
delivers_prefix_example :
    After
      (λ e c. (k : ℕ) × (0 ≤ k) × (k ≤ max 0 3) × At ethernet source source-IsRecord 0 k c)
      (Failed ethernet source source-IsRecord 0 0 (max 0 3))
      []
      (run_frames zstd 1 ticks (take 150 (wire options from_zero log)) begun)
delivers_prefix_example =
    delivers_prefix ethernet source source-IsRecord 0 options zstd-Inverts source-IsPktRecord 10
      (omega arith) (λ on. omega arith) log 0 3 0 from_zero ticks begun log-Follows tt log-AreFrames
      (omega arith) (omega arith) conn-At 150

proto_to_pcap-pcap_to_proto_example :
    (proto_to_pcap (pcap_to_proto packet) ≡ packet) ↔ (packet.ts_usec < 4294968)
proto_to_pcap-pcap_to_proto_example = proto_to_pcap-pcap_to_proto packet (omega arith)
