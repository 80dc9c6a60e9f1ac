-- ===== src/Transfer/Conversion.antt =====
-- internal/agent/serve_cmd.go and internal/collector/demux.go: a packet's record on the way through.
use ipcap.Base.{◌*◌, ◌/◌, ◌%◌, ◌^◌, ◌<◌, ◌≡◌, ◌↔◌, ap, arith}
use ipcap.Pcap.{Record}
use ipcap.Agent.Streamer.{pcap_to_proto}
use ipcap.Collector.Demux.{proto_to_pcap}

-- A libpcap record whose seconds are a 32-bit number comes out of the wire format as it went in
-- exactly when its microseconds are below 4294968.
pub proto_to_pcap-pcap_to_proto :
    (rec : Record)
    → rec.ts_sec < 2 ^ 32
    → (proto_to_pcap (pcap_to_proto rec) ≡ rec) ↔ (rec.ts_usec < 4294968)
unfolding proto_to_pcap pcap_to_proto
proto_to_pcap-pcap_to_proto rec hs = (
  (λ e. let u = ap (λ (r : Record). r.ts_usec) e in omega arith),
  (λ hu.
      let s : rec.ts_sec % 2 ^ 32 ≡ rec.ts_sec = omega arith in
      let u : rec.ts_usec * 1000 % 2 ^ 32 / 1000 ≡ rec.ts_usec = omega arith in
      λ i. record { ts_sec = s i; ts_usec = u i; orig_len = rec.orig_len; body = rec.body }),
)
