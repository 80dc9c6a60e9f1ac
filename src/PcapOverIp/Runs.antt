-- ===== src/PcapOverIp/Runs.antt =====
-- A client of a small mirror, and the theorem on it.
use ipcap.Base.{◌≡◌, refl, arith, List, [], ◌∷◌, ◌++◌, length}
use ipcap.Storage.Io.{Sys, fine, fails, Fault}
use ipcap.Storage.Triple.{After}
use ipcap.Pcap.{append_global_header, append_record}
use ipcap.Pcap.Scan.{encode_records}
use ipcap.Collector.State.{Mirror}
use ipcap.Collector.Mirror.Recoverable.{image}
use ipcap.Collector.Runs.{ethernet, packet, packet-IsRecord, fresh_mirror}
use ipcap.PcapOverIp.Server.{Client, mirror_source, serve}
use ipcap.PcapOverIp.Tailing.{Part}
use ipcap.PcapOverIp.Committed.{Shows, rotated, grown, serve-committed}

-- One packet is committed, and of another the first bytes are written.
abbrev later_mirror : Mirror
later_mirror = record fresh_mirror {
  committed_len = 42;
  disk = record fresh_mirror.disk {
    files = λ q. record { bytes = image ethernet (packet ∷ []) ++ (1 ∷ 2 ∷ 3 ∷ []); synced = 42 };
  };
}

abbrev next_session : Mirror
next_session = record fresh_mirror { session_seq = 1 }

abbrev client : List Fault → Sys Client
client faults = record { state = record { conn = []; cursor = 0 }; faults = faults }

-- The committed packet arrives, the other does not.
served :
    (serve mirror_source fresh_mirror (later_mirror ∷ next_session ∷ []) (client [])).1.state.conn
    ≡ image ethernet (packet ∷ [])
unfolding serve append_global_header ipcap.Storage.Io.◌>>◌ ipcap.Storage.Io.modify
    ipcap.Storage.Io.syscall ipcap.Storage.Io.quiet ipcap.Pcap.read_record_at ipcap.Pcap.read_at
    append_record ipcap.Pcap.record_header ipcap.Pcap.parse_record_header ipcap.Storage.Io.pure
served = refl

-- The connection breaks in the third byte of the record.
served_torn :
    length
      (serve mirror_source fresh_mirror
        (later_mirror ∷ [])
        (client (fine ∷ fine ∷ fails 3 ∷ []))).1.state.conn
    ≡ 27
unfolding serve append_global_header ipcap.Storage.Io.◌>>◌ ipcap.Storage.Io.modify
    ipcap.Storage.Io.syscall ipcap.Storage.Io.quiet ipcap.Pcap.read_record_at ipcap.Pcap.read_at
    append_record ipcap.Pcap.record_header ipcap.Pcap.parse_record_header ipcap.Storage.Io.pure
served_torn = refl

fresh-Shows : Shows ethernet 0 [] fresh_mirror
unfolding append_global_header
fresh-Shows = record { tail = []; bytes = refl; session = refl; committed = refl; valid = tt }

later-Shows : Shows ethernet 0 (packet ∷ []) later_mirror
unfolding append_global_header append_record ipcap.Pcap.record_header
later-Shows = record {
  tail = 1 ∷ 2 ∷ 3 ∷ [];
  bytes = refl;
  session = refl;
  committed = refl;
  valid = (packet-IsRecord, tt);
}

serve-committed_example :
    After
      (λ u c. c.conn ≡ append_global_header ethernet [] ++ encode_records (packet ∷ []))
      (Part [] (append_global_header ethernet [] ++ encode_records (packet ∷ [])))
      []
      (serve mirror_source fresh_mirror (later_mirror ∷ next_session ∷ []) (client []))
serve-committed_example =
    serve-committed ethernet 0 (omega arith) [] (packet ∷ []) fresh_mirror
      (later_mirror ∷ next_session ∷ []) (client []) fresh-Shows refl
      (grown [] (packet ∷ []) [] later_mirror (next_session ∷ []) later-Shows
        (rotated (packet ∷ []) next_session [] (omega arith)))
      refl
