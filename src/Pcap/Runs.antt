-- ===== src/Pcap/Runs.antt =====
-- Concrete runs of the libpcap encoder and of the scan, and the theorems at concrete inputs.
use ipcap.Base.{
  ℕ, ◌+◌, ◌≡◌, refl, arith, Option, none, some, List, [], ◌∷◌, ◌++◌, length, take, All, ok, err,
}
use ipcap.Bytes.{unexpected_eof, read_full}
use ipcap.Pcap.{
  GlobalHeader, Record, short, append_global_header, parse_global_header, record_header,
  append_record, parse_record_header, read_record_at, stop, scan_loop, scan_records, read_record,
  size,
}
use ipcap.Pcap.Encoding.{IsRecord, parse_global_header-append, read_record-append_record}
use ipcap.Pcap.Head.{IsTorn}
use ipcap.Pcap.Scan.{encode_records, scan_records_complete, scan_records-encode_records}
use ipcap.Pcap.ReadAt.{read_record_at-take, read_record_at-append_record}

abbrev ethernet : GlobalHeader
ethernet = record { snaplen = 65536; link_type = 1 }

abbrev packet : Record
packet = record { ts_sec = 1_700_000_000; ts_usec = 5; orig_len = 3; body = 0xaa ∷ 0xbb ∷ [] }

abbrev accept : Record → Option (Unit {0})
accept r = none

packet_bytes :
    append_record packet []
    ≡ 0x00 ∷ 0xf1 ∷ 0x53 ∷ 0x65 ∷ 5 ∷ 0 ∷ 0 ∷ 0 ∷ 2 ∷ 0 ∷ 0 ∷ 0 ∷ 3 ∷ 0 ∷ 0 ∷ 0 ∷ 0xaa ∷ 0xbb ∷ []
unfolding append_record record_header
packet_bytes = refl

-- Three bytes of a header are a torn tail.
torn_bytes : read_record (1 ∷ 2 ∷ 3 ∷ []) 65536 ≡ err (short unexpected_eof)
unfolding read_record read_full
torn_bytes = refl

torn_scan : scan_records (append_record packet [] ++ (1 ∷ 2 ∷ 3 ∷ [])) 65536 accept ≡ stop 18 1 none
unfolding append_record record_header scan_records scan_loop parse_record_header read_full
torn_scan = refl

packet-IsRecord : IsRecord 65536 packet
packet-IsRecord = omega arith

parse_global_header-append_example :
    parse_global_header (append_global_header ethernet [] ++ (7 ∷ [])) ≡ ok ethernet
parse_global_header-append_example = parse_global_header-append ethernet (7 ∷ []) (omega arith)

read_record-append_record_example :
    read_record (append_record packet [] ++ (7 ∷ [])) 65536 ≡ ok (packet, 7 ∷ [])
read_record-append_record_example =
    read_record-append_record 65536 packet (7 ∷ []) packet-IsRecord (omega arith)

scan_records_complete_example :
    (rs : List Record) × (tail : List ℕ) × (1 ∷ 2 ∷ 3 ∷ [] ≡ encode_records rs ++ tail)
    × All (IsRecord 65536) rs
    × IsTorn 65536 tail
    × (scan_records (1 ∷ 2 ∷ 3 ∷ []) 65536 accept
        ≡ stop (length (encode_records rs)) (length rs) none)
scan_records_complete_example =
    scan_records_complete 65536 accept (1 ∷ 2 ∷ 3 ∷ []) (λ r. refl) (omega arith)

scan_records-encode_records_example :
    scan_records (encode_records (packet ∷ packet ∷ []) ++ (1 ∷ 2 ∷ 3 ∷ [])) 65536 accept
    ≡ stop (length (encode_records (packet ∷ packet ∷ []))) 2 none
scan_records-encode_records_example =
    scan_records-encode_records 65536 accept (packet ∷ packet ∷ []) (1 ∷ 2 ∷ 3 ∷ []) (λ r. refl)
      (packet-IsRecord, (packet-IsRecord, tt)) (omega arith) (short unexpected_eof, torn_bytes)

read_record_at-take_example :
    read_record_at (take 2 (1 ∷ 2 ∷ 3 ∷ [])) 0 2 65536 ≡ read_record_at (1 ∷ 2 ∷ 3 ∷ []) 0 2 65536
read_record_at-take_example = read_record_at-take (1 ∷ 2 ∷ 3 ∷ []) 0 2 65536 (omega arith)

read_record_at-append_record_example :
    read_record_at ((9 ∷ []) ++ (append_record packet [] ++ (7 ∷ []))) 1 19 65536
    ≡ ok (some (packet, 1 + size packet))
read_record_at-append_record_example =
    read_record_at-append_record 65536 19 (9 ∷ []) packet (7 ∷ []) packet-IsRecord (omega arith)
      (unfold size in omega arith)
