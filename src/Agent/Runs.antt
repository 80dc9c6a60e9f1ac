-- ===== src/Agent/Runs.antt =====
-- Tests of the streamer, and the theorem on its stream at a spool of two packets.
use ipcap.Base.{
  ℕ, ◌≡◌, refl, ap, subst, none, some, List, [], ◌∷◌, ◌++◌, true, false, Result, ok, err, arith,
}
use ipcap.Storage.Io.{Sys, pure, gets, modify, syscall, ◌>>=◌, ◌>>◌}
use ipcap.Storage.File.{File}
use ipcap.Storage.Triple.{After}
use ipcap.Pcap.{
  GlobalHeader, Record, append_global_header, append_record, record_header, read_at,
  parse_record_header,
}
use ipcap.Pcap.Scan.{encode_records}
use ipcap.Proto.Batch.{PktRecord}
use ipcap.Proto.Preamble.{Cbor, write_preamble}
use ipcap.Spool.{Segment, entry, Dir}
use ipcap.Spool.Reader.{Reader, open_reader, next, source_header}
use ipcap.Keylog.{codes}
use ipcap.Agent.Streamer.{Serve, ServeError, Options, pcap_to_proto}
use ipcap.Agent.Tailer.{cut_line}
use ipcap.Agent.Serve.{Round, with_defaults, serve_header, begin, run_serve}
use ipcap.Agent.Handle.{Answers}
use ipcap.Agent.Rounds.{Serves}
use ipcap.Agent.Stream.{fresh, Served, Broken, run_serve-Served}

abbrev ethernet : GlobalHeader
ethernet = record { snaplen = 65535; link_type = 1 }

abbrev packet : Record
packet = record { ts_sec = 100; ts_usec = 5; orig_len = 2; body = 0xab ∷ 0xcd ∷ [] }

abbrev file : File
file = record {
  bytes = append_global_header ethernet [] ++ encode_records (packet ∷ (packet ∷ []));
  synced = 60;
}

abbrev segment : Segment
segment = record { seq = 0; start_gpidx = 7; end_gpidx = 9; valid_len = 60; sealed = true }

abbrev spool : Dir
spool = record { manifest = entry segment ∷ []; seqs = 0 ∷ []; files = λ q. file; head_file = none }

abbrev options : Options
options = record {
  src_id = 1;
  compress = false;
  zstd = record { encode_all = λ b. b; decode_all = λ n b. some b };
  batch_max_packets = 0;
  batch_max_bytes = 0;
}

abbrev cbor : Cbor
cbor = record { marshal = λ h. ok (0xa0 ∷ []); unmarshal = λ b. err tt }

abbrev at_rest : Round
at_rest = record {
  dir = spool;
  fuel = 3;
  now = 0;
  wall = 0;
  sources = ("a.log", some (codes "x")) ∷ [];
  stats = none;
}

abbrev reader : Reader
reader = (open_reader spool 65535 3).0

abbrev start_state : Sys Serve
start_state = record { state = fresh reader; faults = [] }

two_lines : cut_line (codes "ab" ++ (10 ∷ codes "c")) ≡ some (codes "ab", codes "c")
unfolding cut_line
two_lines = refl

abbrev source : ℕ → PktRecord
source i = pcap_to_proto packet

abbrev begun : Result ServeError (Unit {0}) × Sys Serve
begun = begin cbor (with_defaults options) "eth0" 3 spool ethernet "e1" start_state

header_bytes :
    (bytes : List ℕ) × (write_preamble cbor
        (serve_header (with_defaults options) "eth0" ethernet "e1" 7)
      ≡ ok bytes)
unfolding write_preamble
header_bytes = (_, refl)

header_found : source_header spool (0 ∷ []) ≡ ok ethernet
unfolding source_header append_global_header append_record record_header
header_found = refl

opened_at : open_reader spool 65535 3 ≡ (reader, 7, true)
unfolding open_reader
opened_at = refl

first_answer : Answers 100 source at_rest begun.1.state.reader
unfolding next begin write_preamble modify ◌>>=◌ ◌>>◌ syscall gets pure append_global_header
    append_record record_header read_at parse_record_header
first_answer = (
  ok (packet, 7),
  record reader { file = some 0; offset = 42; gpidx = 8 },
  refl,
  (refl, omega arith, omega arith),
)

Serves-first :
    (s : Sys Serve)
    → begun ≡ (ok tt, s)
    → Serves (with_defaults options) 100 source (at_rest ∷ []) s
Serves-first s e =
    subst (λ (x : Sys Serve). Serves (with_defaults options) 100 source (at_rest ∷ []) x)
      (ap (λ (r : Result ServeError (Unit {0}) × Sys Serve). r.1) e) (first_answer, tt, λ s' f. tt)

run_serve-Served_example :
    After
      (λ u. Served cbor options "eth0" 3 spool ethernet "e1" 100 source header_bytes.0)
      (Broken cbor options "eth0" 3 spool ethernet "e1" 100 source header_bytes.0)
      []
      (run_serve cbor options "eth0" 3 spool (0 ∷ []) "e1" (at_rest ∷ []) start_state)
unfolding open_reader
run_serve-Served_example =
    run_serve-Served cbor options "eth0" 3 spool ethernet "e1" 100 source header_bytes.0 (0 ∷ [])
      (at_rest ∷ []) reader start_state refl header_found header_bytes.1 Serves-first
