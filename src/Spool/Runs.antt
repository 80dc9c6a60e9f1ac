-- ===== src/Spool/Runs.antt =====
-- Concrete directories of a spool, and the theorems on them.
use ipcap.Spool.Position.{Moves, next-Moves}
use ipcap.Base.{ℕ, inl, ◌⊎◌, ◌≡◌, refl, arith, none, some, Result, [], ◌∷◌, ◌++◌, true, false, ok}
use ipcap.Storage.File.{File, empty_file}
use ipcap.Pcap.{GlobalHeader, Record, append_global_header, append_record, record_header}
use ipcap.Pcap.Scan.{encode_records}
use ipcap.Spool.{Segment, blank, torn, entry, Dir, load_manifest, find_segment}
use ipcap.Spool.Manifest.{load_manifest-torn}
use ipcap.Spool.Reader.{Reader, open_reader, owning, exists, next}
use ipcap.Spool.Next.{Holds, next-Holds, behind_packet}
use ipcap.Spool.Writer.{Writer, WriterError, write_packet}
use ipcap.Spool.Durable.{Inv, Safe}
use ipcap.Spool.Promise.{write_packet_promises}
use ipcap.Spool.Janitor.{reap, reap-Kept, Kept}
use ipcap.Spool.Open.{new_writer}
use ipcap.Spool.Numbering.{write_packet_numbers}
use ipcap.Storage.Triple.{After}
use ipcap.Storage.Io.{Sys, fine, fails, gets, syscall, modify, quiet, pure, ◌>>=◌, ◌>>◌}
use ipcap.Spool.Recover.{Recovered, recover_spool}
use ipcap.Spool.Chain.{Chain, segments, Yields, recover_spool-Chain}
use ipcap.Spool.Restart.{recover_spool_restarts}

abbrev ethernet : GlobalHeader
ethernet = record { snaplen = 65536; link_type = 1 }

abbrev packet : Record
packet = record { ts_sec = 1_700_000_000; ts_usec = 5; orig_len = 3; body = 0xaa ∷ 0xbb ∷ [] }

abbrev sealed_segment : ℕ → ℕ → ℕ → Segment
sealed_segment seq start end = record {
  seq = seq;
  start_gpidx = start;
  end_gpidx = end;
  valid_len = 1000;
  sealed = true;
}

abbrev one_packet : File
one_packet = record {
  bytes = append_global_header ethernet [] ++ encode_records (packet ∷ []);
  synced = 42;
}

-- Segments 0 and 1 with 900 packets have been reaped; segment 2 is active and holds one packet.
abbrev reaped : Dir
reaped = record {
  manifest =
      entry (sealed_segment 0 0 400) ∷ (blank ∷ (entry (sealed_segment 1 400 900) ∷ (torn ∷ [])));
  seqs = 2 ∷ [];
  files = λ q. one_packet;
  head_file = none;
}

-- The last entry of a sequence number counts, and entries behind a torn line do not.
lines_read :
    load_manifest (record reaped {
      manifest =
          entry (sealed_segment 1 400 800)
          ∷ (entry (sealed_segment 0 0 400)
              ∷ (entry (sealed_segment 1 400 900)
                  ∷ (torn ∷ (entry (sealed_segment 2 900 950) ∷ []))));
    })
    ≡ sealed_segment 0 0 400 ∷ (sealed_segment 1 400 900 ∷ [])
unfolding load_manifest
lines_read = refl

recover_spool-Chain_example :
    Yields
      (λ r. Chain r.oldest_gpidx (segments r) r.head)
      (recover_spool 65536 1 (record { state = reaped; faults = [] }))
recover_spool-Chain_example = recover_spool-Chain 65536 1 (record { state = reaped; faults = [] })

not_sealed : find_segment 2 (load_manifest reaped) ≡ none
unfolding load_manifest find_segment
not_sealed = refl

-- The head falls from 901 to 1.
recover_spool_restarts_example :
    (r : Recovered) × ((recover_spool 65536 1 (record { state = reaped; faults = [] })).0 ≡ ok r)
    × (r.oldest_gpidx ≡ 0)
    × (r.head ≡ 1)
recover_spool_restarts_example =
    recover_spool_restarts 65536 1 ethernet (packet ∷ []) 2 reaped (omega arith) (omega arith)
      (omega arith) refl refl not_sealed (omega arith)

load_manifest-torn_example :
    load_manifest
      (record reaped { manifest = [] ++ (torn ∷ (entry (sealed_segment 1 400 900) ∷ [])) })
    ≡ load_manifest (record reaped { manifest = [] })
load_manifest-torn_example = load_manifest-torn [] (entry (sealed_segment 1 400 900) ∷ []) reaped

-- A sealed segment of two packets, and a reader at the second.
abbrev two_packets : Dir
two_packets = record {
  manifest = entry (record (sealed_segment 0 7 9) { valid_len = 60 }) ∷ [];
  seqs = 0 ∷ [];
  files = λ q. record {
    bytes = append_global_header ethernet [] ++ encode_records (packet ∷ (packet ∷ []));
    synced = 60;
  };
  head_file = none;
}

abbrev second : Reader
second = (open_reader two_packets 65536 8).0

second_view : second ≡ record {
  snaplen = 65536;
  view = record (sealed_segment 0 7 9) { valid_len = 60 } ∷ [];
  oldest = 7;
  head = 9;
  gpidx = 8;
  file = none;
  offset = 0;
}
unfolding open_reader
second_view = refl

second-Holds :
    Holds two_packets second
      (record (sealed_segment 0 7 9) { valid_len = 60 })
      ethernet
      (packet ∷ [])
      []
      packet
      []
unfolding open_reader owning exists append_global_header append_record record_header
second-Holds = record {
  found = refl;
  there = refl;
  content = refl;
  durable = omega arith;
  number = refl;
  retained = omega arith;
  available = omega arith;
  valid = (omega arith, (omega arith, tt));
  snaplen_bound = omega arith;
  handle = inl refl;
}

next-Holds_example :
    next 3 two_packets second
    ≡ some (
      ok (packet, 8),
      behind_packet two_packets second
          (record (sealed_segment 0 7 9) { valid_len = 60 })
          ethernet
          (packet ∷ [])
          []
          packet
          []
          second-Holds,
    )
unfolding open_reader
next-Holds_example =
    next-Holds two_packets second (record (sealed_segment 0 7 9) { valid_len = 60 }) ethernet
      (packet ∷ []) [] packet [] second-Holds 2

-- A writer on an empty segment 0, which starts at packet 7. Every packet is synced, and a segment of
-- two is full.
abbrev empty_writer : Writer
empty_writer = record {
  cfg = record {
    snaplen = 65536;
    link_type = 1;
    rotate_bytes = 60;
    rotate_interval = 1000;
    sync_bytes = 1;
    sync_interval = 1000;
  };
  file = some 0;
  pos = 24;
  active = record (sealed_segment 0 7 7) { valid_len = 24; sealed = false };
  next_seq = 1;
  sealed = [];
  head = 7;
  oldest_gpidx = 7;
  file_offset = 24;
  durable_len = 24;
  durable_end = 7;
  pending_bytes = 0;
  seg_start = 0;
  last_sync = 0;
  dir = record {
    manifest = [];
    seqs = 0 ∷ [];
    files = λ q. record { bytes = append_global_header ethernet []; synced = 24 };
    head_file = none;
  };
}

abbrev first_packet : Result WriterError ℕ × Sys Writer
first_packet = write_packet 5 packet (record { state = empty_writer; faults = [] })

abbrev second_packet : Result WriterError ℕ × Sys Writer
second_packet = write_packet 6 packet (record { state = first_packet.1.state; faults = [] })

first_packet_advertised :
    (first_packet.0 ≡ ok 7)
    × (first_packet.1.state.dir.head_file
        ≡ some (record (sealed_segment 0 7 8) { valid_len = 42; sealed = false }))
    × ((first_packet.1.state.dir.files 0).synced ≡ 42)
unfolding write_packet gets syscall modify quiet pure ◌>>=◌ ◌>>◌ append_record record_header
    append_global_header
first_packet_advertised = (refl, refl, refl)

-- The second fills the segment: it is sealed, and segment 1 starts at packet 9.
second_packet_rotates :
    (second_packet.0 ≡ ok 8)
    × (second_packet.1.state.dir.manifest
        ≡ entry (record (sealed_segment 0 7 9) { valid_len = 60 }) ∷ [])
    × (second_packet.1.state.dir.head_file
        ≡ some (record (sealed_segment 1 9 9) { valid_len = 24; sealed = false }))
unfolding write_packet gets syscall modify quiet pure ◌>>=◌ ◌>>◌ append_record record_header
    append_global_header
second_packet_rotates = (refl, refl, refl)

-- The sync fails, so that no number is returned.
abbrev sync_fails : Sys Writer
sync_fails = record { state = empty_writer; faults = fine ∷ (fails 0 ∷ []) }

write_packet_numbers_example :
    After
      (λ g w. (g ≡ 7) × (w.head ≡ 8) × ((p : ℕ) × (w.file ≡ some p)))
      (λ w. (w.head ≡ 7) ⊎ (w.head ≡ 8))
      (fine ∷ (fails 0 ∷ []))
      (write_packet 5 packet sync_fails)
write_packet_numbers_example = write_packet_numbers 5 packet 0 sync_fails refl

empty_writer-Inv : Inv 0 empty_writer
unfolding append_global_header
empty_writer-Inv = record {
  opened = refl;
  position = refl;
  size = refl;
  durable = omega arith;
  within = omega arith;
  newer = omega arith;
  known = (tt, tt);
}

write_packet_promises_example :
    After (λ (g : ℕ) w. Inv 0 w) Safe (fine ∷ (fails 0 ∷ [])) (write_packet 5 packet sync_fails)
write_packet_promises_example =
    write_packet_promises 5 packet sync_fails empty_writer-Inv (omega arith)

-- Segments 0 and 1 are sealed, and segment 2 is active; the cap is two of their three files.
abbrev three_segments : Writer
three_segments = record empty_writer {
  active = record (sealed_segment 2 9 9) { sealed = false };
  sealed = sealed_segment 1 8 9 ∷ (sealed_segment 0 7 8 ∷ []);
  dir = record empty_writer.dir { seqs = 0 ∷ (1 ∷ (2 ∷ [])) };
}

oldest_reaped :
    ((reap (λ q. false) 48 three_segments).0 ≡ 1)
    × ((reap (λ q. false) 48 three_segments).1.oldest_gpidx ≡ 8)
unfolding reap append_global_header
oldest_reaped = (refl, refl)

active_there : exists three_segments.active.seq three_segments.dir.seqs ≡ true
unfolding exists
active_there = refl

reap-Kept_example : Kept three_segments (reap (λ q. false) 48 three_segments).1
reap-Kept_example = reap-Kept (λ q. false) 48 three_segments active_there

-- NewWriter on an empty directory makes segment 0 and advertises it.
abbrev empty_dir : Dir
empty_dir = record { manifest = []; seqs = []; files = λ q. empty_file; head_file = none }

abbrev opened_dir : Dir
opened_dir = (new_writer empty_writer.cfg 5 (record { state = empty_dir; faults = [] })).1.state

new_writer_makes :
    (opened_dir.seqs ≡ 0 ∷ [])
    × ((opened_dir.files 0).bytes ≡ append_global_header ethernet [])
    × (opened_dir.head_file
        ≡ some (record (sealed_segment 0 0 0) { valid_len = 24; sealed = false }))
unfolding new_writer gets syscall modify quiet pure ◌>>=◌ ◌>>◌ append_global_header
new_writer_makes = (refl, refl, refl)

next-Moves_example : Moves 8 (next 3 two_packets second)
unfolding open_reader
next-Moves_example = next-Moves 3 two_packets second
