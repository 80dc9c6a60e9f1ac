-- ===== src/Collector/Runs.antt =====
-- Concrete runs of the mirror and the demux, and the theorems at concrete inputs.
use ipcap.Base.{ok, err, true}
use ipcap.Keylog.{codes, valid, trim_space, contains}
use ipcap.Collector.State.{io}
use ipcap.Collector.KeylogSink.{KeylogSink, write_line, open_sink}
use ipcap.Collector.KeylogSink.Unique.{Clean, Cut, write_line-Clean, write_line-lost}
use ipcap.Base.{
  ℕ, zero, suc, ◌≡◌, refl, arith, none, some, List, [], ◌∷◌, ◌++◌, inl, ◌⊎◌, ok, err, map, drop,
  take,
}
use ipcap.Storage.Io.{Fault, fine, fails, Sys}
use ipcap.Storage.Triple.{After}
use ipcap.Storage.File.{File, empty_file, CrashedFile}
use ipcap.Pcap.{GlobalHeader, Record, append_global_header}
use ipcap.Pcap.Encoding.{IsRecord}
use ipcap.Proto.Batch.{PktRecord}
use ipcap.Collector.State.{Mirror, Disk, forward_jump, zero_state}
use ipcap.Collector.Mirror.{append, open_mirror, new_mirror}
use ipcap.Collector.Mirror.Stored.{Stored, advanced}
use ipcap.Collector.Mirror.Recoverable.{image, Counts, Fronts, Recoverable}
use ipcap.Collector.Mirror.Commit.{append_commits}
use ipcap.Collector.Mirror.Retry.{Retried, second_try, append_retry_torn, append_retry_unpublished}
use ipcap.Pcap.Scan.{encode_records}
use ipcap.Collector.Mirror.Reopen.{open_mirror_recovers}
use ipcap.Collector.Demux.{proto_to_pcap, keep_loop, commit}
use ipcap.Collector.Demux.Dedupe.{keep_loop-eq-drop, commit_ahead}
use ipcap.Collector.Demux.ExactlyOnce.{packets, Holds, commit_exactly_once, Committed, Stopped}

abbrev pub ethernet : GlobalHeader
ethernet = record { snaplen = 65536; link_type = 1 }

abbrev pub packet : Record
packet = record { ts_sec = 1_700_000_000; ts_usec = 5; orig_len = 3; body = 0xaa ∷ 0xbb ∷ [] }

-- A directory with one session that holds a header, and the mirror on it.
abbrev pub header_file : File
header_file = record { bytes = image ethernet []; synced = 24 }

abbrev pub fresh_disk : Disk
fresh_disk = record {
  files = λ q. elim q [ zero ↦ header_file | suc p ↦ empty_file ];
  resume = none;
  resume_synced = none;
}

abbrev pub fresh_mirror : Mirror
fresh_mirror = record (new_mirror ethernet fresh_disk) {
  file = some 0;
  pos = 24;
  file_len = 24;
  committed_len = 24;
}

abbrev fresh_counts : Counts zero_state 0 []
fresh_counts = record { session = refl; count = refl; bound = omega arith }

fresh-Stored : Stored ethernet zero_state [] fresh_mirror
unfolding append_global_header
fresh-Stored = record {
  stage = record {
    header = refl;
    in_memory = refl;
    on_disk_now = refl;
    on_disk_safe = refl;
    bytes = refl;
    durable = refl;
  };
  handle = record { opened = refl; position = refl; counted = refl };
  counts = fresh_counts;
  shown = record {
    committed = refl;
    session_start = refl;
    session_seq = refl;
    committed_len = refl;
  };
  valid = tt;
}

pub packet-IsRecord : IsRecord 65536 packet
packet-IsRecord = omega arith

-- The second call, the sync of the file, fails.
abbrev sync_fails : List Fault
sync_fails = fine ∷ fails 0 ∷ []

append_commits_example :
    After
      (λ (a : Unit {0}) m. Stored ethernet (advanced zero_state 1 9) (packet ∷ []) m)
      (λ m. Recoverable ethernet 0 [] (packet ∷ []) m.disk)
      sync_fails
      (append (packet ∷ []) 9 (record { state = fresh_mirror; faults = sync_fails }))
append_commits_example =
    append_commits ethernet zero_state [] (packet ∷ []) 9
      (record { state = fresh_mirror; faults = sync_fails }) fresh-Stored (packet-IsRecord, tt) (cc)
      (omega arith)

-- A crash behind a torn write of the packet.
abbrev torn_disk : Disk
torn_disk = record fresh_disk {
  files = λ q. elim q [
    | zero ↦ record { bytes = image ethernet [] ++ (1 ∷ 2 ∷ 3 ∷ []); synced = 24 }
    | suc p ↦ empty_file
  ];
}

abbrev crashed_disk : Disk
crashed_disk = record fresh_disk {
  files = λ q. elim q [
    | zero ↦ record { bytes = image ethernet [] ++ (1 ∷ []); synced = 25 }
    | suc p ↦ empty_file
  ];
}

torn_disk-Recoverable : Recoverable ethernet 0 [] (packet ∷ []) torn_disk
unfolding append_global_header
torn_disk-Recoverable =
    let c : Fronts ethernet [] (torn_disk.files 0) = record {
      rest = 1 ∷ 2 ∷ 3 ∷ [];
      front = refl;
      enough = omega arith;
      valid = tt;
    } in
    record { now = inl (fresh_counts, c); later = inl (fresh_counts, c) }

crashed_file : (q : ℕ) → CrashedFile (torn_disk.files q) (crashed_disk.files q)
unfolding append_global_header
crashed_file zero = record { kept = 25; enough = omega arith; front = refl; settled = refl }
crashed_file (suc q) = record { kept = 0; enough = omega arith; front = refl; settled = refl }

open_mirror_recovers_example :
    After
      (λ (a : Unit {0}) m.
        Stored ethernet zero_state [] m ⊎ Stored ethernet zero_state (packet ∷ []) m)
      (λ m. Recoverable ethernet 0 [] (packet ∷ []) m.disk)
      (fine ∷ [])
      (open_mirror (record { state = new_mirror ethernet crashed_disk; faults = fine ∷ [] }))
open_mirror_recovers_example =
    open_mirror_recovers ethernet 0 [] (packet ∷ []) torn_disk crashed_disk (fine ∷ [])
      (record { which = inl refl; settled = refl; crashed = crashed_file }) torn_disk-Recoverable
      (omega arith)

-- A source whose packets differ by their number only.
abbrev pub source : ℕ → PktRecord
source i = record {
  ts_sec = 1_700_000_000;
  ts_nsec = 5000;
  orig_len = 3;
  cap_len = 2;
  body = 0xaa ∷ 0xbb ∷ [];
}

pub source-IsRecord : (i : ℕ) → IsRecord 65536 (proto_to_pcap (source i))
unfolding proto_to_pcap
source-IsRecord i = omega arith

-- The first two of three packets are behind the commit point.
keep_loop-eq-drop_example :
    keep_loop 7 5 0 [] (packets source 5 3) ≡ ok (map proto_to_pcap (drop 2 (packets source 5 3)))
keep_loop-eq-drop_example = keep_loop-eq-drop 7 5 (packets source 5 3) (omega arith) (omega arith)

commit_ahead_example :
    commit 5 (source 5 ∷ []) 1 (record { state = fresh_mirror; faults = [] })
    ≡ (err (forward_jump 5 0), record { state = fresh_mirror; faults = [] })
commit_ahead_example =
    commit_ahead 5 1 (source 5) [] (record { state = fresh_mirror; faults = [] }) (omega arith)
      (omega arith)

pub fresh-Holds : Holds ethernet source source-IsRecord zero_state fresh_mirror
fresh-Holds = record { stored = fresh-Stored }

abbrev fresh_run : Sys Mirror
fresh_run = record { state = fresh_mirror; faults = [] }

commit_exactly_once_example :
    After
      (Committed ethernet source source-IsRecord zero_state 3)
      (Stopped ethernet source source-IsRecord zero_state 3)
      []
      (commit 0 (packets source 0 3) 1 fresh_run)
commit_exactly_once_example =
    commit_exactly_once ethernet source source-IsRecord zero_state 0 3 1 fresh_run fresh-Holds
      (omega arith) (omega arith)

append_retry_torn_example :
    Retried 0
      (image ethernet [] ++ (take 3 (encode_records (packet ∷ [])) ++ encode_records (packet ∷ [])))
      1
      (second_try (packet ∷ []) 9 (fails 3 ∷ []) fresh_mirror)
append_retry_torn_example =
    append_retry_torn ethernet zero_state [] [] packet 9 fresh_mirror fresh-Stored 3

append_retry_unpublished_example :
    Retried 0
      (image ethernet [] ++ (encode_records (packet ∷ []) ++ encode_records (packet ∷ [])))
      2
      (second_try (packet ∷ []) 9 (fine ∷ fine ∷ fails 0 ∷ []) fresh_mirror)
append_retry_unpublished_example =
    append_retry_unpublished ethernet zero_state [] [] packet 9 fresh_mirror fresh-Stored

abbrev key_line : List ℕ
key_line = codes "CLIENT_RANDOM ab cd" ++ (10 ∷ [])

abbrev empty_sink : KeylogSink
empty_sink = record { file = []; seen = [] }

-- A line that is there is in the set of an opened sink.
primed_key : (open_sink (codes "junk" ++ (10 ∷ key_line))).seen ≡ codes "CLIENT_RANDOM ab cd" ∷ []
unfolding open_sink valid trim_space
primed_key = refl

key_line-valid : valid key_line ≡ true
unfolding valid
key_line-valid = refl

write_line-Clean_example :
    After
      (λ u. Clean)
      Cut
      (fine ∷ [])
      (write_line io key_line (record { state = empty_sink; faults = fine ∷ [] }))
write_line-Clean_example =
    write_line-Clean io key_line (record { state = empty_sink; faults = fine ∷ [] })
      (record { holds = refl; keys = tt })

write_line-lost_example :
    (k' : KeylogSink) × (write_line io key_line
        (record { state = empty_sink; faults = fails 0 ∷ [] })
      ≡ (err io, record { state = k'; faults = [] }))
    × (k'.file ≡ [])
    × (write_line io key_line (record { state = k'; faults = [] })
        ≡ (ok tt, record { state = k'; faults = [] }))
unfolding contains
write_line-lost_example = write_line-lost io key_line [] [] empty_sink key_line-valid refl
