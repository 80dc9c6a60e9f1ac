-- ===== src/Agent/Serve.antt =====
-- internal/agent/serve_cmd.go: RunServe, which drains the spool from a packet number on. The second
-- goroutine, which only looks for the end of the collector's side, is left out: it may end the loop
-- between any two rounds.
use Prim.Native.String.{String}
use ipcap.Base.{
  ℕ, ◌+◌, ◌-◌, Option, none, some, List, [], ◌∷◌, ◌++◌, ◌%◌, ◌^◌, length, take, Bool, true, false,
  ◌||◌, leb, ◌==◌, if◌then◌else◌, Result, ok, err,
}
use ipcap.Storage.Io.{pure, raise, gets, modify, syscall, quiet, ◌>>=◌, ◌>>◌}
use ipcap.Pcap.{GlobalHeader, Record, record_header_len}
use ipcap.Proto.Preamble.{PreambleHeader, PreambleError, Cbor, write_preamble}
use ipcap.Proto.Batch.{PktRecord}
use ipcap.Spool.{Dir}
use ipcap.Spool.Reader.{Reader, ReaderError, no_data, reaped, next, open_reader, source_header}
use ipcap.Agent.Streamer.{
  Serve, io, encoding, stuck, reading, M, Options, pcap_to_proto, send_batch, send_heartbeat,
  send_stats, send_gap,
}
use ipcap.Agent.Tailer.{emit_new}

-- What one round of the loop meets: the spool's directory, the clock (`now` in nanoseconds since the
-- stream began, `wall` since 1970), the key log files, and the statistics (`none` where there are
-- none to read).
pub record Round : Type 0 where
  pub dir : Dir
  pub fuel : ℕ
  pub now : ℕ
  pub wall : ℕ
  pub sources : List (String × Option (List ℕ))
  pub stats : Option (Option (List ℕ))

unfoldable pub flush_batch : Options → List PktRecord → M (Unit {0})
unfolding send_batch
flush_batch o [] s = pure tt s
flush_batch o (p ∷ ps) s =
    (send_batch o s.state.base_gpidx (p ∷ ps)
        >> modify (λ s. record s { batch = []; batch_bytes = 0 }))
      s

-- `flush`
unfoldable pub flush : Options → M (Unit {0})
unfolding flush_batch
flush o s = flush_batch o s.state.batch s

unfoldable pub beat_stats : Options → Option (Option (List ℕ)) → M (Unit {0})
unfolding send_stats
beat_stats o none = pure tt
beat_stats o (some payload) = send_stats o payload

-- `beat`
unfoldable pub beat : Options → Round → M (Unit {0})
unfolding emit_new beat_stats send_heartbeat
beat o w =
    emit_new o w.sources
    >> quiet io
    >> modify (λ s. record s { last_beat = w.now })
    >> beat_stats o w.stats
    >> (gets (λ s. s.reader.head) >>= send_heartbeat o w.wall)

abbrev pub is_full : Options → Serve → Bool
is_full o s = leb o.batch_max_packets (length s.batch) || leb o.batch_max_bytes s.batch_bytes

-- `time.Since(lastBeat) >= time.Second`
abbrev pub beat_due : Round → Serve → Bool
beat_due w s = leb 1_000_000_000 (w.now - s.last_beat)

abbrev pub base_of : List PktRecord → ℕ → ℕ → ℕ
base_of [] base gp = gp
base_of (p ∷ ps) base gp = base

abbrev pub added : Record → ℕ → Serve → Serve
added rec gp s = record s {
  base_gpidx = base_of s.batch s.base_gpidx gp;
  batch = s.batch ++ (pcap_to_proto rec ∷ []);
  batch_bytes = s.batch_bytes + (record_header_len + length rec.body);
}

abbrev pub when : Bool → M (Unit {0}) → M (Unit {0})
when true m = m
when false m = pure tt

-- A packet of the reader.
unfoldable pub take_packet : Options → Round → Record → ℕ → M (Unit {0})
unfolding flush beat pcap_to_proto
take_packet o w rec gp =
    modify (added rec gp)
    >> (gets (is_full o) >>= λ full. when full (flush o))
    >> (gets (beat_due w) >>= λ due. when due (beat o w))

-- No packet is there.
unfoldable pub wait_for_data : Options → Round → M (Unit {0})
unfolding flush beat
wait_for_data o w = flush o >> beat o w

abbrev pub reopen : Dir → Serve → Serve
reopen d s = record s { reader = (open_reader d s.reader.snaplen s.reader.gpidx).0 }

-- The packets of the reader's position are gone: the reader begins again behind them.
unfoldable pub skip_reaped : Options → Dir → M (Unit {0})
unfolding flush open_reader send_gap
skip_reaped o d =
    flush o
    >> (gets (λ s. s.reader.gpidx) >>= λ lost_from.
        modify (reopen d) >> (gets (λ s. s.reader.gpidx) >>= send_gap o lost_from))

unfoldable pub handle : Options → Round → Result ReaderError (Record × ℕ) → M (Unit {0})
unfolding take_packet wait_for_data skip_reaped
handle o w (ok (rec, gp)) = take_packet o w rec gp
handle o w (err no_data) = wait_for_data o w
handle o w (err reaped) = skip_reaped o w.dir
handle o w (err e) = raise (reading e)

abbrev pub handle_next :
    Options → Round → Option (Result ReaderError (Record × ℕ) × Reader) → M (Unit {0})
handle_next o w none = raise stuck
handle_next o w (some (result, r)) = modify (λ s. record s { reader = r }) >> handle o w result

-- One round of the loop.
unfoldable pub round : Options → Round → M (Unit {0})
unfolding next handle
round o w s = handle_next o w (next w.fuel w.dir s.state.reader) s

unfoldable pub rounds : Options → List Round → M (Unit {0})
unfolding round
rounds o [] = pure tt
rounds o (w ∷ ws) = round o w >> rounds o ws

-- The limits of a batch with their defaults.
unfoldable pub with_defaults : Options → Options
with_defaults o = record o {
  batch_max_packets = if o.batch_max_packets == 0 then 256 else o.batch_max_packets;
  batch_max_bytes = if o.batch_max_bytes == 0 then 2 ^ 20 else o.batch_max_bytes;
}

-- The header that RunServe sends, for a stream that begins at `from`.
unfoldable pub serve_header : Options → String → GlobalHeader → String → ℕ → PreambleHeader
serve_header o name gh epoch from = record {
  compression = if o.compress then "zstd" else "none";
  sources =
      (record {
        id = o.src_id;
        name = name;
        linktype = gh.link_type % 2 ^ 16;
        snaplen = gh.snaplen;
        kind = "afpacket";
        epoch = epoch;
      })
      ∷ [];
  resume_ack = (o.src_id, from) ∷ [];
}

-- `proto.WritePreamble` on the bytes or the error of the header's encoding.
unfoldable pub write_header : Result PreambleError (List ℕ) → M (Unit {0})
write_header (err e) = raise encoding
write_header (ok preamble) =
    syscall io (λ s. record s { out = s.out ++ preamble })
      (λ n s. record s { out = s.out ++ take n preamble })

-- What stands before the loop: the reader at the position where the stream begins, the preamble, and
-- the gap where the packets at `resume` were reaped.
unfoldable pub begin : Cbor → Options → String → ℕ → Dir → GlobalHeader → String → M (Unit {0})
unfolding open_reader write_header serve_header send_gap
begin c o name resume d gh epoch =
    let opened = open_reader d gh.snaplen resume in
    modify (λ s. record s { reader = opened.0 })
    >> write_header (write_preamble c (serve_header o name gh epoch opened.1))
    >> when opened.2 (send_gap o resume opened.1)

-- `RunServe` for as many rounds as `ws` has; `seqs` are the segment files in the order of their
-- names, and the spool's epoch is given.
unfoldable pub run_serve :
    Cbor → Options → String → ℕ → Dir → List ℕ → String → List Round → M (Unit {0})
unfolding with_defaults source_header begin rounds
run_serve c o name resume d seqs epoch ws = elim (source_header d seqs) [
  | err e ↦ raise (reading e)
  | ok gh ↦ begin c (with_defaults o) name resume d gh epoch >> rounds (with_defaults o) ws
]
