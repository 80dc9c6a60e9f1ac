-- ===== src/Spool/Open.antt =====
-- internal/spool/spool.go: `NewWriter`, from the directory that recovery leaves.
use ipcap.Base.{ℕ, none, some, List, [], ◌∷◌, false, add64, Result, ok, err}
use ipcap.Storage.Io.{Sys, pure, modify, quiet, ◌>>◌}
use ipcap.Spool.{Segment, SpoolError, Dir}
use ipcap.Spool.Recover.{Recovered, recover_spool}
use ipcap.Spool.Writer.{
  Config, Writer, WriterError, io, recovery, W, apply_defaults, seal_to_manifest, open_new_segment,
  publish_head,
}

abbrev pub started : Config → ℕ → Recovered → Dir → Writer
started cfg now r d = record {
  cfg = cfg;
  file = none;
  pos = 0;
  active = record { seq = 0; start_gpidx = 0; end_gpidx = 0; valid_len = 0; sealed = false };
  next_seq = r.next_seq;
  sealed = r.sealed;
  head = r.head;
  oldest_gpidx = r.oldest_gpidx;
  file_offset = 0;
  durable_len = 0;
  durable_end = 0;
  pending_bytes = 0;
  seg_start = now;
  last_sync = now;
  dir = d;
}

unfoldable pub seal_all : List Segment → W (Unit {0})
unfolding seal_to_manifest
seal_all [] = pure tt
seal_all (s ∷ ss) = seal_to_manifest s >> seal_all ss

abbrev pub resumed : Segment → Writer → Writer
resumed seg w = record w {
  file = some seg.seq;
  pos = seg.valid_len;
  active = seg;
  file_offset = seg.valid_len;
  durable_len = seg.valid_len;
  durable_end = seg.end_gpidx;
}

-- The active segment is opened at its end, or a new one is made.
unfoldable pub open_active : ℕ → Recovered → W (Unit {0})
unfolding open_new_segment
open_active now r = elim r.active [
  | some seg ↦ quiet io >> quiet io >> modify (resumed seg)
  | none ↦
      open_new_segment now r.next_seq r.head
      >> modify (λ w. record w { next_seq = add64 r.next_seq 1 })
]

-- The manifest's open and the two calls of `SyncDir` come first.
unfoldable pub set_up : ℕ → Recovered → W (Unit {0})
unfolding seal_all open_active publish_head
set_up now r =
    quiet io >> quiet io >> quiet io >> seal_all r.reseal >> open_active now r >> publish_head

abbrev pub as_writer :
    Result WriterError (Unit {0}) × Sys Writer → Result WriterError Writer × Sys Dir
as_writer (ok u, s) = (ok s.state, record { state = s.state.dir; faults = s.faults })
as_writer (err e, s) = (err e, record { state = s.state.dir; faults = s.faults })

abbrev pub with_recovered :
    Config → ℕ → Result SpoolError Recovered × Sys Dir → Result WriterError Writer × Sys Dir
with_recovered cfg now (err e, s) = (err (recovery e), s)
with_recovered cfg now (ok r, s) =
    as_writer (set_up now r (record { state = started cfg now r s.state; faults = s.faults }))

-- `NewWriter`, with the making of the directory.
unfoldable pub new_writer : Config → ℕ → Sys Dir → Result WriterError Writer × Sys Dir
unfolding apply_defaults set_up recover_spool
new_writer cfg now s =
    let c = apply_defaults cfg in with_recovered c now (recover_spool c.snaplen c.link_type s)
