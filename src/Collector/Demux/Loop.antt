-- ===== src/Collector/Demux/Loop.antt =====
-- internal/collector/demux.go: Demux.Run, from the preamble to the error that ends the connection.
use Prim.Native.Nat.{bit_and}
use ipcap.Base.{
  ℕ, Option, none, some, List, [], ◌∷◌, ◌++◌, Bool, false, not, ◌&&◌, ◌==◌, if◌then◌else◌, Result,
  ok, err,
}
use ipcap.Storage.Io.{Io, Sys, pure, modify, ◌>>=◌, ◌>>◌}
use ipcap.Proto.Types.{
  frame_pkt_batch, frame_src_info, frame_heartbeat, frame_stats, frame_gap, frame_tls_keylog,
  flag_compressed, skippable,
}
use ipcap.Proto.Frame.{Frame, FrameError, read_frame}
use ipcap.Proto.Zstd.{Zstd, decompress_batch}
use ipcap.Proto.Batch.{PktRecord, decode_pkt_batch}
use ipcap.Proto.Messages.{DecodeError, Heartbeat, decode_heartbeat}
use ipcap.Proto.Preamble.{SrcInfo, PreambleError, Cbor, read_preamble}
use ipcap.Collector.State.{Mirror, CollectorError, io, M}
use ipcap.Collector.Mirror.{set_header}
use ipcap.Collector.Demux.{commit, handle_gap, reconcile_epoch, Acks, maybe_ack}
use ipcap.Collector.KeylogSink.{KeylogSink, write_line}

-- One connection; `ack_out` is what has been sent back to the agent, and a sink may be missing.
pub record Conn : Type 0 where
  pub mirror : Mirror
  pub sink : Option KeylogSink
  pub acks : Acks
  pub head_gpidx : ℕ
  pub ack_out : List ℕ

abbrev pub C : Type 0 → Type 0
C = Io CollectorError Conn

-- How Run ends when no call of the mirror or of the sink fails.
pub data End : Type 0 where
  cancelled bad_compression : End
  bad_preamble : PreambleError → End
  reading : FrameError → End
  bad_batch : DecodeError → End
  unknown_frame : ℕ → End

-- An action of the mirror, in a connection.
abbrev pub back_mirror :
    {A : Type 0} → Conn → Result CollectorError A × Sys Mirror → Result CollectorError A × Sys Conn
back_mirror c (r, s) = (r, record { state = record c { mirror = s.state }; faults = s.faults })

unfoldable pub on_mirror : {A : Type 0} → M A → C A
on_mirror m s = back_mirror s.state (m (record { state = s.state.mirror; faults = s.faults }))

abbrev pub back_sink :
    Conn
    → Result CollectorError (Unit {0}) × Sys KeylogSink
    → Result CollectorError (Unit {0}) × Sys Conn
back_sink c (r, s) = (r, record { state = record c { sink = some s.state }; faults = s.faults })

abbrev pub write_sink : List ℕ → Option KeylogSink → C (Unit {0})
write_sink line none s = pure tt s
write_sink line (some k) s =
    back_sink s.state (write_line io line (record { state = k; faults = s.faults }))

-- `d.keylog.Write`
unfoldable pub write_keylog : List ℕ → C (Unit {0})
unfolding write_line
write_keylog line s = write_sink line s.state.sink s

-- One round of the loop: `now` in nanoseconds, and whether the agent takes an acknowledgement.
pub record Tick : Type 0 where
  pub now : ℕ
  pub writes : Bool

abbrev pub sent_ack : Option (List ℕ) → List ℕ → List ℕ
sent_ack none out = out
sent_ack (some bytes) out = out ++ bytes

unfoldable pub ack : Tick → C (Unit {0})
unfolding maybe_ack
ack t = modify (λ c. record c {
  acks = (maybe_ack false t.now t.writes c.mirror c.acks).1;
  ack_out = sent_ack (maybe_ack false t.now t.writes c.mirror c.acks).0 c.ack_out;
})

-- What the loop does after a frame: it goes on with an acknowledgement or without, or it ends.
pub data Verdict : Type 0 where
  carry_on ignore : Verdict
  stop : End → Verdict

abbrev pub commit_batch : Frame → Result DecodeError (List PktRecord) → C Verdict
commit_batch f (err e) = pure (stop (bad_batch e))
commit_batch f (ok recs) = on_mirror (commit f.base_gpidx recs f.seq) >> pure carry_on

abbrev pub decode_payload : Frame → Option (List ℕ) → C Verdict
decode_payload f none = pure (stop bad_compression)
decode_payload f (some payload) = commit_batch f (decode_pkt_batch payload)

-- A batch.
unfoldable pub handle_batch : Zstd → Frame → C Verdict
unfolding on_mirror commit decompress_batch
handle_batch z f =
    if bit_and f.flags flag_compressed == 0
    then decode_payload f (some f.payload)
    else decode_payload f (decompress_batch z f.payload)

abbrev pub note_head : Result DecodeError Heartbeat → C Verdict
note_head (err e) = pure carry_on
note_head (ok hb) = modify (λ c. record c { head_gpidx = hb.head_gpidx }) >> pure carry_on

-- Frames of other sources than this and 0, but for heartbeats.
abbrev pub is_foreign : ℕ → Frame → Bool
is_foreign src_id f =
    not (f.source_id == src_id) && (not (f.source_id == 0) && not (f.frame_type == frame_heartbeat))

unfoldable pub handle_frame : Zstd → ℕ → Frame → C Verdict
unfolding handle_batch handle_gap write_keylog skippable
handle_frame z src_id f =
    if is_foreign src_id f
    then pure ignore
    else if f.frame_type == frame_pkt_batch
    then handle_batch z f
    else if f.frame_type == frame_gap
    then on_mirror (handle_gap f.payload) >> pure carry_on
    else if f.frame_type == frame_heartbeat
    then note_head (decode_heartbeat f.payload)
    else if f.frame_type == frame_stats
    then pure carry_on
    else if f.frame_type == frame_tls_keylog
    then write_keylog f.payload >> pure carry_on
    else if f.frame_type == frame_src_info
    then pure carry_on
    else if skippable f.frame_type
    then pure carry_on
    else pure (stop (unknown_frame f.frame_type))

abbrev pub proceed : Tick → C End → Verdict → C End
proceed t rest carry_on = ack t >> rest
proceed t rest ignore = rest
proceed t rest (stop e) = pure e

-- The loop over the frames of `bytes`; the context is cancelled when the ticks run out.
unfoldable pub run_frames : Zstd → ℕ → List Tick → List ℕ → C End
unfolding handle_frame ack read_frame
run_frames z src_id [] bytes = pure cancelled
run_frames z src_id (t ∷ ts) bytes = elim (read_frame bytes) [
  | err e ↦ pure (reading e)
  | ok (f, rest) ↦ handle_frame z src_id f >>= proceed t (run_frames z src_id ts rest)
]

-- `pre.ResumeAck[d.srcID]`; a key that is not there gives 0.
unfoldable pub resume_of : ℕ → List (ℕ × ℕ) → ℕ
resume_of src_id [] = 0
resume_of src_id ((k, v) ∷ acks) = if k == src_id then v else resume_of src_id acks

unfoldable pub adopt_sources : ℕ → ℕ → List SrcInfo → M (Unit {0})
unfolding set_header reconcile_epoch
adopt_sources src_id from [] = pure tt
adopt_sources src_id from (s ∷ sources) =
    (if s.id == src_id
      then set_header (record { snaplen = s.snaplen; link_type = s.linktype })
        >> reconcile_epoch s.epoch from
      else pure tt)
    >> adopt_sources src_id from sources

-- `Run`; `now` is the time at which the loop begins.
unfoldable pub run_demux : Cbor → Zstd → ℕ → ℕ → List Tick → List ℕ → C End
unfolding adopt_sources resume_of run_frames read_preamble on_mirror
run_demux c z src_id now ts bytes = elim (read_preamble c bytes) [
  | err e ↦ pure (bad_preamble e)
  | ok (pre, rest) ↦
      on_mirror (adopt_sources src_id (resume_of src_id pre.resume_ack) pre.sources)
      >> modify (λ d. record d {
        acks = record d.acks { committed_at = d.mirror.committed; last_ack_at = now };
      })
      >> run_frames z src_id ts rest
]
