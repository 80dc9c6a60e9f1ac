-- ===== src/Collector/Demux.antt =====
-- internal/collector/demux.go: one connection's frames, deduplicated by packet index and committed.
-- The counters of the metrics are left out; they are never read back.
pub mod Loop
pub mod Dedupe
pub mod ExactlyOnce
use ipcap.Base.{
  sub64, ◌-◌, ◌||◌, Option, some, none, ℕ, zero, suc, ◌+◌, ◌/◌, ◌%◌, ◌^◌, List, [], ◌∷◌, ◌++◌,
  length, Bool, true, false, ltb, leb, if◌then◌else◌, add64, Result, ok, err,
}
use ipcap.Storage.Io.{Io, pure, raise}
use ipcap.Pcap.{Record}
use ipcap.Proto.Batch.{PktRecord}
use ipcap.Proto.Messages.{Gap, decode_gap, Ack, encode_ack}
use ipcap.Proto.Types.{frame_ack}
use ipcap.Proto.Frame.{
  Frame, FrameError, bad_magic, bad_version, hdr_crc, pay_crc, payload_huge, short, append_frame,
}
use ipcap.Proto.Messages.{DecodeError}
use ipcap.Collector.State.{Mirror, CollectorError, forward_jump, bad_gap, M}
use ipcap.Collector.Mirror.{append, new_session, adopt_epoch, reset_for_epoch}
use Prim.Native.String.{String}
use text.Mathlib.Text.{◌==◌ as str_eq}

-- `protoToPcap`
unfoldable pub proto_to_pcap : PktRecord → Record
proto_to_pcap pr = record {
  ts_sec = pr.ts_sec % 2 ^ 32;
  ts_usec = pr.ts_nsec / 1000;
  orig_len = pr.orig_len;
  body = pr.body;
}

-- The loop of `commit` over the records from the `i`-th on.
unfoldable pub keep_loop :
    ℕ → ℕ → ℕ → List Record → List PktRecord → Result CollectorError (List Record)
unfolding proto_to_pcap
keep_loop committed base i keep [] = ok keep
keep_loop committed base i keep (pr ∷ recs) =
    let gp = add64 base i in
    let expected = add64 committed (length keep) in
    let skipped = keep_loop committed base (i + 1) keep recs in
    let kept = keep_loop committed base (i + 1) (keep ++ (proto_to_pcap pr ∷ [])) recs in
    if ltb gp committed
    then skipped
    else if ltb expected gp
    then err (forward_jump gp expected)
    else kept

abbrev pub commit_kept : ℕ → Result CollectorError (List Record) → M (Unit {0})
commit_kept seq (err e) = raise e
commit_kept seq (ok []) = pure tt
commit_kept seq (ok (r ∷ keep)) = append (r ∷ keep) seq

unfoldable pub commit : ℕ → List PktRecord → ℕ → M (Unit {0})
unfolding keep_loop append
commit base recs seq s = commit_kept seq (keep_loop s.state.committed base 0 [] recs) s

-- `handleGap` behind the decoding.
abbrev pub skip_gap : Result DecodeError Gap → M (Unit {0})
skip_gap (err e) s = raise (bad_gap e) s
skip_gap (ok gap) s =
    if leb gap.to_gpidx s.state.committed then pure tt s else new_session gap.to_gpidx s

unfoldable pub handle_gap : List ℕ → M (Unit {0})
unfolding new_session
handle_gap payload = skip_gap (decode_gap payload)

unfoldable pub reconcile_epoch : String → ℕ → M (Unit {0})
unfolding adopt_epoch reset_for_epoch
reconcile_epoch epoch from s =
    let have = s.state.state.epoch in
    if str_eq epoch ""
    then pure tt s
    else if str_eq have ""
    then adopt_epoch epoch s
    else if str_eq have epoch
    then pure tt s
    else reset_for_epoch epoch from s

-- The last three fields of `Demux`; times are in nanoseconds.
pub record Acks : Type 0 where
  pub src_id : ℕ
  pub last_ack_at : ℕ
  pub committed_at : ℕ

abbrev pub ack_due : Bool → ℕ → ℕ → Acks → Bool
ack_due force now committed a =
    force || (leb 256 (sub64 committed a.committed_at) || leb 1_000_000_000 (now - a.last_ack_at))

-- `maybeAck`: the bytes that are sent, if any; `writes` says whether the agent takes them.
unfoldable pub maybe_ack : Bool → ℕ → Bool → Mirror → Acks → Option (List ℕ) × Acks
unfolding append_frame encode_ack
maybe_ack force now writes m a =
    let payload =
      encode_ack
        (record { src_id = a.src_id; acked_gpidx = m.committed; last_seq = m.state.last_seq }) in
    let ack : Frame = record {
      frame_type = frame_ack;
      flags = 0;
      source_id = a.src_id;
      base_gpidx = 0;
      seq = 0;
      payload = payload;
    } in
    if ack_due force now m.committed a
    then if writes
      then (some (append_frame ack []), record a { last_ack_at = now; committed_at = m.committed })
      else (none, a)
    else (none, a)

-- `isCorruptErr` on the errors of ReadFrame.
abbrev pub is_corrupt_err : FrameError → Bool
is_corrupt_err bad_magic = true
is_corrupt_err bad_version = true
is_corrupt_err hdr_crc = true
is_corrupt_err pay_crc = true
is_corrupt_err (payload_huge n) = true
is_corrupt_err (short e) = false
