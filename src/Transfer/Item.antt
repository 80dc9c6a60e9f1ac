-- ===== src/Transfer/Item.antt =====
-- internal/collector/demux.go: what one frame of an agent does to a connection.
use ipcap.Base.{
  ℕ, zero, suc, ◌+◌, ◌%◌, ◌^◌, ◌≤◌, ◌<◌, ◌≡◌, refl, sym, ap, ◌∙◌, subst, inl, inr, Option, none,
  some, List, length, take, take-length, All, max, true, false, ==_refl, Bool-cases, ok, arith,
}
use ipcap.Storage.Io.{Sys, pure, ◌>>◌}
use ipcap.Storage.Triple.{After, Triple, Triple-weaken, Triple-then, Triple-pure}
use ipcap.Pcap.{GlobalHeader}
use ipcap.Pcap.Encoding.{IsRecord}
use ipcap.Proto.Types.{
  frame_pkt_batch, frame_heartbeat, frame_stats, frame_tls_keylog, flag_compressed,
}
use ipcap.Proto.Frame.{Frame}
use ipcap.Proto.Zstd.{Inverts, compress_batch, max_decompressed, decompress_batch-compress_batch}
use ipcap.Proto.Batch.{PktRecord, IsPktRecord, encode_pkt_batch, decode_pkt_batch}
use ipcap.Proto.Batch.RoundTrip.{decode_pkt_batch-encode_pkt_batch}
use ipcap.Proto.Messages.{decode_heartbeat}
use ipcap.Collector.State.{io}
use ipcap.Collector.Demux.{commit, proto_to_pcap}
use ipcap.Collector.Demux.ExactlyOnce.{packets, length-packets}
use ipcap.Collector.KeylogSink.{KeylogSink}
use ipcap.Collector.KeylogSink.Unique.{write_line-After}
use ipcap.Collector.Demux.Loop.{
  Conn, C, Verdict, carry_on, on_mirror, write_sink, write_keylog, handle_batch, handle_frame,
  is_foreign,
}
use ipcap.Agent.Streamer.{Options}
use ipcap.Agent.Log.{packet_batch, IsNote, item_frame, plain_frame}
use ipcap.Transfer.Held.{At, Failed, commit-At, note_head-At, back_sink-At}

module _ (gh : GlobalHeader) (src : ℕ → PktRecord)
    (valid : (i : ℕ) → IsRecord gh.snaplen (proto_to_pcap (src i))) (session_start : ℕ) where
  abbrev Here : ℕ → Conn → Type 0
  Here = At gh src valid session_start

  abbrev Stopped : ℕ → ℕ → Conn → Type 0
  Stopped = Failed gh src valid session_start

  -- A frame that the agent of this source wrote.
  module _ (o : Options) (inflates : Inverts o.zstd) (checked : (i : ℕ) → IsPktRecord (src i)) where
    abbrev pub handled : Frame → C Verdict
    handled = handle_frame o.zstd o.src_id

    own :
        (t flags base seq : ℕ) (payload : List ℕ)
        → is_foreign o.src_id (plain_frame o t flags base payload seq) ≡ false
    own t flags base seq payload = rw (==_refl o.src_id)

    write_keylog-At :
        (c m : ℕ) (line : List ℕ)
        → c ≤ m
        → Triple (Here c) (write_keylog line) (λ u. Here c) (Stopped c m)
    unfolding write_keylog pure
    write_keylog-At c m line le = record { run = λ s h. written s.state.sink s h }
      where
        written :
            (sink : Option KeylogSink) (s : Sys Conn)
            → Here c s.state
            → After (λ u. Here c) (Stopped c m) s.faults (write_sink line sink s)
        written none s h = (h, λ a. a)
        written (some k) s h =
            back_sink-At gh src valid session_start c m s.state s.faults _ le h
              (write_line-After io line (record { state = k; faults = s.faults }))

    passed :
        (c m : ℕ) (a : C (Unit {0}))
        → Triple (Here c) a (λ u. Here c) (Stopped c m)
        → Triple
            (Here c)
            (a >> pure carry_on)
            (λ v conn. (v ≡ carry_on) × Here c conn)
            (Stopped c m)
    passed c m a t = Triple-then {Q = λ u. Here c} t (λ u.
        Triple-weaken {Q = λ v conn. (v ≡ carry_on) × Here c conn} (Triple-pure carry_on)
          (λ s h. (refl, h)) (λ v s h. h) (λ s h. h))

    abbrev pub Passes : ℕ → ℕ → ℕ → Frame → Type 0
    Passes c c' m f =
        Triple (Here c) (handled f) (λ v conn. (v ≡ carry_on) × Here c' conn) (Stopped c m)

    heartbeat-Passes :
        (c m seq : ℕ) (payload : List ℕ)
        → Passes c c m (plain_frame o frame_heartbeat 0 0 payload seq)
    unfolding handle_frame
    heartbeat-Passes c m seq payload =
        rw (own frame_heartbeat 0 0 seq payload)
          (note_head-At gh src valid session_start c m (decode_heartbeat payload))

    stats-Passes :
        (c m seq : ℕ) (payload : List ℕ) → Passes c c m (plain_frame o frame_stats 0 0 payload seq)
    unfolding handle_frame
    stats-Passes c m seq payload = rw (own frame_stats 0 0 seq payload) (
        Triple-weaken {Q = λ v conn. (v ≡ carry_on) × Here c conn} (Triple-pure carry_on)
          (λ s h. (refl, h)) (λ v s h. h) (λ s h. h))

    keylog-Passes :
        (c m seq : ℕ) (line : List ℕ)
        → c ≤ m
        → Passes c c m (plain_frame o frame_tls_keylog 0 0 line seq)
    unfolding handle_frame
    keylog-Passes c m seq line le =
        rw (own frame_tls_keylog 0 0 seq line)
          (passed c m (write_keylog line) (write_keylog-At c m line le))

    pub note-Passes :
        (c m seq t : ℕ) (payload : List ℕ)
        → c ≤ m
        → IsNote t
        → Passes c c m (plain_frame o t 0 0 payload seq)
    note-Passes c m seq t payload le (inl e) =
        subst (λ k. Passes c c m (plain_frame o k 0 0 payload seq)) (sym e)
          (heartbeat-Passes c m seq payload)
    note-Passes c m seq t payload le (inr (inl e)) =
        subst (λ k. Passes c c m (plain_frame o k 0 0 payload seq)) (sym e)
          (stats-Passes c m seq payload)
    note-Passes c m seq t payload le (inr (inr e)) =
        subst (λ k. Passes c c m (plain_frame o k 0 0 payload seq)) (sym e)
          (keylog-Passes c m seq payload le)

    all_checked : (p n : ℕ) → All IsPktRecord (packets src p n)
    all_checked p zero = tt
    all_checked p (suc n) = (checked p, all_checked (p + 1) n)

    decoded :
        (p n : ℕ)
        → n < 2 ^ 16
        → decode_pkt_batch (encode_pkt_batch (packets src p n)) ≡ ok (packets src p n)
    decoded p n small =
        let count : length (packets src p n) % 2 ^ 16 ≡ length (packets src p n) =
          omega (arith, length-packets src p n) in
        decode_pkt_batch-encode_pkt_batch (packets src p n) (all_checked p n)
        ∙ ap (λ k. ok (take k (packets src p n))) count
        ∙ ap ok (take-length (packets src p n))

    pub batch-Passes :
        (c m p n seq : ℕ)
        → p ≤ c
        → p + n < 2 ^ 64
        → n < 2 ^ 16
        → max c (p + n) ≤ m
        → (o.compress ≡ true → length (encode_pkt_batch (packets src p n)) ≤ max_decompressed)
        → Passes c (max c (p + n)) m (item_frame o (packet_batch p (packets src p n)) seq)
    unfolding handle_frame handle_batch
    batch-Passes c m p n seq le small few within room = elim (Bool-cases o.compress) [
      | inl on ↦
          rw
            (
              on,
              own frame_pkt_batch flag_compressed p seq
                  (compress_batch o.zstd (encode_pkt_batch (packets src p n))),
              decompress_batch-compress_batch o.zstd (encode_pkt_batch (packets src p n)) inflates
                  (room on),
              decoded p n few,
            )
            (committed)
      | inr off ↦
          rw
            (off, own frame_pkt_batch 0 p seq (encode_pkt_batch (packets src p n)), decoded p n few)
            (committed)
    ]
      where
        committed :
            Triple
              (Here c)
              (on_mirror (commit p (packets src p n) seq) >> pure carry_on)
              (λ v conn. (v ≡ carry_on) × Here (max c (p + n)) conn)
              (Stopped c m)
        committed =
            Triple-then {Q = λ u. Here (max c (p + n))}
              (commit-At gh src valid session_start c m p n seq le small within)
              (λ u.
                Triple-weaken {Q = λ v conn. (v ≡ carry_on) × Here (max c (p + n)) conn}
                  (Triple-pure carry_on) (λ s h. (refl, h)) (λ v s h. h) (λ s h. h))
