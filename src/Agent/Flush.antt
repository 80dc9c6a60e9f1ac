-- ===== src/Agent/Flush.antt =====
-- internal/agent/serve_cmd.go: flush sends the batch, and the batch is empty.
use ipcap.Base.{
  ℕ, suc, ◌+◌, ◌≤◌, ◌<◌, ◌≡◌, refl, sym, ap, ◌∙◌, subst, List, [], ◌∷◌, ◌++◌, length, Bool, true,
  false, ◌||◌, leb, leb→lt, arith,
}
use ipcap.Storage.Io.{Sys, pure, modify, gets, ◌>>=◌, ◌>>◌}
use ipcap.Storage.Triple.{
  After, Triple, Triple-weaken, Triple-bind, Triple-then, Triple-modify, Triple-pure, Triple-gets,
  Triple-if,
}
use ipcap.Proto.Types.{frame_pkt_batch, flag_compressed}
use ipcap.Proto.Zstd.{compress_batch}
use ipcap.Proto.Batch.{PktRecord, encode_pkt_batch}
use ipcap.Collector.Demux.ExactlyOnce.{packets}
use ipcap.Agent.Streamer.{Serve, M, Options, send_batch}
use ipcap.Agent.Serve.{flush, flush_batch, is_full, when}
use ipcap.Agent.Log.{Item, packet_batch, weight, Leads}
use ipcap.Agent.Sent.{Rest, Written, Torn, send_frame-Written}
use ipcap.Agent.Notes.{Packets}
use ipcap.Agent.Beat.{Tailing}
use ipcap.Agent.Holding.{Tight, Loose, Flushed, Flushed-Tight, Tight-Loose}

-- A part that runs only if a test of the state holds.
pub Triple-when :
    {P P' I : Serve → Type 0} {Q : Serve → Type 0} (test : Serve → Bool) (m : M (Unit {0}))
    → ((s : Serve) → P s → test s ≡ true → P' s)
    → Triple P' m (λ u s. Q s) I
    → ((s : Serve) → P s → test s ≡ false → Q s)
    → Triple P (gets test >>= λ b. when b m) (λ u s. Q s) I
Triple-when {P} {P'} {I} {Q} test m yes_case t no_case =
    Triple-bind {Q = λ b s. P s × (b ≡ test s)} (Triple-gets test) λ b. branch b
  where
    branch : (b : Bool) → Triple (λ s. P s × (b ≡ test s)) (when b m) (λ u s. Q s) I
    branch true = Triple-weaken t (λ s h. yes_case s h.0 (sym h.1)) (λ u s h. h) (λ s h. h)
    branch false =
        Triple-weaken {Q = λ u s. Q s} (Triple-pure tt) (λ s h. no_case s h.0 (sym h.1))
          (λ u s h. h) (λ s h. h)

module _ (o : Options) (limit : ℕ) (src : ℕ → PktRecord) (preamble : List ℕ) (start : ℕ)
    (room : 0 < o.batch_max_packets) (bytes : 0 < o.batch_max_bytes) where
  abbrev pub Streaming : Packets → Serve → Type 0
  Streaming S = Tailing o limit src preamble start S

  abbrev pub Cut : Serve → Type 0
  Cut = Torn o limit src preamble start

  -- The batch is sent with the number of its first packet.
  module _ (log : List Item) (p : ℕ) (b : List PktRecord) (nonempty : 0 < length b)
      (same : b ≡ packets src p (length b)) (few : length b ≤ o.batch_max_packets)
      (light : weight b < o.batch_max_bytes + (16 + limit)) where
    abbrev AtBatch : Rest
    AtBatch b' n base r files = r.gpidx ≡ p + length b

    abbrev item : Item
    item = packet_batch p b

    sent : Leads o limit src p item (p + length b)
    sent = (refl, same, refl, nonempty, few, light)

    send_batch-Written :
        Triple
          (λ s. Written o limit src preamble start log p s × (s.reader.gpidx ≡ p + length b))
          (send_batch o p b)
          (λ u s.
            Written o limit src preamble start (log ++ (item ∷ [])) (p + length b) s
            × (s.reader.gpidx ≡ p + length b))
          Cut
    unfolding send_batch
    send_batch-Written =
        Triple-if o.compress _ _
          (λ on.
            send_frame-Written o limit src preamble start item frame_pkt_batch flag_compressed p
              (compress_batch o.zstd (encode_pkt_batch b)) refl (λ seq. rw on) log p (p + length b)
              sent AtBatch)
          (λ off.
            send_frame-Written o limit src preamble start item frame_pkt_batch 0 p
              (encode_pkt_batch b) refl (λ seq. rw off) log p (p + length b) sent AtBatch)

  flush_batch-Flushed :
      (b : List PktRecord) (s : Sys Serve)
      → s.state.batch ≡ b
      → Streaming (Loose o limit src) s.state
      → After (λ u. Streaming (Flushed o limit src)) Cut s.faults (flush_batch o b s)
  unfolding flush_batch pure
  flush_batch-Flushed [] s e (log, p, w, ((h, few, light), t)) =
      let none : length s.state.batch ≡ 0 = ap length e in
      ((log, p, w, ((e, h.count ∙ ap weight e, h.position ∙ omega arith), tt)), λ a. a)
  flush_batch-Flushed (x ∷ b) s e (log, p, w, ((h, few, light), t)) =
      let n : length s.state.batch ≡ suc (length b) = ap length e in
      let base : s.state.base_gpidx ≡ p = h.first (omega arith) in
      let ready : Written o limit src preamble start log p s.state
          × (s.state.reader.gpidx ≡ p + length (x ∷ b)) =
        (w, h.position ∙ ap (λ k. p + length k) e) in
      let batch : x ∷ b ≡ packets src p (length (x ∷ b)) =
        subst (λ k. k ≡ packets src p (length k)) e h.same in
      subst
        (λ k.
          After (λ u. Streaming (Flushed o limit src)) Cut s.faults
            ((send_batch o k (x ∷ b) >> modify (λ s. record s { batch = []; batch_bytes = 0 })) s))
        (sym base)
        ((Triple-then
            (send_batch-Written log p (x ∷ b) (omega arith) batch (omega (arith, few, n)) (
              subst (λ k. weight k < o.batch_max_bytes + (16 + limit)) e
                (subst (λ (k : ℕ). k < o.batch_max_bytes + (16 + limit)) h.count light)))
            (λ u.
              Triple-modify (λ s. record s { batch = []; batch_bytes = 0 })
                λ s g. (
                  log ++ (packet_batch p (x ∷ b) ∷ []),
                  p + length (x ∷ b),
                  record { out = g.0.out; seq = g.0.seq; follows = g.0.follows },
                  ((refl, refl, g.1), tt),
                ))).run
          s ready)

  pub flush-Flushed :
      Triple (Streaming (Loose o limit src)) (flush o) (λ u. Streaming (Flushed o limit src)) Cut
  unfolding flush
  flush-Flushed = record { run = λ s h. flush_batch-Flushed s.state.batch s refl h }

  loosen : (s : Serve) → Streaming (Tight o limit src) s → Streaming (Loose o limit src) s
  loosen s (log, p, w, (h, t)) =
      (log, p, w, (Tight-Loose o limit src p s.batch s.batch_bytes s.base_gpidx s.reader h, t))

  pub tighten : (s : Serve) → Streaming (Flushed o limit src) s → Streaming (Tight o limit src) s
  tighten s (log, p, w, (h, t)) = (
    log,
    p,
    w,
    (Flushed-Tight o limit src room bytes p s.batch s.batch_bytes s.base_gpidx s.reader h, t),
  )

  or_false : (a b : Bool) → (a || b) ≡ false → (a ≡ false) × (b ≡ false)
  or_false true b h = cc
  or_false false b h = (refl, h)

  not_full :
      (s : Serve)
      → Streaming (Loose o limit src) s
      → is_full o s ≡ false
      → Streaming (Tight o limit src) s
  not_full s (log, p, w, ((h, few, light), t)) e =
      let parts =
        or_false (leb o.batch_max_packets (length s.batch)) (leb o.batch_max_bytes s.batch_bytes)
          e in
      (log, p, w, ((h, leb→lt _ _ parts.0, leb→lt _ _ parts.1), t))

  pub flush_full-Tight :
      Triple
        (Streaming (Loose o limit src))
        (gets (is_full o) >>= λ full. when full (flush o))
        (λ u. Streaming (Tight o limit src))
        Cut
  flush_full-Tight =
      Triple-when {P' = Streaming (Loose o limit src)} (is_full o) (flush o) (λ s h e. h)
        (Triple-weaken {Q = λ u. Streaming (Flushed o limit src)} flush-Flushed (λ s h. h)
          (λ u. tighten) (λ s h. h))
        not_full

  pub Tight-flush-Flushed :
      Triple (Streaming (Tight o limit src)) (flush o) (λ u. Streaming (Flushed o limit src)) Cut
  Tight-flush-Flushed = Triple-weaken flush-Flushed loosen (λ u s h. h) (λ s h. h)
