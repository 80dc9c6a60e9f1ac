-- ===== src/Transfer/Delivery.antt =====
-- The agent's stream and the collector's loop over it: internal/agent/serve_cmd.go and
-- internal/collector/demux.go.
use ipcap.Base.{
  ℕ, zero, suc, ◌+◌, ◌*◌, true, ◌-◌, ◌^◌, ◌≤◌, ◌<◌, ◌≡◌, refl, ap, ◌∙◌, subst, inl, inr, List, [],
  ◌∷◌, ◌++◌, length, take, take-append_le, take-append_ge, max, ltb, ltb→lt, ltb→le, Bool-cases,
  err, arith,
}
use ipcap.Storage.Io.{Sys, pure}
use ipcap.Storage.Triple.{After, Triple, Triple-weaken, Triple-pure}
use ipcap.Bytes.{eof, read_full}
use ipcap.Pcap.{GlobalHeader}
use ipcap.Pcap.Encoding.{IsRecord}
use ipcap.Proto.Frame.{FrameError, short, append_frame, read_frame}
use ipcap.Proto.Frame.Cut.{read_frame-cut}
use ipcap.Proto.Zstd.{Inverts, max_decompressed}
use ipcap.Proto.Batch.{PktRecord, IsPktRecord}
use ipcap.Collector.State.{CollectorError}
use ipcap.Collector.Demux.{proto_to_pcap}
use ipcap.Collector.Demux.Loop.{Conn, End, cancelled, reading, Tick, run_frames}
use ipcap.Agent.Streamer.{Options}
use ipcap.Agent.Log.{Item, item_type, item_frame, bump, wire, Follows}
use ipcap.Transfer.Held.{At, Failed}
use ipcap.Transfer.Step.{HasNoGap, AreFrames, Follows-le, split_gaps, item-Passing, step}

module _ (gh : GlobalHeader) (src : ℕ → PktRecord)
    (valid : (i : ℕ) → IsRecord gh.snaplen (proto_to_pcap (src i))) (session_start : ℕ)
    (o : Options) (inflates : Inverts o.zstd) (checked : (i : ℕ) → IsPktRecord (src i)) (limit : ℕ)
    (few : o.batch_max_packets < 2 ^ 16)
    (room : o.compress ≡ true
      → o.batch_max_packets * 4 + o.batch_max_bytes + limit + 18 ≤ max_decompressed) where
  abbrev Here : ℕ → Conn → Type 0
  Here = At gh src valid session_start

  abbrev Stopped : ℕ → ℕ → Conn → Type 0
  Stopped = Failed gh src valid session_start

  -- The packets up to some number from `c` to `m`.
  abbrev pub Reached : ℕ → ℕ → End → Conn → Type 0
  Reached c m e conn = (k : ℕ) × (c ≤ k) × (k ≤ m) × Here k conn

  ends :
      (c m : ℕ) (e : End)
      → c ≤ m
      → Triple {E = CollectorError} (Here c) (pure e) (Reached c m) (Stopped c m)
  ends c m e le =
      Triple-weaken {Q = Reached c m} (Triple-pure e) (λ s h. (c, omega arith, le, h)) (λ a s h. h)
        (λ s h. h)

  take_nil : (n : ℕ) → take {A = ℕ} n [] ≡ []
  take_nil zero = refl
  take_nil (suc n) = refl

  no_frame :
      (c m : ℕ) (t : Tick) (ts : List Tick) (bytes : List ℕ) (x : FrameError)
      → c ≤ m
      → read_frame bytes ≡ err x
      → Triple (Here c) (run_frames o.zstd o.src_id (t ∷ ts) bytes) (Reached c m) (Stopped c m)
  unfolding run_frames
  no_frame c m t ts bytes x le e = rw (e, run_frames) (ends c m (reading x) le)

  end_of_stream : read_frame [] ≡ err (short eof)
  unfolding read_frame read_full
  end_of_stream = refl

  prefix-Triple :
      (log : List Item) (p q c n : ℕ) (seq : ℕ → ℕ) (ts : List Tick)
      → Follows o limit src p log q
      → HasNoGap log
      → AreFrames o seq log
      → p ≤ c
      → q < 2 ^ 64
      → Triple
          (Here c)
          (run_frames o.zstd o.src_id ts (take n (wire o seq log)))
          (Reached c (max c q))
          (Stopped c (max c q))
  unfolding run_frames
  prefix-Triple log p q c n seq [] f gapless fit le small = ends c (max c q) cancelled (omega arith)
  prefix-Triple [] p q c n seq (t ∷ ts) f gapless fit le small =
      no_frame c (max c q) t ts (take n []) (short eof) (omega arith)
        (ap read_frame (take_nil n) ∙ end_of_stream)
  prefix-Triple (it ∷ log) p q c n seq (t ∷ ts) (k, l, f) gapless (fit, fits) le small =
      let frame = item_frame o it (seq (item_type it)) in
      let bytes = append_frame frame [] in
      let rest = wire o (bump seq it) log in
      let (one, others) = split_gaps it log gapless in
      let upto = Follows-le o limit src k log q others f in
      elim (Bool-cases (ltb n (length bytes))) [
        | inl cut ↦
            let (x, e) = read_frame-cut frame n fit (ltb→lt n (length bytes) cut) in
            no_frame c (max c q) t ts (take n (bytes ++ rest)) x (omega arith) (
              ap read_frame
                (take-append_le n bytes rest (let h = ltb→lt n (length bytes) cut in omega arith))
              ∙ e)
        | inr whole ↦ rw (take-append_ge n bytes rest (ltb→le n (length bytes) whole)) (
            step gh src valid session_start o inflates checked limit few room frame
              (take (n - length bytes) rest) t ts c (max c k) (max c q) (Reached c (max c q)) fit
              (omega arith)
              (item-Passing gh src valid session_start o inflates checked limit few room it p k c
                (max c q) (seq (item_type it)) one l le (omega arith) (omega arith))
              (subst
                (λ (x : ℕ).
                  Triple (Here (max c k))
                    (run_frames o.zstd o.src_id ts (take (n - length bytes) rest)) (Reached c x)
                    (Stopped (max c k) x))
                (omega arith)
                (Triple-weaken {Q = Reached (max c k) (max (max c k) q)}
                  (prefix-Triple log k q (max c k) (n - length bytes) (bump seq it) ts f others fits
                    (omega arith) small)
                  (λ s h. h) (λ e s (j, a, b, h). (j, omega arith, b, h)) (λ s h. h))))
      ]

  all-Triple :
      (log : List Item) (p q c : ℕ) (seq : ℕ → ℕ) (ts : List Tick)
      → Follows o limit src p log q
      → HasNoGap log
      → AreFrames o seq log
      → p ≤ c
      → q < 2 ^ 64
      → length log < length ts
      → Triple
          (Here c)
          (run_frames o.zstd o.src_id ts (wire o seq log))
          (λ e conn. (e ≡ reading (short eof)) × Here (max c q) conn)
          (Stopped c (max c q))
  unfolding run_frames
  all-Triple log p q c seq [] f gapless fit le small enough = absurd (omega arith)
  all-Triple [] p q c seq (t ∷ ts) f gapless fit le small enough =
      rw (end_of_stream, run_frames)
        (Triple-weaken {Q = λ e conn. (e ≡ reading (short eof)) × Here (max c q) conn}
          (Triple-pure (reading (short eof)))
          (λ s h. (refl, subst (λ (x : ℕ). Here x s) (omega arith) h)) (λ e s h. h) (λ s h. h))
  all-Triple (it ∷ log) p q c seq (t ∷ ts) (k, l, f) gapless (fit, fits) le small enough =
      let (one, others) = split_gaps it log gapless in
      let upto = Follows-le o limit src k log q others f in
      let same : max (max c k) q ≡ max c q = omega arith in
      step gh src valid session_start o inflates checked limit few room
        (item_frame o it (seq (item_type it))) (wire o (bump seq it) log) t ts c (max c k) (max c q)
        (λ e conn. (e ≡ reading (short eof)) × Here (max c q) conn) fit (omega arith)
        (item-Passing gh src valid session_start o inflates checked limit few room it p k c
          (max c q) (seq (item_type it)) one l le (omega arith) (omega arith))
        (subst
          (λ (x : ℕ).
            Triple (Here (max c k)) (run_frames o.zstd o.src_id ts (wire o (bump seq it) log))
              (λ e conn. (e ≡ reading (short eof)) × Here x conn) (Stopped (max c k) x))
          same
          (all-Triple log k q (max c k) (bump seq it) ts f others fits (omega arith) small
            (omega arith)))

  module _ (log : List Item) (p q c : ℕ) (seq : ℕ → ℕ) (ts : List Tick) (s : Sys Conn)
      (follows : Follows o limit src p log q) (gapless : HasNoGap log) (fit : AreFrames o seq log)
      (le : p ≤ c) (small : q < 2 ^ 64) (here : Here c s.state) where
    -- A log without a gap that begins at the commit point `c` or before it and leads to `q`, below
    -- 2^64, in batches of fewer than 2^16 packets that stay, where they are compressed, within the 32
    -- MiB that the decoder holds: on any number of its stream's first bytes, and with any number of
    -- rounds, the loop ends with the packets up to some number from `c` to the greater of `c` and `q`
    -- stored once and in order, or it stops at a call that failed, and then such packets are still
    -- stored, or the directory can be opened with them or with the next batch too.
    pub delivers_prefix :
        (n : ℕ)
        → After
            (Reached c (max c q))
            (Stopped c (max c q))
            s.faults
            (run_frames o.zstd o.src_id ts (take n (wire o seq log)) s)
    delivers_prefix n = (prefix-Triple log p q c n seq ts follows gapless fit le small).run s here

    -- For the same logs, with more rounds than the log has frames, the loop reads the whole stream,
    -- ends at the end of the connection, and the mirror then holds the packets up to the greater of
    -- `c` and `q`, once each and in order, unless a call fails; then it stops with such packets up to
    -- some number stored or recoverable.
    pub delivers_all :
        length log < length ts
        → After
            (λ e conn. (e ≡ reading (short eof)) × Here (max c q) conn)
            (Stopped c (max c q))
            s.faults
            (run_frames o.zstd o.src_id ts (wire o seq log) s)
    delivers_all enough =
        (all-Triple log p q c seq ts follows gapless fit le small enough).run s here
