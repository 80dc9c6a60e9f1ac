-- ===== src/Transfer/Step.antt =====
-- internal/collector/demux.go: one frame of an agent's log, in the collector's loop.
use ipcap.Base.{
  ap, ◌∙◌, ◌*◌, ◌%◌, ℕ, ◌+◌, ◌^◌, ◌≤◌, ◌<◌, ◌≡◌, sym, subst, true, List, [], ◌∷◌, ◌++◌, length,
  length-append, max, refl, sym, arith,
}
use ipcap.Storage.Triple.{After, Triple, Triple-weaken, Triple-bind, Triple-then, Triple-modify}
use ipcap.Pcap.{GlobalHeader}
use ipcap.Pcap.Encoding.{IsRecord}
use ipcap.Proto.Frame.{Frame, append_frame, IsFrame}
use ipcap.Proto.Frame.RoundTrip.{read_frame-append_frame}
use ipcap.Proto.Zstd.{Inverts, max_decompressed}
use ipcap.Bytes.{put_be}
use ipcap.Proto.Batch.RoundTrip.{encode_pkts, append_pkts-encode_pkts, length-append_pkt}
use ipcap.Proto.Batch.{PktRecord, IsPktRecord, append_pkt, encode_pkt_batch}
use ipcap.Collector.Demux.{proto_to_pcap}
use ipcap.Collector.Demux.ExactlyOnce.{packets}
use ipcap.Collector.Demux.Loop.{Conn, End, Verdict, carry_on, Tick, ack, proceed, run_frames}
use ipcap.Agent.Streamer.{Options}
use ipcap.Agent.Log.{
  weight, Item, packet_batch, gap, note, item_type, item_frame, bump, Leads, Follows,
}
use ipcap.Transfer.Held.{At, Failed}
use ipcap.Transfer.Item.{Passes, note-Passes, batch-Passes}

-- No packet of the log was lost before it could be sent.
abbrev pub HasNoGap : List Item → Type 0
HasNoGap [] = Unit {0}
HasNoGap (gap from to ∷ log) = ⊥
HasNoGap (packet_batch base recs ∷ log) = HasNoGap log
HasNoGap (note t payload ∷ log) = HasNoGap log

-- The frames' fields have their widths, and their payloads are within the cap.
abbrev pub AreFrames : Options → (ℕ → ℕ) → List Item → Type 0
AreFrames o seq [] = Unit {0}
AreFrames o seq (it ∷ log) =
    IsFrame (item_frame o it (seq (item_type it))) × AreFrames o (bump seq it) log

pub split_gaps :
    (it : Item) (log : List Item) → HasNoGap (it ∷ log) → HasNoGap (it ∷ []) × HasNoGap log
split_gaps (gap from to) log h = absurd h
split_gaps (packet_batch base recs) log h = (tt, h)
split_gaps (note t payload) log h = (tt, h)

module _ (o : Options) (limit : ℕ) (src : ℕ → PktRecord) where
  pub Follows-le :
      (p : ℕ) (log : List Item) (q : ℕ) → HasNoGap log → Follows o limit src p log q → p ≤ q
  Follows-le p [] q h e = omega arith
  Follows-le p (gap from to ∷ log) q h f = absurd h
  Follows-le p (packet_batch base recs ∷ log) q h (m, l, f) =
      let here : m ≡ p + length recs = l.2 in omega (arith, Follows-le m log q h f)
  Follows-le p (note t payload ∷ log) q h (m, l, f) =
      let here : m ≡ p = l.1 in omega (arith, Follows-le m log q h f)

length-encode_pkts : (rs : List PktRecord) → length (encode_pkts rs) ≡ weight rs + length rs * 4
length-encode_pkts [] = refl
length-encode_pkts (r ∷ rs) = omega (
  arith,
  length-append (append_pkt r []) (encode_pkts rs),
  length-append_pkt r,
  length-encode_pkts rs,
)

-- A batch is its count, and four bytes more for each packet than the reader counts.
length-encode_pkt_batch :
    (rs : List PktRecord) → length (encode_pkt_batch rs) ≡ 2 + weight rs + length rs * 4
unfolding encode_pkt_batch
length-encode_pkt_batch rs =
    let count = put_be 2 (length rs % 2 ^ 16) in
    ap length (append_pkts-encode_pkts rs count)
    ∙ omega (arith, length-append count (encode_pkts rs), length-encode_pkts rs)

module _ (gh : GlobalHeader) (src : ℕ → PktRecord)
    (valid : (i : ℕ) → IsRecord gh.snaplen (proto_to_pcap (src i))) (session_start : ℕ)
    (o : Options) (inflates : Inverts o.zstd) (checked : (i : ℕ) → IsPktRecord (src i)) (limit : ℕ)
    (few : o.batch_max_packets < 2 ^ 16)
    (room : o.compress ≡ true
      → o.batch_max_packets * 4 + o.batch_max_bytes + limit + 18 ≤ max_decompressed) where
  abbrev Here : ℕ → Conn → Type 0
  Here = At gh src valid session_start

  abbrev Stopped : ℕ → ℕ → Conn → Type 0
  Stopped = Failed gh src valid session_start

  abbrev Passing : ℕ → ℕ → ℕ → Frame → Type 0
  Passing = Passes gh src valid session_start o inflates checked

  pub item-Passing :
      (it : Item) (p k c m seq : ℕ)
      → HasNoGap (it ∷ [])
      → Leads o limit src p it k
      → p ≤ c
      → k < 2 ^ 64
      → max c k ≤ m
      → Passing c (max c k) m (item_frame o it seq)
  item-Passing (gap from to) p k c m seq h l le small within = absurd h
  item-Passing (note t payload) p k c m seq h (kind, same) le small within =
      let stays : c ≡ max c k = omega arith in
      subst (λ (x : ℕ). Passing c x m (item_frame o (note t payload) seq)) stays
        (note-Passes gh src valid session_start o inflates checked c m seq t payload (omega arith)
          kind)
  item-Passing (packet_batch base recs) p k c m seq h (at, same, end, nonempty, fits, light) le
        small within =
      let n = length recs in
      let size = length-encode_pkt_batch recs in
      let batch : packet_batch p (packets src p n) ≡ packet_batch base recs =
        λ i. packet_batch (sym at i) (sym same i) in
      subst (λ (x : Item × ℕ). Passing c (max c x.1) m (item_frame o x.0 seq))
        (λ i. (batch i, sym end i))
        (batch-Passes gh src valid session_start o inflates checked c m p n seq le (omega arith)
          (omega arith) (omega arith)
          (λ on.
            subst (λ r. length (encode_pkt_batch r) ≤ max_decompressed) same
              (let fit = room on in omega arith)))

  ack-Here : (c m : ℕ) (t : Tick) → Triple (Here c) (ack t) (λ u. Here c) (Stopped c m)
  unfolding ack
  ack-Here c m t = Triple-modify _ (λ s h. h)

  -- One frame is handled, and then what follows.
  pub step :
      (f : Frame) (rest : List ℕ) (t : Tick) (ts : List Tick) (c c' m : ℕ) (Q : End → Conn → Type 0)
      → IsFrame f
      → c ≤ c'
      → Passing c c' m f
      → Triple (Here c') (run_frames o.zstd o.src_id ts rest) Q (Stopped c' m)
      → Triple
          (Here c)
          (run_frames o.zstd o.src_id (t ∷ ts) (append_frame f [] ++ rest))
          Q
          (Stopped c m)
  unfolding run_frames
  step f rest t ts c c' m Q fits le passes later =
      rw (read_frame-append_frame f rest fits, run_frames)
        (Triple-bind {Q = λ v conn. (v ≡ carry_on) × Here c' conn} passes λ v. record {
          run = λ s (e, h).
              subst
                (λ (x : Verdict).
                  After Q (Stopped c m) s.faults
                    (proceed t (run_frames o.zstd o.src_id ts rest) x s))
                (sym e)
                ((Triple-weaken {Q = Q} {I = Stopped c' m}
                    (Triple-then {Q = λ u. Here c'} (ack-Here c' m t) (λ u. later)) (λ s h. h)
                    (λ a s h. h) (λ s (k, l, a, b, d, h). (k, l, omega arith, b, d, h))).run
                  s h);
        })
