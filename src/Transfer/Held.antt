-- ===== src/Transfer/Held.antt =====
-- internal/collector/demux.go: what a connection's mirror holds of a numbered source.
use ipcap.Base.{
  ℕ, ◌+◌, ◌-◌, ◌^◌, ◌≤◌, ◌<◌, ◌≡◌, refl, ap, ◌∙◌, subst, ◌⊎◌, inl, inr, List, max, Result, ok, err,
  arith,
}
use ipcap.Storage.Io.{Fault, Sys}
use ipcap.Storage.Triple.{
  After, After-weaken, Triple, Triple-weaken, Triple-then, Triple-modify, Triple-pure,
}
use ipcap.Pcap.{GlobalHeader}
use ipcap.Pcap.Encoding.{IsRecord}
use ipcap.Proto.Batch.{PktRecord}
use ipcap.Proto.Messages.{DecodeError, Heartbeat}
use ipcap.Collector.State.{ResumeState, Mirror, CollectorError}
use ipcap.Collector.Mirror.Recoverable.{Recoverable}
use ipcap.Collector.Demux.{commit, proto_to_pcap}
use ipcap.Collector.Demux.ExactlyOnce.{
  packets, stored_packets, Holds, Committed, Stopped, commit_exactly_once,
}
use ipcap.Collector.KeylogSink.{KeylogSink}
use ipcap.Collector.Demux.Loop.{Conn, carry_on, on_mirror, back_mirror, back_sink, note_head}

module _ (gh : GlobalHeader) (src : ℕ → PktRecord)
    (valid : (i : ℕ) → IsRecord gh.snaplen (proto_to_pcap (src i))) (session_start : ℕ) where
  -- The mirror's session, which began at `session_start`, holds the packets up to `c`.
  abbrev pub At : ℕ → Conn → Type 0
  At c conn =
      (st : ResumeState) × Holds gh src valid st conn.mirror
      × (st.committed_gpidx ≡ c)
      × (st.session_start_gpidx ≡ session_start)

  -- A call failed when the packets up to some number from `c` to `m` had been committed: the mirror
  -- is as it was then, or its directory can be opened with those packets or with the next batch.
  abbrev pub Failed : ℕ → ℕ → Conn → Type 0
  Failed c m conn =
      (k : ℕ) × (l : ℕ) × (c ≤ k)
      × (k ≤ l)
      × (l ≤ m)
      × (At k conn
          ⊎ ((q : ℕ) × Recoverable gh q (stored_packets src session_start (k - session_start))
                (stored_packets src session_start (l - session_start)) conn.mirror.disk))

  back_mirror-After :
      {A : Type 0} (Q : A → Mirror → Type 0) (I : Mirror → Type 0) (c : Conn) (fs : List Fault)
      (r : Result CollectorError A × Sys Mirror)
      → After Q I fs r
      → After (λ a c'. Q a c'.mirror) (λ c'. I c'.mirror) fs (back_mirror c r)
  back_mirror-After Q I c fs (ok a, s) h = h
  back_mirror-After Q I c fs (err e, s) h = h

  pub commit-At :
      (c m base n seq : ℕ)
      → base ≤ c
      → base + n < 2 ^ 64
      → max c (base + n) ≤ m
      → Triple
          (At c)
          (on_mirror (commit base (packets src base n) seq))
          (λ u. At (max c (base + n)))
          (Failed c m)
  unfolding on_mirror
  commit-At c m base n seq le small within = record {
    run = λ s (st, h, here, begun).
        let target : max st.committed_gpidx (base + n) ≡ max c (base + n) =
          ap (λ k. max k (base + n)) here in
        After-weaken
          {Q = λ a c'. Committed gh src valid st (max st.committed_gpidx (base + n)) a c'.mirror}
          {I = λ c'. Stopped gh src valid st (max st.committed_gpidx (base + n)) c'.mirror} s.faults
          _ (λ u c' (st', h', at, same). (st', h', at ∙ target, same ∙ begun))
          (λ c' broken. (
            c,
            max c (base + n),
            omega arith,
            omega arith,
            within,
            inr (
              st.session_seq,
              subst
                  (λ (x : ℕ × ℕ × ℕ).
                    Recoverable gh st.session_seq (stored_packets src x.0 (x.1 - x.0))
                      (stored_packets src x.0 (x.2 - x.0)) c'.mirror.disk)
                  (λ i. (begun i, here i, target i)) broken,
            ),
          ))
          (back_mirror-After (Committed gh src valid st (max st.committed_gpidx (base + n)))
            (Stopped gh src valid st (max st.committed_gpidx (base + n))) s.state s.faults _
            (commit_exactly_once gh src valid st base n seq
              (record { state = s.state.mirror; faults = s.faults }) h (omega arith) small));
  }

  -- The packets that are there stay where another part of the connection changes.
  pub note_head-At :
      (c m : ℕ) (hb : Result DecodeError Heartbeat)
      → Triple (At c) (note_head hb) (λ v conn. (v ≡ carry_on) × At c conn) (Failed c m)
  note_head-At c m (err e) =
      Triple-weaken {Q = λ v conn. (v ≡ carry_on) × At c conn} (Triple-pure carry_on)
        (λ s h. (refl, h)) (λ v s h. h) (λ s h. h)
  note_head-At c m (ok hb) =
      Triple-then {Q = λ u. At c}
        (Triple-modify (λ (x : Conn). record x { head_gpidx = hb.head_gpidx }) (λ s h. h))
        (λ u.
          Triple-weaken {Q = λ v conn. (v ≡ carry_on) × At c conn} (Triple-pure carry_on)
            (λ s h. (refl, h)) (λ v s h. h) (λ s h. h))

  unharmed : (c m : ℕ) (conn : Conn) → c ≤ m → At c conn → Failed c m conn
  unharmed c m conn le h = (c, c, omega arith, omega arith, le, inl h)

  pub back_sink-At :
      (c m : ℕ) (conn : Conn) (fs : List Fault)
      (r : Result CollectorError (Unit {0}) × Sys KeylogSink)
      → c ≤ m
      → At c conn
      → After (λ (u : Unit {0}) (k : KeylogSink). Unit {0}) (λ k. Unit {0}) fs r
      → After (λ u. At c) (Failed c m) fs (back_sink conn r)
  back_sink-At c m conn fs (ok u, s) le h a = (h, a.1)
  back_sink-At c m conn fs (err e, s) le h a = (unharmed c m conn le h, a.1)
