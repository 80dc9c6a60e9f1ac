-- ===== src/Agent/Holding.antt =====
-- internal/agent/serve_cmd.go: the batch that is being filled, and how a packet joins it.
use ipcap.Base.{
  ℕ, ◌+◌, ◌≤◌, ◌<◌, ◌≡◌, sym, ap, ◌∙◌, List, [], ◌∷◌, ◌++◌, length, length-append, arith,
}
use ipcap.Pcap.{Record}
use ipcap.Proto.Batch.{PktRecord}
use ipcap.Spool.Reader.{Reader}
use ipcap.Collector.Demux.ExactlyOnce.{packets, packets-add}
use ipcap.Agent.Streamer.{Options, pcap_to_proto}
use ipcap.Agent.Serve.{base_of}
use ipcap.Agent.Log.{weight}
use ipcap.Agent.Notes.{Packets}

module _ (o : Options) (limit : ℕ) (src : ℕ → PktRecord) where
  -- The batch holds the packets from `p` on to the reader's position.
  pub record Holding (p : ℕ) (b : List PktRecord) (n base at : ℕ) : Type 0 where
    pub same : b ≡ packets src p (length b)
    pub first : 0 < length b → base ≡ p
    pub position : at ≡ p + length b
    pub count : n ≡ weight b

  -- Room for a packet, and at most one packet beyond that.
  abbrev pub Tight : Packets
  Tight p b n base r =
      Holding p b n base r.gpidx × (length b < o.batch_max_packets) × (n < o.batch_max_bytes)

  abbrev pub Loose : Packets
  Loose p b n base r =
      Holding p b n base r.gpidx
      × (length b ≤ o.batch_max_packets)
      × (n < o.batch_max_bytes + (16 + limit))

  abbrev pub Flushed : Packets
  Flushed p b n base r = (b ≡ []) × (n ≡ 0) × (r.gpidx ≡ p)

  pub Flushed-Tight :
      0 < o.batch_max_packets
      → 0 < o.batch_max_bytes
      → (p : ℕ) (b : List PktRecord) (n base : ℕ) (r : Reader) → Flushed p b n base r
      → Tight p b n base r
  Flushed-Tight hp hb p b n base r (e, z, at) =
      let none : length b ≡ 0 = ap length e in
      (
        record {
          same = e ∙ sym (ap (packets src p) none);
          first = λ h. absurd (omega arith);
          position = omega arith;
          count = z ∙ sym (ap weight e);
        },
        omega arith,
        omega arith,
      )

  pub Tight-Loose :
      (p : ℕ) (b : List PktRecord) (n base : ℕ) (r : Reader)
      → Tight p b n base r
      → Loose p b n base r
  Tight-Loose p b n base r (h, k, l) = (h, omega arith, omega arith)

  base_of-eq :
      (b : List PktRecord) (base gp p : ℕ)
      → (0 < length b → base ≡ p)
      → gp ≡ p + length b
      → base_of b base gp ≡ p
  base_of-eq [] base gp p h e = omega arith
  base_of-eq (x ∷ b) base gp p h e = h (omega arith)

  weight-snoc :
      (b : List PktRecord) (x : PktRecord)
      → weight (b ++ (x ∷ [])) ≡ weight b + (16 + length x.body)
  weight-snoc [] x = omega arith
  weight-snoc (y ∷ b) x = omega (arith, weight-snoc b x)

  -- The packet at the reader's position joins the batch.
  pub Holding-add :
      (p : ℕ) (b : List PktRecord) (n base gp : ℕ) (rec : Record)
      → Holding p b n base gp
      → pcap_to_proto rec ≡ src gp
      → Holding p
          (b ++ (pcap_to_proto rec ∷ []))
          (n + (16 + length rec.body))
          (base_of b base gp)
          (gp + 1)
  unfolding pcap_to_proto
  Holding-add p b n base gp rec h e =
      let x = pcap_to_proto rec in
      let longer : length (b ++ (x ∷ [])) ≡ length b + 1 = length-append b (x ∷ []) in
      let here : gp ≡ p + length b = h.position in
      record {
        same =
            (λ i. h.same i ++ ((e ∙ ap src here) i ∷ []))
            ∙ packets-add src p (length b) 1
            ∙ ap (packets src p) (sym longer);
        first = λ k. base_of-eq b base gp p h.first here;
        position = omega arith;
        count = ap (λ k. k + (16 + length rec.body)) h.count ∙ sym (weight-snoc b x);
      }
