-- ===== src/Collector/Demux/ExactlyOnce.antt =====
-- `commit` on a source whose packets are numbered: each packet reaches the mirror once.
use ipcap.Base.{
  ℕ, zero, suc, ◌+◌, ◌-◌, ◌≤◌, ◌<◌, ◌^◌, ◌≡◌, refl, sym, ap, ◌∙◌, subst, arith, List, [], ◌∷◌, ◌++◌,
  map, length, drop, All, add64, ok, max,
}
use ipcap.Storage.Io.{Sys, pure}
use mathlib.Core.List.{map-append}
use ipcap.Storage.Triple.{After, After-weaken}
use ipcap.Pcap.{GlobalHeader, Record}
use ipcap.Pcap.Encoding.{IsRecord}
use ipcap.Proto.Batch.{PktRecord}
use ipcap.Collector.State.{ResumeState, Mirror}
use ipcap.Collector.Mirror.Stored.{Stored, advanced}
use ipcap.Collector.Mirror.Recoverable.{Recoverable}
use ipcap.Collector.Mirror.Commit.{append_commits}
use ipcap.Collector.Demux.{keep_loop, proto_to_pcap, commit, commit_kept}
use ipcap.Collector.Demux.Dedupe.{keep_loop-eq-drop}

-- The packets with the indices from `from` on.
abbrev pub packets : (ℕ → PktRecord) → ℕ → ℕ → List PktRecord
packets src from zero = []
packets src from (suc n) = src from ∷ packets src (from + 1) n

pub length-packets : (src : ℕ → PktRecord) (from n : ℕ) → length (packets src from n) ≡ n
length-packets src from zero = refl
length-packets src from (suc n) = ap suc (length-packets src (from + 1) n)

plus_zero : (n : ℕ) → n ≡ n + 0
plus_zero n = omega arith

minus_zero : (n : ℕ) → n ≡ n - 0
minus_zero n = omega arith

drop-packets :
    (src : ℕ → PktRecord) (from n k : ℕ)
    → drop k (packets src from n) ≡ packets src (from + k) (n - k)
drop-packets src from n zero = λ i. packets src (plus_zero from i) (minus_zero n i)
drop-packets src from zero (suc k) =
    ap (packets src (from + suc k)) {x = zero} {y = zero - suc k} (omega arith)
drop-packets src from (suc n) (suc k) =
    let start : from + 1 + k ≡ from + suc k = omega arith in
    let count : n - k ≡ suc n - suc k = omega arith in
    drop-packets src (from + 1) n k ∙ (λ i. packets src (start i) (count i))

pub packets-add :
    (src : ℕ → PktRecord) (from n k : ℕ)
    → packets src from n ++ packets src (from + n) k ≡ packets src from (n + k)
packets-add src from zero k =
    let start : from + 0 ≡ from = omega arith in
    let count : k ≡ 0 + k = omega arith in λ i. packets src (start i) (count i)
packets-add src from (suc n) k =
    let start : from + suc n ≡ from + 1 + n = omega arith in
    let count : suc (n + k) ≡ suc n + k = omega arith in
    ap (λ p. src from ∷ (packets src (from + 1) n ++ packets src p k)) start
    ∙ ap (λ t. src from ∷ t) (packets-add src (from + 1) n k)
    ∙ ap (packets src from) count

-- What the mirror holds of the packets.
abbrev pub stored_packets : (ℕ → PktRecord) → ℕ → ℕ → List Record
stored_packets src from n = map proto_to_pcap (packets src from n)

stored_packets-add :
    (src : ℕ → PktRecord) (from n k : ℕ)
    → stored_packets src from n ++ stored_packets src (from + n) k ≡ stored_packets src from (n + k)
stored_packets-add src from n k =
    sym (map-append proto_to_pcap (packets src from n) (packets src (from + n) k))
    ∙ ap (map proto_to_pcap) (packets-add src from n k)

length-stored_packets : (src : ℕ → PktRecord) (from n : ℕ) → length (stored_packets src from n) ≡ n
length-stored_packets src from zero = refl
length-stored_packets src from (suc n) = ap suc (length-stored_packets src (from + 1) n)

module _ (gh : GlobalHeader) (src : ℕ → PktRecord)
    (valid : (i : ℕ) → IsRecord gh.snaplen (proto_to_pcap (src i))) where
  packets_valid : (from n : ℕ) → All (IsRecord gh.snaplen) (stored_packets src from n)
  packets_valid from zero = tt
  packets_valid from (suc n) = (valid from, packets_valid (from + 1) n)

  -- The session holds the packets from its start to the commit point, each once and in order.
  pub record Holds (st : ResumeState) (m : Mirror) : Type 0 where
    pub stored :
        Stored gh st
          (stored_packets src st.session_start_gpidx (st.committed_gpidx - st.session_start_gpidx))
          m

  -- The mirror holds the packets up to `target`, in the same session.
  abbrev pub Committed : ResumeState → ℕ → Unit {0} → Mirror → Type 0
  Committed st target a m =
      (st' : ResumeState) × Holds st' m
      × (st'.committed_gpidx ≡ target)
      × (st'.session_start_gpidx ≡ st.session_start_gpidx)

  -- The directory can be opened with the packets up to the old commit point, or up to `target`.
  abbrev pub Stopped : ResumeState → ℕ → Mirror → Type 0
  Stopped st target m =
      Recoverable gh st.session_seq
        (stored_packets src st.session_start_gpidx (st.committed_gpidx - st.session_start_gpidx))
        (stored_packets src st.session_start_gpidx (target - st.session_start_gpidx)) m.disk

  module _ (st : ResumeState) (base n seq : ℕ) (s : Sys Mirror) (h : Holds st s.state)
      (le : base ≤ st.committed_gpidx) (small : base + n < 2 ^ 64) where
    abbrev at : ℕ
    at = st.committed_gpidx

    abbrev start : ℕ
    start = st.session_start_gpidx

    abbrev old : List Record
    old = stored_packets src start (at - start)

    abbrev target : ℕ
    target = max at (base + n)

    abbrev Returned : Unit {0} → Mirror → Type 0
    Returned = Committed st target

    abbrev Failed : Mirror → Type 0
    Failed = Stopped st target

    started : start ≤ at
    started = omega (arith, h.stored.counts.count)

    shown : s.state.committed ≡ at
    shown =
        h.stored.shown.committed
        ∙ ap (λ (x : ResumeState). x.committed_gpidx) h.stored.stage.in_memory

    kept :
        keep_loop s.state.committed base 0 [] (packets src base n)
        ≡ ok (stored_packets src at (n - (at - base)))
    kept =
        let here : base + (at - base) ≡ at = omega arith in
        ap (λ c. keep_loop c base 0 [] (packets src base n)) shown
        ∙ keep_loop-eq-drop at base (packets src base n) le
            (omega (arith, length-packets src base n))
        ∙ ap (λ t. ok (map proto_to_pcap t)) (drop-packets src base n (at - base))
        ∙ ap (λ p. ok (stored_packets src p (n - (at - base)))) here

    grown : (j : ℕ) → old ++ stored_packets src at j ≡ stored_packets src start (at + j - start)
    grown j =
        let here : at ≡ start + (at - start) = omega (arith, started) in
        let count : at - start + j ≡ at + j - start = omega (arith, started) in
        ap (λ p. old ++ stored_packets src p j) here
        ∙ stored_packets-add src start (at - start) j
        ∙ ap (stored_packets src start) count

    finish :
        (j : ℕ)
        → j ≡ n - (at - base)
        → After Returned Failed s.faults (commit_kept seq (ok (stored_packets src at j)) s)
    unfolding pure
    finish zero e = ((st, h, omega (arith, e), refl), λ a. a)
    finish (suc j) e =
        let recs = stored_packets src at (suc j) in
        let count : length recs ≡ suc j = length-stored_packets src at (suc j) in
        let end : at + suc j ≡ max at (base + n) = omega (arith, e) in
        let next : add64 at (length recs) ≡ at + suc j = omega (arith, count, e) in
        After-weaken {Q' = Returned} {I' = Failed} s.faults (commit_kept seq (ok recs) s)
          (λ a m g. (
            advanced st (length recs) seq,
            record {
              stored =
                  subst (λ rs. Stored gh (advanced st (length recs) seq) rs m)
                    (grown (suc j) ∙ ap (λ k. stored_packets src start (k - start)) (sym next)) g;
            },
            next ∙ end,
            refl,
          ))
          (λ m g.
            subst (λ rs. Recoverable gh st.session_seq old rs m.disk)
              (grown (suc j) ∙ ap (λ k. stored_packets src start (k - start)) end) g)
          (append_commits gh st old recs seq s h.stored (packets_valid at (suc j)) (cc)
            (omega (arith, count, e)))

    -- A batch of the packets `base` to `base + n`, at the commit point or before it: commit returns
    -- with every packet below the greater of the commit point and `base + n` stored once and in order,
    -- or stops at a call that failed, and then the directory is recoverable with the packets before
    -- the batch or with those behind it.
    pub commit_exactly_once :
        After
          (Committed st (max st.committed_gpidx (base + n)))
          (Stopped st (max st.committed_gpidx (base + n)))
          s.faults
          (commit base (packets src base n) seq s)
    unfolding commit
    commit_exactly_once =
        subst (λ r. After Returned Failed s.faults (commit_kept seq r s)) (sym kept)
          (finish (n - (at - base)) refl)
