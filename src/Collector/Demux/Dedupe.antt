-- ===== src/Collector/Demux/Dedupe.antt =====
-- Which records of a batch survive.
use ipcap.Base.{
  ℕ, suc, ◌+◌, ◌-◌, ◌≤◌, ◌<◌, ◌^◌, ◌≡◌, refl, sym, ap, ◌∙◌, arith, List, [], ◌∷◌, ◌++◌, map, length,
  drop, drop_all, add64, inl, inr, Bool-cases, ltb, ltb→lt, ltb→le, lt→ltb, le→ltb, ok, err,
  append-nil, append_assoc, length-append,
}
use ipcap.Pcap.{Record}
use ipcap.Proto.Batch.{PktRecord}
use ipcap.Storage.Io.{Sys, raise}
use ipcap.Collector.State.{Mirror, forward_jump}
use ipcap.Collector.Demux.{keep_loop, proto_to_pcap, commit, commit_kept}

-- Whatever has been kept so far ends where the batch stands, or the batch stands before the commit point.
keep_loop_from :
    (committed base i : ℕ) (keep : List Record) (recs : List PktRecord)
    → length keep ≡ base + i - committed
    → base + i + length recs < 2 ^ 64
    → keep_loop committed base i keep recs
      ≡ ok (keep ++ map proto_to_pcap (drop (committed - (base + i)) recs))
unfolding keep_loop
keep_loop_from committed base i keep [] h small = ap ok (
    sym (append-nil keep)
    ∙ ap (λ t. keep ++ map proto_to_pcap t)
        (sym (drop_all (committed - (base + i)) [] (omega arith))))
keep_loop_from committed base i keep (pr ∷ recs) h small =
    let gp : add64 base i ≡ base + i = omega arith in
    let later : List PktRecord → List Record = λ t. keep ++ map proto_to_pcap t in
    elim (Bool-cases (ltb (base + i) committed)) [
      | inl before ↦
          let next : suc (committed - (base + (i + 1))) ≡ committed - (base + i) =
            omega (arith, ltb→lt _ _ before) in
          rw (gp, before)
            (keep_loop_from committed base (i + 1) keep recs (omega (arith, ltb→lt _ _ before))
                (omega arith)
              ∙ ap (λ k. ok (later (drop k (pr ∷ recs)))) next)
      | inr reached ↦
          let here : committed - (base + i) ≡ 0 = omega (arith, ltb→le _ _ reached) in
          let next : committed - (base + (i + 1)) ≡ 0 = omega arith in
          let expected : add64 committed (length keep) ≡ base + i =
            omega (arith, ltb→le _ _ reached) in
          let x = proto_to_pcap pr ∷ [] in
          rw (gp, reached, expected, le→ltb (base + i) (base + i) (omega arith))
            (keep_loop_from committed base (i + 1) (keep ++ x) recs
                (omega (arith, length-append keep x, ltb→le _ _ reached)) (omega arith)
              ∙ ap (λ k. ok ((keep ++ x) ++ map proto_to_pcap (drop k recs))) next
              ∙ ap ok (append_assoc keep x (map proto_to_pcap recs))
              ∙ ap (λ k. ok (later (drop k (pr ∷ recs)))) (sym here))
    ]

-- A batch that starts at the commit point or before it loses exactly the records in front of the
-- commit point.
pub keep_loop-eq-drop :
    (committed base : ℕ) (recs : List PktRecord)
    → base ≤ committed
    → base + length recs < 2 ^ 64
    → keep_loop committed base 0 [] recs ≡ ok (map proto_to_pcap (drop (committed - base) recs))
keep_loop-eq-drop committed base recs le small =
    keep_loop_from committed base 0 [] recs (omega arith) (omega arith)
    ∙ ap (λ k. ok (map proto_to_pcap (drop k recs))) {x = committed - (base + 0)}
        {y = committed - base} (omega arith)

-- A batch that starts beyond the commit point is refused at its first record.
pub keep_loop_ahead :
    (committed base : ℕ) (pr : PktRecord) (recs : List PktRecord)
    → committed < base
    → base < 2 ^ 64
    → keep_loop committed base 0 [] (pr ∷ recs) ≡ err (forward_jump base committed)
unfolding keep_loop
keep_loop_ahead committed base pr recs ahead small =
    let gp : add64 base 0 ≡ base = omega arith in
    let expected : add64 committed 0 ≡ committed = omega arith in
    rw (gp, expected, le→ltb base committed (omega arith), lt→ltb committed base ahead) refl

-- A batch that starts beyond the commit point changes nothing: commit stops with the jump.
pub commit_ahead :
    (base seq : ℕ) (pr : PktRecord) (recs : List PktRecord) (s : Sys Mirror)
    → s.state.committed < base
    → base < 2 ^ 64
    → commit base (pr ∷ recs) seq s ≡ (err (forward_jump base s.state.committed), s)
unfolding commit raise
commit_ahead base seq pr recs s ahead small =
    ap (λ r. commit_kept seq r s) (keep_loop_ahead s.state.committed base pr recs ahead small)
