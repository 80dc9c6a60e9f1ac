-- ===== src/Tls/Chunks.antt =====
-- internal/tls/reconcile.go: how a file is cut into chunks makes no difference to what is relayed.
use ipcap.Base.{
  ℕ, zero, suc, ◌+◌, ◌-◌, ◌<◌, ◌≡◌, refl, sym, ap, ◌∙◌, subst, inl, inr, ◌==◌, List, [], ◌∷◌, ◌++◌,
  length, take, drop, take-append-drop, length-take, length-drop, drop-drop, drop_all, Bool, true,
  false, ◌||◌, ltb, ltb→le, ltb→lt, le→ltb, lt→ltb, Bool-cases, ok, append-nil, append_assoc,
  length-append, if◌then◌else◌, arith,
}
use ipcap.Storage.Io.{Fault, Sys, Io, modify, continue, ◌>>=◌}
use ipcap.Keylog.{max_line_len}
use ipcap.Collector.KeylogSink.{KeylogSink}
use ipcap.Tls.Merge.{Merge, MergeError, close, end_chunk, scan, rewind, chunks, merge_tail}
use ipcap.Tls.Lines.{
  after_line, ended, relay, Tame, apart, held, Apart, sys, left-held, held-nil, new-Apart,
  Tame-newline, Tame-other, plus_zero, close-Closes, close_same,
}

-- The end of a chunk.
abbrev ChunkEnd : Sys Merge → List ℕ → List ℕ → List ℕ → Bool → Type 0
ChunkEnd r cur pre line gone =
    (gone' : Bool) × Apart r line gone'
    × (end_chunk (held (gone || r.state.skipping) cur) pre (apart r cur gone)
        ≡ (ok (held (gone' || r.state.skipping) line), apart r line gone'))

kept-ChunkEnd :
    (k : KeylogSink) (off : ℕ) (fs : List Fault) (cur pre : List ℕ) (c : ℕ)
    → ChunkEnd (sys k off false fs) cur (c ∷ pre) (cur ++ (c ∷ pre)) false
unfolding end_chunk
kept-ChunkEnd k off fs cur pre c =
    let at : off + length cur + length (c ∷ pre) ≡ off + length (cur ++ (c ∷ pre)) =
      omega (arith, length-append cur (c ∷ pre)) in
    elim (Bool-cases (ltb max_line_len (length (cur ++ (c ∷ pre))))) [
      | inl long ↦ (
        true,
        record { big = λ e. ltb→lt _ _ long; fits = λ e. absurd (ground arith) },
        rw long (λ i. (ok [], sys k (at i) true fs)),
      )
      | inr short ↦ (
        false,
        record { big = λ e. absurd (ground arith); fits = λ e. ltb→le _ _ short },
        rw short (λ i. (ok (cur ++ (c ∷ pre)), sys k (at i) false fs)),
      )
    ]

end_chunk-ChunkEnd :
    (k : KeylogSink) (off : ℕ) (skipping gone : Bool) (fs : List Fault) (cur pre : List ℕ)
    → Apart (sys k off skipping fs) cur gone
    → ChunkEnd (sys k off skipping fs) cur pre (cur ++ pre) gone
unfolding end_chunk
end_chunk-ChunkEnd k off skipping gone fs cur [] h =
    subst (λ x. ChunkEnd (sys k off skipping fs) cur [] x gone) (sym (append-nil cur))
      (gone, h, refl)
end_chunk-ChunkEnd k off false false fs cur (c ∷ pre) h = kept-ChunkEnd k off fs cur pre c
end_chunk-ChunkEnd k off true false fs cur (c ∷ pre) h =
    let at : off + length cur + length (c ∷ pre) ≡ off + length (cur ++ (c ∷ pre)) =
      omega (arith, length-append cur (c ∷ pre)) in
    (
      false,
      record { big = λ e. absurd (ground arith); fits = λ e. absurd (ground arith) },
      λ i. (ok [], sys k (at i) true fs),
    )
end_chunk-ChunkEnd k off skipping true fs cur (c ∷ pre) h =
    let sizes = length-append cur (c ∷ pre) in
    let long = h.big refl in
    let at : off + length cur + length (c ∷ pre) ≡ off + length (cur ++ (c ∷ pre)) =
      omega (arith, sizes) in
    (
      true,
      record { big = λ e. omega (arith, sizes); fits = λ e. absurd (ground arith) },
      λ i. (ok [], sys k (at i) true fs),
    )

module _ (K : List ℕ → Io MergeError Merge (Unit {0})) (rest : List ℕ) (at : ℕ)
    (goes : (r : Sys Merge) (cur : List ℕ) (gone : Bool)
      → Apart r cur gone
      → Tame cur rest
      → r.state.off + length cur ≡ at
      → K (held (gone || r.state.skipping) cur) (apart r cur gone) ≡ relay cur rest r) where
  -- The loop over a chunk, and what follows it, does what is done with the lines.
  scan-relay :
      (chunk pre : List ℕ) (r : Sys Merge) (cur : List ℕ) (gone : Bool)
      → Apart r cur gone
      → Tame (cur ++ pre) (chunk ++ rest)
      → r.state.off + length cur + length pre + length chunk ≡ at
      → (scan (held (gone || r.state.skipping) cur) pre chunk >>= K) (apart r cur gone)
        ≡ relay (cur ++ pre) (chunk ++ rest) r
  unfolding scan ◌>>=◌ relay
  scan-relay [] pre r cur gone h tame pos =
      let (gone', h', e) =
        end_chunk-ChunkEnd r.state.sink r.state.off r.state.skipping gone r.faults cur pre h in
      ap (λ x. continue x K) e
      ∙ goes r (cur ++ pre) gone' h' tame (omega (arith, length-append cur pre))
  scan-relay (c ∷ chunk) pre r cur gone h tame pos = elim (Bool-cases (c == 10)) [
    | inl newline ↦
        let b = gone || r.state.skipping in
        let sizes = length-append cur pre in
        let (long, later) = Tame-newline c (cur ++ pre) (chunk ++ rest) newline tame in
        let off = r.state.off + (length (cur ++ pre) + 1) in
        rw (newline, scan, relay)
          ((λ i.
              continue
                (continue
                  (close_same r cur pre gone (λ e. long (let big = h.big e in omega (arith, sizes)))
                    i)
                  (λ u. scan (left-held b cur i) [] chunk))
                K)
            ∙ after_line K (scan [] [] chunk) (relay [] (chunk ++ rest)) off
                (close (cur ++ pre) (length (cur ++ pre) + 1) r)
                (λ s same.
                  (λ i.
                    continue
                      (scan (sym (held-nil s.state.skipping) i) [] chunk (record s {
                        state = record s.state { off = sym (plus_zero s.state.off) i };
                      }))
                      K)
                  ∙ scan-relay chunk [] s [] false (new-Apart s) later (omega arith))
                (close-Closes (cur ++ pre) (length (cur ++ pre) + 1) r))
    | inr other ↦
        let assoc = append_assoc cur pre (c ∷ []) in
        rw (other, scan, relay)
          (scan-relay chunk (pre ++ (c ∷ [])) r cur gone h
              (subst (λ x. Tame x (chunk ++ rest)) assoc
                (Tame-other c (cur ++ pre) (chunk ++ rest) other tame))
              (omega (arith, length-append pre (c ∷ [])))
            ∙ ap (λ x. relay x (chunk ++ rest) r) (sym assoc))
  ]

same_place :
    (k : KeylogSink) (off : ℕ) (cur : List ℕ)
    → rewind [] (record { sink = k; off = off + length cur; skipping = true })
      ≡ record { sink = k; off = off + length cur; skipping = true }
same_place k off cur =
    let e : off + length cur - 0 ≡ off + length cur = omega arith in
    λ i. record { sink = k; off = e i; skipping = true }

rewind-ended :
    (k : KeylogSink) (off : ℕ) (skipping gone : Bool) (fs : List Fault) (cur : List ℕ)
    → Apart (sys k off skipping fs) cur gone
    → rewind (held (gone || skipping) cur) (apart (sys k off skipping fs) cur gone).state
      ≡ ended cur (sys k off skipping fs).state
rewind-ended k off true true fs cur h = same_place k off cur
rewind-ended k off false true fs cur h =
    let long : ltb max_line_len (length cur) ≡ true = lt→ltb _ _ (h.big refl) in
    rw long (same_place k off cur)
rewind-ended k off true false fs cur h = same_place k off cur
rewind-ended k off false false fs cur h =
    let short : ltb max_line_len (length cur) ≡ false = le→ltb _ _ (h.fits refl) in
    let back : off + length cur - length cur ≡ off = omega arith in
    rw short (λ i. record { sink = k; off = back i; skipping = false })

module _ (size : ℕ) (some_byte : 0 < size) (file : List ℕ) where
  chunks-relay :
      (fuel : ℕ) (text : List ℕ) (r : Sys Merge) (cur : List ℕ) (gone : Bool)
      → Apart r cur gone
      → drop (r.state.off + length cur) file ≡ text
      → length text < fuel
      → Tame cur text
      → chunks size file fuel (held (gone || r.state.skipping) cur) (apart r cur gone)
        ≡ relay cur text r
  unfolding chunks modify relay
  chunks-relay zero text r cur gone h at enough tame = absurd (omega arith)
  chunks-relay (suc fuel) text r cur gone h at enough tame =
      let chunk = take size text in
      let rest = drop size text in
      let whole = take-append-drop size text in
      let len = length-take size text in
      let left_len = length-drop size text in
      let K : List ℕ → Io MergeError Merge (Unit {0}) =
        λ p. if ltb (length chunk) size then modify (rewind p) else chunks size file fuel p in
      ap
        (λ t.
          (scan (held (gone || r.state.skipping) cur) [] (take size t) >>= λ p.
          if ltb (length (take size t)) size then modify (rewind p) else chunks size file fuel p)
            (apart r cur gone))
        at
      ∙ scan-relay K rest (r.state.off + length cur + length chunk)
          (λ r' cur' gone' h' tame' pos'. elim (Bool-cases (ltb (length chunk) size)) [
            | inl last ↦
                let short = ltb→lt _ _ last in
                let none_left : rest ≡ [] = drop_all size text (omega (arith, len)) in
                rw (last, none_left)
                  (λ i. (
                    ok tt,
                    record r' {
                      state =
                          rewind-ended r'.state.sink r'.state.off r'.state.skipping gone' r'.faults
                            cur' h' i;
                    },
                  ))
            | inr full ↦
                let taken : length chunk ≡ size = omega (arith, len, ltb→le _ _ full) in
                rw full (
                  chunks-relay fuel rest r' cur' gone' h'
                    (ap (λ n. drop n file) (pos' ∙ ap (λ n. r.state.off + length cur + n) taken)
                      ∙ sym (drop-drop (r.state.off + length cur) size file)
                      ∙ ap (drop size) at)
                    (omega (arith, left_len, len)) tame')
          ])
          chunk [] r cur gone h
          (subst (λ x. Tame x (chunk ++ rest)) (sym (append-nil cur))
            (subst (Tame cur) (sym whole) tame))
          (omega arith)
      ∙ (λ i. relay (append-nil cur i) (whole i) r)

-- A file whose new text is tame: mergeTail, which reads it in chunks of 65536 bytes, relays what is
-- relayed when the text is taken line by line in one piece, with the same result, and stands at the
-- same place after it, whatever calls fail.
pub merge_tail-eq-relay :
    (file : List ℕ) (s : Sys Merge)
    → Tame [] (drop s.state.off file)
    → merge_tail file s ≡ relay [] (drop s.state.off file) s
unfolding merge_tail
merge_tail-eq-relay file s tame =
    (λ i.
      chunks 65536 file (suc (length file)) (sym (held-nil s.state.skipping) i)
        (record s { state = record s.state { off = sym (plus_zero s.state.off) i } }))
    ∙ chunks-relay 65536 (omega arith) file (suc (length file)) (drop s.state.off file) s [] false
        (new-Apart s) (ap (λ n. drop n file) (plus_zero s.state.off))
        (omega (arith, length-drop s.state.off file)) tame
