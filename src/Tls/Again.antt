-- ===== src/Tls/Again.antt =====
-- internal/tls/reconcile.go: mergeTail on a file that grows between its calls.
use ipcap.Base.{
  ℕ, ◌+◌, ◌≤◌, ◌<◌, ◌≡◌, refl, sym, ap, ◌∙◌, subst, inl, inr, ◌==◌, List, [], ◌∷◌, ◌++◌, All,
  All-append, length, drop, drop-drop, drop-append_length, drop-append_le, Bool, true, false, ◌||◌,
  ltb, ltb→lt, lt→ltb, Bool-cases, ok, append-nil, append_assoc, length-append, arith,
}
use ipcap.Storage.Io.{Fault, Sys, Io, continue, ◌>>=◌, ◌>>◌}
use ipcap.Keylog.{max_line_len}
use ipcap.Collector.KeylogSink.{KeylogSink}
use ipcap.Tls.Merge.{Merge, MergeError, close, merge_tail}
use ipcap.Tls.Lines.{
  ended, relay, Tame, apart, held, sys, Tame-newline, Tame-other, Tame-prefix, close-Closes,
  close_same, after_line,
}
use ipcap.Tls.Chunks.{merge_tail-eq-relay}

abbrev Unbroken : List ℕ → Type 0
Unbroken cur = All (λ c. (c == 10) ≡ false) cur

-- The bytes of a line without its end are read again.
relay-Unbroken :
    (cur p text : List ℕ) (s : Sys Merge)
    → Unbroken cur
    → relay p (cur ++ text) s ≡ relay (p ++ cur) text s
unfolding relay
relay-Unbroken [] p text s h = ap (λ x. relay x text s) (sym (append-nil p))
relay-Unbroken (c ∷ cur) p text s h =
    rw (h.0, relay)
      (relay-Unbroken cur (p ++ (c ∷ [])) text s h.1
        ∙ ap (λ x. relay x text s) (append_assoc p (c ∷ []) cur))

or_either : (a b c : Bool) → a || b ≡ true → (a ≡ true → c ≡ true) → b || c ≡ true
or_either false true c over h = refl
or_either true true c over h = refl
or_either true false c over h = h refl
or_either false false c over h = absurd (ground arith)

or_comm : (a b : Bool) → a || b ≡ b || a
or_comm true true = refl
or_comm true false = refl
or_comm false true = refl
or_comm false false = refl

-- The end of the file behind a line that is skipped.
ended_skipping :
    (k : KeylogSink) (off : ℕ) (gone skipping : Bool) (fs : List Fault) (cur p : List ℕ)
    → gone || skipping ≡ true
    → (gone ≡ true → max_line_len < length cur)
    → ended p (apart (sys k off skipping fs) cur gone).state
      ≡ ended (cur ++ p) (sys k off skipping fs).state
ended_skipping k off gone skipping fs cur p over big =
    let at : off + length cur + length p ≡ off + length (cur ++ p) =
      omega (arith, length-append cur p) in
    let late : skipping || ltb max_line_len (length (cur ++ p)) ≡ true =
      or_either gone skipping _ over
        (λ e. let b = big e in lt→ltb _ _ (omega (arith, length-append cur p))) in
    rw (over, late) (λ i. record { sink = k; off = at i; skipping = true })

-- What is left of a line that is skipped is dropped, as the whole of it is by the lines.
relay_skipping :
    (text p : List ℕ) (s : Sys Merge) (cur : List ℕ) (gone : Bool)
    → gone || s.state.skipping ≡ true
    → (gone ≡ true → max_line_len < length cur)
    → Tame (cur ++ p) text
    → relay p text (apart s cur gone) ≡ relay (cur ++ p) text s
unfolding relay ◌>>=◌
relay_skipping [] p s cur gone over big tame =
    ap (λ m. (ok tt, record s { state = m }))
      (ended_skipping s.state.sink s.state.off gone s.state.skipping s.faults cur p over big)
relay_skipping (c ∷ text) p s cur gone over big tame = elim (Bool-cases (c == 10)) [
  | inl newline ↦
      let sizes = length-append cur p in
      let (long, later) = Tame-newline c (cur ++ p) text newline tame in
      rw (newline, relay)
        (ap (λ x. continue x (λ u. relay [] text))
          (ap (λ b. close (held b cur ++ p) (length p + 1) (apart s cur gone)) (sym over)
            ∙ close_same s cur p gone (λ e. long (let b = big e in omega (arith, sizes)))))
  | inr other ↦
      let assoc = append_assoc cur p (c ∷ []) in
      rw (other, relay)
        (relay_skipping text (p ++ (c ∷ [])) s cur gone over big
            (subst (λ x. Tame x text) assoc (Tame-other c (cur ++ p) text other tame))
          ∙ ap (λ x. relay x text s) (sym assoc))
]

module _ (whole : List ℕ) where
  -- The lines of the file from the place on that was reached.
  rest_of : Unit {0} → Io MergeError Merge (Unit {0})
  rest_of u s = relay [] (drop s.state.off whole) s

  again_end :
      (more cur : List ℕ) (s : Sys Merge)
      → Unbroken cur
      → Tame cur more
      → drop s.state.off whole ≡ cur ++ more
      → rest_of tt (record s { state = ended cur s.state }) ≡ relay cur more s
  unfolding rest_of
  again_end more cur s h tame at =
      elim (Bool-cases (s.state.skipping || ltb max_line_len (length cur))) [
        | inr short ↦ rw short (ap (λ t. relay [] t s) at ∙ relay-Unbroken cur [] more s h)
        | inl over ↦
            let gone = ltb max_line_len (length cur) in
            let back : gone || s.state.skipping ≡ true = or_comm gone s.state.skipping ∙ over in
            let behind : drop (s.state.off + length cur) whole ≡ more =
              sym (drop-drop s.state.off (length cur) whole)
              ∙ ap (drop (length cur)) at
              ∙ drop-append_length cur more in
            rw over (
              (λ i. relay [] (behind i) (record s {
                state = record s.state { off = s.state.off + length cur; skipping = sym back i };
              }))
              ∙ relay_skipping more [] s cur gone back (λ e. ltb→lt _ _ e)
                  (subst (λ x. Tame x more) (sym (append-nil cur)) tame)
              ∙ ap (λ x. relay x more s) (append-nil cur))
      ]

  relay-again :
      (text more cur : List ℕ) (s : Sys Merge)
      → Unbroken cur
      → Tame cur (text ++ more)
      → drop s.state.off whole ≡ cur ++ (text ++ more)
      → continue (relay cur text s) rest_of ≡ relay cur (text ++ more) s
  unfolding relay ◌>>=◌
  relay-again [] more cur s h tame at = again_end more cur s h tame at
  relay-again (c ∷ text) more cur s h tame at =
      let line = append_assoc cur (c ∷ []) (text ++ more) in
      elim (Bool-cases (c == 10)) [
        | inl newline ↦
            let (long, later) = Tame-newline c cur (text ++ more) newline tame in
            let n = length cur + 1 in
            let size : length (cur ++ (c ∷ [])) ≡ n = omega (arith, length-append cur (c ∷ [])) in
            rw (newline, relay)
              (after_line rest_of (relay [] text) (relay [] (text ++ more)) (s.state.off + n)
                (close cur n s)
                (λ s' same. relay-again text more [] s' tt later (
                  ap (λ k. drop k whole) same
                  ∙ sym (drop-drop s.state.off n whole)
                  ∙ (λ i. drop (sym size i) ((at ∙ sym line) i))
                  ∙ drop-append_length (cur ++ (c ∷ [])) (text ++ more)))
                (close-Closes cur n s))
        | inr other ↦
            rw (other, relay)
              (relay-again text more (cur ++ (c ∷ [])) s (All-append _ cur (c ∷ []) h (other, tt))
                (Tame-other c cur (text ++ more) other tame) (at ∙ sym line))
      ]

-- A file that has grown by `more`, tame from every place on: mergeTail before it has grown and again
-- after that has the same result, and relays the same, as mergeTail at the end alone, whatever calls
-- fail; a line that was not complete at first is relayed whole.
pub merge_tail-again :
    (file more : List ℕ) (s : Sys Merge)
    → s.state.off ≤ length file
    → ((n : ℕ) → Tame [] (drop n (file ++ more)))
    → (merge_tail file >> merge_tail (file ++ more)) s ≡ merge_tail (file ++ more) s
unfolding ◌>>◌ rest_of
merge_tail-again file more s inside tame =
    let whole = file ++ more in
    let text = drop s.state.off file in
    let at : drop s.state.off whole ≡ text ++ more = drop-append_le s.state.off file more inside in
    let new : Tame [] (text ++ more) = subst (Tame []) at (tame s.state.off) in
    (λ i.
      continue (merge_tail-eq-relay file s (Tame-prefix [] text more new) i)
        (λ u s'. merge_tail-eq-relay whole s' (tame s'.state.off) i))
    ∙ relay-again whole text more [] s tt new at
    ∙ ap (λ t. relay [] t s) (sym at)
    ∙ sym (merge_tail-eq-relay whole s (tame s.state.off))
