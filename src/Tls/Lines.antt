-- ===== src/Tls/Lines.antt =====
-- internal/tls/reconcile.go: the lines of a key log, taken one by one, and where a loop over its chunks is.
use ipcap.Base.{
  subst, Bool-cases, inl, inr, sym, ℕ, ◌+◌, ◌≤◌, ◌<◌, ◌≡◌, refl, ap, ◌∙◌, subst, ◌==◌, List, [],
  ◌∷◌, ◌++◌, length, Bool, true, false, ◌||◌, ltb, Result, ok, err, length-append, if◌then◌else◌,
  arith,
}
use ipcap.Storage.Io.{continue, Fault, Sys, Io, pure, ◌>>=◌}
use ipcap.Keylog.{valid, max_line_len}
use ipcap.Collector.KeylogSink.{KeylogSink, write_line}
use ipcap.Tls.Merge.{Merge, MergeError, write_failed, relayed, closed, close, left}

-- The end of the file, with the bytes `cur` since the last newline: they are left for the next time,
-- or given up when they are too many for a line.
abbrev pub ended : List ℕ → Merge → Merge
ended cur m =
    if m.skipping || ltb max_line_len (length cur)
    then record m { off = m.off + length cur; skipping = true }
    else m

-- The lines of the text, one after the other, with nothing cut: `cur` is what a line begins with.
unfoldable pub relay : List ℕ → List ℕ → Io MergeError Merge (Unit {0})
unfolding close
relay cur [] s = (ok tt, record s { state = ended cur s.state })
relay cur (c ∷ text) s = elim (c == 10) [
  | true ↦ (close cur (length cur + 1) >>= λ u. relay [] text) s
  | false ↦ relay (cur ++ (c ∷ [])) text s
]

-- No line of the text that is longer than a key log line can be is a key log line, by the spaces
-- around it.
abbrev pub Tame : List ℕ → List ℕ → Type 0
Tame cur [] = Unit {0}
Tame cur (c ∷ text) = elim (c == 10) [
  | true ↦ (max_line_len < length cur → valid cur ≡ false) × Tame [] text
  | false ↦ Tame (cur ++ (c ∷ [])) text
]

-- Where the loop over chunks is when the lines are at `r` with `cur` of the next one: `gone` says that
-- it has given the line up.
abbrev pub apart : Sys Merge → List ℕ → Bool → Sys Merge
apart r cur gone = record r {
  state = record r.state { off = r.state.off + length cur; skipping = gone || r.state.skipping };
}

abbrev pub held : Bool → List ℕ → List ℕ
held true cur = []
held false cur = cur

pub record Apart (r : Sys Merge) (cur : List ℕ) (gone : Bool) : Type 0 where
  pub big : gone ≡ true → max_line_len < length cur
  pub fits : gone || r.state.skipping ≡ false → length cur ≤ max_line_len

abbrev pub sys : KeylogSink → ℕ → Bool → List Fault → Sys Merge
sys k off skipping fs = record {
  state = record { sink = k; off = off; skipping = skipping };
  faults = fs;
}

-- The end of a line.
closed_same :
    (gone skipping : Bool) (off : ℕ) (cur pre : List ℕ) (s : Sys KeylogSink)
    → (gone ≡ true → valid (cur ++ pre) ≡ false)
    → closed (gone || skipping) off (held (gone || skipping) cur ++ pre) s
      ≡ closed skipping off (cur ++ pre) s
unfolding write_line pure
closed_same false true off cur pre s long = refl
closed_same false false off cur pre s long = refl
closed_same true true off cur pre s long = refl
closed_same true false off cur pre s long = rw (long refl, write_line) refl

pub left-held : (b : Bool) (cur : List ℕ) → left b (held b cur) ≡ []
left-held true cur = refl
left-held false cur = refl

-- What the end of a line results in.
abbrev pub Closes : ℕ → Result MergeError (Unit {0}) × Sys Merge → Type 0
Closes off (ok u, s) = s.state.off ≡ off
Closes off (err e, s) = Unit {0}

relayed-Closes :
    (off : ℕ) (r : Result MergeError (Unit {0}) × Sys KeylogSink) → Closes off (relayed off r)
relayed-Closes off (ok u, s) = refl
relayed-Closes off (err e, s) = tt

closed-Closes :
    (skipping : Bool) (off : ℕ) (line : List ℕ) (s : Sys KeylogSink)
    → Closes off (closed skipping off line s)
closed-Closes true off line s = refl
closed-Closes false off line s = relayed-Closes off (write_line write_failed line s)

pub held-nil : (b : Bool) → held b [] ≡ []
held-nil true = refl
held-nil false = refl

pub new-Apart : (r : Sys Merge) → Apart r [] false
new-Apart r = record { big = λ e. absurd (ground arith); fits = λ e. omega arith }

-- `Tame` at a byte that is a newline or not.
abbrev TameStep : ℕ → List ℕ → List ℕ → Bool → Type 0
TameStep c cur text b = elim b [
  | true ↦ (max_line_len < length cur → valid cur ≡ false) × Tame [] text
  | false ↦ Tame (cur ++ (c ∷ [])) text
]

pub Tame-newline :
    (c : ℕ) (cur text : List ℕ)
    → (c == 10) ≡ true
    → Tame cur (c ∷ text)
    → (max_line_len < length cur → valid cur ≡ false) × Tame [] text
Tame-newline c cur text e t = subst (TameStep c cur text) e t

pub Tame-other :
    (c : ℕ) (cur text : List ℕ)
    → (c == 10) ≡ false
    → Tame cur (c ∷ text)
    → Tame (cur ++ (c ∷ [])) text
Tame-other c cur text e t = subst (TameStep c cur text) e t

-- A text that is no longer than a key log line can be is tame.
pub Tame-small : (cur text : List ℕ) → length cur + length text ≤ max_line_len → Tame cur text
Tame-small cur [] h = tt
Tame-small cur (c ∷ text) h = elim (Bool-cases (c == 10)) [
  | inl e ↦
      subst (TameStep c cur text) (sym e)
        ((λ long. absurd (omega arith)), Tame-small [] text (omega arith))
  | inr e ↦
      subst (TameStep c cur text) (sym e)
        (Tame-small (cur ++ (c ∷ [])) text (omega (arith, length-append cur (c ∷ []))))
]

pub Tame-prefix : (cur text more : List ℕ) → Tame cur (text ++ more) → Tame cur text
Tame-prefix cur [] more t = tt
Tame-prefix cur (c ∷ text) more t = elim (Bool-cases (c == 10)) [
  | inl e ↦
      let (long, later) = Tame-newline c cur (text ++ more) e t in
      subst (TameStep c cur text) (sym e) (long, Tame-prefix [] text more later)
  | inr e ↦
      subst (TameStep c cur text) (sym e)
        (Tame-prefix (cur ++ (c ∷ [])) text more (Tame-other c cur (text ++ more) e t))
]

pub plus_zero : (n : ℕ) → n + 0 ≡ n
plus_zero n = omega arith

pub close-Closes :
    (line : List ℕ) (n : ℕ) (r : Sys Merge) → Closes (r.state.off + n) (close line n r)
unfolding close
close-Closes line n r = closed-Closes r.state.skipping (r.state.off + n) line _

pub close_same :
    (r : Sys Merge) (cur pre : List ℕ) (gone : Bool)
    → (gone ≡ true → valid (cur ++ pre) ≡ false)
    → close (held (gone || r.state.skipping) cur ++ pre) (length pre + 1) (apart r cur gone)
      ≡ close (cur ++ pre) (length (cur ++ pre) + 1) r
unfolding close
close_same r cur pre gone long =
    let k : Sys KeylogSink = record { state = r.state.sink; faults = r.faults } in
    let at : r.state.off + length cur + (length pre + 1) ≡ r.state.off + (length (cur ++ pre) + 1) =
      omega (arith, length-append cur pre) in
    closed_same gone r.state.skipping _ cur pre k long
    ∙ ap (λ n. closed r.state.skipping n (cur ++ pre) k) at

-- Where a line has ended, two ways to go on are compared at the place behind it.
pub after_line :
    {A : Type 0} (K : A → Io MergeError Merge (Unit {0})) (m : Io MergeError Merge A)
    (n : Io MergeError Merge (Unit {0})) (off : ℕ) (x : Result MergeError (Unit {0}) × Sys Merge)
    → ((s : Sys Merge) → s.state.off ≡ off → continue (m s) K ≡ n s)
    → Closes off x
    → continue (continue x (λ u. m)) K ≡ continue x (λ u. n)
after_line K m n off (ok u, s) next same = next s same
after_line K m n off (err e, s) next same = refl
