-- ===== src/Storage/Triple.antt =====
-- What holds after an action: `Q` of the result when it returns one; when it stops at an error,
-- wherever in the action that is, `I`, and some call did fail.
use ipcap.Base.{Bool, true, false, if◌then◌else◌, ℕ, List, [], ◌∷◌, All, Result, ok, err, ◌≡◌, refl}
use ipcap.Storage.Io.{
  Fault, fine, fails, Sys, Io, call, syscall, quiet, modify, gets, pure, continue, ◌>>=◌, ◌>>◌,
}

abbrev pub IsFine : Fault → Type 0
IsFine fine = Unit {0}
IsFine (fails n) = ⊥

-- No call of the schedule fails.
abbrev pub AllFine : List Fault → Type 0
AllFine fs = All IsFine fs

module _ {E S : Type 0} where
  abbrev pub After :
      {A : Type 0} → (A → S → Type 0) → (S → Type 0) → List Fault → Result E A × Sys S → Type 0
  After Q I fs (ok a, s) = Q a s.state × (AllFine fs → AllFine s.faults)
  After Q I fs (err e, s) = I s.state × (¬ AllFine fs)

  pub record Triple {A : Type 0} (P : S → Type 0) (m : Io E S A) (Q : A → S → Type 0)
      (I : S → Type 0) : Type 0 where
    pub run : (s : Sys S) → P s.state → After Q I s.faults (m s)

  module _ {A : Type 0} {Q Q' : A → S → Type 0} {I I' : S → Type 0} where
    pub After-weaken :
        (fs : List Fault) (r : Result E A × Sys S)
        → ((a : A) (s : S) → Q a s → Q' a s)
        → ((s : S) → I s → I' s)
        → After Q I fs r
        → After Q' I' fs r
    After-weaken fs (ok a, s) f g h = (f a s.state h.0, h.1)
    After-weaken fs (err e, s) f g h = (g s.state h.0, h.1)

    pub Triple-weaken :
        {P P' : S → Type 0} {m : Io E S A}
        → Triple P m Q I
        → ((s : S) → P' s → P s)
        → ((a : A) (s : S) → Q a s → Q' a s)
        → ((s : S) → I s → I' s)
        → Triple P' m Q' I'
    Triple-weaken {m = m} t before after errors = record {
      run = λ s p. After-weaken s.faults (m s) after errors (t.run s (before s.state p));
    }

  module _ {B : Type 0} (R : B → S → Type 0) (I : S → Type 0) where
    After-chain :
        (fs gs : List Fault) (r : Result E B × Sys S)
        → (AllFine fs → AllFine gs)
        → After R I gs r
        → After R I fs r
    After-chain fs gs (ok b, s) f h = (h.0, λ a. h.1 (f a))
    After-chain fs gs (err e, s) f h = (h.0, λ a. h.1 (f a))

  module _ {A B : Type 0} {Q : A → S → Type 0} {R : B → S → Type 0} {I : S → Type 0} where
    After-continue :
        (fs : List Fault) (r : Result E A × Sys S) (f : A → Io E S B)
        → ((a : A) → Triple (Q a) (f a) R I)
        → After Q I fs r
        → After R I fs (continue r f)
    After-continue fs (ok a, s) f u h = After-chain R I fs s.faults (f a s) h.1 ((u a).run s h.0)
    After-continue fs (err e, s) f u h = h

    pub Triple-bind :
        {P : S → Type 0} {m : Io E S A} {f : A → Io E S B}
        → Triple P m Q I
        → ((a : A) → Triple (Q a) (f a) R I)
        → Triple P (m >>= f) R I
    unfolding ◌>>=◌
    Triple-bind {m = m} {f = f} t u = record {
      run = λ s p. After-continue s.faults (m s) f u (t.run s p);
    }

    pub Triple-then :
        {P : S → Type 0} {m : Io E S A} {n : Io E S B}
        → Triple P m Q I
        → ((a : A) → Triple (Q a) n R I)
        → Triple P (m >> n) R I
    unfolding ◌>>◌
    Triple-then {m = m} {n = n} t u = record {
      run = λ s p. After-continue s.faults (m s) (λ a. n) u (t.run s p);
    }

  module _ (Q I : S → Type 0) where
    After-call :
        (e : E) (done : S → S) (torn : ℕ → S → S) (s : S) (fs : List Fault)
        → Q (done s)
        → ((n : ℕ) → I (torn n s))
        → After (λ (a : Unit {0}) s. Q s) I fs (call e done torn s fs)
    After-call e done torn s [] good bad = (good, λ a. tt)
    After-call e done torn s (fine ∷ fs) good bad = (good, λ a. a.1)
    After-call e done torn s (fails n ∷ fs) good bad = (bad n, λ a. absurd a.0)

  module _ {P : S → Type 0} {Q : S → Type 0} {I : S → Type 0} where
    pub Triple-syscall :
        (e : E) (done : S → S) (torn : ℕ → S → S)
        → ((s : S) → P s → Q (done s))
        → ((s : S) (n : ℕ) → P s → I (torn n s))
        → Triple P (syscall e done torn) (λ (a : Unit {0}) s. Q s) I
    unfolding syscall
    Triple-syscall e done torn good bad = record {
      run = λ s p.
          After-call Q I e done torn s.state s.faults (good s.state p) (λ n. bad s.state n p);
    }

  pub Triple-modify :
      {P : S → Type 0} {Q : S → Type 0} {I : S → Type 0} (f : S → S)
      → ((s : S) → P s → Q (f s))
      → Triple P (modify {E = E} f) (λ (a : Unit {0}) s. Q s) I
  unfolding modify
  Triple-modify f good = record { run = λ s p. (good s.state p, λ a. a) }

  pub Triple-quiet :
      {P : S → Type 0} {I : S → Type 0} (e : E)
      → ((s : S) → P s → I s)
      → Triple P (quiet e) (λ (a : Unit {0}) s. P s) I
  unfolding quiet
  Triple-quiet e bad = Triple-syscall e (λ s. s) (λ n s. s) (λ s p. p) (λ s n p. bad s p)

  module _ {A : Type 0} where
    pub Triple-pure :
        {I : S → Type 0} {Q : A → S → Type 0} (a : A) → Triple (Q a) (pure {E = E} a) Q I
    unfolding pure
    Triple-pure a = record { run = λ s p. (p, λ a. a) }

    pub Triple-gets :
        {P I : S → Type 0} (f : S → A) → Triple P (gets {E = E} f) (λ a s. P s × (a ≡ f s)) I
    unfolding gets
    Triple-gets f = record { run = λ s p. ((p, refl), λ a. a) }

module _ {E S A : Type 0} {P I : S → Type 0} {Q : A → S → Type 0} where
  pub Triple-if :
      (b : Bool) (m n : Io E S A)
      → (b ≡ true → Triple P m Q I)
      → (b ≡ false → Triple P n Q I)
      → Triple P (if b then m else n) Q I
  Triple-if true m n hm hn = hm refl
  Triple-if false m n hm hn = hn refl
