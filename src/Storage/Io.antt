-- ===== src/Storage/Io.antt =====
-- Go functions that call the operating system and return an error: the state they mutate comes back
-- beside the error too. Which calls fail is a schedule, read call by call.
use ipcap.Base.{ℕ, List, [], ◌∷◌, Result, ok, err}

-- `fails n`: the call returns an error; a write has written `n` bytes before that.
pub data Fault : Type 0 where
  fine : Fault
  fails : ℕ → Fault

-- A schedule that is used up lets every further call succeed.
pub record Sys (S : Type 0) : Type 0 where
  pub state : S
  pub faults : List Fault

abbrev pub Io : Type 0 → Type 0 → Type 0 → Type 0
Io E S A = Sys S → Result E A × Sys S

module _ {E S A : Type 0} where
  unfoldable pub pure : A → Io E S A
  pure a s = (ok a, s)

  unfoldable pub raise : E → Io E S A
  raise e s = (err e, s)

  unfoldable pub lift : Result E A → Io E S A
  lift r s = (r, s)

  unfoldable pub gets : (S → A) → Io E S A
  gets f s = (ok (f s.state), s)

unfoldable pub modify : {E S : Type 0} → (S → S) → Io E S (Unit {0})
modify f s = (ok tt, record s { state = f s.state })

module _ {E S : Type 0} (e : E) (done : S → S) (torn : ℕ → S → S) where
  abbrev pub call : S → List Fault → Result E (Unit {0}) × Sys S
  call s [] = (ok tt, record { state = done s; faults = [] })
  call s (fine ∷ fs) = (ok tt, record { state = done s; faults = fs })
  call s (fails n ∷ fs) = (err e, record { state = torn n s; faults = fs })

  -- One call of the system, with its effect and the effect that it may have when it fails.
  unfoldable pub syscall : Io E S (Unit {0})
  syscall s = call s.state s.faults

-- A call that changes nothing that is modelled, such as a seek, or a write to a temporary file.
unfoldable pub quiet : {E S : Type 0} → E → Io E S (Unit {0})
unfolding syscall
quiet e = syscall e (λ s. s) (λ n s. s)

module _ {E S A B : Type 0} where
  abbrev pub continue : Result E A × Sys S → (A → Io E S B) → Result E B × Sys S
  continue (ok a, s) f = f a s
  continue (err e, s) f = (err e, s)

  infixl 5 ◌>>=◌ ◌>>◌
  unfoldable pub ◌>>=◌ : Io E S A → (A → Io E S B) → Io E S B
  ◌>>=◌ m f s = continue (m s) f

  unfoldable pub ◌>>◌ : Io E S A → Io E S B → Io E S B
  ◌>>◌ m n s = continue (m s) (λ a. n)
