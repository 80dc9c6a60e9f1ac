-- ===== src/Spool/Chain.antt =====
-- What `recoverSpool` returns covers an unbroken range of packet numbers.
use ipcap.Base.{
  ℕ, ◌≡◌, refl, sym, ◌∙◌, subst, Option, none, some, List, [], ◌∷◌, ◌++◌, Bool, true, false, ◌==◌,
  ==_iff, if◌then◌else◌, Bool-cases, Result, ok, err, inl, inr, ◌⊎◌,
}
use ipcap.Storage.Io.{Sys, pure, lift, gets, quiet, continue, ◌>>=◌, ◌>>◌}
use ipcap.Spool.{Segment, Dir, SpoolError, io, find_segment, load_manifest}
use ipcap.Spool.Recover.{
  S, Recovered, Walk, begin, sealed_step, unsealed_step, step_with, scan_segment, walk, start_walk,
  recover_files, recover_spool,
}

-- The segments follow one another from `a` to `b`.
abbrev pub Chain : ℕ → List Segment → ℕ → Type 0
Chain a [] b = a ≡ b
Chain a (s ∷ ss) b = (s.start_gpidx ≡ a) × Chain s.end_gpidx ss b

Chain-append :
    (a b : ℕ) (ss : List Segment) (s : Segment)
    → Chain a ss b
    → s.start_gpidx ≡ b
    → Chain a (ss ++ (s ∷ [])) s.end_gpidx
Chain-append a b [] s h e = (e ∙ sym h, refl)
Chain-append a b (t ∷ ss) s h e = (h.0, Chain-append t.end_gpidx b ss s h.1 e)

abbrev pub segments : Recovered → List Segment
segments r = elim r.active [ none ↦ r.sealed | some s ↦ r.sealed ++ (s ∷ []) ]

-- A property of what an action returns, if it does.
abbrev pub Yields : {A : Type 0} → (A → Type 0) → Result SpoolError A × Sys Dir → Type 0
Yields Q (ok a, s) = Q a
Yields Q (err e, s) = Unit {0}

module _ {A B : Type 0} (Q : A → Type 0) (R : B → Type 0) where
  Yields-continue :
      (r : Result SpoolError A × Sys Dir) (f : A → S B)
      → ((a : A) (s : Sys Dir) → Q a → Yields R (f a s))
      → Yields Q r
      → Yields R (continue r f)
  Yields-continue (ok a, s) f h y = h a s y
  Yields-continue (err e, s) f h y = tt

Yields-map :
    {A : Type 0} (Q R : A → Type 0) (r : Result SpoolError A × Sys Dir)
    → ((a : A) → Q a → R a)
    → Yields Q r
    → Yields R r
Yields-map Q R (ok a, s) f y = f a y
Yields-map Q R (err e, s) f y = tt

Yields-any : {A : Type 0} (r : Result SpoolError A × Sys Dir) → Yields (λ a. Unit {0}) r
Yields-any (ok a, s) = tt
Yields-any (err e, s) = tt

-- Nothing has been found, or the sealed segments reach to the running counter.
record Linked (w : Walk) : Type 0 where
  inactive : w.r.active ≡ none
  linked :
      ((w.have_running ≡ false) × (w.r.sealed ≡ []))
      ⊎ ((w.have_running ≡ true) × Chain w.r.oldest_gpidx w.r.sealed w.running)

-- The end of the walk.
abbrev Covers : Walk → Type 0
Covers w = Chain w.r.oldest_gpidx (segments w.r) w.running

-- A walk that has begun.
abbrev Begun : Walk → Type 0
Begun w =
    (w.have_running ≡ true) × (w.r.active ≡ none) × Chain w.r.oldest_gpidx w.r.sealed w.running

begin-Begun : (start : ℕ) (w : Walk) → Linked w → Begun (begin start w)
begin-Begun start w h =
    let fresh : Walk = record w {
      running = start;
      have_running = true;
      r = record w.r { oldest_gpidx = start };
    } in
    let Goal : Bool → Type 0 = λ b. Begun (if b then w else fresh) in
    elim h.linked [
      | inl (e, nothing) ↦
          subst Goal (sym e)
            (refl, h.inactive, subst (λ ss. Chain start ss start) (sym nothing) refl)
      | inr (e, chain) ↦ subst Goal (sym e) (e, h.inactive, chain)
    ]

Begun-Linked : (w : Walk) → Begun w → Linked w
Begun-Linked w b = record { inactive = b.1; linked = inr (b.0, b.2) }

sealed_step-Begun :
    (seg : Segment) (w : Walk) (s : Sys Dir) → Linked w → Yields Begun (lift (sealed_step seg w) s)
unfolding sealed_step lift
sealed_step-Begun seg w s h =
    let v = begin seg.start_gpidx w in
    let b = begin-Begun seg.start_gpidx w h in
    elim (Bool-cases (seg.start_gpidx == v.running)) [
      | inl e ↦ rw e (
        b.0,
        b.1,
        Chain-append v.r.oldest_gpidx v.running v.r.sealed seg b.2
            ((==_iff seg.start_gpidx v.running).0 e),
      )
      | inr e ↦ rw e tt
    ]

unsealed_step-Begun :
    (seq : ℕ) (w : Walk) (c : ℕ × ℕ) → Linked w → Begun (unsealed_step seq false w c)
unfolding unsealed_step
unsealed_step-Begun seq w (valid_bytes, count) h =
    let v = begin 0 w in
    let b = begin-Begun 0 w h in
    (b.0, b.1, Chain-append v.r.oldest_gpidx v.running v.r.sealed _ b.2 refl)

unsealed_step-Covers :
    (seq : ℕ) (w : Walk) (c : ℕ × ℕ) → Linked w → Covers (unsealed_step seq true w c)
unfolding unsealed_step
unsealed_step-Covers seq w (valid_bytes, count) h =
    let v = begin 0 w in
    let b = begin-Begun 0 w h in Chain-append v.r.oldest_gpidx v.running v.r.sealed _ b.2 refl

Begun-Covers : (w : Walk) → Begun w → Covers w
Begun-Covers w b =
    let Goal : Option Segment → Type 0 =
      λ o. Chain w.r.oldest_gpidx (segments (record w.r { active = o })) w.running in
    subst Goal (sym b.1) b.2

module _ (snaplen link_type : ℕ) (manifest : List Segment) where
  step_inner :
      (seq : ℕ) (w : Walk) (o : Option Segment) (s : Sys Dir)
      → Linked w
      → Yields Begun (step_with snaplen link_type seq false w o s)
  unfolding ◌>>=◌ pure
  step_inner seq w (some seg) s h = sealed_step-Begun seg w s h
  step_inner seq w none s h =
      Yields-continue (λ c. Unit {0}) Begun (scan_segment seq snaplen link_type false s) _
        (λ c t u. unsealed_step-Begun seq w c h)
        (Yields-any (scan_segment seq snaplen link_type false s))

  step_last :
      (seq : ℕ) (w : Walk) (o : Option Segment) (s : Sys Dir)
      → Linked w
      → Yields Covers (step_with snaplen link_type seq true w o s)
  unfolding ◌>>=◌ pure
  step_last seq w (some seg) s h =
      Yields-map Begun Covers (lift (sealed_step seg w) s) Begun-Covers
        (sealed_step-Begun seg w s h)
  step_last seq w none s h =
      Yields-continue (λ c. Unit {0}) Covers (scan_segment seq snaplen link_type true s) _
        (λ c t u. unsealed_step-Covers seq w c h)
        (Yields-any (scan_segment seq snaplen link_type true s))

  walk-Covers :
      (seq : ℕ) (seqs : List ℕ) (w : Walk) (s : Sys Dir)
      → Linked w
      → Yields Covers (walk snaplen link_type manifest (seq ∷ seqs) w s)
  unfolding walk ◌>>=◌ pure
  walk-Covers seq [] w s h =
      Yields-continue Covers Covers
        (step_with snaplen link_type seq true w (find_segment seq manifest) s) _ (λ v t c. c)
        (step_last seq w (find_segment seq manifest) s h)
  walk-Covers seq (p ∷ ps) w s h =
      Yields-continue Begun Covers
        (step_with snaplen link_type seq false w (find_segment seq manifest) s) _
        (λ v t b. walk-Covers p ps v t (Begun-Linked v b))
        (step_inner seq w (find_segment seq manifest) s h)

start-Linked : Linked start_walk
start-Linked = record { inactive = refl; linked = inl (refl, refl) }

abbrev Whole : Recovered → Type 0
Whole r = Chain r.oldest_gpidx (segments r) r.head

recover_files-Chain :
    (snaplen link_type : ℕ) (manifest : List Segment) (seqs : List ℕ) (s : Sys Dir)
    → Yields Whole (recover_files snaplen link_type manifest seqs s)
unfolding ◌>>=◌ pure
recover_files-Chain snaplen link_type manifest [] s = refl
recover_files-Chain snaplen link_type manifest (q ∷ qs) s =
    Yields-continue Covers Whole (walk snaplen link_type manifest (q ∷ qs) start_walk s) _
      (λ w t c. c) (walk-Covers snaplen link_type manifest q qs start_walk s start-Linked)

-- Whatever the directory holds and whichever calls fail, the segments that recoverSpool returns
-- follow one another without a hole from the oldest packet number to the head.
pub recover_spool-Chain :
    (snaplen link_type : ℕ) (s : Sys Dir)
    → Yields (λ r. Chain r.oldest_gpidx (segments r) r.head) (recover_spool snaplen link_type s)
unfolding recover_spool ◌>>=◌ ◌>>◌ gets
recover_spool-Chain snaplen link_type s =
    Yields-continue (λ (a : Unit {0}). Unit {0}) Whole ((quiet {S = Dir} io >> quiet io) s) _
      (λ a t u. recover_files-Chain snaplen link_type (load_manifest t.state) t.state.seqs t)
      (Yields-any ((quiet {S = Dir} io >> quiet io) s))
