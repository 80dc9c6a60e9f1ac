-- ===== src/Tls/Running.antt =====
-- internal/tls/reconcile.go: the hooks that run after a round are the desired ones.
use ipcap.Base.{
  ℕ, ◌≡◌, refl, sym, ap, ◌∙◌, List, [], ◌∷◌, ◌==◌, ==_iff, true, false, ◌&&◌, Bool-cases, inl, inr,
  Option, none, some, Option-cases, Result, ok, if◌then◌else◌, arith,
}
use ipcap.Keylog.{bytes_eq}
use ipcap.Tls.Reconcile.{
  Target, Config, Map, lookup, is_some, plan, found, keep_desired, start_missing, reconcile_once,
}

false-not : ¬ (false ≡ true)
false-not e = ground arith

bytes_eq_sound : (xs ys : List ℕ) → bytes_eq xs ys ≡ true → xs ≡ ys
bytes_eq_sound [] [] h = refl
bytes_eq_sound [] (y ∷ ys) h = absurd (ground arith)
bytes_eq_sound (x ∷ xs) [] h = absurd (ground arith)
bytes_eq_sound (x ∷ xs) (y ∷ ys) h = elim (Bool-cases (x == y)) [
  | inl e ↦
      let rest : bytes_eq xs ys ≡ true = sym (ap (λ b. b && bytes_eq xs ys) e) ∙ h in
      λ i. (==_iff x y).0 e i ∷ bytes_eq_sound xs ys rest i
  | inr e ↦ absurd (false-not (sym (ap (λ b. b && bytes_eq xs ys) e) ∙ h))
]

-- The target of a hook that runs after a round: the one that ran before, or the desired one.
abbrev pub hooked : Option Target → Option Target → Option Target
hooked none old = none
hooked (some t) none = some t
hooked (some t) (some old) = some old

abbrev either : Option Target → Option Target → Option Target
either none d = d
either (some t) d = some t

keep_desired-lookup :
    (key : List ℕ) (desired running : Map)
    → lookup key (keep_desired desired running).0
      ≡ (if is_some (lookup key desired) then lookup key running else none)
unfolding keep_desired lookup
keep_desired-lookup key desired [] = elim (Bool-cases (is_some (lookup key desired))) [
  | inl e ↦ rw e refl
  | inr e ↦ rw e refl
]
keep_desired-lookup key desired ((k, t) ∷ running) =
    let IH = keep_desired-lookup key desired running in
    elim (Bool-cases (bytes_eq k key)) [
      | inl same ↦
          let alike : is_some (lookup k desired) ≡ is_some (lookup key desired) =
            ap (λ x. is_some (lookup x desired)) (bytes_eq_sound k key same) in
          elim (Bool-cases (is_some (lookup key desired))) [
            | inl wanted ↦ rw (alike, wanted, same, lookup) refl
            | inr gone ↦ rw (alike, gone) (IH ∙ rw gone refl)
          ]
      | inr other ↦ elim (Bool-cases (is_some (lookup k desired))) [
        | inl wanted ↦ rw (wanted, other, lookup) IH
        | inr gone ↦ rw (gone, other) IH
      ]
    ]

either_running :
    (key k : List ℕ) (t : Target) (desired running : Map)
    → is_some (lookup k running) ≡ true
    → either (lookup key running) (lookup key desired)
      ≡ either (lookup key running) (lookup key ((k, t) ∷ desired))
unfolding lookup
either_running key k t desired running runs = elim (Bool-cases (bytes_eq k key)) [
  | inl same ↦ elim (Option-cases (lookup key running)) [
    | inl none_there ↦ absurd (
        false-not (
          sym (ap is_some none_there)
          ∙ ap (λ x. is_some (lookup x running)) (sym (bytes_eq_sound k key same))
          ∙ runs))
    | inr (u, e) ↦ rw e refl
  ]
  | inr other ↦ rw (other, lookup) refl
]

either_new :
    (key k : List ℕ) (t : Target) (desired running : Map)
    → is_some (lookup k running) ≡ false
    → either (lookup key ((k, t) ∷ running)) (lookup key desired)
      ≡ either (lookup key running) (lookup key ((k, t) ∷ desired))
unfolding lookup
either_new key k t desired running not_yet = elim (Bool-cases (bytes_eq k key)) [
  | inl same ↦ elim (Option-cases (lookup key running)) [
    | inl none_there ↦ rw (same, none_there, lookup) refl
    | inr (u, e) ↦ absurd (
        false-not (
          sym not_yet
          ∙ ap (λ x. is_some (lookup x running)) (bytes_eq_sound k key same)
          ∙ ap is_some e))
  ]
  | inr other ↦ rw (other, lookup) refl
]

start_missing-lookup :
    (key : List ℕ) (desired running : Map)
    → lookup key (start_missing false desired running).0
      ≡ either (lookup key running) (lookup key desired)
unfolding start_missing lookup
start_missing-lookup key [] running = elim (Option-cases (lookup key running)) [
  | inl e ↦ rw e refl
  | inr (u, e) ↦ rw e refl
]
start_missing-lookup key ((k, t) ∷ desired) running =
    let next = start_missing-lookup key desired in
    elim (Bool-cases (is_some (lookup k running))) [
      | inl runs ↦ rw runs (next running ∙ either_running key k t desired running runs)
      | inr not_yet ↦
          rw not_yet (next ((k, t) ∷ running) ∙ either_new key k t desired running not_yet)
    ]

either-hooked :
    (old new : Option Target) → either (if is_some new then old else none) new ≡ hooked new old
either-hooked none none = refl
either-hooked (some o) none = refl
either-hooked none (some t) = refl
either-hooked (some o) (some t) = refl

-- With a configuration that can be read, and without DryRun, exactly the keys that are planned have a
-- hook after a round: the hook that ran before, where one did, whatever its target was, and one on the
-- planned target elsewhere. Where Discover failed, only the manual targets are planned.
pub reconcile_once-lookup :
    (c : Config) (discovered : Result (Unit {0}) (List Target)) (running : Map) (key : List ℕ)
    → lookup key (reconcile_once false (ok c) discovered running).0
      ≡ hooked (lookup key (plan c (found c discovered))) (lookup key running)
unfolding reconcile_once
reconcile_once-lookup c discovered running key =
    let desired = plan c (found c discovered) in
    start_missing-lookup key desired (keep_desired desired running).0
    ∙ ap (λ o. either o (lookup key desired)) (keep_desired-lookup key desired running)
    ∙ either-hooked (lookup key running) (lookup key desired)
