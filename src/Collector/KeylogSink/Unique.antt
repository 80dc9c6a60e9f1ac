-- ===== src/Collector/KeylogSink/Unique.antt =====
-- internal/collector/keylog.go: the file of a sink holds each key once.
use ipcap.Base.{
  ℕ, ◌≤◌, ◌<◌, ◌≡◌, refl, sym, ap, ◌∙◌, subst, List, [], ◌∷◌, ◌++◌, length, take, true, false,
  append-nil, ==_refl, ◌||◌, ltb, ltb→le, ◌==◌, if◌then◌else◌, inl, inr, Bool-cases, ok, err, arith,
}
use ipcap.Storage.Io.{Fault, fails, Sys, pure, syscall, modify, ◌>>◌}
use ipcap.Storage.Triple.{After, Triple, Triple-then, Triple-modify, Triple-syscall}
use ipcap.Keylog.{valid, bytes_eq, trim_space, contains, max_line_len}
use ipcap.Collector.KeylogSink.{KeylogSink, write_line}

-- One key to a line, the last one first in the list.
abbrev pub file_of : List (List ℕ) → List ℕ
file_of [] = []
file_of (k ∷ ks) = file_of ks ++ (k ++ (10 ∷ []))

-- No key is there twice, and each has between 1 and 256 bytes.
abbrev pub AreKeys : List (List ℕ) → Type 0
AreKeys [] = Unit {0}
AreKeys (k ∷ ks) = (contains ks k ≡ false) × (0 < length k) × (length k ≤ max_line_len) × AreKeys ks

pub record Clean (k : KeylogSink) : Type 0 where
  pub holds : k.file ≡ file_of k.seen
  pub keys : AreKeys k.seen

-- The file of a clean sink with one more key, whose line may be cut short.
pub record Cut (k : KeylogSink) : Type 0 where
  pub keys : AreKeys k.seen
  pub file_parts :
      (key : List ℕ) × (rest : List (List ℕ)) × (n : ℕ) × (k.seen ≡ key ∷ rest)
      × (k.file ≡ file_of rest ++ take n (key ++ (10 ∷ [])))

positive : (n : ℕ) → (n == 0) ≡ false → 0 < n
positive n h = ground arith

valid_bounds :
    (line : List ℕ)
    → valid line ≡ true
    → (0 < length (trim_space line)) × (length (trim_space line) ≤ max_line_len)
unfolding valid
valid_bounds line h = elim (Bool-cases (length (trim_space line) == 0)) [
  | inl empty ↦ let e : false ≡ true = rw (empty, ◌||◌, if◌then◌else◌) at h in cc
  | inr some_byte ↦ elim (Bool-cases (ltb max_line_len (length (trim_space line)))) [
    | inl long ↦ let e : false ≡ true = rw (some_byte, long, ◌||◌, if◌then◌else◌) at h in cc
    | inr short ↦ (positive (length (trim_space line)) some_byte, ltb→le _ _ short)
  ]
]

module _ {E : Type 0} (e : E) where
  add_key :
      (key : List ℕ) (seen : List (List ℕ))
      → AreKeys (key ∷ seen)
      → Triple
          (λ k. Clean k × (k.seen ≡ seen))
          (modify (λ k. record k { seen = key ∷ k.seen })
            >> syscall e
                (λ k. record k { file = k.file ++ (key ++ (10 ∷ [])) })
                (λ n k. record k { file = k.file ++ take n (key ++ (10 ∷ [])) }))
          (λ u. Clean)
          Cut
  add_key key seen h =
      Triple-then {Q = λ u k. (k.seen ≡ key ∷ seen) × (k.file ≡ file_of seen)}
        (Triple-modify (λ k. record k { seen = key ∷ k.seen })
          λ k (c, same). (ap (λ ks. key ∷ ks) same, c.holds ∙ ap file_of same))
        (λ u.
          Triple-syscall e _ _
            (λ k (same, at). record {
              holds = ap (λ f. f ++ (key ++ (10 ∷ []))) at ∙ sym (ap file_of same);
              keys = subst AreKeys (sym same) h;
            })
            (λ k n (same, at). record {
              keys = subst AreKeys (sym same) h;
              file_parts = (key, seen, n, same, ap (λ f. f ++ take n (key ++ (10 ∷ []))) at);
            }))

  -- Whatever the line is: a sink whose file holds its keys once each, with 1 to 256 bytes, is such a
  -- sink again when Write returns; when Write stops, the write failed, and at most the last line of
  -- the file is cut short.
  pub write_line-Clean :
      (line : List ℕ) (s : Sys KeylogSink)
      → Clean s.state
      → After (λ u. Clean) Cut s.faults (write_line e line s)
  unfolding write_line pure
  write_line-Clean line s c = elim (Bool-cases (valid line)) [
    | inr bad ↦ rw (bad, if◌then◌else◌) (c, λ a. a)
    | inl good ↦ elim (Bool-cases (contains s.state.seen (trim_space line))) [
      | inl old ↦ rw (good, old, if◌then◌else◌) (c, λ a. a)
      | inr new ↦
          let bounds = valid_bounds line good in
          rw (good, new, if◌then◌else◌)
            ((add_key (trim_space line) s.state.seen (new, bounds.0, bounds.1, c.keys)).run s
              (c, refl))
    ]
  ]

module _ {E : Type 0} (e : E) where
  -- Write stops only where a call failed.
  pub write_line-After :
      (line : List ℕ) (s : Sys KeylogSink)
      → After
          (λ (u : Unit {0}) (k : KeylogSink). Unit {0})
          (λ k. Unit {0})
          s.faults
          (write_line e line s)
  unfolding write_line pure
  write_line-After line s = elim (Bool-cases (valid line)) [
    | inr bad ↦ rw (bad, if◌then◌else◌) (tt, λ a. a)
    | inl good ↦ elim (Bool-cases (contains s.state.seen (trim_space line))) [
      | inl old ↦ rw (good, old, if◌then◌else◌) (tt, λ a. a)
      | inr new ↦
          rw (good, new, if◌then◌else◌)
            ((Triple-then {Q = λ u k. Unit {0}}
                (Triple-modify {P = λ k. Unit {0}}
                  (λ k. record k { seen = trim_space line ∷ k.seen }) (λ k h. tt))
                (λ u. Triple-syscall e _ _ (λ k h. tt) (λ k n h. tt))).run
              s tt)
    ]
  ]

bytes_eq_refl : (k : List ℕ) → bytes_eq k k ≡ true
bytes_eq_refl [] = refl
bytes_eq_refl (x ∷ k) = rw (==_refl x) (bytes_eq_refl k)

contains-head : (ks : List (List ℕ)) (k : List ℕ) → contains (k ∷ ks) k ≡ true
unfolding contains
contains-head ks k = rw (bytes_eq_refl k)

-- The sink as a write that failed before its first byte leaves it.
abbrev after_failure : List ℕ → KeylogSink → KeylogSink
after_failure line k = record { file = k.file ++ []; seen = trim_space line ∷ k.seen }

module _ {E : Type 0} (e : E) (line : List ℕ) (fs gs : List Fault) (k : KeylogSink)
    (good : valid line ≡ true) (new : contains k.seen (trim_space line) ≡ false) where
  fails_once :
      write_line e line (record { state = k; faults = fails 0 ∷ fs })
      ≡ (err e, record { state = after_failure line k; faults = fs })
  unfolding write_line modify syscall ◌>>◌
  fails_once = rw (good, new, if◌then◌else◌)

  does_nothing :
      write_line e line (record { state = after_failure line k; faults = gs })
      ≡ (ok tt, record { state = after_failure line k; faults = gs })
  unfolding write_line pure
  does_nothing = rw (good, contains-head k.seen (trim_space line), if◌then◌else◌)

  -- When the write of a valid line that is new fails before its first byte, the key is taken for
  -- written: the file is as before, and Write of the same line again returns without an error and
  -- changes nothing.
  pub write_line-lost :
      (k' : KeylogSink) × (write_line e line (record { state = k; faults = fails 0 ∷ fs })
        ≡ (err e, record { state = k'; faults = fs }))
      × (k'.file ≡ k.file)
      × (write_line e line (record { state = k'; faults = gs })
          ≡ (ok tt, record { state = k'; faults = gs }))
  write_line-lost = (after_failure line k, fails_once, append-nil k.file, does_nothing)
