-- ===== src/Transport/Carries.antt =====
-- internal/transport/noise.go: a stream of messages and the plaintext that it carries, as Write makes it.
use ipcap.Base.{
  ℕ, zero, suc, ◌+◌, ◌^◌, ◌≤◌, ◌<◌, ◌≡◌, refl, sym, ap, ◌∙◌, subst, min, List, [], ◌∷◌, ◌++◌,
  append-nil, append_assoc, length, take, drop, length-take, take-append_add, length-drop, ok,
  arith,
}
use ipcap.Storage.Io.{Sys}
use ipcap.Storage.Triple.{
  After, After-weaken, Triple, Triple-weaken, Triple-then, Triple-modify, Triple-syscall,
  Triple-pure,
}
use ipcap.Transport.Conn.{
  Cipher, Sender, write_failed, max_plaintext, message, write_raw, write_sealed, write_chunk,
  write_loop, write,
}

-- From the receiving state `r` the bytes `raw` carry the plaintext `p`, a message at a time.
pub data Carries {S : Type 0} (cipher : Cipher S) : S → List ℕ → List ℕ → Type 0 where
  done : (r : S) → Carries cipher r [] []
  more :
      (r r' : S) (ct pt raw p : List ℕ)
      → length ct < 2 ^ 16
      → 0 < length pt
      → cipher.decrypt r ct ≡ ok (pt, r')
      → Carries cipher r' raw p
      → Carries cipher r (message ct ++ raw) (pt ++ p)

-- What the code relies on: two states that belong together, where the receiver opens what the sender
-- seals, in the same order, with a tag of 16 bytes.
pub record Paired {S : Type 0} (cipher : Cipher S) (Pair : S → S → Type 0) : Type 0 where
  pub seals :
      (s r : S) (pt : List ℕ)
      → Pair s r
      → length pt ≤ max_plaintext
      → (ct : List ℕ) × (s' : S) × (r' : S) × (cipher.encrypt s pt ≡ ok (ct, s'))
        × (cipher.decrypt r ct ≡ ok (pt, r'))
        × (length ct ≡ length pt + 16)
        × Pair s' r'

append-take-drop : (m : ℕ) (xs : List ℕ) → take m xs ++ drop (length (take m xs)) xs ≡ xs
append-take-drop zero xs = refl
append-take-drop (suc m) [] = refl
append-take-drop (suc m) (x ∷ xs) = ap (λ t. x ∷ t) (append-take-drop m xs)

module _ {S : Type 0} (cipher : Cipher S) (Pair : S → S → Type 0)
    (paired : Paired cipher Pair) where
  -- What was written is `before` and a stream that carries `p` to the receiver, which then belongs to
  -- the sender again.
  abbrev pub Written : S → List ℕ → List ℕ → Sender S → Type 0
  Written r before p c =
      (raw : List ℕ) × (r' : S) × Carries cipher r raw p × (c.raw ≡ before ++ raw) × Pair c.send r'

  -- What was written is `before` and the front of a stream that carries part of `p`.
  abbrev pub Broken : S → List ℕ → List ℕ → Sender S → Type 0
  Broken r before p c =
      (raw : List ℕ) × (n : ℕ) × (k : ℕ) × Carries cipher r raw (take k p)
      × (c.raw ≡ before ++ take n raw)

  abbrev From : S → List ℕ → Sender S → Type 0
  From r before c = Pair c.send r × (c.raw ≡ before)

  -- A chunk is one message.
  abbrev Sealed : S → List ℕ → List ℕ → Sender S → Type 0
  Sealed r before chunk c =
      (ct : List ℕ) × (r' : S) × (length ct < 2 ^ 16)
      × (cipher.decrypt r ct ≡ ok (chunk, r'))
      × (c.raw ≡ before ++ message ct)
      × Pair c.send r'

  single :
      (r r' : S) (ct pt : List ℕ)
      → length ct < 2 ^ 16
      → 0 < length pt
      → cipher.decrypt r ct ≡ ok (pt, r')
      → Carries cipher r (message ct) pt
  single r r' ct pt small some_byte opens =
      let m : message ct ++ [] ≡ message ct = append-nil (message ct) in
      let q : pt ++ [] ≡ pt = append-nil pt in
      subst (λ (x : List ℕ × List ℕ). Carries cipher r x.0 x.1) (λ i. (m i, q i))
        (more r r' ct pt [] [] small some_byte opens (done r'))

  write_chunk-Sealed :
      (r : S) (before chunk : List ℕ) (total k : ℕ) (p : List ℕ)
      → 0 < length chunk
      → length chunk ≤ max_plaintext
      → chunk ≡ take k p
      → Triple
          (From r before)
          (write_chunk cipher total chunk)
          (λ u. Sealed r before chunk)
          (Broken r before p)
  unfolding write_chunk write_raw
  write_chunk-Sealed r before chunk total k p some_byte fits front = record {
    run = λ s (pair, same).
        let (ct, s', r', e, opens, size, next) = paired.seals s.state.send r chunk pair fits in
        let small : length ct < 2 ^ 16 = omega arith in
        subst
          (λ x.
            After (λ u. Sealed r before chunk) (Broken r before p) s.faults
              (write_sealed total x s))
          (sym e)
          ((Triple-then {Q = λ u c. (c.send ≡ s') × (c.raw ≡ before)} {P = λ c. c.raw ≡ before}
              (Triple-modify (λ (c : Sender S). record c { send = s' }) (λ c h. (refl, h)))
              (λ u.
                Triple-syscall (write_failed total) _ _
                  (λ c (at, h). (
                    ct,
                    r',
                    small,
                    opens,
                    ap (λ x. x ++ message ct) h,
                    subst (λ x. Pair x r') (sym at) next,
                  ))
                  (λ c n (at, h). (
                    message ct,
                    n,
                    k,
                    subst (Carries cipher r (message ct)) front
                        (single r r' ct chunk small some_byte opens),
                    ap (λ x. x ++ take n (message ct)) h,
                  )))).run
            s same);
  }

  prepend-Written :
      (r r' : S) (before ct chunk rest : List ℕ) (c : Sender S)
      → length ct < 2 ^ 16
      → 0 < length chunk
      → cipher.decrypt r ct ≡ ok (chunk, r')
      → Written r' (before ++ message ct) rest c
      → Written r before (chunk ++ rest) c
  prepend-Written r r' before ct chunk rest c small some_byte opens (raw, r2, carried, at, pair) = (
    message ct ++ raw,
    r2,
    more r r' ct chunk raw rest small some_byte opens carried,
    at ∙ append_assoc before (message ct) raw,
    pair,
  )

  prepend-Broken :
      (r r' : S) (before ct chunk rest : List ℕ) (c : Sender S)
      → length ct < 2 ^ 16
      → 0 < length chunk
      → cipher.decrypt r ct ≡ ok (chunk, r')
      → Broken r' (before ++ message ct) rest c
      → Broken r before (chunk ++ rest) c
  prepend-Broken r r' before ct chunk rest c small some_byte opens (raw, n, k, carried, at) = (
    message ct ++ raw,
    length (message ct) + n,
    length chunk + k,
    subst (Carries cipher r (message ct ++ raw)) (sym (take-append_add k chunk rest))
        (more r r' ct chunk raw (take k rest) small some_byte opens carried),
    at
        ∙ append_assoc before (message ct) (take n raw)
        ∙ ap (λ x. before ++ x) (sym (take-append_add n (message ct) raw)),
  )

  write_loop-Written :
      (fuel total : ℕ) (p : List ℕ) (r : S) (before : List ℕ)
      → length p ≤ fuel
      → Triple
          (From r before)
          (write_loop cipher fuel total p)
          (λ n c. (n ≡ total + length p) × Written r before p c)
          (Broken r before p)
  unfolding write_loop
  write_loop-Written fuel total [] r before h =
      Triple-weaken {Q = λ n c. (n ≡ total + 0) × Written r before [] c} (Triple-pure total)
        (λ c (pair, at). (omega arith, ([], r, done r, at ∙ sym (append-nil before), pair)))
        (λ n c g. g) (λ c g. g)
  write_loop-Written zero total (b ∷ p) r before h = absurd (omega arith)
  write_loop-Written (suc fuel) total (b ∷ p) r before h =
      let chunk = take max_plaintext (b ∷ p) in
      let rest = drop (length chunk) (b ∷ p) in
      let size : length chunk ≡ min max_plaintext (length (b ∷ p)) =
        length-take max_plaintext (b ∷ p) in
      let whole : chunk ++ rest ≡ b ∷ p = append-take-drop max_plaintext (b ∷ p) in
      let left = length-drop (length chunk) (b ∷ p) in
      Triple-then {Q = λ u. Sealed r before chunk}
        (write_chunk-Sealed r before chunk total max_plaintext (b ∷ p) (omega arith) (omega arith)
          refl)
        (λ u. record {
          run = λ s (ct, r', small, opens, at, pair).
              After-weaken
                {Q = λ n c.
                  (n ≡ total + length chunk + length rest)
                  × Written r' (before ++ message ct) rest c}
                {I = Broken r' (before ++ message ct) rest} s.faults _
                (λ n c (count, g). (
                  omega arith,
                  subst (λ x. Written r before x c) whole
                      (prepend-Written r r' before ct chunk rest c small (omega arith) opens g),
                ))
                (λ c g.
                  subst (λ x. Broken r before x c) whole
                    (prepend-Broken r r' before ct chunk rest c small (omega arith) opens g))
                ((write_loop-Written fuel (total + length chunk) rest r' (before ++ message ct)
                    (omega arith)).run
                  s (pair, at));
        })

  -- Write of any bytes to a receiver that belongs to the sender: it returns their number, and what it
  -- has written carries them, in messages that the length field holds; or a write failed, and the
  -- front of a stream that carries a front of them is written. With no failing call it returns.
  pub write-Written :
      (p before : List ℕ) (r : S) (s : Sys (Sender S))
      → Pair s.state.send r
      → s.state.raw ≡ before
      → After
          (λ n c. (n ≡ length p) × Written r before p c)
          (Broken r before p)
          s.faults
          (write cipher p s)
  unfolding write
  write-Written p before r s pair at =
      After-weaken {Q = λ n c. (n ≡ 0 + length p) × Written r before p c} {I = Broken r before p}
        s.faults _ (λ n c (count, g). (omega arith, g)) (λ c g. g)
        ((write_loop-Written (length p) 0 p r before (omega arith)).run s (pair, at))
