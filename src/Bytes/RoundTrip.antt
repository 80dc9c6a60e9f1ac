-- ===== src/Bytes/RoundTrip.antt =====
-- The conversions undo one another, in both byte orders and at every width.
use ipcap.Base.{
  ℕ, zero, suc, ◌+◌, ◌*◌, ◌/◌, ◌%◌, ◌^◌, ◌≤◌, ◌<◌, ◌≡◌, refl, ap, ◌∙◌, arith, List, [], ◌∷◌, ◌++◌,
  length, All, ok, err, length-append, take-append_length, drop-append_length, append-nil, leb,
  le→leb, lt→leb, true, take-append-drop, length-take, length-drop, All-take, All-drop, take, drop,
  ◌≤◌,
}
use ipcap.Bytes.Defs.{
  byte_at, uint_be_at, IsByte, put_le, get_le, put_be_onto, put_be, get_be_from, get_be, short_read,
  read_full,
}
use native.Mathlib.Nat.{pow-suc}

pub length-put_le : (k v : ℕ) → length (put_le k v) ≡ k
length-put_le zero v = refl
length-put_le (suc k) v = ap suc (length-put_le k (v / 256))

pub put_le-IsByte : (k v : ℕ) → All IsByte (put_le k v)
put_le-IsByte zero v = tt
put_le-IsByte (suc k) v = (omega arith, put_le-IsByte k (v / 256))

div_bound : (k v : ℕ) → v < 256 ^ suc k → v / 256 < 256 ^ k
div_bound k v h = omega (arith, pow-suc 256 k)

pub get_le-put_le : (k v : ℕ) → v < 256 ^ k → get_le (put_le k v) ≡ v
get_le-put_le zero v h = omega arith
get_le-put_le (suc k) v h = omega (arith, get_le-put_le k (v / 256) (div_bound k v h))

pub put_le-get_le : (bs : List ℕ) → All IsByte bs → put_le (length bs) (get_le bs) ≡ bs
put_le-get_le [] h = refl
put_le-get_le (b ∷ bs) h =
    let low : (b + 256 * get_le bs) % 256 ≡ b = omega arith in
    let high : (b + 256 * get_le bs) / 256 ≡ get_le bs = omega arith in
    rw (low, high) (ap (λ t. b ∷ t) (put_le-get_le bs h.1))

pub get_le-lt : (k : ℕ) (bs : List ℕ) → All IsByte bs → length bs ≤ k → get_le bs < 256 ^ k
get_le-lt zero [] h le = omega arith
get_le-lt zero (b ∷ bs) h le = absurd (omega arith)
get_le-lt (suc k) [] h le = omega (arith, get_le-lt k [] tt (omega arith), pow-suc 256 k)
get_le-lt (suc k) (b ∷ bs) h le = omega (arith, get_le-lt k bs h.1 (omega arith), pow-suc 256 k)

length-put_be_onto : (k v : ℕ) (bs : List ℕ) → length (put_be_onto k v bs) ≡ k + length bs
length-put_be_onto zero v bs = omega arith
length-put_be_onto (suc k) v bs = omega (arith, length-put_be_onto k (v / 256) (v % 256 ∷ bs))

pub length-put_be : (k v : ℕ) → length (put_be k v) ≡ k
length-put_be k v = omega (arith, length-put_be_onto k v [])

get_be_from-put_be_onto :
    (k v acc : ℕ) (bs : List ℕ)
    → v < 256 ^ k
    → get_be_from acc (put_be_onto k v bs) ≡ get_be_from (acc * 256 ^ k + v) bs
get_be_from-put_be_onto zero v acc bs h = ap (λ a. get_be_from a bs) (omega arith)
get_be_from-put_be_onto (suc k) v acc bs h =
    get_be_from-put_be_onto k (v / 256) acc (v % 256 ∷ bs) (div_bound k v h)
    ∙ ap (λ a. get_be_from a bs)
        (omega (arith, pow-suc 256 k, ap (λ (t : ℕ). acc * t) (pow-suc 256 k)))

pub get_be-put_be : (k v : ℕ) → v < 256 ^ k → get_be (put_be k v) ≡ v
get_be-put_be k v h = get_be_from-put_be_onto k v 0 [] h ∙ omega arith

put_be_onto-get_be_from :
    (bs ys : List ℕ) (k acc : ℕ)
    → All IsByte bs
    → put_be_onto (length bs + k) (get_be_from acc bs) ys ≡ put_be_onto k acc (bs ++ ys)
put_be_onto-get_be_from [] ys k acc h =
    ap (λ n. put_be_onto n acc ys) {x = 0 + k} {y = k} (omega arith)
put_be_onto-get_be_from (b ∷ bs) ys k acc h =
    let low : (acc * 256 + b) % 256 ≡ b = omega arith in
    let high : (acc * 256 + b) / 256 ≡ acc = omega arith in
    ap (λ n. put_be_onto n (get_be_from acc (b ∷ bs)) ys) {x = length (b ∷ bs) + k}
      {y = length bs + suc k} (omega arith)
    ∙ put_be_onto-get_be_from bs ys (suc k) (acc * 256 + b) h.1
    ∙ rw (low, high) refl

pub put_be-get_be : (bs : List ℕ) → All IsByte bs → put_be (length bs) (get_be bs) ≡ bs
put_be-get_be bs h =
    ap (λ n. put_be n (get_be bs)) {x = length bs} {y = length bs + 0} (omega arith)
    ∙ put_be_onto-get_be_from bs [] 0 0 h
    ∙ append-nil bs

get_be_from-lt :
    (k : ℕ) (bs : List ℕ) (acc : ℕ)
    → All IsByte bs
    → length bs ≡ k
    → get_be_from acc bs < (acc + 1) * 256 ^ k
get_be_from-lt zero [] acc h e = omega arith
get_be_from-lt zero (b ∷ bs) acc h e = absurd (omega arith)
get_be_from-lt (suc k) [] acc h e = absurd (omega arith)
get_be_from-lt (suc k) (b ∷ bs) acc h e =
    let p : 256 ^ suc k ≡ 256 * 256 ^ k = omega (arith, pow-suc 256 k) in
    rw p (
      omega
        (arith, get_be_from-lt k bs (acc * 256 + b) h.1 (omega arith), spread acc b (256 ^ k) h.0))
  where
    spread : (a b p : ℕ) → b < 256 → (a * 256 + b + 1) * p ≤ (a + 1) * (256 * p)
    spread a b p h = grind arith

pub get_be-lt : (k : ℕ) (bs : List ℕ) → All IsByte bs → length bs ≡ k → get_be bs < 256 ^ k
get_be-lt k bs h e = omega (arith, get_be_from-lt k bs 0 h e)

-- A field of a buffer, read and written again, is the part of the buffer that it was read from.
pub put_be-uint_be_at :
    (k off : ℕ) (b : List ℕ)
    → All IsByte b
    → off + k ≤ length b
    → put_be k (uint_be_at k off b) ≡ take k (drop off b)
put_be-uint_be_at k off b h fits =
    let field = take k (drop off b) in
    let width : k ≡ length field = omega (arith, length-take k (drop off b), length-drop off b) in
    ap (λ n. put_be n (get_be field)) width
    ∙ put_be-get_be field (All-take IsByte k _ (All-drop IsByte off _ h))

pub uint_be_at-lt :
    (k off : ℕ) (b : List ℕ) → All IsByte b → off + k ≤ length b → uint_be_at k off b < 256 ^ k
uint_be_at-lt k off b h fits =
    get_be-lt k _ (All-take IsByte k _ (All-drop IsByte off _ h))
      (omega (arith, length-take k (drop off b), length-drop off b))

pub byte_at-lt : (i : ℕ) (b : List ℕ) → All IsByte b → byte_at i b < 256
byte_at-lt i [] h = omega arith
byte_at-lt zero (x ∷ b) h = h.0
byte_at-lt (suc i) (x ∷ b) h = byte_at-lt i b h.1

pub byte_at-take : (i : ℕ) (b : List ℕ) → i < length b → byte_at i b ∷ [] ≡ take 1 (drop i b)
byte_at-take i [] h = absurd (omega arith)
byte_at-take zero (x ∷ b) h = refl
byte_at-take (suc i) (x ∷ b) h = byte_at-take i b (omega arith)

put_be_onto-IsByte : (k v : ℕ) (bs : List ℕ) → All IsByte bs → All IsByte (put_be_onto k v bs)
put_be_onto-IsByte zero v bs h = h
put_be_onto-IsByte (suc k) v bs h = put_be_onto-IsByte k (v / 256) (v % 256 ∷ bs) (omega arith, h)

pub put_be-IsByte : (k v : ℕ) → All IsByte (put_be k v)
put_be-IsByte k v = put_be_onto-IsByte k v [] tt

-- A buffer that the stream begins with is read whole.
pub read_full-append :
    (n : ℕ) (xs rest : List ℕ) → length xs ≡ n → read_full n (xs ++ rest) ≡ ok (xs, rest)
unfolding read_full
read_full-append n xs rest h =
    let fits : leb n (length (xs ++ rest)) ≡ true =
      le→leb _ _ (omega (arith, length-append xs rest)) in
    rw (fits, ← h, take-append_length, drop-append_length) refl

pub read_full-eq_ok :
    (n : ℕ) (s buf rest : List ℕ)
    → read_full n s ≡ ok (buf, rest)
    → (s ≡ buf ++ rest) × (length buf ≡ n)
unfolding read_full
read_full-eq_ok n s buf rest h = ground (arith, take-append-drop n s, length-take n s)

pub read_full_short : (n : ℕ) (s : List ℕ) → length s < n → read_full n s ≡ err (short_read s)
unfolding read_full
read_full_short n s h = rw (lt→leb _ _ h) refl
