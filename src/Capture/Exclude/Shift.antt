-- ===== src/Capture/Exclude/Shift.antt =====
-- internal/capture/bpf.go: the check of a header does not depend on what stands before it.
use Prim.Native.Nat.{bit_and}
use ipcap.Base.{
  ℕ, suc, ◌+◌, ◌-◌, ◌*◌, ◌≡◌, sym, List, [], ◌∷◌, ◌++◌, length, drop, get_or, length-append,
  drop-drop, drop-append_length, ap, ◌∙◌, subst, false, ◌||◌, not, ltb, leb, ◌==◌, if◌then◌else◌,
  ok, ◌>>=◌, arith,
}
use ipcap.Capture.Exclude.{
  Excluder, index, slice, uint16_at, match_either, match_hosts, match_tcp_port, check_ports4,
  is_empty,
}

module _ (pre : List ℕ) where
  drop-append : (k : ℕ) (xs : List ℕ) → drop (length pre + k) (pre ++ xs) ≡ drop k xs
  drop-append k xs =
      sym (drop-drop (length pre) k (pre ++ xs)) ∙ ap (drop k) (drop-append_length pre xs)

  pub ltb-append :
      (k : ℕ) (xs : List ℕ) → ltb (length (pre ++ xs)) (length pre + k) ≡ ltb (length xs) k
  ltb-append k xs = ground (arith, length-append pre xs)

  leb-append : (k : ℕ) (xs : List ℕ) → leb (length pre + k) (length (pre ++ xs)) ≡ leb k (length xs)
  leb-append k xs = ground (arith, length-append pre xs)

  minus_shift : (i j : ℕ) → length pre + j - (length pre + i) ≡ j - i
  minus_shift i j = omega arith

  leb_shift : (i j : ℕ) → leb (length pre + i) (length pre + j) ≡ leb i j
  leb_shift i j = ground arith

  slice-append :
      (xs : List ℕ) (i j : ℕ) → slice (pre ++ xs) (length pre + i) (length pre + j) ≡ slice xs i j
  unfolding slice
  slice-append xs i j = rw (leb_shift i j, leb-append j xs, minus_shift i j, drop-append i xs)

  pub uint16_at-append :
      (xs : List ℕ) (i j : ℕ)
      → uint16_at (pre ++ xs) (length pre + i) (length pre + j) ≡ uint16_at xs i j
  unfolding uint16_at
  uint16_at-append xs i j = rw (slice-append xs i j)

-- A prefix of a list leaves the bytes behind it at their places.
get_or-append : (pre xs : List ℕ) (i : ℕ) → get_or (pre ++ xs) (length pre + i) 0 ≡ get_or xs i 0
get_or-append [] xs i = ap (λ k. get_or xs k 0) {x = 0 + i} {y = i} (omega arith)
get_or-append (p ∷ pre) xs i =
    let e : suc (length pre) + i ≡ suc (length pre + i) = omega arith in
    rw e (get_or-append pre xs i)

module _ (pre : List ℕ) where
  pub index-append : (xs : List ℕ) (i : ℕ) → index (pre ++ xs) (length pre + i) ≡ index xs i
  unfolding index
  index-append xs i =
      let e : ltb (length pre + i) (length (pre ++ xs)) ≡ ltb i (length xs) =
        ground (arith, length-append pre xs) in
      rw (e, get_or-append pre xs i)

  index-append_head : (xs : List ℕ) → index (pre ++ xs) (length pre) ≡ index xs 0
  index-append_head xs =
      let e : length pre + 0 ≡ length pre = omega arith in
      subst (λ i. index (pre ++ xs) i ≡ index xs 0) e (index-append xs 0)

  pub match_tcp_port-append :
      (e : Excluder) (xs : List ℕ) (off : ℕ)
      → match_tcp_port e (pre ++ xs) (length pre + off) ≡ match_tcp_port e xs off
  unfolding match_tcp_port
  match_tcp_port-append e xs off =
      let a : length pre + off + 2 ≡ length pre + (off + 2) = omega arith in
      let b : length pre + off + 4 ≡ length pre + (off + 4) = omega arith in
      rw (
        a,
        b,
        ltb-append pre (off + 4) xs,
        uint16_at-append pre xs off (off + 2),
        uint16_at-append pre xs (off + 2) (off + 4),
      )

  match_either-append :
      (e : Excluder) (xs : List ℕ) (j k : ℕ) (src : List ℕ)
      → match_either e (pre ++ xs) (length pre + j) (length pre + k) src ≡ match_either e xs j k src
  match_either-append e xs j k src = rw (slice-append pre xs j k)

  pub match_hosts-append :
      (e : Excluder) (xs : List ℕ) (i j k : ℕ)
      → match_hosts e (pre ++ xs) (length pre + i) (length pre + j) (length pre + k)
        ≡ match_hosts e xs i j k
  unfolding match_hosts
  match_hosts-append e xs i j k = λ t.
      if not (is_empty e.hosts) || not (is_empty e.nets)
      then slice-append pre xs i j t >>= (λ src. match_either-append e xs j k src t)
      else ok false

  -- The test of the ports reads the protocol and the header's length behind `pre`.
  pub check_ports4-append :
      (e : Excluder) (xs : List ℕ) (proto first : ℕ)
      → index xs 9 ≡ ok proto
      → index xs 0 ≡ ok first
      → check_ports4 e (pre ++ xs) (length pre) ≡ (
          if is_empty e.ports
          then ok false
          else if not (proto == 6)
          then ok false
          else if ltb (bit_and first 0x0f * 4) 20
          then ok false
          else match_tcp_port e xs (bit_and first 0x0f * 4))
  unfolding check_ports4
  check_ports4-append e xs proto first hp hf = rw (
    index-append xs 9,
    hp,
    ◌>>=◌,
    index-append_head xs,
    hf,
    ◌>>=◌,
    match_tcp_port-append e xs (bit_and first 0x0f * 4),
  )
