-- ===== src/Capture/Exclude/InRange.antt =====
-- internal/capture/bpf.go: no index and no slice bound leaves the packet.
use Prim.Native.Nat.{bit_and}
use ipcap.Base.{
  ℕ, zero, suc, ◌+◌, ◌-◌, ◌*◌, ◌/◌, ◌≤◌, ◌<◌, ◌≡◌, refl, List, length, take, drop, length-take,
  length-drop, Bool, true, false, not, ◌&&◌, ◌||◌, ltb, ◌==◌, if◌then◌else◌, ltb→le, lt→ltb, le→ltb,
  le→leb, Option, none, some, Result, ok, ◌>>=◌, arith,
}
use ipcap.Capture.Exclude.{
  Panic, Excluder, active, exclude, index, slice, uint16, uint16_at, match_host, match_hosts,
  match_tcp_port, check_ports4, check_ports6, check_ipv4, check_ipv6, vlan_loop, l3_offset,
  check_l3, raw_offset, is_empty, has_port, is_tag, is_raw_link, ether_type_ipv4, ether_type_ipv6,
}

-- The code ends with a value.
abbrev Ends {ℓ} : {A : Type ℓ} → Result Panic A → Type ℓ
Ends {A} m = (a : A) × (m ≡ ok a)

Ends-bind {ℓ κ} :
    {A : Type ℓ} {B : Type κ} (m : Result Panic A) (f : A → Result Panic B)
    → Ends m
    → ((a : A) → Ends (f a))
    → Ends (m >>= f)
Ends-bind m f (a, e) h = rw (e, ◌>>=◌) (h a)

Ends-if {ℓ} :
    {A : Type ℓ} (b : Bool) (m n : Result Panic A)
    → (b ≡ true → Ends m)
    → (b ≡ false → Ends n)
    → Ends (if b then m else n)
Ends-if true m n hm hn = hm refl
Ends-if false m n hm hn = hn refl

index-Ends : (b : List ℕ) (i : ℕ) → i < length b → Ends (index b i)
unfolding index
index-Ends b i h = rw (lt→ltb i (length b) h) (_, refl)

slice-Ends : (b : List ℕ) (lo hi : ℕ) → lo ≤ hi → hi ≤ length b → Ends (slice b lo hi)
unfolding slice
slice-Ends b lo hi h k = rw (le→leb lo hi h, le→leb hi (length b) k, ◌&&◌) (_, refl)

length-slice :
    (b : List ℕ) (lo hi : ℕ) → hi ≤ length b → length (take (hi - lo) (drop lo b)) ≡ hi - lo
length-slice b lo hi h = omega (arith, length-take (hi - lo) (drop lo b), length-drop lo b)

uint16_at-Ends : (b : List ℕ) (lo hi : ℕ) → lo + 2 ≤ hi → hi ≤ length b → Ends (uint16_at b lo hi)
unfolding uint16_at slice uint16
uint16_at-Ends b lo hi h k =
    let wide : 2 ≤ length (take (hi - lo) (drop lo b)) =
      rw (length-slice b lo hi k) (omega arith) in
    rw (le→leb lo hi (omega arith), le→leb hi (length b) k, ◌&&◌)
      (rw (le→ltb (length (take (hi - lo) (drop lo b))) 2 wide) (_, refl))

match_tcp_port-Ends : (e : Excluder) (b : List ℕ) (off : ℕ) → Ends (match_tcp_port e b off)
unfolding match_tcp_port
match_tcp_port-Ends e b off =
    Ends-if (ltb (length b) (off + 4)) _ _ (λ _. (false, refl))
      λ long.
        let room = ltb→le (length b) (off + 4) long in
        Ends-bind (uint16_at b off (off + 2)) _
          (uint16_at-Ends b off (off + 2) (omega arith) (omega arith))
          λ src.
            Ends-bind (uint16_at b (off + 2) (off + 4)) _
              (uint16_at-Ends b (off + 2) (off + 4) (omega arith) (omega arith))
              λ dst. Ends-if (has_port e.ports src) _ _ (λ _. (true, refl)) (λ _. (_, refl))

match_hosts-Ends :
    (e : Excluder) (b : List ℕ) (lo mid hi : ℕ)
    → lo ≤ mid
    → mid ≤ hi
    → hi ≤ length b
    → Ends (match_hosts e b lo mid hi)
unfolding match_hosts
match_hosts-Ends e b lo mid hi h k l =
    Ends-if (not (is_empty e.hosts) || not (is_empty e.nets)) _ _
      (λ _. Ends-bind (slice b lo mid) _ (slice-Ends b lo mid h (omega arith)) λ src.
        Ends-if (match_host e src) _ _ (λ _. (true, refl))
          λ _.
            Ends-bind (slice b mid hi) _ (slice-Ends b mid hi k l) λ dst. (match_host e dst, refl))
      (λ _. (false, refl))

check_ports4-Ends :
    (e : Excluder) (b : List ℕ) (l3 : ℕ) → l3 + 20 ≤ length b → Ends (check_ports4 e b l3)
unfolding check_ports4
check_ports4-Ends e b l3 room =
    Ends-if (is_empty e.ports) _ _ (λ _. (false, refl))
      λ _. Ends-bind (index b (l3 + 9)) _ (index-Ends b (l3 + 9) (omega arith)) λ proto.
        Ends-if (not (proto == 6)) _ _ (λ _. (false, refl))
          λ _. Ends-bind (index b l3) _ (index-Ends b l3 (omega arith)) λ first.
            Ends-if (ltb (bit_and first 0x0f * 4) 20) _ _ (λ _. (false, refl))
              λ _. match_tcp_port-Ends e b (l3 + bit_and first 0x0f * 4)

check_ports6-Ends :
    (e : Excluder) (b : List ℕ) (l3 : ℕ) → l3 + 40 ≤ length b → Ends (check_ports6 e b l3)
unfolding check_ports6
check_ports6-Ends e b l3 room =
    Ends-if (is_empty e.ports) _ _ (λ _. (false, refl))
      λ _. Ends-bind (index b (l3 + 6)) _ (index-Ends b (l3 + 6) (omega arith)) λ proto.
        Ends-if (not (proto == 6)) _ _ (λ _. (false, refl)) λ _. match_tcp_port-Ends e b (l3 + 40)

check_ipv4-Ends : (e : Excluder) (b : List ℕ) (l3 : ℕ) → Ends (check_ipv4 e b l3)
unfolding check_ipv4
check_ipv4-Ends e b l3 =
    Ends-if (ltb (length b) (l3 + 20)) _ _ (λ _. (false, refl))
      λ long.
        let room = ltb→le (length b) (l3 + 20) long in
        Ends-bind (match_hosts e b (l3 + 12) (l3 + 16) (l3 + 20)) _
          (match_hosts-Ends e b (l3 + 12) (l3 + 16) (l3 + 20) (omega arith) (omega arith) room)
          λ matched. Ends-if matched _ _ (λ _. (true, refl)) (λ _. check_ports4-Ends e b l3 room)

check_ipv6-Ends : (e : Excluder) (b : List ℕ) (l3 : ℕ) → Ends (check_ipv6 e b l3)
unfolding check_ipv6
check_ipv6-Ends e b l3 =
    Ends-if (ltb (length b) (l3 + 40)) _ _ (λ _. (false, refl))
      λ long.
        let room = ltb→le (length b) (l3 + 40) long in
        Ends-bind (match_hosts e b (l3 + 8) (l3 + 24) (l3 + 40)) _
          (match_hosts-Ends e b (l3 + 8) (l3 + 24) (l3 + 40) (omega arith) (omega arith) room)
          λ matched. Ends-if matched _ _ (λ _. (true, refl)) (λ _. check_ports6-Ends e b l3 room)

vlan_loop-Ends : (tags : ℕ) (b : List ℕ) (off t : ℕ) → Ends (vlan_loop tags b off t)
unfolding vlan_loop
vlan_loop-Ends zero b off t = (_, refl)
vlan_loop-Ends (suc tags) b off t =
    Ends-if (is_tag t) _ _
      (λ _.
        Ends-if (ltb (length b) (off + 4)) _ _ (λ _. (none, refl))
          λ long.
            let room = ltb→le (length b) (off + 4) long in
            Ends-bind (uint16_at b (off + 2) (off + 4)) _
              (uint16_at-Ends b (off + 2) (off + 4) (omega arith) room)
              (vlan_loop-Ends tags b (off + 4)))
      (λ _. (_, refl))

raw_offset-Ends : (e : Excluder) (b : List ℕ) → 1 ≤ length b → Ends (index b 0 >>= raw_offset)
raw_offset-Ends e b room = Ends-bind (index b 0) raw_offset (index-Ends b 0 (omega arith)) λ first.
    Ends-if (first / 16 == 4) _ _ (λ _. (_, refl))
      λ _. Ends-if (first / 16 == 6) _ _ (λ _. (_, refl)) (λ _. (_, refl))

l3_offset-Ends : (e : Excluder) (b : List ℕ) → Ends (l3_offset e b)
unfolding l3_offset
l3_offset-Ends e b =
    Ends-if (e.link_type == 1) _ _
      (λ _.
        Ends-if (ltb (length b) 14) _ _ (λ _. (none, refl))
          λ long.
            Ends-bind (uint16_at b 12 14) (vlan_loop 3 b 14)
              (uint16_at-Ends b 12 14 (omega arith) (ltb→le (length b) 14 long))
              (vlan_loop-Ends 3 b 14))
      (λ _.
        Ends-if (is_raw_link e.link_type) _ _
          (λ _.
            Ends-if (ltb (length b) 1) _ _ (λ _. (none, refl))
              λ long. raw_offset-Ends e b (ltb→le (length b) 1 long))
          (λ _. (none, refl)))

check_l3-Ends : (e : Excluder) (b : List ℕ) (at : Option (ℕ × ℕ)) → Ends (check_l3 e b at)
unfolding check_l3
check_l3-Ends e b none = (false, refl)
check_l3-Ends e b (some (l3, t)) =
    Ends-if (t == ether_type_ipv4) _ _ (λ _. check_ipv4-Ends e b l3)
      λ _. Ends-if (t == ether_type_ipv6) _ _ (λ _. check_ipv6-Ends e b l3) (λ _. (false, refl))

-- For every rule set and every sequence of bytes the check ends with a verdict: no index and no
-- slice bound that it uses is beyond the packet's length, and so it does not panic.
pub exclude_in_range : (e : Excluder) (b : List ℕ) → (v : Bool) × (exclude e b ≡ ok v)
unfolding exclude
exclude_in_range e b =
    Ends-if (not (active e)) _ _ (λ _. (false, refl))
      λ _. Ends-bind (l3_offset e b) (check_l3 e b) (l3_offset-Ends e b) (check_l3-Ends e b)
