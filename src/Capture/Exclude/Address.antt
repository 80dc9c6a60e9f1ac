-- ===== src/Capture/Exclude/Address.antt =====
-- What internal/capture/bpf.go uses of `net.IP` and `net.IPNet`.
use Prim.Native.Nat.{bit_and}
use ipcap.Base.{
  ℕ, List, [], ◌∷◌, length, take, drop, Bool, true, false, ◌&&◌, ◌==◌, if◌then◌else◌, Option, none,
  some,
}

pub record IpNet : Type 0 where
  pub ip : List ℕ
  pub mask : List ℕ

unfoldable pub bytes_equal : List ℕ → List ℕ → Bool
bytes_equal [] [] = true
bytes_equal [] (y ∷ ys) = false
bytes_equal (x ∷ xs) [] = false
bytes_equal (x ∷ xs) (y ∷ ys) = x == y && bytes_equal xs ys

abbrev v4_in_v6_prefix : List ℕ
v4_in_v6_prefix = 0 ∷ 0 ∷ 0 ∷ 0 ∷ 0 ∷ 0 ∷ 0 ∷ 0 ∷ 0 ∷ 0 ∷ 0xff ∷ 0xff ∷ []

-- `IP.Equal`: an IPv4 address and its IPv6 form are the same.
unfoldable pub ip_equal : List ℕ → List ℕ → Bool
unfolding bytes_equal
ip_equal ip x =
    if length ip == length x
    then bytes_equal ip x
    else if length ip == 4 && length x == 16
    then bytes_equal (take 12 x) v4_in_v6_prefix && bytes_equal ip (drop 12 x)
    else if length ip == 16 && length x == 4
    then bytes_equal (take 12 ip) v4_in_v6_prefix && bytes_equal (drop 12 ip) x
    else false

-- `IP.To4`; `none` is nil.
to4 : List ℕ → Option (List ℕ)
unfolding bytes_equal
to4 ip =
    if length ip == 4
    then some ip
    else if length ip == 16 && bytes_equal (take 12 ip) v4_in_v6_prefix
    then some (drop 12 ip)
    else none

-- `networkNumberAndMask`; two empty lists are (nil, nil).
abbrev number_and_mask : List ℕ → List ℕ → List ℕ × List ℕ
number_and_mask ip m =
    if length m == 4
    then if length ip == 4 then (ip, m) else ([], [])
    else if length m == 16
    then if length ip == 4 then (ip, drop 12 m) else (ip, m)
    else ([], [])

abbrev network_of : Option (List ℕ) → IpNet → List ℕ × List ℕ
network_of (some ip) n = number_and_mask ip n.mask
network_of none n = if length n.ip == 16 then number_and_mask n.ip n.mask else ([], [])

masked_equal : List ℕ → List ℕ → List ℕ → Bool
masked_equal [] m xs = true
masked_equal (n ∷ nn) [] xs = true
masked_equal (n ∷ nn) (m ∷ ms) [] = true
masked_equal (n ∷ nn) (m ∷ ms) (x ∷ xs) = bit_and n m == bit_and x m && masked_equal nn ms xs

abbrev contains_in : List ℕ × List ℕ → List ℕ → Bool
contains_in (nn, m) ip = if length ip == length nn then masked_equal nn m ip else false

abbrev or_self : Option (List ℕ) → List ℕ → List ℕ
or_self (some x) ip = x
or_self none ip = ip

-- `IPNet.Contains`
unfoldable pub net_contains : IpNet → List ℕ → Bool
unfolding to4 masked_equal
net_contains n ip = contains_in (network_of (to4 n.ip) n) (or_self (to4 ip) ip)
