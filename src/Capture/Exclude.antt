-- ===== src/Capture/Exclude.antt =====
-- internal/capture/bpf.go: the check that keeps the drain and management traffic out of the capture.
pub mod Address
pub mod InRange
pub mod Shift
pub mod Packet
pub mod Tags
pub mod Verdict
pub mod Ethernet
use Prim.Native.Nat.{bit_and}
use ipcap.Base.{
  ℕ, zero, suc, ◌+◌, ◌-◌, ◌*◌, ◌/◌, List, [], ◌∷◌, ◌++◌, length, take, drop, get_or, Bool, true,
  false, not, ◌&&◌, ◌||◌, ltb, leb, ◌==◌, if◌then◌else◌, Option, none, some, Result, ok, err, ◌>>=◌,
}
use ipcap.Bytes.{get_be, byte_at}
use Address.{IpNet, ip_equal, net_contains}

-- A run-time panic: an index or a slice bound out of range.
pub data Panic : Type 0 where
  out_of_range : Panic

-- `b[i]`
unfoldable pub index : List ℕ → ℕ → Result Panic ℕ
index b i = if ltb i (length b) then ok (byte_at i b) else err out_of_range

-- `b[lo:hi]`. Go checks `hi` against the capacity, which is no less than the length.
unfoldable pub slice : List ℕ → ℕ → ℕ → Result Panic (List ℕ)
slice b lo hi =
    if leb lo hi && leb hi (length b) then ok (take (hi - lo) (drop lo b)) else err out_of_range

-- `binary.BigEndian.Uint16(b)`
unfoldable pub uint16 : List ℕ → Result Panic ℕ
uint16 b = if ltb (length b) 2 then err out_of_range else ok (get_be (take 2 b))

-- `binary.BigEndian.Uint16(b[lo:hi])`
unfoldable pub uint16_at : List ℕ → ℕ → ℕ → Result Panic ℕ
unfolding slice uint16
uint16_at b lo hi = slice b lo hi >>= uint16

pub record Excluder : Type 0 where
  pub link_type : ℕ
  pub ports : List ℕ
  pub hosts : List (List ℕ)
  pub nets : List IpNet

-- `_, ok := e.ports[p]`
unfoldable pub has_port : List ℕ → ℕ → Bool
has_port [] p = false
has_port (q ∷ ports) p = q == p || has_port ports p

abbrev pub is_empty {ℓ} : {A : Type ℓ} → List A → Bool
is_empty [] = true
is_empty (x ∷ xs) = false

-- Go's `int`, which a port number of the configuration is: `negsuc n` is -(n + 1).
pub data ℤ : Type 0 where
  pos : ℕ → ℤ
  negsuc : ℕ → ℤ

-- An entry of `mgmt` as the text says it: blank, with what `net.ParseCIDR` makes of it where it has
-- a slash, and with what `net.ParseIP` makes of it where it has none.
pub data Mgmt : Type 0 where
  blank : Mgmt
  cidr : Option IpNet → Mgmt
  host : Option (List ℕ) → Mgmt

add_port : ℤ → Excluder → Excluder
add_port (negsuc n) e = e
add_port (pos p) e = if ltb 0 p && leb p 0xffff then record e { ports = e.ports ++ (p ∷ []) } else e

add_ports : List ℤ → Excluder → Excluder
add_ports [] e = e
add_ports (p ∷ ports) e = add_ports ports (add_port p e)

add_mgmt : Mgmt → Excluder → Excluder
add_mgmt (cidr (some n)) e = record e { nets = e.nets ++ (n ∷ []) }
add_mgmt (host (some ip)) e = record e { hosts = e.hosts ++ (ip ∷ []) }
add_mgmt (cidr none) e = e
add_mgmt (host none) e = e
add_mgmt blank e = e

add_mgmts : List Mgmt → Excluder → Excluder
add_mgmts [] e = e
add_mgmts (m ∷ mgmt) e = add_mgmts mgmt (add_mgmt m e)

unfoldable pub new_excluder : ℕ → List ℤ → List Mgmt → Excluder
unfolding add_port add_ports add_mgmt add_mgmts
new_excluder link_type exclude_ports mgmt =
    add_mgmts mgmt (
      add_ports exclude_ports (record { link_type = link_type; ports = []; hosts = []; nets = [] }))

-- `Active`
unfoldable pub active : Excluder → Bool
active e = not (is_empty e.ports) || (not (is_empty e.hosts) || not (is_empty e.nets))

any_host : List (List ℕ) → List ℕ → Bool
any_host [] ip = false
any_host (h ∷ hosts) ip = ip_equal h ip || any_host hosts ip

any_net : List IpNet → List ℕ → Bool
any_net [] ip = false
any_net (n ∷ nets) ip = net_contains n ip || any_net nets ip

unfoldable pub match_host : Excluder → List ℕ → Bool
unfolding any_host any_net
match_host e raw = any_host e.hosts raw || any_net e.nets raw

unfoldable pub match_tcp_port : Excluder → List ℕ → ℕ → Result Panic Bool
unfolding uint16_at has_port
match_tcp_port e b tcp_off = if ltb (length b) (tcp_off + 4) then ok false else do
  src ← uint16_at b tcp_off (tcp_off + 2)
  dst ← uint16_at b (tcp_off + 2) (tcp_off + 4)
  if has_port e.ports src then ok true else ok (has_port e.ports dst)

abbrev pub match_either : Excluder → List ℕ → ℕ → ℕ → List ℕ → Result Panic Bool
match_either e b mid hi src =
    if match_host e src then ok true else slice b mid hi >>= λ dst. ok (match_host e dst)

-- The host test that both address families begin with: `a` and `b` are the addresses' bounds.
unfoldable pub match_hosts : Excluder → List ℕ → ℕ → ℕ → ℕ → Result Panic Bool
unfolding slice match_host
match_hosts e b lo mid hi =
    if not (is_empty e.hosts) || not (is_empty e.nets)
    then slice b lo mid >>= match_either e b mid hi
    else ok false

-- `checkIPv4` from the test of the protocol on.
unfoldable pub check_ports4 : Excluder → List ℕ → ℕ → Result Panic Bool
unfolding index match_tcp_port
check_ports4 e b l3 = if is_empty e.ports then ok false else do
  proto ← index b (l3 + 9)
  if not (proto == 6) then ok false else do
    first ← index b l3
    let ihl = bit_and first 0x0f * 4
    if ltb ihl 20 then ok false else match_tcp_port e b (l3 + ihl)

unfoldable pub check_ipv4 : Excluder → List ℕ → ℕ → Result Panic Bool
unfolding match_hosts check_ports4
check_ipv4 e b l3 = if ltb (length b) (l3 + 20) then ok false else do
  matched ← match_hosts e b (l3 + 12) (l3 + 16) (l3 + 20)
  if matched then ok true else check_ports4 e b l3

-- `checkIPv6` from the test of the protocol on.
unfoldable pub check_ports6 : Excluder → List ℕ → ℕ → Result Panic Bool
unfolding index match_tcp_port
check_ports6 e b l3 = if is_empty e.ports then ok false else do
  proto ← index b (l3 + 6)
  if not (proto == 6) then ok false else match_tcp_port e b (l3 + 40)

unfoldable pub check_ipv6 : Excluder → List ℕ → ℕ → Result Panic Bool
unfolding match_hosts check_ports6
check_ipv6 e b l3 = if ltb (length b) (l3 + 40) then ok false else do
  matched ← match_hosts e b (l3 + 8) (l3 + 24) (l3 + 40)
  if matched then ok true else check_ports6 e b l3

abbrev pub ether_type_ipv4 : ℕ
ether_type_ipv4 = 0x0800

abbrev pub ether_type_ipv6 : ℕ
ether_type_ipv6 = 0x86dd

abbrev pub is_tag : ℕ → Bool
is_tag t = t == 0x8100 || t == 0x88a8

-- The loop of `l3Offset`, with `tags` rounds to go.
unfoldable pub vlan_loop : ℕ → List ℕ → ℕ → ℕ → Result Panic (Option (ℕ × ℕ))
vlan_loop zero b off ether_type = ok (some (off, ether_type))
vlan_loop (suc tags) b off ether_type =
    let again = uint16_at b (off + 2) (off + 4) >>= λ inner. vlan_loop tags b (off + 4) inner in
    if is_tag ether_type
    then if ltb (length b) (off + 4) then ok none else again
    else ok (some (off, ether_type))

-- The first byte of a packet with no link header.
abbrev pub raw_offset : ℕ → Result Panic (Option (ℕ × ℕ))
raw_offset first =
    if first / 16 == 4
    then ok (some (0, ether_type_ipv4))
    else if first / 16 == 6
    then ok (some (0, ether_type_ipv6))
    else ok none

-- `layers.LinkTypeRaw`, `LinkTypeIPv4` and `LinkTypeIPv6`
abbrev pub is_raw_link : ℕ → Bool
is_raw_link t = t == 101 || (t == 228 || t == 229)

-- `l3Offset`: the offset and the ether type; `none` is `ok=false`.
unfoldable pub l3_offset : Excluder → List ℕ → Result Panic (Option (ℕ × ℕ))
unfolding vlan_loop uint16_at index
l3_offset e b =
    if e.link_type == 1
    then if ltb (length b) 14 then ok none else uint16_at b 12 14 >>= vlan_loop 3 b 14
    else if is_raw_link e.link_type
    then if ltb (length b) 1 then ok none else index b 0 >>= raw_offset
    else ok none

unfoldable pub check_l3 : Excluder → List ℕ → Option (ℕ × ℕ) → Result Panic Bool
unfolding check_ipv4 check_ipv6
check_l3 e b none = ok false
check_l3 e b (some (l3, ether_type)) =
    if ether_type == ether_type_ipv4
    then check_ipv4 e b l3
    else if ether_type == ether_type_ipv6
    then check_ipv6 e b l3
    else ok false

-- `Exclude`
unfoldable pub exclude : Excluder → List ℕ → Result Panic Bool
unfolding active l3_offset check_l3
exclude e b = if not (active e) then ok false else l3_offset e b >>= check_l3 e b
