-- ===== src/Capture/Runs.antt =====
-- Tests of the capture's filter, and its theorems at a tagged packet to the drain's port.
use ipcap.Base.{ℕ, ◌≡◌, refl, List, [], ◌∷◌, Bool, true, false, none, ok, arith}
use ipcap.Capture.Exclude.{Excluder, pos, negsuc, blank, cidr, new_excluder, exclude}
use ipcap.Capture.Exclude.Address.{net_contains}
use ipcap.Capture.Exclude.Packet.{Ipv4, IsIpv4, Tags, ethernet_bytes, ipv4_bytes, is_excluded}
use ipcap.Capture.Exclude.InRange.{exclude_in_range}
use ipcap.Capture.Exclude.Ethernet.{exclude-ethernet_bytes}

-- The drain listens on port 7000; 10.0.5.0/24 is the management network.
abbrev drain_rules : Excluder
drain_rules = record {
  link_type = 1;
  ports = 7000 ∷ [];
  hosts = [];
  nets = record { ip = 10 ∷ 0 ∷ 5 ∷ 0 ∷ []; mask = 255 ∷ 255 ∷ 255 ∷ 0 ∷ [] } ∷ [];
}

abbrev to_port : ℕ → Ipv4
to_port port = record {
  words = 6;
  tos = 0;
  total_len = 44;
  ident = 7;
  fragment = 0;
  ttl = 64;
  proto = 6;
  checksum = 0;
  src = 0x0a000102;
  dst = 0x0a000203;
  options = 1 ∷ 1 ∷ 1 ∷ 0 ∷ [];
  src_port = 50000;
  dst_port = port;
  body = 9 ∷ 9 ∷ [];
}

abbrev addresses : List ℕ
addresses = 1 ∷ 2 ∷ 3 ∷ 4 ∷ 5 ∷ 6 ∷ 7 ∷ 8 ∷ 9 ∷ 10 ∷ 11 ∷ 12 ∷ []

abbrev two_tags : Tags
two_tags = (0x88a8, 5) ∷ (0x8100, 6) ∷ []

to_port-IsIpv4 : IsIpv4 (to_port 7000)
to_port-IsIpv4 = record {
  words_low = omega arith;
  words_high = omega arith;
  options_len = refl;
  src_port_bound = omega arith;
  dst_port_bound = omega arith;
  total_len_bound = omega arith;
  fragment_bound = omega arith;
  first_fragment = λ tcp. refl;
  ports_inside = λ tcp. omega arith;
}

ports_in_range :
    new_excluder 1 (pos 7000 ∷ negsuc 0 ∷ pos 0 ∷ pos 65536 ∷ []) (blank ∷ cidr none ∷ [])
    ≡ record { link_type = 1; ports = 7000 ∷ []; hosts = []; nets = [] }
unfolding new_excluder
ports_in_range = refl

web_is_kept :
    exclude drain_rules (ethernet_bytes addresses two_tags (ipv4_bytes (to_port 80))) ≡ ok false
unfolding exclude ethernet_bytes ipv4_bytes net_contains
web_is_kept = refl

-- The second fragment of a packet has no ports: bytes of its text are taken for them.
later_fragment_is_dropped :
    exclude drain_rules
      (ethernet_bytes addresses two_tags (ipv4_bytes (record (to_port 7000) { fragment = 185 })))
    ≡ ok true
unfolding exclude ethernet_bytes ipv4_bytes net_contains
later_fragment_is_dropped = refl

mapped_address :
    net_contains
      (record { ip = 10 ∷ 0 ∷ 5 ∷ 0 ∷ []; mask = 255 ∷ 255 ∷ 255 ∷ 0 ∷ [] })
      (0 ∷ 0 ∷ 0 ∷ 0 ∷ 0 ∷ 0 ∷ 0 ∷ 0 ∷ 0 ∷ 0 ∷ 255 ∷ 255 ∷ 10 ∷ 0 ∷ 5 ∷ 77 ∷ [])
    ≡ true
unfolding net_contains
mapped_address = refl

exclude_in_range_example : (v : Bool) × (exclude drain_rules (8 ∷ 0 ∷ 0x45 ∷ []) ≡ ok v)
exclude_in_range_example = exclude_in_range drain_rules (8 ∷ 0 ∷ 0x45 ∷ [])

exclude-ethernet_bytes_example :
    exclude drain_rules (ethernet_bytes addresses two_tags (ipv4_bytes (to_port 7000)))
    ≡ ok (is_excluded drain_rules (to_port 7000))
exclude-ethernet_bytes_example =
    exclude-ethernet_bytes drain_rules refl addresses two_tags (to_port 7000) refl (omega arith)
      (refl, (refl, tt)) to_port-IsIpv4
