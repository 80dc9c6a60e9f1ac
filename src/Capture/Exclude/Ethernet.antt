-- ===== src/Capture/Exclude/Ethernet.antt =====
-- internal/capture/bpf.go: the verdict on an Ethernet frame that carries IPv4.
use ipcap.Base.{
  ℕ, ◌+◌, ◌≤◌, ◌≡◌, sym, ◌∙◌, subst, List, ◌++◌, append_assoc, length, length-append, inl, inr,
  Bool-cases, ==_iff, le→ltb, some, ok, ◌>>=◌, arith,
}
use ipcap.Bytes.{put_be}
use ipcap.Capture.Exclude.{
  Excluder, active, exclude, uint16_at, check_ipv4, vlan_loop, l3_offset, check_l3, ether_type_ipv4,
}
use ipcap.Capture.Exclude.Shift.{uint16_at-append}
use ipcap.Capture.Exclude.Packet.{
  Ipv4, IsIpv4, ipv4_bytes, Tags, next_type, tag_bytes, AreTags, ethernet_bytes, is_excluded,
}
use ipcap.Capture.Exclude.Tags.{next_type_bound, uint16_at-head, vlan_loop-tag_bytes}
use ipcap.Capture.Exclude.Verdict.{check_ipv4-ipv4_bytes, not-active-excluded}

module _ (e : Excluder) (link : e.link_type ≡ 1) (addresses : List ℕ) (tags : Tags) (p : Ipv4)
    (length_addresses : length addresses ≡ 12) (few : length tags ≤ 3) (tagged : AreTags tags)
    (well_formed : IsIpv4 p) where
  front : List ℕ
  front = addresses ++ put_be 2 (next_type tags)

  length-front : length front ≡ 14
  unfolding front
  length-front = omega (arith, length-append addresses (put_be 2 (next_type tags)))

  packet : List ℕ
  packet = ethernet_bytes addresses tags (ipv4_bytes p)

  packet_front : packet ≡ front ++ (tag_bytes tags ++ ipv4_bytes p)
  unfolding packet front ethernet_bytes
  packet_front = sym (append_assoc addresses (put_be 2 (next_type tags)) _)

  packet_whole : packet ≡ (front ++ tag_bytes tags) ++ ipv4_bytes p
  packet_whole = packet_front ∙ sym (append_assoc front (tag_bytes tags) (ipv4_bytes p))

  length-packet : 14 ≤ length packet
  length-packet =
      rw packet_front
        (omega (arith, length-append front (tag_bytes tags ++ ipv4_bytes p), length-front))

  first_type : uint16_at packet 12 14 ≡ ok (next_type tags)
  unfolding packet ethernet_bytes
  first_type =
      let rest = put_be 2 (next_type tags) ++ (tag_bytes tags ++ ipv4_bytes p) in
      let lo : length addresses + 0 ≡ 12 = omega arith in
      let hi : length addresses + 2 ≡ 14 = omega arith in
      (λ i. uint16_at (addresses ++ rest) (sym lo i) (sym hi i))
      ∙ uint16_at-append addresses rest 0 2
      ∙ uint16_at-head (next_type tags) _ (next_type_bound tags tagged)

  l3_offset-packet : l3_offset e packet ≡ ok (some (14 + length (tag_bytes tags), ether_type_ipv4))
  unfolding l3_offset
  l3_offset-packet =
      rw ((==_iff e.link_type 1).1 link, le→ltb (length packet) 14 length-packet, first_type, ◌>>=◌)
        (subst
          (λ n.
            vlan_loop 3 packet 14 (next_type tags)
            ≡ ok (some (n + length (tag_bytes tags), ether_type_ipv4)))
          length-front
          (vlan_loop-tag_bytes 3 tags front (ipv4_bytes p) packet 14 few tagged packet_front
            (sym length-front)))

  check_ipv4-packet : check_ipv4 e packet (14 + length (tag_bytes tags)) ≡ ok (is_excluded e p)
  check_ipv4-packet =
      let end : length (front ++ tag_bytes tags) ≡ 14 + length (tag_bytes tags) =
        omega (arith, length-append front (tag_bytes tags), length-front) in
      (λ i. check_ipv4 e (packet_whole i) (sym end i))
      ∙ check_ipv4-ipv4_bytes e (front ++ tag_bytes tags) p well_formed

  exclude-packet : exclude e packet ≡ ok (is_excluded e p)
  unfolding exclude check_l3
  exclude-packet = elim (Bool-cases (active e)) [
    | inl on ↦ rw (on, l3_offset-packet, ◌>>=◌) check_ipv4-packet
    | inr off ↦ rw (off, not-active-excluded e p off)
  ]

  -- On an Ethernet link, a well-formed IPv4 packet behind at most three VLAN tags, of at least 24 bytes
  -- and, when it is TCP, with its ports in it, that is, not a later fragment and long enough for them, is
  -- dropped exactly when a rule names its source or destination address, or when it is TCP and one of
  -- its two ports is excluded, whatever its options are and whatever follows the ports.
  pub exclude-ethernet_bytes :
      exclude e (ethernet_bytes addresses tags (ipv4_bytes p)) ≡ ok (is_excluded e p)
  unfolding packet
  exclude-ethernet_bytes = exclude-packet
