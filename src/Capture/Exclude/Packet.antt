-- ===== src/Capture/Exclude/Packet.antt =====
-- internal/capture/bpf.go: an Ethernet packet that carries IPv4, and what the rules say of it.
use ipcap.Base.{
  ℕ, ◌+◌, ◌*◌, ◌%◌, ◌^◌, ◌≤◌, ◌<◌, ◌≡◌, List, [], ◌∷◌, ◌++◌, length, All, Bool, true, ◌&&◌, ◌||◌,
  ◌==◌,
}
use ipcap.Bytes.{put_be}
use ipcap.Capture.Exclude.{Excluder, match_host, has_port, is_tag, ether_type_ipv4}

-- An IPv4 packet (RFC 791); `words` is the header's length in 32-bit words, `fragment` the flags and
-- the 13 bits of the fragment's offset. Behind the options four bytes stand, the two ports where the
-- packet is TCP, and then `body`, which a padding of the frame may follow.
pub record Ipv4 : Type 0 where
  pub words : ℕ
  pub tos : ℕ
  pub total_len : ℕ
  pub ident : ℕ
  pub fragment : ℕ
  pub ttl : ℕ
  pub proto : ℕ
  pub checksum : ℕ
  pub src : ℕ
  pub dst : ℕ
  pub options : List ℕ
  pub src_port : ℕ
  pub dst_port : ℕ
  pub body : List ℕ

pub record IsIpv4 (p : Ipv4) : Type 0 where
  pub words_low : 5 ≤ p.words
  pub words_high : p.words < 16
  pub options_len : length p.options + 20 ≡ p.words * 4
  pub src_port_bound : p.src_port < 2 ^ 16
  pub dst_port_bound : p.dst_port < 2 ^ 16
  pub total_len_bound : p.total_len < 2 ^ 16
  pub fragment_bound : p.fragment < 2 ^ 16
  pub first_fragment : p.proto ≡ 6 → p.fragment % 2 ^ 13 ≡ 0
  pub ports_inside : p.proto ≡ 6 → p.words * 4 + 4 ≤ p.total_len

unfoldable pub ports_bytes : Ipv4 → List ℕ
ports_bytes p = put_be 2 p.src_port ++ (put_be 2 p.dst_port ++ p.body)

unfoldable pub fixed_bytes : Ipv4 → List ℕ
fixed_bytes p =
    (0x40 + p.words)
    ∷ p.tos
    ∷ (put_be 2 p.total_len
        ++ (put_be 2 p.ident
            ++ (put_be 2 p.fragment
                ++ (p.ttl
                    ∷ p.proto
                    ∷ (put_be 2 p.checksum ++ (put_be 4 p.src ++ put_be 4 p.dst))))))

unfoldable pub ipv4_bytes : Ipv4 → List ℕ
unfolding ports_bytes fixed_bytes
ipv4_bytes p = fixed_bytes p ++ (p.options ++ ports_bytes p)

-- VLAN tags: the type that announces each, and the control word in it.
abbrev pub Tags : Type 0
Tags = List (ℕ × ℕ)

abbrev pub next_type : Tags → ℕ
next_type [] = ether_type_ipv4
next_type ((t, tci) ∷ tags) = t

abbrev pub tag_bytes : Tags → List ℕ
tag_bytes [] = []
tag_bytes ((t, tci) ∷ tags) = put_be 2 tci ++ (put_be 2 (next_type tags) ++ tag_bytes tags)

abbrev pub AreTags : Tags → Type 0
AreTags = All (λ tag. is_tag tag.0 ≡ true)

unfoldable pub ethernet_bytes : List ℕ → Tags → List ℕ → List ℕ
ethernet_bytes addresses tags l3 =
    addresses ++ (put_be 2 (next_type tags) ++ (tag_bytes tags ++ l3))

-- What the rules say of the packet, read off its fields.
unfoldable pub is_excluded : Excluder → Ipv4 → Bool
is_excluded e p =
    (match_host e (put_be 4 p.src) || match_host e (put_be 4 p.dst))
    || p.proto == 6 && (has_port e.ports p.src_port || has_port e.ports p.dst_port)
