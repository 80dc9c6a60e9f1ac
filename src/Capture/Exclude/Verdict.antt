-- ===== src/Capture/Exclude/Verdict.antt =====
-- internal/capture/bpf.go: the verdict on an IPv4 packet, wherever it begins.
use Prim.Native.Nat.{bit_and}
use ipcap.Base.{
  ℕ, zero, suc, ◌+◌, ◌*◌, ◌≤◌, ◌<◌, ◌≡◌, refl, sym, ◌∙◌, List, [], ◌∷◌, ◌++◌, append_assoc, length,
  length-append, Bool, true, false, not, ◌&&◌, ◌||◌, ◌==◌, inl, inr, Bool-cases, lt→ltb, le→ltb,
  le→leb, ok, ◌>>=◌, arith,
}
use ipcap.Bytes.{put_be}
use ipcap.Capture.Exclude.{
  Excluder, any_host, any_net, active, index, slice, uint16_at, match_host, match_hosts,
  match_tcp_port, check_ports4, check_ipv4, is_empty, has_port,
}
use ipcap.Capture.Exclude.Address.{IpNet}
use ipcap.Capture.Exclude.Shift.{
  ltb-append, match_hosts-append, match_tcp_port-append, check_ports4-append,
}
use ipcap.Capture.Exclude.Packet.{Ipv4, IsIpv4, ports_bytes, fixed_bytes, ipv4_bytes, is_excluded}
use ipcap.Capture.Exclude.Tags.{uint16_at-put_be, uint16_at-head}

length-fixed_bytes : (p : Ipv4) → length (fixed_bytes p) ≡ 20
unfolding fixed_bytes
length-fixed_bytes p = refl

long_enough : (p : Ipv4) → 20 ≤ length (ipv4_bytes p)
unfolding ipv4_bytes
long_enough p =
    omega (arith, length-append (fixed_bytes p) (p.options ++ ports_bytes p), length-fixed_bytes p)

index-ipv4_bytes :
    (p : Ipv4)
    → (index (ipv4_bytes p) 0 ≡ ok (0x40 + p.words)) × (index (ipv4_bytes p) 9 ≡ ok p.proto)
unfolding index
index-ipv4_bytes p = (
  rw (lt→ltb 0 (length (ipv4_bytes p)) (omega (arith, long_enough p))) (unfold ipv4_bytes in refl),
  rw (lt→ltb 9 (length (ipv4_bytes p)) (omega (arith, long_enough p))) (unfold ipv4_bytes in refl),
)

slice-ipv4_bytes :
    (p : Ipv4)
    → (slice (ipv4_bytes p) 12 16 ≡ ok (put_be 4 p.src))
      × (slice (ipv4_bytes p) 16 20 ≡ ok (put_be 4 p.dst))
unfolding slice
slice-ipv4_bytes p = (
  rw (le→leb 16 (length (ipv4_bytes p)) (omega (arith, long_enough p))) (unfold ipv4_bytes in refl),
  rw (le→leb 20 (length (ipv4_bytes p)) (omega (arith, long_enough p))) (unfold ipv4_bytes in refl),
)

-- The header's first byte, for every length of it.
nibbles_below : ℕ → Bool
nibbles_below zero = true
nibbles_below (suc n) = bit_and (0x40 + n) 0x0f == n && nibbles_below n

nibbles_sound : (n w : ℕ) → nibbles_below n ≡ true → w < n → bit_and (0x40 + w) 0x0f ≡ w
unfolding nibbles_below
nibbles_sound zero w h l = absurd (omega arith)
nibbles_sound (suc n) w h l = ground (arith, nibbles_sound n w)

header_words : (w : ℕ) → w < 16 → bit_and (0x40 + w) 0x0f ≡ w
unfolding nibbles_below
header_words w h = nibbles_sound 16 w refl h

any-empty :
    (hosts : List (List ℕ)) (nets : List IpNet) (ip : List ℕ)
    → (not (is_empty hosts) || not (is_empty nets)) ≡ false
    → (any_host hosts ip || any_net nets ip) ≡ false
unfolding any_host any_net
any-empty [] [] ip h = refl
any-empty [] (n ∷ nets) ip h = cc
any-empty (x ∷ hosts) nets ip h = cc

match_host-empty :
    (e : Excluder) (ip : List ℕ)
    → (not (is_empty e.hosts) || not (is_empty e.nets)) ≡ false
    → match_host e ip ≡ false
unfolding match_host
match_host-empty e ip h = any-empty e.hosts e.nets ip h

has_port-empty : (ports : List ℕ) (p : ℕ) → is_empty ports ≡ true → has_port ports p ≡ false
unfolding has_port
has_port-empty [] p h = refl
has_port-empty (q ∷ ports) p h = cc

match_hosts-ipv4_bytes :
    (e : Excluder) (p : Ipv4)
    → match_hosts e (ipv4_bytes p) 12 16 20
      ≡ ok (match_host e (put_be 4 p.src) || match_host e (put_be 4 p.dst))
unfolding match_hosts
match_hosts-ipv4_bytes e p = elim (Bool-cases (not (is_empty e.hosts) || not (is_empty e.nets))) [
  | inl some_rule ↦
      rw (some_rule, (slice-ipv4_bytes p).0, ◌>>=◌, (slice-ipv4_bytes p).1, ◌>>=◌)
        (elim (Bool-cases (match_host e (put_be 4 p.src))) [ inl m ↦ rw m | inr m ↦ rw m ])
  | inr no_rule ↦ rw (
    no_rule,
    match_host-empty e (put_be 4 p.src) no_rule,
    match_host-empty e (put_be 4 p.dst) no_rule,
  )
]

uint16_at-ports_bytes :
    (p : Ipv4)
    → IsIpv4 p
    → (4 ≤ length (ports_bytes p))
      × (uint16_at (ports_bytes p) 0 2 ≡ ok p.src_port)
      × (uint16_at (ports_bytes p) 2 4 ≡ ok p.dst_port)
unfolding ports_bytes
uint16_at-ports_bytes p w = (
  omega arith,
  uint16_at-head p.src_port _ w.src_port_bound,
  uint16_at-put_be _ _ p.dst_port p.body w.dst_port_bound,
)

match_tcp_port-ports_bytes :
    (e : Excluder) (p : Ipv4)
    → IsIpv4 p
    → match_tcp_port e (ports_bytes p) 0
      ≡ ok (has_port e.ports p.src_port || has_port e.ports p.dst_port)
unfolding match_tcp_port
match_tcp_port-ports_bytes e p w =
    let at = uint16_at-ports_bytes p w in
    rw (le→ltb (length (ports_bytes p)) 4 at.0, at.1, ◌>>=◌, at.2, ◌>>=◌)
      (elim (Bool-cases (has_port e.ports p.src_port)) [ inl m ↦ rw m | inr m ↦ rw m ])

-- The ports stand behind the options.
match_tcp_port-ipv4_bytes :
    (e : Excluder) (p : Ipv4)
    → IsIpv4 p
    → match_tcp_port e (ipv4_bytes p) (p.words * 4)
      ≡ ok (has_port e.ports p.src_port || has_port e.ports p.dst_port)
match_tcp_port-ipv4_bytes e p w =
    let header = fixed_bytes p ++ p.options in
    let split : ipv4_bytes p ≡ header ++ ports_bytes p =
      unfold ipv4_bytes in sym (append_assoc (fixed_bytes p) p.options (ports_bytes p)) in
    let end : p.words * 4 ≡ length header + 0 =
      let o = w.options_len in
      omega (arith, length-append (fixed_bytes p) p.options, length-fixed_bytes p) in
    rw (split, end)
      (match_tcp_port-append header e (ports_bytes p) 0 ∙ match_tcp_port-ports_bytes e p w)

check_ports4-ipv4_bytes :
    (e : Excluder) (pre : List ℕ) (p : Ipv4)
    → IsIpv4 p
    → check_ports4 e (pre ++ ipv4_bytes p) (length pre)
      ≡ ok (p.proto == 6 && (has_port e.ports p.src_port || has_port e.ports p.dst_port))
check_ports4-ipv4_bytes e pre p w =
    check_ports4-append pre e (ipv4_bytes p) p.proto (0x40 + p.words) (index-ipv4_bytes p).1
      (index-ipv4_bytes p).0
    ∙ (elim (Bool-cases (is_empty e.ports)) [
      | inl none_listed ↦
          rw
            (
              none_listed,
              has_port-empty e.ports p.src_port none_listed,
              has_port-empty e.ports p.dst_port none_listed,
            )
            (elim (Bool-cases (p.proto == 6)) [ inl t ↦ rw t | inr t ↦ rw t ])
      | inr listed ↦
          rw
            (
              listed,
              header_words p.words w.words_high,
              le→ltb (p.words * 4) 20 (let l = w.words_low in omega arith),
              match_tcp_port-ipv4_bytes e p w,
            )
            (elim (Bool-cases (p.proto == 6)) [ inl t ↦ rw t | inr t ↦ rw t ])
    ])

pub check_ipv4-ipv4_bytes :
    (e : Excluder) (pre : List ℕ) (p : Ipv4)
    → IsIpv4 p
    → check_ipv4 e (pre ++ ipv4_bytes p) (length pre) ≡ ok (is_excluded e p)
unfolding check_ipv4 is_excluded
check_ipv4-ipv4_bytes e pre p w =
    rw
      (
        ltb-append pre 20 (ipv4_bytes p),
        le→ltb (length (ipv4_bytes p)) 20 (long_enough p),
        match_hosts-append pre e (ipv4_bytes p) 12 16 20,
        match_hosts-ipv4_bytes e p,
        ◌>>=◌,
        check_ports4-ipv4_bytes e pre p w,
      )
      (elim (Bool-cases (match_host e (put_be 4 p.src) || match_host e (put_be 4 p.dst))) [
        | inl m ↦ rw m
        | inr m ↦ rw m
      ])

or_false : (a b : Bool) → (a || b) ≡ false → (a ≡ false) × (b ≡ false)
or_false true b h = cc
or_false false b h = (refl, h)

not-false : (a : Bool) → not a ≡ false → a ≡ true
not-false true h = refl
not-false false h = cc

-- With no rule there is no packet to drop.
pub not-active-excluded : (e : Excluder) (p : Ipv4) → active e ≡ false → is_excluded e p ≡ false
unfolding active is_excluded
not-active-excluded e p h =
    let parts = or_false (not (is_empty e.ports)) _ h in
    let unlisted = not-false (is_empty e.ports) parts.0 in
    rw
      (
        match_host-empty e (put_be 4 p.src) parts.1,
        match_host-empty e (put_be 4 p.dst) parts.1,
        has_port-empty e.ports p.src_port unlisted,
        has_port-empty e.ports p.dst_port unlisted,
      )
      (elim (Bool-cases (p.proto == 6)) [ inl t ↦ rw t | inr t ↦ rw t ])
