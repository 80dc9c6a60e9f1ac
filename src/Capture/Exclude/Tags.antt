-- ===== src/Capture/Exclude/Tags.antt =====
-- internal/capture/bpf.go: the loop over VLAN tags.
use ipcap.Base.{
  ℕ, zero, suc, ◌+◌, ◌^◌, ◌≤◌, ◌<◌, ◌≡◌, sym, ap, ◌∙◌, List, [], ◌∷◌, ◌++◌, append_assoc, length,
  length-append, false, ltb, le→ltb, le→leb, some, ok, ◌>>=◌, arith,
}
use ipcap.Bytes.{put_be}
use ipcap.Bytes.RoundTrip.{get_be-put_be}
use ipcap.Capture.Exclude.{slice, uint16, uint16_at, vlan_loop, ether_type_ipv4}
use ipcap.Capture.Exclude.Shift.{ltb-append, uint16_at-append}
use ipcap.Capture.Exclude.Packet.{Tags, next_type, tag_bytes, AreTags}

pub next_type_bound : (tags : Tags) → AreTags tags → next_type tags < 2 ^ 16
next_type_bound [] h = omega arith
next_type_bound ((t, tci) ∷ tags) h = ground (arith, h.0)

pub uint16_at-put_be :
    (a b v : ℕ) (xs : List ℕ) → v < 2 ^ 16 → uint16_at (a ∷ b ∷ (put_be 2 v ++ xs)) 2 4 ≡ ok v
unfolding uint16_at slice uint16
uint16_at-put_be a b v xs h =
    rw (le→leb 4 (length (a ∷ b ∷ (put_be 2 v ++ xs))) (omega arith)) (ap ok (get_be-put_be 2 v h))

pub uint16_at-head : (v : ℕ) (xs : List ℕ) → v < 2 ^ 16 → uint16_at (put_be 2 v ++ xs) 0 2 ≡ ok v
unfolding uint16_at slice uint16
uint16_at-head v xs h =
    rw (le→leb 2 (length (put_be 2 v ++ xs)) (omega arith)) (ap ok (get_be-put_be 2 v h))

-- The loop finds the end of at most as many tags as it has rounds.
pub vlan_loop-tag_bytes :
    (n : ℕ) (tags : Tags) (pre l3 b : List ℕ) (off : ℕ)
    → length tags ≤ n
    → AreTags tags
    → b ≡ pre ++ (tag_bytes tags ++ l3)
    → off ≡ length pre
    → vlan_loop n b off (next_type tags)
      ≡ ok (some (length pre + length (tag_bytes tags), ether_type_ipv4))
unfolding vlan_loop
vlan_loop-tag_bytes zero [] pre l3 b off few tagged eb eo =
    ap (λ k. ok (some (k, ether_type_ipv4))) (omega arith)
vlan_loop-tag_bytes (suc n) [] pre l3 b off few tagged eb eo =
    ap (λ k. ok (some (k, ether_type_ipv4))) (omega arith)
vlan_loop-tag_bytes zero (t ∷ tags) pre l3 b off few tagged eb eo = absurd (omega arith)
vlan_loop-tag_bytes (suc n) ((t, tci) ∷ tags) pre l3 b off few tagged eb eo =
    let front = put_be 2 tci ++ put_be 2 (next_type tags) in
    let room : ltb (length b) (off + 4) ≡ false =
      rw (eb, eo)
        (ltb-append pre 4 (tag_bytes ((t, tci) ∷ tags) ++ l3)
          ∙ le→ltb (length (tag_bytes ((t, tci) ∷ tags) ++ l3)) 4 (omega arith)) in
    let inner : uint16_at b (off + 2) (off + 4) ≡ ok (next_type tags) =
      rw (eb, eo)
        (uint16_at-append pre (tag_bytes ((t, tci) ∷ tags) ++ l3) 2 4
          ∙ uint16_at-put_be _ _ (next_type tags) (tag_bytes tags ++ l3)
              (next_type_bound tags tagged.1)) in
    let rest =
      vlan_loop-tag_bytes n tags (pre ++ front) l3 b (off + 4) (omega arith) tagged.1
        (eb ∙ sym (append_assoc pre front (tag_bytes tags ++ l3)))
        (omega (arith, length-append pre front)) in
    rw (tagged.0, room, inner, ◌>>=◌, rest)
      (ap (λ k. ok (some (k, ether_type_ipv4))) (omega (arith, length-append pre front)))
