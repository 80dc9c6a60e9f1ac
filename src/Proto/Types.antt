-- ===== src/Proto/Types.antt =====
-- internal/proto/types.go: the protocol's constants and the frame types.
use Prim.Native.Nat.{bit_and}
use ipcap.Base.{
  ℕ, zero, suc, ◌*◌, ◌^◌, ◌≤◌, ◌<◌, ◌≡◌, refl, arith, Bool, true, not, ◌&&◌, ◌||◌, ◌↔◌, leb, ◌==◌,
}

abbrev pub protocol_version : ℕ
protocol_version = 1

abbrev pub frame_magic : ℕ
frame_magic = 0xd0ca

abbrev pub frame_header_len : ℕ
frame_header_len = 32

-- 8 MiB
abbrev pub max_payload_len : ℕ
max_payload_len = 8 * 2 ^ 20

-- `FrameType` is a `uint8`: values outside the list are legal on the wire.
abbrev pub frame_pkt : ℕ
frame_pkt = 0x01

abbrev pub frame_pkt_batch : ℕ
frame_pkt_batch = 0x02

abbrev pub frame_ack : ℕ
frame_ack = 0x03

abbrev pub frame_src_info : ℕ
frame_src_info = 0x10

abbrev pub frame_heartbeat : ℕ
frame_heartbeat = 0x11

abbrev pub frame_stats : ℕ
frame_stats = 0x12

abbrev pub frame_gap : ℕ
frame_gap = 0x13

abbrev pub frame_tls_keylog : ℕ
frame_tls_keylog = 0xa0

-- `FrameType.Skippable`
unfoldable pub skippable : ℕ → Bool
skippable t = not (bit_and t 0x80 == 0)

abbrev pub flag_compressed : ℕ
flag_compressed = 1

abbrev pub flag_gap : ℕ
flag_gap = 4

high_bit_below : ℕ → Bool
unfolding skippable
high_bit_below zero = true
high_bit_below (suc n) =
    (leb 128 n && skippable n || not (leb 128 n) && not (skippable n)) && high_bit_below n

high_bit_sound : (n t : ℕ) → high_bit_below n ≡ true → t < n → (skippable t ≡ true) ↔ (128 ≤ t)
unfolding high_bit_below
high_bit_sound zero t h lt = absurd (omega arith)
high_bit_sound (suc n) t h lt = ground (arith, high_bit_sound n t)

-- Of the 256 frame types those from 0x80 on are skippable, and no others.
pub skippable_iff : (t : ℕ) → t < 256 → (skippable t ≡ true) ↔ (128 ≤ t)
unfolding high_bit_below
skippable_iff t lt = high_bit_sound 256 t refl lt
