-- ===== src/Proto/Crc.antt =====
-- internal/proto/frame.go, `CRC32C`: what `hash/crc32` computes with the Castagnoli table.
use Prim.Native.Nat.{bit_xor}
use ipcap.Base.{ℕ, ◌/◌, ◌%◌, ◌^◌, ◌<◌, ◌≡◌, refl, arith, List, [], ◌∷◌, ◌==◌, if◌then◌else◌}

-- The polynomial of `crc32.Castagnoli`, bit-reversed.
abbrev polynomial : ℕ
polynomial = 0x82f63b78

crc_bit : ℕ → ℕ
crc_bit c = bit_xor (c / 2) (if c % 2 == 0 then 0 else polynomial)

crc_byte : ℕ → ℕ → ℕ
unfolding crc_bit
crc_byte c b =
    crc_bit (crc_bit (crc_bit (crc_bit (crc_bit (crc_bit (crc_bit (crc_bit (bit_xor c b))))))))

crc_update : ℕ → List ℕ → ℕ
unfolding crc_byte
crc_update c [] = c
crc_update c (b ∷ bs) = crc_update (crc_byte c b) bs

-- The result is a `uint32`.
pub crc32c : List ℕ → ℕ
unfolding crc_update
crc32c bs = bit_xor (crc_update 0xffff_ffff bs) 0xffff_ffff % 2 ^ 32

pub crc32c-lt : (bs : List ℕ) → crc32c bs < 2 ^ 32
unfolding crc32c
crc32c-lt bs = omega arith

-- The check value of CRC-32C, on "123456789".
crc32c_check :
    crc32c (0x31 ∷ 0x32 ∷ 0x33 ∷ 0x34 ∷ 0x35 ∷ 0x36 ∷ 0x37 ∷ 0x38 ∷ 0x39 ∷ []) ≡ 0xe306_9283
unfolding crc32c
crc32c_check = refl

pub crc32c-nil : crc32c [] ≡ 0
unfolding crc32c
crc32c-nil = refl
