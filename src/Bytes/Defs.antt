-- ===== src/Bytes/Defs.antt =====
-- The conversions and `io.ReadFull`.
use ipcap.Base.{
  ℕ, zero, suc, ◌+◌, ◌*◌, ◌/◌, ◌%◌, ◌<◌, List, [], ◌∷◌, length, take, drop, get_or, leb,
  if◌then◌else◌, Result, ok, err,
}

abbrev pub IsByte : ℕ → Type 0
IsByte b = b < 256

-- `binary.LittleEndian.PutUint16/32/64`: the `k` bytes of `v`, lowest first.
abbrev pub put_le : ℕ → ℕ → List ℕ
put_le zero v = []
put_le (suc k) v = v % 256 ∷ put_le k (v / 256)

-- `binary.LittleEndian.Uint16/32/64`, on a slice cut to the width.
abbrev pub get_le : List ℕ → ℕ
get_le [] = 0
get_le (b ∷ bs) = b + 256 * get_le bs

-- `binary.BigEndian.PutUint16/32/64`: the `k` bytes of `v`, highest first, before `bs`.
abbrev pub put_be_onto : ℕ → ℕ → List ℕ → List ℕ
put_be_onto zero v bs = bs
put_be_onto (suc k) v bs = put_be_onto k (v / 256) (v % 256 ∷ bs)

abbrev pub put_be : ℕ → ℕ → List ℕ
put_be k v = put_be_onto k v []

-- `binary.BigEndian.Uint16/32/64`, on a slice cut to the width.
abbrev pub get_be_from : ℕ → List ℕ → ℕ
get_be_from acc [] = acc
get_be_from acc (b ∷ bs) = get_be_from (acc * 256 + b) bs

abbrev pub get_be : List ℕ → ℕ
get_be = get_be_from 0

pub data ReadError : Type 0 where
  eof unexpected_eof : ReadError

abbrev pub short_read : List ℕ → ReadError
short_read [] = eof
short_read (b ∷ bs) = unexpected_eof

-- `io.ReadFull(r, buf)` with `len(buf) == n`, on the bytes `s` that `r` still delivers before it
-- reports `io.EOF`: the buffer and what is left, or the error of a short read.
unfoldable pub read_full : ℕ → List ℕ → Result ReadError (List ℕ × List ℕ)
read_full n s = if leb n (length s) then ok (take n s, drop n s) else err (short_read s)

-- `b[i]`, where `i` is in range.
abbrev pub byte_at : ℕ → List ℕ → ℕ
byte_at i b = get_or b i 0

-- `binary.BigEndian.Uint16/32/64(b[off:])` at the width of `k` bytes, where `b` is long enough.
abbrev pub uint_be_at : ℕ → ℕ → List ℕ → ℕ
uint_be_at k off b = get_be (take k (drop off b))
