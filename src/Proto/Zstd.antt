-- ===== src/Proto/Zstd.antt =====
-- internal/proto/zstd.go: the compression of a batch. The zstd package is a third party's.
use ipcap.Base.{◌≤◌, ℕ, ◌*◌, ◌^◌, ◌≡◌, Option, some, List, length}

-- `EncodeAll`, and `DecodeAll` of a decoder with this much memory, `none` its error.
pub record Zstd : Type 0 where
  pub encode_all : List ℕ → List ℕ
  pub decode_all : ℕ → List ℕ → Option (List ℕ)

abbrev pub max_decompressed : ℕ
max_decompressed = 32 * 2 ^ 20

unfoldable pub compress_batch : Zstd → List ℕ → List ℕ
compress_batch z payload = z.encode_all payload

unfoldable pub decompress_batch : Zstd → List ℕ → Option (List ℕ)
decompress_batch z payload = z.decode_all max_decompressed payload

-- What the code relies on: bytes that the decoder's memory holds are decoded from what they were
-- encoded as.
pub record Inverts (z : Zstd) : Type 0 where
  pub inverse :
      (b : List ℕ)
      → length b ≤ max_decompressed
      → z.decode_all max_decompressed (z.encode_all b) ≡ some b

pub decompress_batch-compress_batch :
    (z : Zstd) (b : List ℕ)
    → Inverts z
    → length b ≤ max_decompressed
    → decompress_batch z (compress_batch z b) ≡ some b
unfolding compress_batch decompress_batch
decompress_batch-compress_batch z b h fits = h.inverse b fits
