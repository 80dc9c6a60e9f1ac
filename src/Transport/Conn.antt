-- ===== src/Transport/Conn.antt =====
-- internal/transport/noise.go: the stream behind the handshake, and the handshake's messages. The Noise
-- package is a third party's: its cipher states are a parameter.
use ipcap.Base.{
  ℕ, zero, suc, ◌+◌, ◌-◌, ◌%◌, ◌^◌, List, [], ◌∷◌, ◌++◌, length, take, drop, Bool, true, false,
  ◌&&◌, ◌==◌, ltb, if◌then◌else◌, Result, ok, err,
}
use ipcap.Bytes.{ReadError, read_full, put_be, get_be}
use ipcap.Storage.Io.{Io, pure, raise, modify, syscall, ◌>>◌}

-- `CipherState.Encrypt` and `Decrypt`: the text and the next state, or an error.
pub record Cipher (S : Type 0) : Type 0 where
  pub encrypt : S → List ℕ → Result (Unit {0}) (List ℕ × S)
  pub decrypt : S → List ℕ → Result (Unit {0}) (List ℕ × S)

abbrev pub max_noise_msg : ℕ
max_noise_msg = 65535

abbrev pub max_plaintext : ℕ
max_plaintext = max_noise_msg - 16

-- `stuck`: the fuel ran out. The others carry the bytes of the plaintext that were written.
pub data WriteError : Type 0 where
  stuck : WriteError
  too_large : WriteError
  write_failed encrypt_failed : ℕ → WriteError

-- The sending side: the cipher state, and what has been written to the connection.
pub record Sender (S : Type 0) : Type 0 where
  pub send : S
  pub raw : List ℕ

-- `c.raw.Write`
unfoldable pub write_raw : {S : Type 0} → ℕ → List ℕ → Io WriteError (Sender S) (Unit {0})
write_raw total bs =
    syscall (write_failed total) (λ c. record c { raw = c.raw ++ bs })
      (λ n c. record c { raw = c.raw ++ take n bs })

abbrev pub message : List ℕ → List ℕ
message ct = put_be 2 (length ct % 2 ^ 16) ++ ct

abbrev pub write_sealed :
    {S : Type 0} → ℕ → Result (Unit {0}) (List ℕ × S) → Io WriteError (Sender S) (Unit {0})
write_sealed total (err e) = raise (encrypt_failed total)
write_sealed total (ok (ct, next)) =
    modify (λ c. record c { send = next }) >> write_raw total (message ct)

module _ {S : Type 0} (cipher : Cipher S) where
  -- One chunk, encrypted.
  unfoldable pub write_chunk : ℕ → List ℕ → Io WriteError (Sender S) (Unit {0})
  unfolding write_raw
  write_chunk total chunk s = write_sealed total (cipher.encrypt s.state.send chunk) s

  -- The loop of `Write` over the bytes that are left, with the number of those that were written.
  unfoldable pub write_loop : ℕ → ℕ → List ℕ → Io WriteError (Sender S) ℕ
  unfolding write_chunk
  write_loop fuel total [] = pure total
  write_loop zero total (b ∷ p) = raise stuck
  write_loop (suc fuel) total (b ∷ p) =
      let chunk = take max_plaintext (b ∷ p) in
      write_chunk total chunk
      >> write_loop fuel (total + length chunk) (drop (length chunk) (b ∷ p))

  -- `Write`; every round takes a byte, so the length is fuel enough.
  unfoldable pub write : List ℕ → Io WriteError (Sender S) ℕ
  unfolding write_loop
  write p = write_loop (length p) 0 p

pub data StreamError : Type 0 where
  short : ReadError → StreamError
  decrypt_failed : StreamError

-- The receiving side; `raw` are the bytes that the connection still delivers before its end.
pub record Receiver (S : Type 0) : Type 0 where
  pub recv : S
  pub raw : List ℕ
  pub buf : List ℕ

-- `readHandshakeMsg`, and the two reads of `Read`: a message and what is left.
unfoldable pub read_message : List ℕ → Result ReadError (List ℕ × List ℕ)
unfolding read_full
read_message raw = elim (read_full 2 raw) [
  | err e ↦ err e
  | ok (hdr, rest) ↦ read_full (get_be hdr) rest
]

-- `writeHandshakeMsg`: the bytes that it writes.
unfoldable pub handshake_message : List ℕ → Result WriteError (List ℕ)
handshake_message msg = if ltb max_noise_msg (length msg) then err too_large else ok (message msg)

module _ {S : Type 0} (cipher : Cipher S) where
  abbrev opened :
      Receiver S → List ℕ → Result (Unit {0}) (List ℕ × S) → Result StreamError (Receiver S)
  opened c rest (err e) = err decrypt_failed
  opened c rest (ok (pt, next)) = ok (record { recv = next; raw = rest; buf = pt })

  abbrev received :
      Receiver S → Result ReadError (List ℕ × List ℕ) → Result StreamError (Receiver S)
  received c (err e) = err (short e)
  received c (ok (ct, rest)) = opened c rest (cipher.decrypt c.recv ct)

  -- The buffer with the next message, where it is empty.
  unfoldable pub fill : List ℕ → Receiver S → Result StreamError (Receiver S)
  unfolding read_message
  fill [] c = received c (read_message c.raw)
  fill (b ∷ buf) c = ok c

  abbrev pub copied : ℕ → Receiver S → List ℕ × Receiver S
  copied n c = (take n c.buf, record c { buf = drop n c.buf })

  -- `Read` into a buffer of `n` bytes: what was copied there.
  unfoldable pub read : ℕ → Receiver S → Result StreamError (List ℕ × Receiver S)
  unfolding fill
  read n c = elim (fill c.buf c) [ err e ↦ err e | ok c' ↦ ok (copied n c') ]

  -- Reads into buffers of these sizes, up to the first error: all that was copied.
  unfoldable pub read_many : List ℕ → Receiver S → List ℕ
  unfolding read
  read_many [] c = []
  read_many (n ∷ ns) c = elim (read n c) [ err e ↦ [] | ok (bs, c') ↦ bs ++ read_many ns c' ]

-- `keyAllowed`
abbrev bytes_equal : List ℕ → List ℕ → Bool
bytes_equal [] [] = true
bytes_equal [] (y ∷ ys) = false
bytes_equal (x ∷ xs) [] = false
bytes_equal (x ∷ xs) (y ∷ ys) = x == y && bytes_equal xs ys

unfoldable pub key_allowed : List (List ℕ) → List ℕ → Bool
key_allowed [] peer = false
key_allowed (k ∷ allowed) peer =
    let rest = key_allowed allowed peer in if bytes_equal k peer then true else rest
