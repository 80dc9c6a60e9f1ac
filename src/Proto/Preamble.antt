-- ===== src/Proto/Preamble.antt =====
-- internal/proto/preamble.go: the preamble that opens a stream. Its body is CBOR, which the
-- third-party package `cbor` writes and reads: `Cbor` is a parameter.
pub mod RoundTrip
use ipcap.Base.{
  ℕ, ◌%◌, ◌^◌, ◌≤◌, ◌<◌, ◌≡◌, List, [], ◌∷◌, ◌++◌, length, take, not, ltb, ◌==◌, if◌then◌else◌,
  Result, ok, err, ◌&&◌, Bool, true, false,
}
use Prim.Native.String.{String}
use ipcap.Bytes.{put_be, byte_at, uint_be_at, ReadError, read_full}
use ipcap.Proto.Crc.{crc32c}
use ipcap.Proto.Types.{protocol_version}

-- `SrcInfo`
pub record SrcInfo : Type 0 where
  pub id : ℕ
  pub name : String
  pub linktype : ℕ
  pub snaplen : ℕ
  pub kind : String
  pub epoch : String

-- `ResumeAck` is a map, here an association list.
pub record PreambleHeader : Type 0 where
  pub compression : String
  pub sources : List SrcInfo
  pub resume_ack : List (ℕ × ℕ)

pub data PreambleError : Type 0 where
  marshal_failed : PreambleError
  too_large : ℕ → PreambleError
  bad_magic bad_version bad_header_len bad_header_crc unmarshal_failed : PreambleError
  short : ReadError → PreambleError

-- `cbor.Marshal` and `cbor.Unmarshal` at this type.
pub record Cbor : Type 0 where
  pub marshal : PreambleHeader → Result (Unit {0}) (List ℕ)
  pub unmarshal : List ℕ → Result (Unit {0}) PreambleHeader

abbrev pub max_preamble_header : ℕ
max_preamble_header = 2 ^ 16

-- "PMX1"
abbrev pub preamble_magic : List ℕ
preamble_magic = 0x50 ∷ 0x4d ∷ 0x58 ∷ 0x31 ∷ []

-- The bytes that `WritePreamble` writes for a marshalled header.
preamble_bytes : List ℕ → List ℕ
preamble_bytes body =
    preamble_magic
    ++ (put_be 2 protocol_version
        ++ (put_be 4 (crc32c body) ++ (put_be 2 (length body % 2 ^ 16) ++ body)))

-- `WritePreamble`: what it writes.
unfoldable pub write_preamble : Cbor → PreambleHeader → Result PreambleError (List ℕ)
unfolding preamble_bytes
write_preamble c h = elim (c.marshal h) [
  | err e ↦ err marshal_failed
  | ok body ↦
      if ltb max_preamble_header (length body)
      then err (too_large (length body))
      else ok (preamble_bytes body)
]

-- `string(fixed[:4]) != PreambleMagic` on bytes that are four at least.
bytes_eq : List ℕ → List ℕ → Bool
bytes_eq [] [] = true
bytes_eq (a ∷ as') (b ∷ bs) = a == b && bytes_eq as' bs
bytes_eq _ _ = false

-- `ReadPreamble` from the CBOR body on.
read_body : Cbor → List ℕ → List ℕ → Result PreambleError (PreambleHeader × List ℕ)
read_body c fixed s = elim (read_full (uint_be_at 2 10 fixed) s) [
  | err e ↦ err (short e)
  | ok (body, s1) ↦
      if not (crc32c body == uint_be_at 4 6 fixed)
      then err bad_header_crc
      else elim (c.unmarshal body) [ err e ↦ err unmarshal_failed | ok h ↦ ok (h, s1) ]
]

check_fixed : Cbor → List ℕ → List ℕ → Result PreambleError (PreambleHeader × List ℕ)
check_fixed c fixed s =
    if not (bytes_eq (take 4 fixed) preamble_magic)
    then err bad_magic
    else if not (uint_be_at 2 4 fixed == protocol_version)
    then err bad_version
    else if ltb max_preamble_header (uint_be_at 2 10 fixed)
    then err bad_header_len
    else read_body c fixed s

-- `ReadPreamble`: the header and the bytes behind it.
unfoldable pub read_preamble : Cbor → List ℕ → Result PreambleError (PreambleHeader × List ℕ)
unfolding check_fixed read_body bytes_eq
read_preamble c s = elim (read_full 12 s) [
  | err e ↦ err (short e)
  | ok (fixed, s1) ↦ check_fixed c fixed s1
]
