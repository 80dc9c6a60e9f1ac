-- ===== src/Proto/Batch.antt =====
-- internal/proto/types.go: packet records, and the batches that carry them.
pub mod RoundTrip
pub mod Exact
use ipcap.Base.{
  ℕ, zero, suc, ◌+◌, ◌%◌, ◌^◌, ◌≤◌, ◌<◌, ◌≡◌, Option, none, some, List, [], ◌∷◌, ◌++◌, length, take,
  drop, All, ltb, if◌then◌else◌, Result, ok, err, ◌>>=◌,
}
use ipcap.Bytes.{IsByte, put_be, uint_be_at}
use ipcap.Proto.Types.{max_payload_len}
use ipcap.Proto.Messages.{DecodeError, truncated}

-- `body` is the field `Data`.
pub record PktRecord : Type 0 where
  pub ts_sec : ℕ
  pub ts_nsec : ℕ
  pub orig_len : ℕ
  pub cap_len : ℕ
  pub body : List ℕ

abbrev pub pkt_fixed_len : ℕ
pkt_fixed_len = 20

pkt_header : PktRecord → List ℕ
pkt_header p =
    put_be 8 p.ts_sec ++ (put_be 4 p.ts_nsec ++ (put_be 4 p.orig_len ++ put_be 4 p.cap_len))

-- `PktRecord.AppendTo`
unfoldable pub append_pkt : PktRecord → List ℕ → List ℕ
unfolding pkt_header
append_pkt p dst = (dst ++ pkt_header p) ++ p.body

-- The record that `parsePktRecord` makes of bytes that are long enough.
parsed_pkt : List ℕ → PktRecord
parsed_pkt b = record {
  ts_sec = uint_be_at 8 0 b;
  ts_nsec = uint_be_at 4 8 b;
  orig_len = uint_be_at 4 12 b;
  cap_len = uint_be_at 4 16 b;
  body = take (uint_be_at 4 16 b) (drop pkt_fixed_len b);
}

-- The record at the front of `b` and the number of bytes that it takes; `none` is `ok=false`.
unfoldable pub parse_pkt_record : List ℕ → Option (PktRecord × ℕ)
unfolding parsed_pkt
parse_pkt_record b =
    if ltb (length b) pkt_fixed_len
    then none
    else if ltb max_payload_len (uint_be_at 4 16 b)
    then none
    else if ltb (length b) (pkt_fixed_len + uint_be_at 4 16 b)
    then none
    else some (parsed_pkt b, pkt_fixed_len + uint_be_at 4 16 b)

pub append_pkts : List PktRecord → List ℕ → List ℕ
append_pkts [] out = out
append_pkts (r ∷ recs) out = append_pkts recs (append_pkt r out)

unfoldable pub encode_pkt_batch : List PktRecord → List ℕ
unfolding append_pkts
encode_pkt_batch recs = append_pkts recs (put_be 2 (length recs % 2 ^ 16))

-- The loop of `DecodePktBatch`, with `count` rounds to go.
decode_records : ℕ → List ℕ → Result DecodeError (List PktRecord)
decode_records zero b = ok []
decode_records (suc count) b = elim (parse_pkt_record b) [
  | none ↦ err truncated
  | some (rec, n) ↦ do recs ← decode_records count (drop n b); ok (rec ∷ recs)
]

unfoldable pub decode_pkt_batch : List ℕ → Result DecodeError (List PktRecord)
unfolding decode_records
decode_pkt_batch payload =
    if ltb (length payload) 2
    then err truncated
    else decode_records (uint_be_at 2 0 payload) (drop 2 payload)

-- A record whose fields have their Go types' widths, with the body that it declares.
pub record IsPktRecord (p : PktRecord) : Type 0 where
  pub ts_sec_bound : p.ts_sec < 2 ^ 64
  pub ts_nsec_bound : p.ts_nsec < 2 ^ 32
  pub orig_len_bound : p.orig_len < 2 ^ 32
  pub cap_len_bound : p.cap_len ≤ max_payload_len
  pub cap_len_exact : length p.body ≡ p.cap_len
  pub body_bytes : All IsByte p.body
