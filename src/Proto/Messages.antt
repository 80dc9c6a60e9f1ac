-- ===== src/Proto/Messages.antt =====
-- internal/proto/types.go: the fixed-size payloads `Ack`, `Gap` and `Heartbeat`.
use ipcap.Base.{
  ℕ, ◌^◌, ◌<◌, ◌≡◌, arith, List, ◌++◌, length, false, ltb, le→ltb, if◌then◌else◌, Result, ok, err,
}
use ipcap.Bytes.{put_be, uint_be_at}
use ipcap.Bytes.RoundTrip.{get_be-put_be}

pub data DecodeError : Type 0 where
  truncated : DecodeError

pub record Ack : Type 0 where
  pub src_id : ℕ
  pub acked_gpidx : ℕ
  pub last_seq : ℕ

unfoldable pub encode_ack : Ack → List ℕ
encode_ack a = put_be 2 a.src_id ++ (put_be 8 a.acked_gpidx ++ put_be 8 a.last_seq)

unfoldable pub decode_ack : List ℕ → Result DecodeError Ack
decode_ack b =
    if ltb (length b) 18
    then err truncated
    else ok (record {
      src_id = uint_be_at 2 0 b;
      acked_gpidx = uint_be_at 8 2 b;
      last_seq = uint_be_at 8 10 b;
    })

pub record Gap : Type 0 where
  pub src_id : ℕ
  pub from_gpidx : ℕ
  pub to_gpidx : ℕ

unfoldable pub encode_gap : Gap → List ℕ
encode_gap g = put_be 2 g.src_id ++ (put_be 8 g.from_gpidx ++ put_be 8 g.to_gpidx)

unfoldable pub decode_gap : List ℕ → Result DecodeError Gap
decode_gap b =
    if ltb (length b) 18
    then err truncated
    else ok (record {
      src_id = uint_be_at 2 0 b;
      from_gpidx = uint_be_at 8 2 b;
      to_gpidx = uint_be_at 8 10 b;
    })

pub record Heartbeat : Type 0 where
  pub ts_nsec : ℕ
  pub head_gpidx : ℕ

unfoldable pub encode_heartbeat : Heartbeat → List ℕ
encode_heartbeat h = put_be 8 h.ts_nsec ++ put_be 8 h.head_gpidx

unfoldable pub decode_heartbeat : List ℕ → Result DecodeError Heartbeat
decode_heartbeat b =
    if ltb (length b) 16
    then err truncated
    else ok (record { ts_nsec = uint_be_at 8 0 b; head_gpidx = uint_be_at 8 8 b })

-- An encoded `Ack` is decoded again, whatever follows it.
pub decode_ack-encode_ack :
    (a : Ack) (rest : List ℕ)
    → a.src_id < 2 ^ 16
    → a.acked_gpidx < 2 ^ 64
    → a.last_seq < 2 ^ 64
    → decode_ack (encode_ack a ++ rest) ≡ ok a
unfolding decode_ack encode_ack
decode_ack-encode_ack a rest hs hg hl =
    let long : ltb (length (encode_ack a ++ rest)) 18 ≡ false = le→ltb _ _ (omega arith) in
    let s = get_be-put_be 2 a.src_id hs in
    let g = get_be-put_be 8 a.acked_gpidx hg in
    let l = get_be-put_be 8 a.last_seq hl in
    rw long (λ i. ok (record { src_id = s i; acked_gpidx = g i; last_seq = l i }))

-- An encoded `Gap` is decoded again, whatever follows it.
pub decode_gap-encode_gap :
    (g : Gap) (rest : List ℕ)
    → g.src_id < 2 ^ 16
    → g.from_gpidx < 2 ^ 64
    → g.to_gpidx < 2 ^ 64
    → decode_gap (encode_gap g ++ rest) ≡ ok g
unfolding decode_gap encode_gap
decode_gap-encode_gap g rest hs hf ht =
    let long : ltb (length (encode_gap g ++ rest)) 18 ≡ false = le→ltb _ _ (omega arith) in
    let s = get_be-put_be 2 g.src_id hs in
    let f = get_be-put_be 8 g.from_gpidx hf in
    let t = get_be-put_be 8 g.to_gpidx ht in
    rw long (λ i. ok (record { src_id = s i; from_gpidx = f i; to_gpidx = t i }))
