-- ===== src/Pcap.antt =====
-- internal/pcapio/pcapio.go: the classic libpcap byte format.
-- Byte counts of one file are plain numbers; a reader delivers its bytes and then reports the end.
pub mod Encoding
pub mod Head
pub mod Scan
pub mod ReadAt
mod Runs
use ipcap.Base.{
  ℕ, zero, suc, ◌+◌, ◌%◌, ◌^◌, Option, none, some, List, [], ◌∷◌, ◌++◌, length, take, drop, true,
  false, not, ◌||◌, ltb, leb, ◌==◌, if◌then◌else◌, Result, ok, err,
}
use ipcap.Bytes.{put_le, get_le, ReadError, eof, unexpected_eof, read_full}

abbrev pub magic_micros : ℕ
magic_micros = 0xa1b2c3d4

abbrev pub global_header_len : ℕ
global_header_len = 24

abbrev pub record_header_len : ℕ
record_header_len = 16

abbrev pub version_major : ℕ
version_major = 2

abbrev pub version_minor : ℕ
version_minor = 4

pub record GlobalHeader : Type 0 where
  pub snaplen : ℕ
  pub link_type : ℕ

-- `body` is the field `Data`.
pub record Record : Type 0 where
  pub ts_sec : ℕ
  pub ts_usec : ℕ
  pub orig_len : ℕ
  pub body : List ℕ

pub data PcapError : Type 0 where
  bad_global_header bad_record : PcapError
  short : ReadError → PcapError

-- `GlobalHeader.AppendTo`
unfoldable pub append_global_header : GlobalHeader → List ℕ → List ℕ
append_global_header g dst =
    dst
    ++ (put_le 4 magic_micros
        ++ (put_le 2 version_major
            ++ (put_le 2 version_minor
                ++ (put_le 4 0 ++ (put_le 4 0 ++ (put_le 4 g.snaplen ++ put_le 4 g.link_type))))))

-- `binary.LittleEndian.Uint32(b[off:])`, where `b` is long enough.
abbrev pub uint32_at : ℕ → List ℕ → ℕ
uint32_at off b = get_le (take 4 (drop off b))

unfoldable pub parse_global_header : List ℕ → Result PcapError GlobalHeader
parse_global_header b =
    if ltb (length b) global_header_len
    then err bad_global_header
    else if not (uint32_at 0 b == magic_micros)
    then err bad_global_header
    else ok (record { snaplen = uint32_at 16 b; link_type = uint32_at 20 b })

-- `Record.Size`
unfoldable pub size : Record → ℕ
size r = record_header_len + length r.body

unfoldable pub record_header : Record → List ℕ
record_header r =
    put_le 4 r.ts_sec
    ++ (put_le 4 r.ts_usec ++ (put_le 4 (length r.body % 2 ^ 32) ++ put_le 4 r.orig_len))

-- `Record.AppendTo`
unfoldable pub append_record : Record → List ℕ → List ℕ
append_record r dst = (dst ++ record_header r) ++ r.body

-- The declared capture length, and the record without its data.
unfoldable pub parse_record_header : List ℕ → ℕ × Record
parse_record_header hdr = (
  uint32_at 8 hdr,
  record {
    ts_sec = uint32_at 0 hdr;
    ts_usec = uint32_at 4 hdr;
    orig_len = uint32_at 12 hdr;
    body = [];
  },
)

-- `os.File.ReadAt` of `n` bytes at offset `off`.
unfoldable pub read_at : ℕ → ℕ → List ℕ → Result ReadError (List ℕ)
read_at n off file =
    if leb (off + n) (length file) || n == 0 then ok (take n (drop off file)) else err eof

-- `ReadRecordAt` from the header `hdr` on.
read_body_at : List ℕ → ℕ → ℕ → ℕ → List ℕ → Result PcapError (Option (Record × ℕ))
read_body_at file off limit snaplen hdr =
    let (cap_len, rec) = parse_record_header hdr in
    let end = off + record_header_len + cap_len in
    if ltb snaplen cap_len
    then err bad_record
    else if ltb limit end
    then ok none
    else elim (read_at cap_len (off + record_header_len) file) [
      | err e ↦ err (short e)
      | ok body ↦ ok (some (record rec { body = body }, end))
    ]

-- `ok none` is `ok=false` with no error. On every return but the last `next` is `off`.
unfoldable pub read_record_at : List ℕ → ℕ → ℕ → ℕ → Result PcapError (Option (Record × ℕ))
unfolding read_body_at
read_record_at file off limit snaplen =
    if ltb limit (off + record_header_len)
    then ok none
    else elim (read_at record_header_len off file) [
      | err e ↦ err (short e)
      | ok hdr ↦ read_body_at file off limit snaplen hdr
    ]

-- The three results of `ScanRecords`; `error` is the callback's.
pub record ScanResult (E : Type 0) : Type 0 where
  pub valid_bytes : ℕ
  pub count : ℕ
  pub error : Option E

abbrev pub stop : {E : Type 0} → ℕ → ℕ → Option E → Option (ScanResult E)
stop valid_bytes count error =
    some (record { valid_bytes = valid_bytes; count = count; error = error })

-- The loop of `ScanRecords` on the bytes `s` still to come; `none` says that the fuel ran out.
unfoldable pub scan_loop :
    {E : Type 0} → ℕ → (Record → Option E) → ℕ → List ℕ → ℕ → ℕ → Option (ScanResult E)
scan_loop snaplen on_record zero s valid_bytes count = none
scan_loop snaplen on_record (suc fuel) s valid_bytes count = elim (read_full record_header_len s) [
  | err e ↦ stop valid_bytes count none
  | ok (hdr, s1) ↦
      let (cap_len, rec) = parse_record_header hdr in
      elim (ltb snaplen cap_len) [
        | true ↦ stop valid_bytes count none
        | false ↦ elim (read_full cap_len s1) [
          | err e ↦ stop valid_bytes count none
          | ok (body, s2) ↦ elim (on_record (record rec { body = body })) [
            | some e ↦ stop valid_bytes count (some e)
            | none ↦
                scan_loop snaplen on_record fuel s2 (valid_bytes + (record_header_len + cap_len))
                  (count + 1)
          ]
        ]
      ]
]

-- A record takes 16 bytes at least, so one round more than there are bytes is enough.
unfoldable pub scan_records :
    {E : Type 0} → List ℕ → ℕ → (Record → Option E) → Option (ScanResult E)
scan_records s snaplen on_record = scan_loop snaplen on_record (suc (length s)) s 0 0

abbrev body_error : ReadError → ReadError
body_error eof = unexpected_eof
body_error unexpected_eof = unexpected_eof

-- The record and the bytes behind it, or the error that `ReadRecord` returns.
unfoldable pub read_record : List ℕ → ℕ → Result PcapError (Record × List ℕ)
read_record s snaplen = elim (read_full record_header_len s) [
  | err e ↦ err (short e)
  | ok (hdr, s1) ↦
      let (cap_len, rec) = parse_record_header hdr in
      if ltb snaplen cap_len then err bad_record else elim (read_full cap_len s1) [
        | err e ↦ err (short (body_error e))
        | ok (body, s2) ↦ ok (record rec { body = body }, s2)
      ]
]
