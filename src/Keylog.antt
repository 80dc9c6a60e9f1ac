-- ===== src/Keylog.antt =====
-- internal/keylog/keylog.go: which lines are NSS key log lines. Bytes stand for the text.
mod Runs
use Prim.Native.String.{String}
use Prim.Native.Char.{code}
use ipcap.Base.{
  ℕ, zero, suc, ◌-◌, List, [], ◌∷◌, ◌++◌, length, Bool, true, false, not, ◌&&◌, ◌||◌, ltb, leb,
  ◌==◌, if◌then◌else◌,
}

-- The bytes of a text of ASCII characters.
abbrev pub codes : String → List ℕ
codes String.[] = []
codes (String.◌∷◌ c s) = code c ∷ codes s

abbrev pub bytes_eq : List ℕ → List ℕ → Bool
bytes_eq [] [] = true
bytes_eq [] (y ∷ ys) = false
bytes_eq (x ∷ xs) [] = false
bytes_eq (x ∷ xs) (y ∷ ys) = x == y && bytes_eq xs ys

abbrev ascii_space : ℕ → Bool
ascii_space c = leb 9 c && leb c 13 || c == 32

-- The white space of Unicode in two and in three bytes.
abbrev wide2_space : ℕ → ℕ → Bool
wide2_space c d = c == 0xc2 && (d == 0x85 || d == 0xa0)

abbrev wide3_space : ℕ → ℕ → ℕ → Bool
wide3_space c d e =
    c == 0xe1 && (d == 0x9a && e == 0x80)
    || (c == 0xe2
          && (d == 0x80 && (leb 0x80 e && leb e 0x8a || (e == 0xa8 || (e == 0xa9 || e == 0xaf)))
              || d == 0x81 && e == 0x9f)
        || c == 0xe3 && (d == 0x80 && e == 0x80))

-- `unicode.IsSpace` at the head of the text: the bytes of the space that stands there, or 0.
unfoldable pub space_len : List ℕ → ℕ
space_len [] = 0
space_len (c ∷ []) = if ascii_space c then 1 else 0
space_len (c ∷ (d ∷ [])) = if ascii_space c then 1 else if wide2_space c d then 2 else 0
space_len (c ∷ (d ∷ (e ∷ s))) =
    if ascii_space c then 1 else if wide2_space c d then 2 else if wide3_space c d e then 3 else 0

-- In the loops below `k` bytes of a space are still to be passed over.
unfoldable pub trim_left : ℕ → List ℕ → List ℕ
unfolding space_len
trim_left k [] = []
trim_left (suc k) (c ∷ s) = trim_left k s
trim_left zero (c ∷ s) =
    let n = space_len (c ∷ s) in let rest = trim_left (n - 1) s in if n == 0 then c ∷ s else rest

-- Nothing but white space.
unfoldable pub all_space : ℕ → List ℕ → Bool
unfolding space_len
all_space k [] = k == 0
all_space (suc k) (c ∷ s) = all_space k s
all_space zero (c ∷ s) =
    let n = space_len (c ∷ s) in let rest = all_space (n - 1) s in if n == 0 then false else rest

unfoldable pub trim_right : List ℕ → List ℕ
unfolding all_space
trim_right [] = []
trim_right (c ∷ s) = let rest = trim_right s in if all_space 0 (c ∷ s) then [] else c ∷ rest

-- `bytes.TrimSpace`
unfoldable pub trim_space : List ℕ → List ℕ
unfolding trim_left trim_right
trim_space s = trim_right (trim_left 0 s)

abbrev pub field_end : List ℕ → List (List ℕ) → List (List ℕ)
field_end [] fields = fields
field_end (c ∷ s) fields = (c ∷ s) ∷ fields

-- `bytes.Fields`, with the field that is being read.
unfoldable pub fields_from : ℕ → List ℕ → List ℕ → List (List ℕ)
unfolding space_len
fields_from k cur [] = field_end cur []
fields_from (suc k) cur (c ∷ s) = fields_from k cur s
fields_from zero cur (c ∷ s) =
    let n = space_len (c ∷ s) in
    let rest = fields_from (n - 1) (if n == 0 then cur ++ (c ∷ []) else []) s in
    if n == 0 then rest else field_end cur rest

unfoldable pub fields : List ℕ → List (List ℕ)
unfolding fields_from
fields = fields_from 0 []

abbrev pub max_line_len : ℕ
max_line_len = 256

abbrev pub labels : List (List ℕ)
labels =
    codes "CLIENT_RANDOM"
    ∷ codes "CLIENT_EARLY_TRAFFIC_SECRET"
    ∷ codes "CLIENT_HANDSHAKE_TRAFFIC_SECRET"
    ∷ codes "SERVER_HANDSHAKE_TRAFFIC_SECRET"
    ∷ codes "CLIENT_TRAFFIC_SECRET_0"
    ∷ codes "SERVER_TRAFFIC_SECRET_0"
    ∷ codes "EARLY_EXPORTER_SECRET"
    ∷ codes "EXPORTER_SECRET"
    ∷ []

-- A key of a map with byte strings for keys.
unfoldable pub contains : List (List ℕ) → List ℕ → Bool
contains [] k = false
contains (x ∷ xs) k = bytes_eq x k || contains xs k

abbrev pub hex_digit : ℕ → Bool
hex_digit c = leb b'0' c && leb c b'9' || (leb b'a' c && leb c b'f' || leb b'A' c && leb c b'F')

abbrev pub all_hex : List ℕ → Bool
all_hex [] = true
all_hex (c ∷ b) = hex_digit c && all_hex b

-- `isHex`
abbrev pub is_hex : List ℕ → Bool
is_hex [] = false
is_hex (c ∷ b) = all_hex (c ∷ b)

abbrev pub valid_fields : List (List ℕ) → Bool
valid_fields (label ∷ (random ∷ (secret ∷ []))) =
    contains labels label
    && ((is_hex random && leb (length random) 64) && (is_hex secret && leb (length secret) 96))
valid_fields fs = false

-- `Valid`
unfoldable pub valid : List ℕ → Bool
unfolding trim_space fields contains
valid line =
    let text = trim_space line in
    if length text == 0 || ltb max_line_len (length text) then false else valid_fields (fields text)
