-- ===== src/Agent/Tailer.antt =====
-- internal/agent/keylog.go: the lines that were appended to the key log files.
use Prim.Native.String.{String}
use text.Mathlib.Text.{◌==◌ as str_eq}
use ipcap.Base.{
  ℕ, zero, suc, ◌+◌, Option, none, some, List, [], ◌∷◌, ◌++◌, length, take, drop, Bool, ◌==◌, ltb,
  if◌then◌else◌,
}
use ipcap.Storage.Io.{pure, raise, modify, ◌>>◌}
use ipcap.Keylog.{trim_space}
use ipcap.Agent.Streamer.{KeylogSource, Serve, stuck, M, Options, send_keylog}

-- `bytes.IndexByte(b, '\n')` with the two slices around it: the line, and what follows its end.
unfoldable pub cut_line : List ℕ → Option (List ℕ × List ℕ)
cut_line [] = none
cut_line (c ∷ b) =
    if c == 10
    then some ([], b)
    else elim (cut_line b) [ none ↦ none | some (line, rest) ↦ some (c ∷ line, rest) ]

abbrev pub set_source : String → (KeylogSource → KeylogSource) → Serve → Serve
set_source p f s = record s { files = λ q. if str_eq q p then f (s.files q) else s.files q }

abbrev pub is_blank : List ℕ → Bool
is_blank line = length (trim_space line) == 0

-- The inner loop of `emit`: the lines of `partial` are sent one by one.
unfoldable pub send_lines : Options → String → ℕ → List ℕ → M (Unit {0})
unfolding cut_line
send_lines o p zero partial = raise stuck
send_lines o p (suc fuel) partial = elim (cut_line partial) [
  | none ↦ pure tt
  | some (line, rest) ↦
      modify (set_source p (λ src. record src { partial = rest }))
      >> (if is_blank line then pure tt else send_keylog o line)
      >> send_lines o p fuel rest
]

abbrev pub chunk_len : ℕ
chunk_len = 65536

abbrev pub fed : List ℕ → KeylogSource → KeylogSource
fed chunk src = record src { offset = src.offset + length chunk; partial = src.partial ++ chunk }

-- The outer loop of `emit` on a file that holds `file`: a read that is short reports an error too.
unfoldable pub emit : Options → String → List ℕ → ℕ → M (Unit {0})
unfolding send_lines
emit o p file zero s = raise stuck s
emit o p file (suc fuel) s =
    let chunk = take chunk_len (drop (s.state.files p).offset file) in
    let partial = (s.state.files p).partial ++ chunk in
    let read = modify (set_source p (fed chunk)) >> send_lines o p (suc (length partial)) partial in
    let again = read >> emit o p file fuel in
    if length chunk == 0
    then pure tt s
    else if ltb (length chunk) chunk_len
    then read s
    else again s

-- `emitNew` over the files that `sources` finds; `none` is a file that cannot be opened or read.
unfoldable pub emit_new : Options → List (String × Option (List ℕ)) → M (Unit {0})
unfolding emit
emit_new o [] = pure tt
emit_new o ((p, none) ∷ sources) = emit_new o sources
emit_new o ((p, some file) ∷ sources) = emit o p file (suc (length file)) >> emit_new o sources
