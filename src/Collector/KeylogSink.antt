-- ===== src/Collector/KeylogSink.antt =====
-- internal/collector/keylog.go: the key log file, to which each valid line is added once.
pub mod Unique
use ipcap.Base.{
  ℕ, zero, suc, ◌+◌, ◌-◌, List, [], ◌∷◌, ◌++◌, length, take, drop, Bool, true, false, ltb, leb,
  ◌==◌, if◌then◌else◌, Option, none, some, Result, ok, err,
}
use ipcap.Storage.Io.{Io, pure, syscall, modify, ◌>>◌}
use ipcap.Keylog.{valid, trim_space, contains}

-- `seen` is the map's keys.
pub record KeylogSink : Type 0 where
  pub file : List ℕ
  pub seen : List (List ℕ)

-- The line is added to the set before it is written.
unfoldable pub write_line : {E : Type 0} → E → List ℕ → Io E KeylogSink (Unit {0})
unfolding valid trim_space contains
write_line e line s =
    let key = trim_space line in
    if valid line
    then if contains s.state.seen key
      then pure tt s
      else (modify (λ k. record k { seen = key ∷ k.seen })
            >> syscall e (λ k. record k { file = k.file ++ (key ++ (10 ∷ [])) })
                (λ n k. record k { file = k.file ++ take n (key ++ (10 ∷ [])) }))
          s
    else pure tt s

-- `br.ReadSlice('\n')` with a buffer of 4096 bytes: the line with its end; whether the end is there,
-- the buffer is full, or the file ends.
pub data Slice : Type 0 where
  line_end buffer_full file_end : Slice

unfoldable pub read_slice : ℕ → List ℕ → List ℕ × Slice × List ℕ
read_slice zero b = ([], buffer_full, b)
read_slice (suc room) [] = ([], file_end, [])
read_slice (suc room) (c ∷ b) =
    let rest = read_slice room b in
    if c == 10 then (10 ∷ [], line_end, b) else (c ∷ rest.0, rest.1, rest.2)

abbrev buffer_len : ℕ
buffer_len = 4096

-- `discardLine`; the fuel is the file's length.
unfoldable pub discard_line : ℕ → List ℕ → List ℕ
unfolding read_slice
discard_line zero b = b
discard_line (suc fuel) b =
    let s = read_slice buffer_len b in
    let again = discard_line fuel s.2 in
    elim s.1 [ buffer_full ↦ again | line_end ↦ s.2 | file_end ↦ s.2 ]

abbrev primed : List ℕ → List (List ℕ) → List (List ℕ)
primed line seen = if valid line then trim_space line ∷ seen else seen

-- The loop of `OpenKeylogSink` over the lines that are there.
unfoldable pub prime : ℕ → List ℕ → List (List ℕ) → List (List ℕ)
unfolding read_slice discard_line
prime zero b seen = seen
prime (suc fuel) b seen =
    let s = read_slice buffer_len b in
    let next = prime fuel s.2 (primed s.0 seen) in
    let skipped = prime fuel (discard_line (length s.2) s.2) (primed s.0 seen) in
    elim s.1 [ line_end ↦ next | buffer_full ↦ skipped | file_end ↦ primed s.0 seen ]

-- `OpenKeylogSink` on a file that can be opened.
unfoldable pub open_sink : List ℕ → KeylogSink
unfolding prime
open_sink file = record { file = file; seen = prime (suc (length file)) file [] }
