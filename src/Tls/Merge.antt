-- ===== src/Tls/Merge.antt =====
-- internal/tls/reconcile.go: mergeTail, which relays the lines that were appended to one hook's key log.
-- The relay file and its set are a key log sink, which adds a line in the same way.
use ipcap.Base.{
  ℕ, zero, suc, ◌+◌, ◌-◌, ◌==◌, List, [], ◌∷◌, ◌++◌, length, take, drop, Bool, true, false, ltb,
  Result, ok, if◌then◌else◌,
}
use ipcap.Storage.Io.{Sys, Io, raise, modify, ◌>>=◌}
use ipcap.Keylog.{max_line_len}
use ipcap.Collector.KeylogSink.{KeylogSink, write_line}

-- `stuck`: the fuel ran out.
pub data MergeError : Type 0 where
  stuck write_failed : MergeError

-- `mergeState` beside the relay.
pub record Merge : Type 0 where
  pub sink : KeylogSink
  pub off : ℕ
  pub skipping : Bool

abbrev pub relayed :
    ℕ → Result MergeError (Unit {0}) × Sys KeylogSink → Result MergeError (Unit {0}) × Sys Merge
relayed off (r, s) = (
  r,
  record { state = record { sink = s.state; off = off; skipping = false }; faults = s.faults },
)

abbrev pub closed : Bool → ℕ → List ℕ → Sys KeylogSink → Result MergeError (Unit {0}) × Sys Merge
closed true off line s = (
  ok tt,
  record { state = record { sink = s.state; off = off; skipping = false }; faults = s.faults },
)
closed false off line s = relayed off (write_line write_failed line s)

-- A newline is met: the line before it, and the bytes to advance.
unfoldable pub close : List ℕ → ℕ → Io MergeError Merge (Unit {0})
close line n s =
    closed s.state.skipping (s.state.off + n) line
      (record { state = s.state.sink; faults = s.faults })

-- The partial line behind a newline: the end of a line that is skipped leaves it.
abbrev pub left : Bool → List ℕ → List ℕ
left true partial = partial
left false partial = []

abbrev pub advanced : ℕ → Merge → Merge
advanced n m = record m { off = m.off + n }

abbrev pub kept : List ℕ → Io MergeError Merge (List ℕ)
kept partial s =
    if ltb max_line_len (length partial)
    then (ok [], record s { state = record s.state { skipping = true } })
    else (ok partial, s)

-- The end of a chunk, with the bytes `pre` since its last newline.
unfoldable pub end_chunk : List ℕ → List ℕ → Io MergeError Merge (List ℕ)
end_chunk partial [] s = (ok partial, s)
end_chunk partial (c ∷ pre) s =
    let next = record s { state = advanced (length (c ∷ pre)) s.state } in
    elim s.state.skipping [ true ↦ (ok partial, next) | false ↦ kept (partial ++ (c ∷ pre)) next ]

-- The loop over a chunk, with the search for the next newline: `pre` is what it has passed.
unfoldable pub scan : List ℕ → List ℕ → List ℕ → Io MergeError Merge (List ℕ)
unfolding close end_chunk
scan partial pre [] s = end_chunk partial pre s
scan partial pre (c ∷ chunk) s = elim (c == 10) [
  | true ↦
      (close (partial ++ pre) (length pre + 1) >>= λ u.
      scan (left s.state.skipping partial) [] chunk)
        s
  | false ↦ scan partial (pre ++ (c ∷ [])) chunk s
]

abbrev pub rewind : List ℕ → Merge → Merge
rewind partial m = record m { off = m.off - length partial }

module _ (size : ℕ) (file : List ℕ) where
  -- The loop over chunks of at most `size` bytes. A shorter one comes with the end of the file.
  unfoldable pub chunks : ℕ → List ℕ → Io MergeError Merge (Unit {0})
  unfolding scan
  chunks zero partial s = raise stuck s
  chunks (suc fuel) partial s =
      let chunk = take size (drop s.state.off file) in
      (scan partial [] chunk >>= λ p.
      if ltb (length chunk) size then modify (rewind p) else chunks fuel p)
        s

abbrev read_len : ℕ
read_len = 65536

-- `mergeTail`
unfoldable pub merge_tail : List ℕ → Io MergeError Merge (Unit {0})
unfolding chunks
merge_tail file = chunks read_len file (suc (length file)) []
