-- ===== src/Agent/Rounds.antt =====
-- internal/agent/serve_cmd.go: what RunServe has sent after any number of rounds of its loop.
use ipcap.Base.{ℕ, ◌<◌, ◌≡◌, refl, sym, subst, some, List, [], ◌∷◌, Result, ok, err}
use ipcap.Storage.Io.{Fault, Sys, continue, pure, modify, ◌>>◌}
use ipcap.Storage.Triple.{AllFine, After, Triple-then, Triple-modify}
use ipcap.Proto.Batch.{PktRecord}
use ipcap.Spool.Position.{Moves, next-Moves}
use ipcap.Agent.Streamer.{Serve, ServeError, Options}
use ipcap.Agent.Serve.{Round, handle_next, round, rounds}
use ipcap.Agent.Sent.{Torn}
use ipcap.Agent.Beat.{IsEncoded}
use ipcap.Agent.Notes.{Packets}
use ipcap.Agent.Holding.{Tight}
use ipcap.Agent.Flush.{Streaming}
use ipcap.Agent.Handle.{Answers, Read, handle-Tight, moved}

-- In each round that is reached the reader has an answer and the statistics can be encoded.
abbrev pub Serves : Options → ℕ → (ℕ → PktRecord) → List Round → Sys Serve → Type 0
Serves o limit src [] s = Unit {0}
Serves o limit src (w ∷ ws) s =
    Answers limit src w s.state.reader
    × IsEncoded w.stats
    × ((s' : Sys Serve) → round o w s ≡ (ok tt, s') → Serves o limit src ws s')

module _ (o : Options) (limit : ℕ) (src : ℕ → PktRecord) (preamble : List ℕ) (start : ℕ)
    (room : 0 < o.batch_max_packets) (bytes : 0 < o.batch_max_bytes) where
  abbrev State : Packets → Serve → Type 0
  State = Streaming o limit src preamble start room bytes

  abbrev Stopped : Serve → Type 0
  Stopped = Torn o limit src preamble start

  pub round-Tight :
      (w : Round) (s : Sys Serve)
      → IsEncoded w.stats
      → Answers limit src w s.state.reader
      → State (Tight o limit src) s.state
      → After (λ u. State (Tight o limit src)) Stopped s.faults (round o w s)
  unfolding round modify
  round-Tight w s encoded (result, r, e, a) h =
      let moves : Moves s.state.reader.gpidx (some (result, r)) =
        subst (Moves s.state.reader.gpidx) e (next-Moves w.fuel w.dir s.state.reader) in
      subst (λ x. After (λ u. State (Tight o limit src)) Stopped s.faults (handle_next o w x s))
        (sym e)
        ((Triple-then {Q = λ u. State (Read o limit src preamble start room bytes result)}
            {P = λ s'. s' ≡ s.state}
            (Triple-modify (λ s. record s { reader = r })
              λ s' same.
                subst
                  (λ x.
                    State (Read o limit src preamble start room bytes result)
                      (record x { reader = r }))
                  (sym same)
                  (moved o limit src preamble start room bytes result r s.state a moves h))
            (λ u. handle-Tight o limit src preamble start room bytes w result encoded a)).run
          s refl)

  abbrev pub Streamed : List Fault → Result ServeError (Unit {0}) × Sys Serve → Type 0
  Streamed = After (λ u. State (Tight o limit src)) Stopped

  pub chain :
      (fs gs : List Fault) (r : Result ServeError (Unit {0}) × Sys Serve)
      → (AllFine fs → AllFine gs)
      → Streamed gs r
      → Streamed fs r
  chain fs gs (ok u, s) f h = (h.0, λ a. h.1 (f a))
  chain fs gs (err e, s) f h = (h.0, λ a. h.1 (f a))

  pub then_rounds :
      (ws : List Round) (fs : List Fault) (r : Result ServeError (Unit {0}) × Sys Serve)
      → Streamed fs r
      → ((s : Sys Serve)
          → r ≡ (ok tt, s)
          → State (Tight o limit src) s.state
          → Streamed s.faults (rounds o ws s))
      → Streamed fs (continue r (λ u. rounds o ws))
  then_rounds ws fs (err e, s) h go = h
  then_rounds ws fs (ok tt, s) h go = chain fs s.faults (rounds o ws s) h.1 (go s refl h.0)

  pub rounds-Tight :
      (ws : List Round) (s : Sys Serve)
      → Serves o limit src ws s
      → State (Tight o limit src) s.state
      → Streamed s.faults (rounds o ws s)
  unfolding rounds pure ◌>>◌
  rounds-Tight [] s serves h = (h, λ a. a)
  rounds-Tight (w ∷ ws) s (answers, encoded, later) h =
      then_rounds ws s.faults (round o w s) (round-Tight w s encoded answers h)
        (λ s' e g. rounds-Tight ws s' (later s' e) g)
