-- ===== src/Agent/Beat.antt =====
-- internal/agent/serve_cmd.go: a beat, with what it sends, between the packets.
use Prim.Native.String.{String}
use ipcap.Base.{ℕ, suc, ◌≡◌, refl, Option, none, some, List, [], ◌∷◌, length, arith}
use ipcap.Storage.Triple.{
  Triple, Triple-weaken, Triple-bind, Triple-then, Triple-modify, Triple-pure, Triple-gets,
  Triple-quiet,
}
use ipcap.Proto.Batch.{PktRecord}
use ipcap.Agent.Streamer.{Serve, io, Options}
use ipcap.Agent.Tailer.{emit, emit_new}
use ipcap.Agent.Serve.{Round, beat, beat_stats}
use ipcap.Agent.Sent.{Sent, Torn, Sent-Torn}
use ipcap.Agent.Notes.{Packets, both, emit-Kept, send_stats-Kept, send_heartbeat-Kept}

-- The statistics could be encoded, or there are none.
abbrev pub IsEncoded : Option (Option (List ℕ)) → Type 0
IsEncoded (some none) = ⊥
IsEncoded (some (some payload)) = Unit {0}
IsEncoded none = Unit {0}

module _ (o : Options) (limit : ℕ) (src : ℕ → PktRecord) (preamble : List ℕ) (start : ℕ)
    (S : Packets) where
  -- The packets are as `S` says, and the tailer's files are anything.
  abbrev pub Tailing : Serve → Type 0
  Tailing = Sent o limit src preamble start (both S (λ files. Unit {0}))

  abbrev Cut'' : Serve → Type 0
  Cut'' = Torn o limit src preamble start

  emit_file-Tailing :
      (p : String) (file : List ℕ)
      → Triple Tailing (emit o p file (suc (length file))) (λ u s. Tailing s) Cut''
  emit_file-Tailing p file = record {
    run = λ s (log, q, w, (r, t)).
        (emit-Kept o limit src preamble start S p file (suc (length file)) (s.state.files p).offset
            (omega arith)).run
          s (log, q, w, (r, refl));
  }

  emit_new-Tailing :
      (sources : List (String × Option (List ℕ)))
      → Triple Tailing (emit_new o sources) (λ u s. Tailing s) Cut''
  unfolding emit_new
  emit_new-Tailing [] = Triple-pure tt
  emit_new-Tailing ((p, none) ∷ sources) = emit_new-Tailing sources
  emit_new-Tailing ((p, some file) ∷ sources) =
      Triple-then {Q = λ u s. Tailing s} (emit_file-Tailing p file) (λ u. emit_new-Tailing sources)

  beat_stats-Tailing :
      (stats : Option (Option (List ℕ)))
      → IsEncoded stats
      → Triple Tailing (beat_stats o stats) (λ u s. Tailing s) Cut''
  unfolding beat_stats
  beat_stats-Tailing none h = Triple-pure tt
  beat_stats-Tailing (some none) h = absurd h
  beat_stats-Tailing (some (some payload)) h =
      send_stats-Kept o limit src preamble start (both S (λ files. Unit {0})) payload

  pub beat-Tailing :
      (w : Round) → IsEncoded w.stats → Triple Tailing (beat o w) (λ u s. Tailing s) Cut''
  unfolding beat
  beat-Tailing w h =
      let R = both S (λ files. Unit {0}) in
      Triple-then {Q = λ u s. Tailing s}
        (Triple-then {Q = λ u s. Tailing s}
          (Triple-then {Q = λ u s. Tailing s}
            (Triple-then {Q = λ u s. Tailing s} (emit_new-Tailing w.sources)
              (λ u. Triple-quiet io (λ s k. Sent-Torn o limit src preamble start R s k)))
            (λ u.
              Triple-modify (λ s. record s { last_beat = w.now })
                λ s (log, q, g, r).
                  (log, q, record { out = g.out; seq = g.seq; follows = g.follows }, r)))
          (λ u. beat_stats-Tailing w.stats h))
        (λ u.
          Triple-bind {Q = λ head s. Tailing s}
            (Triple-weaken {Q = λ head s. Tailing s × (head ≡ s.reader.head)}
              (Triple-gets (λ s. s.reader.head)) (λ s k. k) (λ head s k. k.0) (λ s k. k))
            (λ head. send_heartbeat-Kept o limit src preamble start R w.wall head))
