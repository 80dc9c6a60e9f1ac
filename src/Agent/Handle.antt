-- ===== src/Agent/Handle.antt =====
-- internal/agent/serve_cmd.go: what the loop does with each answer of the reader.
use ipcap.Base.{
  ℕ, ◌+◌, ◌≤◌, ◌<◌, ◌^◌, ◌≡◌, refl, sym, ◌∙◌, subst, some, List, [], ◌∷◌, ◌++◌, length,
  length-append, Result, ok, err, arith,
}
use ipcap.Storage.Triple.{
  After-weaken, Triple, Triple-weaken, Triple-bind, Triple-then, Triple-modify, Triple-gets,
}
use ipcap.Pcap.{Record}
use ipcap.Proto.Types.{frame_gap, flag_gap}
use ipcap.Proto.Batch.{PktRecord}
use ipcap.Spool.{Dir}
use ipcap.Spool.Reader.{Reader, ReaderError, no_data, reaped, not_found, failed, next}
use ipcap.Spool.Position.{Moves}
use ipcap.Agent.Streamer.{Serve, Options, pcap_to_proto, send_gap}
use ipcap.Agent.Serve.{
  Round, handle, take_packet, wait_for_data, skip_reaped, added, base_of, beat, beat_due, reopen,
}
use ipcap.Agent.Log.{gap}
use ipcap.Agent.Sent.{Torn, send_frame-Written}
use ipcap.Agent.Beat.{IsEncoded, beat-Tailing}
use ipcap.Agent.Notes.{Packets}
use ipcap.Agent.Holding.{Holding, Tight, Loose, Flushed, Holding-add}
use ipcap.Agent.Flush.{Triple-when, Streaming, tighten, flush_full-Tight, Tight-flush-Flushed}

module _ (limit : ℕ) (src : ℕ → PktRecord) where
  -- A result of the reader that the loop goes on with: a packet of the source, or that there is none
  -- at its position.
  abbrev pub IsAnswer : Result ReaderError (Record × ℕ) → Type 0
  IsAnswer (ok (rec, gp)) =
      (pcap_to_proto rec ≡ src gp) × (length rec.body ≤ limit) × (gp + 1 < 2 ^ 64)
  IsAnswer (err no_data) = Unit {0}
  IsAnswer (err reaped) = Unit {0}
  IsAnswer (err not_found) = ⊥
  IsAnswer (err (failed e)) = ⊥

  -- The round's reader has an answer.
  abbrev pub Answers : Round → Reader → Type 0
  Answers w r =
      (result : Result ReaderError (Record × ℕ)) × (r' : Reader) × (next w.fuel w.dir r
        ≡ some (result, r'))
      × IsAnswer result

module _ (o : Options) (limit : ℕ) (src : ℕ → PktRecord) (preamble : List ℕ) (start : ℕ)
    (room : 0 < o.batch_max_packets) (bytes : 0 < o.batch_max_bytes) where
  abbrev State : Packets → Serve → Type 0
  State = Streaming o limit src preamble start room bytes

  abbrev Stopped : Serve → Type 0
  Stopped = Torn o limit src preamble start

  -- A packet has been read, and is not in the batch yet.
  abbrev Ahead : ℕ → Packets
  Ahead gp p b n base r =
      Holding o limit src p b n base gp
      × (r.gpidx ≡ gp + 1)
      × (length b < o.batch_max_packets)
      × (n < o.batch_max_bytes)

  pub take_packet-Tight :
      (w : Round) (rec : Record) (gp : ℕ)
      → IsEncoded w.stats
      → pcap_to_proto rec ≡ src gp
      → length rec.body ≤ limit
      → Triple (State (Ahead gp)) (take_packet o w rec gp) (λ u. State (Tight o limit src)) Stopped
  unfolding take_packet
  take_packet-Tight w rec gp encoded same small =
      Triple-then {Q = λ u. State (Tight o limit src)}
        (Triple-then {Q = λ u. State (Loose o limit src)}
          (Triple-modify (added rec gp) λ s (log, p, g, ((h, at, few, light), t)). (
            log,
            p,
            record { out = g.out; seq = g.seq; follows = g.follows },
            (
              (
                subst
                    (λ k.
                      Holding o limit src p (s.batch ++ (pcap_to_proto rec ∷ []))
                        (s.batch_bytes + (16 + length rec.body)) (base_of s.batch s.base_gpidx gp)
                        k)
                    (sym at)
                    (Holding-add o limit src p s.batch s.batch_bytes s.base_gpidx gp rec h same),
                omega (arith, length-append s.batch (pcap_to_proto rec ∷ [])),
                omega arith,
              ),
              tt,
            ),
          ))
          (λ u. flush_full-Tight o limit src preamble start room bytes))
        (λ u.
          Triple-when {P' = State (Tight o limit src)} (beat_due w) (beat o w) (λ s h e. h)
            (beat-Tailing o limit src preamble start (Tight o limit src) w encoded) (λ s h e. h))

  wait_for_data-Tight :
      (w : Round)
      → IsEncoded w.stats
      → Triple
          (State (Tight o limit src))
          (wait_for_data o w)
          (λ u. State (Tight o limit src))
          Stopped
  unfolding wait_for_data
  wait_for_data-Tight w encoded =
      Triple-then {Q = λ u. State (Flushed o limit src)}
        (Tight-flush-Flushed o limit src preamble start room bytes)
        (λ u.
          Triple-weaken {Q = λ u. State (Flushed o limit src)}
            (beat-Tailing o limit src preamble start (Flushed o limit src) w encoded) (λ s h. h)
            (λ u. tighten o limit src preamble start room bytes) (λ s h. h))

  -- A gap from the position to the new one.
  abbrev Reopened : ℕ → ℕ → Packets
  Reopened from to p b n base r = (p ≡ from) × (b ≡ []) × (n ≡ 0) × (r.gpidx ≡ to)

  send_gap-Flushed :
      (from to : ℕ)
      → Triple
          (State (Reopened from to))
          (send_gap o from to)
          (λ u. State (Flushed o limit src))
          Stopped
  unfolding send_gap
  send_gap-Flushed from to = record {
    run = λ s (log, p, g, ((here, e, z, at), t)).
        After-weaken {I' = Stopped} s.faults (send_gap o from to s)
          (λ u s' h. (log ++ (gap from to ∷ []), to, h.0, (h.1, tt))) (λ s' h. h)
          ((send_frame-Written o limit src preamble start (gap from to) frame_gap flag_gap 0 _ refl
              (λ seq. refl) log p to (sym here, refl)
              (λ b n base r files. (b ≡ []) × (n ≡ 0) × (r.gpidx ≡ to))).run
            s (g, (e, z, at)));
  }

  skip_reaped-Tight :
      (d : Dir)
      → Triple
          (State (Tight o limit src))
          (skip_reaped o d)
          (λ u. State (Tight o limit src))
          Stopped
  unfolding skip_reaped
  skip_reaped-Tight d =
      Triple-then {Q = λ u. State (Flushed o limit src)}
        (Tight-flush-Flushed o limit src preamble start room bytes)
        (λ u.
          Triple-bind {Q = λ from s. State (Flushed o limit src) s × (from ≡ s.reader.gpidx)}
            (Triple-gets (λ s. s.reader.gpidx))
            (λ from.
              Triple-then {Q = λ u. State (λ p b n base r. (p ≡ from) × (b ≡ []) × (n ≡ 0))}
                (Triple-modify (reopen d) λ s ((log, p, g, ((e, z, at), t)), same). (
                  log,
                  p,
                  record { out = g.out; seq = g.seq; follows = g.follows },
                  ((sym at ∙ sym same, e, z), tt),
                ))
                (λ u.
                  Triple-bind {Q = λ to. State (Reopened from to)}
                    (Triple-weaken
                      {Q = λ to s.
                        State (λ p b n base r. (p ≡ from) × (b ≡ []) × (n ≡ 0)) s
                        × (to ≡ s.reader.gpidx)}
                      (Triple-gets (λ s. s.reader.gpidx)) (λ s h. h)
                      (λ to s ((log, p, g, ((here, e, z), t)), same).
                        (log, p, g, ((here, e, z, sym same), t)))
                      (λ s h. h))
                    (λ to.
                      Triple-weaken {Q = λ u. State (Flushed o limit src)}
                        (send_gap-Flushed from to) (λ s h. h)
                        (λ u. tighten o limit src preamble start room bytes) (λ s h. h)))))

  -- The reader as `Next` leaves it, beside what it returns.
  abbrev pub Read : Result ReaderError (Record × ℕ) → Packets
  Read (ok (rec, gp)) = Ahead gp
  Read (err e) = Tight o limit src

  pub handle-Tight :
      (w : Round) (result : Result ReaderError (Record × ℕ))
      → IsEncoded w.stats
      → IsAnswer limit src result
      → Triple (State (Read result)) (handle o w result) (λ u. State (Tight o limit src)) Stopped
  unfolding handle
  handle-Tight w (ok (rec, gp)) encoded (same, small, fits) =
      take_packet-Tight w rec gp encoded same small
  handle-Tight w (err no_data) encoded a = wait_for_data-Tight w encoded
  handle-Tight w (err reaped) encoded a = skip_reaped-Tight w.dir
  handle-Tight w (err not_found) encoded a = absurd a
  handle-Tight w (err (failed e)) encoded a = absurd a

  pub moved :
      (result : Result ReaderError (Record × ℕ)) (r : Reader) (s : Serve)
      → IsAnswer limit src result
      → Moves s.reader.gpidx (some (result, r))
      → State (Tight o limit src) s
      → State (Read result) (record s { reader = r })
  moved (ok (rec, gp)) r s (same, small, fits) (here, next) (log, p, g, ((h, few, light), t)) = (
    log,
    p,
    record { out = g.out; seq = g.seq; follows = g.follows },
    (
      (
        subst (λ k. Holding o limit src p s.batch s.batch_bytes s.base_gpidx k) (sym here) h,
        omega (arith, next, here),
        few,
        light,
      ),
      tt,
    ),
  )
  moved (err e) r s a stays (log, p, g, ((h, few, light), t)) = (
    log,
    p,
    record { out = g.out; seq = g.seq; follows = g.follows },
    (
      (
        subst (λ k. Holding o limit src p s.batch s.batch_bytes s.base_gpidx k) (sym stays) h,
        few,
        light,
      ),
      t,
    ),
  )
