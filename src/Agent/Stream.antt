-- ===== src/Agent/Stream.antt =====
-- internal/agent/serve_cmd.go: the whole stream of a RunServe, from the preamble on.
use Prim.Native.String.{String}
use ipcap.Base.{
  ℕ, ◌<◌, ◌≡◌, refl, sym, ap, ◌∙◌, List, [], ◌∷◌, ◌++◌, append-nil, take, Bool, true, false, ok,
  arith,
}
use ipcap.Storage.Io.{Sys, ◌>>◌}
use ipcap.Storage.Triple.{
  After, After-weaken, Triple, Triple-weaken, Triple-then, Triple-modify, Triple-pure,
  Triple-syscall,
}
use ipcap.Pcap.{GlobalHeader}
use ipcap.Proto.Types.{frame_gap, flag_gap}
use ipcap.Proto.Batch.{PktRecord}
use ipcap.Proto.Preamble.{Cbor, write_preamble}
use ipcap.Spool.{Dir}
use ipcap.Spool.Reader.{Reader, open_reader, source_header}
use ipcap.Agent.Streamer.{Serve, io, Options, send_gap}
use ipcap.Agent.Serve.{Round, begin, run_serve, when, with_defaults, write_header, serve_header}
use ipcap.Agent.Log.{gap}
use ipcap.Agent.Sent.{Torn, send_frame-Written}
use ipcap.Agent.Beat.{Tailing}
use ipcap.Agent.Holding.{Tight, Flushed}
use ipcap.Agent.Flush.{tighten}
use ipcap.Agent.Rounds.{Serves, then_rounds, rounds-Tight}

-- A RunServe that has sent nothing.
abbrev pub fresh : Reader → Serve
fresh r = record {
  out = [];
  seq = λ t. 0;
  batch = [];
  batch_bytes = 0;
  base_gpidx = 0;
  reader = r;
  last_beat = 0;
  files = λ p. record { offset = 0; partial = [] };
}

-- Where the stream begins: the packets at `resume` may be gone.
abbrev pub first_number : ℕ → ℕ → Bool → ℕ
first_number resume from true = resume
first_number resume from false = from

module _ (o : Options) (limit : ℕ) (src : ℕ → PktRecord) (preamble : List ℕ) (resume : ℕ) where
  abbrev Ready : Reader → Serve → Type 0
  Ready r s =
      (s.out ≡ []) × (s.seq ≡ (λ t. 0)) × (s.batch ≡ []) × (s.batch_bytes ≡ 0) × (s.reader ≡ r)

  abbrev Opened : Reader → ℕ → Serve → Type 0
  Opened r start s =
      (s.out ≡ preamble ++ [])
      × (s.seq ≡ (λ t. 0))
      × (s.batch ≡ [])
      × (s.batch_bytes ≡ 0)
      × (s.reader ≡ r)

  write_header-Opened :
      (r : Reader) (start : ℕ)
      → Triple
          (Ready r)
          (write_header (ok preamble))
          (λ u. Opened r start)
          (Torn o limit src preamble start)
  unfolding write_header
  write_header-Opened r start =
      Triple-syscall io _ _
        (λ s (out, seq, b, n, at).
          (ap (λ x. x ++ preamble) out ∙ sym (append-nil preamble), seq, b, n, at))
        (λ s k (out, seq, b, n, at). (
          [],
          start,
          k,
          refl,
          ap (λ x. x ++ take k preamble) out ∙ ap (take k) (sym (append-nil preamble)),
        ))

  announce :
      (r : Reader) (from : ℕ) (behind : Bool)
      → r.gpidx ≡ from
      → Triple
          (Opened r (first_number resume from behind))
          (when behind (send_gap o resume from))
          (λ u.
            Tailing o limit src preamble (first_number resume from behind) (Flushed o limit src))
          (Torn o limit src preamble (first_number resume from behind))
  unfolding send_gap
  announce r from true e = record {
    run = λ s (out, seq, b, n, at).
        After-weaken {I' = Torn o limit src preamble resume} s.faults _
          (λ u s' h. (gap resume from ∷ [], from, h.0, (h.1, tt))) (λ s' h. h)
          ((send_frame-Written o limit src preamble resume (gap resume from) frame_gap flag_gap 0 _
              refl (λ seq. refl) [] resume from (refl, refl)
              (λ b n base r files. (b ≡ []) × (n ≡ 0) × (r.gpidx ≡ from))).run
            s
            (
              record { out = out; seq = seq; follows = refl },
              (b, n, ap (λ (x : Reader). x.gpidx) at ∙ e),
            ));
  }
  announce r from false e =
      Triple-weaken {Q = λ u. Tailing o limit src preamble from (Flushed o limit src)}
        (Triple-pure tt)
        (λ s (out, seq, b, n, at). (
          [],
          from,
          record { out = out; seq = seq; follows = refl },
          ((b, n, ap (λ (x : Reader). x.gpidx) at ∙ e), tt),
        ))
        (λ u s h. h) (λ s h. h)

default_limits :
    (o : Options)
    → (0 < (with_defaults o).batch_max_packets) × (0 < (with_defaults o).batch_max_bytes)
unfolding with_defaults
default_limits o = (ground arith, ground arith)

module _ (c : Cbor) (o : Options) (name : String) (resume : ℕ) (d : Dir) (gh : GlobalHeader)
    (epoch : String) (limit : ℕ) (src : ℕ → PktRecord) (preamble : List ℕ) where
  abbrev limits : Options
  limits = with_defaults o

  abbrev opened : Reader × ℕ × Bool
  opened = open_reader d gh.snaplen resume

  abbrev pub start : ℕ
  start = first_number resume opened.1 opened.2

  -- Every packet up to the reader's position is in the stream or in the batch that is being filled.
  abbrev pub Served : Serve → Type 0
  Served = Tailing limits limit src preamble start (Tight limits limit src)

  -- The front of a stream of whole frames, which lead on from the start.
  abbrev pub Broken : Serve → Type 0
  Broken = Torn limits limit src preamble start

  reader-position : opened.0.gpidx ≡ opened.1
  unfolding open_reader
  reader-position = refl

  begin-Served :
      (r : Reader) (s : Sys Serve)
      → s.state ≡ fresh r
      → write_preamble c (serve_header limits name gh epoch opened.1) ≡ ok preamble
      → After (λ u. Served) Broken s.faults (begin c limits name resume d gh epoch s)
  unfolding begin
  begin-Served r s new written = rw written (
      (Triple-then {Q = λ u. Opened limits limit src preamble resume opened.0 start}
          {P = λ x. x ≡ fresh r}
          (Triple-then {Q = λ u. Ready limits limit src preamble resume opened.0}
            (Triple-modify (λ s. record s { reader = opened.0 })
              λ x same. rw same (refl, refl, refl, refl, refl))
            (λ u. write_header-Opened limits limit src preamble resume opened.0 start))
          (λ u.
            Triple-weaken
              {Q = λ u. Tailing limits limit src preamble start (Flushed limits limit src)}
              (announce limits limit src preamble resume opened.0 opened.1 opened.2 reader-position)
              (λ x h. h)
              (λ u.
                tighten limits limit src preamble start (default_limits o).0 (default_limits o).1)
              (λ x h. h))).run
        s new)

  -- The sum over the rounds: what RunServe has written, whether it still runs or has stopped.
  module _ (seqs : List ℕ) (ws : List Round) (r : Reader) (s : Sys Serve) (new : s.state ≡ fresh r)
      (header : source_header d seqs ≡ ok gh)
      (written : write_preamble c (serve_header limits name gh epoch opened.1) ≡ ok preamble)
      (serves : (s' : Sys Serve)
        → begin c limits name resume d gh epoch s ≡ (ok tt, s')
        → Serves limits limit src ws s') where
    pub run_serve-Served :
        After (λ u. Served) Broken s.faults (run_serve c o name resume d seqs epoch ws s)
    unfolding run_serve ◌>>◌
    run_serve-Served =
        rw (header, run_serve)
          (then_rounds limits limit src preamble start (default_limits o).0 (default_limits o).1 ws
            s.faults (begin c limits name resume d gh epoch s) (begin-Served r s new written)
            (λ s' e h.
              rounds-Tight limits limit src preamble start (default_limits o).0 (default_limits o).1
                ws s' (serves s' e) h))
