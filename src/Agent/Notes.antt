-- ===== src/Agent/Notes.antt =====
-- internal/agent/serve_cmd.go and keylog.go: heartbeats, statistics and key log lines stand between
-- the packets and change nothing of their order.
use Prim.Native.String.{String}
use text.Mathlib.TextPositions.{eq_refl}
use ipcap.Base.{
  ℕ, zero, suc, ◌+◌, ◌-◌, ◌<◌, ◌≡◌, refl, sym, ap, ◌∙◌, Option, none, some, List, [], ◌∷◌, ◌++◌,
  min, length, take, drop, ltb, ◌==◌, if◌then◌else◌, inl, inr, Bool-cases, Option-cases, ltb→le,
  length-take, length-drop, arith,
}
use ipcap.Storage.Io.{pure, modify, ◌>>◌}
use ipcap.Storage.Triple.{After-weaken, Triple, Triple-then, Triple-modify, Triple-pure, Triple-if}
use ipcap.Proto.Types.{frame_heartbeat, frame_tls_keylog, frame_stats}
use ipcap.Proto.Batch.{PktRecord}
use ipcap.Keylog.{valid}
use ipcap.Spool.Reader.{Reader}
use ipcap.Agent.Streamer.{
  KeylogSource, Serve, Options, send_frame, send_heartbeat, send_keylog, send_stats,
}
use ipcap.Agent.Tailer.{cut_line, set_source, send_lines, chunk_len, fed, emit, is_blank}
use ipcap.Agent.Log.{IsNote, note}
use ipcap.Agent.Sent.{Rest, Sent, Torn, send_frame-Written}

module _ (o : Options) (limit : ℕ) (src : ℕ → PktRecord) (preamble : List ℕ) (start : ℕ) where
  abbrev Kept : (ℕ → Rest) → Serve → Type 0
  Kept = Sent o limit src preamble start

  abbrev Cut : Serve → Type 0
  Cut = Torn o limit src preamble start

  send_note :
      (R : ℕ → Rest) (t : ℕ) (payload : List ℕ)
      → IsNote t
      → Triple (Kept R) (send_frame o.src_id t 0 0 payload) (λ u s. Kept R s) Cut
  send_note R t payload kind = record {
    run = λ s (log, p, w, r).
        After-weaken {I' = Cut} s.faults (send_frame o.src_id t 0 0 payload s)
          (λ u s g. (log ++ (note t payload ∷ []), p, g.0, g.1)) (λ s g. g)
          ((send_frame-Written o limit src preamble start (note t payload) t 0 0 payload refl
              (λ seq. refl) log p p (kind, refl) (R p)).run
            s (w, r));
  }

  pub send_heartbeat-Kept :
      (R : ℕ → Rest) (wall head : ℕ)
      → Triple (Kept R) (send_heartbeat o wall head) (λ u s. Kept R s) Cut
  unfolding send_heartbeat
  send_heartbeat-Kept R wall head = send_note R frame_heartbeat _ (inl refl)

  send_keylog-Kept :
      (R : ℕ → Rest) (line : List ℕ) → Triple (Kept R) (send_keylog o line) (λ u s. Kept R s) Cut
  unfolding send_keylog
  send_keylog-Kept R line =
      Triple-if (valid line) _ _ (λ e. send_note R frame_tls_keylog line (inr (inr refl)))
        (λ e. Triple-pure tt)

  pub send_stats-Kept :
      (R : ℕ → Rest) (payload : List ℕ)
      → Triple (Kept R) (send_stats o (some payload)) (λ u s. Kept R s) Cut
  unfolding send_stats
  send_stats-Kept R payload = send_note R frame_stats payload (inr (inl refl))

-- A line that is cut off leaves less.
cut_line-lt : (b line rest : List ℕ) → cut_line b ≡ some (line, rest) → length rest < length b
unfolding cut_line
cut_line-lt [] line rest h = cc
cut_line-lt (c ∷ b) line rest h = elim (Bool-cases (c == 10)) [
  | inl end ↦
      let e : ◌≡◌ {A = Option (List ℕ × List ℕ)} (some ([], b)) (some (line, rest)) =
        rw (end, if◌then◌else◌) at h in
      let same : b ≡ rest = cc in rw (sym same) (omega arith)
  | inr more ↦ elim (Option-cases (cut_line b)) [
    | inl whole ↦
        let e : ◌≡◌ {A = Option (List ℕ × List ℕ)} none (some (line, rest)) =
          rw (more, if◌then◌else◌, whole, cut_line) at h in
        cc
    | inr ((l, r), cut) ↦
        let e : ◌≡◌ {A = Option (List ℕ × List ℕ)} (some (c ∷ l, r)) (some (line, rest)) =
          rw (more, if◌then◌else◌, cut, cut_line) at h in
        let same : r ≡ rest = cc in
        let shorter : length r < length b = cut_line-lt b l r cut in rw (sym same) (omega arith)
  ]
]

-- What is left alone beside the packets: `F` is about the tailer's files.
abbrev pub Packets : Type 1
Packets = ℕ → List PktRecord → ℕ → ℕ → Reader → Type 0

abbrev pub both : Packets → ((String → KeylogSource) → Type 0) → ℕ → Rest
both S F p b n base r files = S p b n base r × F files

module _ (o : Options) (limit : ℕ) (src : ℕ → PktRecord) (preamble : List ℕ) (start : ℕ)
    (S : Packets) (p : String) where
  abbrev AtOffset : ℕ → Serve → Type 0
  AtOffset k = Sent o limit src preamble start (both S (λ files. (files p).offset ≡ k))

  abbrev Cut' : Serve → Type 0
  Cut' = Torn o limit src preamble start

  -- Every line of what is there is sent, whatever the lines are.
  send_lines-Kept :
      (k fuel : ℕ) (partial : List ℕ)
      → length partial < fuel
      → Triple (AtOffset k) (send_lines o p fuel partial) (λ u s. AtOffset k s) Cut'
  unfolding send_lines
  send_lines-Kept k zero partial h = absurd (omega arith)
  send_lines-Kept k (suc fuel) partial h = elim (Option-cases (cut_line partial)) [
    | inl whole ↦ rw (whole, send_lines) (Triple-pure tt)
    | inr ((line, rest), cut) ↦
        let shorter = cut_line-lt partial line rest cut in
        rw (cut, send_lines)
          (Triple-then {Q = λ u s. AtOffset k s}
            (Triple-then {Q = λ u s. AtOffset k s}
              (Triple-modify (set_source p (λ f. record f { partial = rest }))
                λ s (log, q, w, (r, at)). (
                  log,
                  q,
                  record { out = w.out; seq = w.seq; follows = w.follows },
                  (r, rw (eq_refl p) at),
                ))
              (λ u.
                Triple-if (is_blank line) _ _ (λ e. Triple-pure tt)
                  (λ e.
                    send_keylog-Kept o limit src preamble start
                      (both S (λ files. (files p).offset ≡ k)) line)))
            (λ u. send_lines-Kept k fuel rest (omega arith)))
  ]

  abbrev AtAny : Serve → Type 0
  AtAny = Sent o limit src preamble start (both S (λ files. Unit {0}))

  read_chunk-Kept :
      (k : ℕ) (chunk partial : List ℕ)
      → Triple
          (AtOffset k)
          (modify (set_source p (fed chunk)) >> send_lines o p (suc (length partial)) partial)
          (λ u s. AtOffset (k + length chunk) s)
          Cut'
  read_chunk-Kept k chunk partial =
      Triple-then {Q = λ u s. AtOffset (k + length chunk) s}
        (Triple-modify (set_source p (fed chunk)) λ s (log, q, w, (r, at)). (
          log,
          q,
          record { out = w.out; seq = w.seq; follows = w.follows },
          (r, rw (eq_refl p) (ap (λ n. n + length chunk) at)),
        ))
        (λ u. send_lines-Kept (k + length chunk) (suc (length partial)) partial (omega arith))

  free : (k : ℕ) (s : Serve) → AtOffset k s → AtAny s
  free k s (log, q, w, (r, at)) = (log, q, w, (r, tt))

  -- The file is read to its end: the fuel is enough.
  pub emit-Kept :
      (file : List ℕ) (fuel k : ℕ)
      → length file - k < fuel
      → Triple (AtOffset k) (emit o p file fuel) (λ u s. AtAny s) Cut'
  unfolding emit pure
  emit-Kept file zero k h = absurd (omega arith)
  emit-Kept file (suc fuel) k h = record {
    run = λ s (log, q, w, (r, at)).
        let chunk = take chunk_len (drop (s.state.files p).offset file) in
        let partial = (s.state.files p).partial ++ chunk in
        let size : length chunk ≡ min chunk_len (length file - k) =
          length-take chunk_len (drop (s.state.files p).offset file)
          ∙ ap (min chunk_len)
              (length-drop (s.state.files p).offset file ∙ ap (λ n. length file - n) at) in
        let here : AtOffset k s.state = (log, q, w, (r, at)) in
        elim (Bool-cases (length chunk == 0)) [
          | inl end ↦ rw (end, if◌then◌else◌) (free k s.state here, λ a. a)
          | inr more ↦ elim (Bool-cases (ltb (length chunk) chunk_len)) [
            | inl last ↦
                rw (more, last, if◌then◌else◌)
                  (After-weaken {I' = Cut'} s.faults _ (λ u s'. free (k + length chunk) s')
                    (λ s' g. g) ((read_chunk-Kept k chunk partial).run s here))
            | inr full ↦
                rw (more, full, if◌then◌else◌)
                  ((Triple-then {Q = λ u s'. AtOffset (k + length chunk) s'}
                      (read_chunk-Kept k chunk partial)
                      (λ u.
                        emit-Kept file fuel (k + length chunk)
                          (let wide = ltb→le (length chunk) chunk_len full in omega arith))).run
                    s here)
          ]
        ];
  }
