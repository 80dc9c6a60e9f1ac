-- ===== src/Agent/Sent.antt =====
-- internal/agent/serve_cmd.go: each frame that a streamer writes adds an item to what it has sent.
use Prim.Native.String.{String}
use ipcap.Base.{
  ℕ, ◌+◌, ◌≡◌, sym, ap, ◌∙◌, subst, List, [], ◌∷◌, ◌++◌, append_assoc, add64, length, take,
  take-append_add, take-length,
}
use ipcap.Storage.Triple.{
  Triple, Triple-bind, Triple-then, Triple-syscall, Triple-modify, Triple-pure, Triple-gets,
}
use ipcap.Proto.Frame.{append_frame}
use ipcap.Proto.Batch.{PktRecord}
use ipcap.Spool.Reader.{Reader}
use ipcap.Agent.Streamer.{
  KeylogSource, Serve, io, Options, set_seq, next_seq, write_frame, send_frame,
}
use ipcap.Agent.Log.{
  Item, item_type, item_frame, plain_frame, bump, bumps, wire, bumps-append, wire-append, Leads,
  Follows, Follows-append,
}

-- A predicate on the fields of the state that writing a frame leaves alone.
abbrev pub Rest : Type 1
Rest = List PktRecord → ℕ → ℕ → Reader → (String → KeylogSource) → Type 0

abbrev pub RestOf : Rest → Serve → Type 0
RestOf R s = R s.batch s.batch_bytes s.base_gpidx s.reader s.files

abbrev pub from_zero : ℕ → ℕ
from_zero t = 0

module _ (o : Options) (limit : ℕ) (src : ℕ → PktRecord) (preamble : List ℕ) (start : ℕ) where
  -- The stream is the preamble and the frames of the log, and the log leads to `p`.
  pub record Written (log : List Item) (p : ℕ) (s : Serve) : Type 0 where
    pub out : s.out ≡ preamble ++ wire o from_zero log
    pub seq : s.seq ≡ bumps from_zero log
    pub follows : Follows o limit src start log p

  abbrev pub Sent : (ℕ → Rest) → Serve → Type 0
  Sent R s = (log : List Item) × (p : ℕ) × Written log p s × RestOf (R p) s

  -- What has been written is the front of the stream of some log.
  abbrev pub Torn : Serve → Type 0
  Torn s =
      (log : List Item) × (p : ℕ) × (n : ℕ) × Follows o limit src start log p
      × (s.out ≡ take n (preamble ++ wire o from_zero log))

  whole : (log : List Item) (p : ℕ) (s : Serve) → Written log p s → Torn s
  whole log p s w =
      let all = preamble ++ wire o from_zero log in
      (log, p, length all, w.follows, w.out ∙ sym (take-length all))

  pub Sent-Torn : (R : ℕ → Rest) (s : Serve) → Sent R s → Torn s
  Sent-Torn R s (log, p, w, r) = whole log p s w

  -- The stream with one more frame, of which `k` bytes were written.
  torn_frame :
      (log : List Item) (p q : ℕ) (it : Item) (out : List ℕ) (k : ℕ)
      → out ≡ preamble ++ wire o from_zero log
      → Follows o limit src start log p
      → Leads o limit src p it q
      → (log' : List Item) × (p' : ℕ) × (n : ℕ) × Follows o limit src start log' p'
        × (out ++ take k (append_frame (item_frame o it (bumps from_zero log (item_type it))) [])
            ≡ take n (preamble ++ wire o from_zero log'))
  torn_frame log p q it out k e f l =
      let bytes = append_frame (item_frame o it (bumps from_zero log (item_type it))) [] in
      let front = preamble ++ wire o from_zero log in
      (
        log ++ (it ∷ []),
        q,
        length front + k,
        Follows-append o limit src start log p it q f l,
        ap (λ t. t ++ take k bytes) e
            ∙ sym (take-append_add k front bytes)
            ∙ ap (take (length front + k)) (
                append_assoc preamble (wire o from_zero log) bytes
                ∙ ap (λ t. preamble ++ t) (sym (wire-append o from_zero log it))),
      )

  -- A frame that carries the item `it`, which leads from `p` to `q`, is written with the number that
  -- is next for its type.
  module _ (it : Item) (t flags base : ℕ) (payload : List ℕ) (same_type : item_type it ≡ t)
      (same : (seq : ℕ) → plain_frame o t flags base payload seq ≡ item_frame o it seq)
      (log : List Item) (p q : ℕ) (leads : Leads o limit src p it q) (R : Rest) where
    abbrev Before : Serve → Type 0
    Before s = Written log p s × RestOf R s

    abbrev Numbered : ℕ → Serve → Type 0
    Numbered v s =
        (v ≡ bumps from_zero log (item_type it))
        × (s.out ≡ preamble ++ wire o from_zero log)
        × (s.seq ≡ bump (bumps from_zero log) it)
        × Follows o limit src start log p
        × RestOf R s

    next_seq-Numbered : Triple Before (next_seq t) Numbered Torn
    unfolding next_seq
    next_seq-Numbered =
        Triple-bind {Q = λ v s. Before s × (v ≡ s.seq t)} (Triple-gets (λ s. s.seq t)) λ v.
          Triple-then {Q = λ u s. Numbered v s}
            (Triple-modify (λ s. record s { seq = set_seq s.seq t (add64 v 1) })
              λ s (b, e).
                let at : bumps from_zero log (item_type it) ≡ s.seq t =
                  ap (bumps from_zero log) same_type ∙ ap (λ (f : ℕ → ℕ). f t) (sym b.0.seq) in
                (
                  e ∙ sym at,
                  b.0.out,
                  (λ i. set_seq (b.0.seq i) (sym same_type i) (add64 ((e ∙ sym at) i) 1)),
                  b.0.follows,
                  b.1,
                ))
            (λ u. Triple-pure v)

    write_frame-Written :
        (v : ℕ)
        → Triple
            (Numbered v)
            (write_frame (plain_frame o t flags base payload v))
            (λ u s. Written (log ++ (it ∷ [])) q s × RestOf R s)
            Torn
    unfolding write_frame
    write_frame-Written v =
        let framed = λ (w : ℕ) (e : w ≡ bumps from_zero log (item_type it)).
          ap (λ f. append_frame f []) (same w ∙ ap (item_frame o it) e) in
        Triple-syscall io _ _
          (λ s (e, eo, es, f, r). (
            record {
              out =
                  (λ i. eo i ++ framed v e i)
                  ∙ append_assoc preamble (wire o from_zero log) _
                  ∙ ap (λ x. preamble ++ x) (sym (wire-append o from_zero log it));
              seq = es ∙ sym (bumps-append from_zero log it);
              follows = Follows-append o limit src start log p it q f leads;
            },
            r,
          ))
          (λ s k (e, eo, es, f, r).
            subst
              (λ bytes.
                (log' : List Item) × (p' : ℕ) × (n : ℕ) × Follows o limit src start log' p'
                × (s.out ++ take k bytes ≡ take n (preamble ++ wire o from_zero log')))
              (sym (framed v e)) (torn_frame log p q it s.out k eo f leads))

    pub send_frame-Written :
        Triple Before
          (send_frame o.src_id t flags base payload)
          (λ u s. Written (log ++ (it ∷ [])) q s × RestOf R s)
          Torn
    unfolding send_frame
    send_frame-Written = Triple-bind next_seq-Numbered write_frame-Written
