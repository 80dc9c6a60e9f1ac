-- ===== src/Transport/RoundTrip.antt =====
-- internal/transport/noise.go: reads of a stream give the plaintext that it carries.
use ipcap.Base.{
  ℕ, ◌+◌, ◌%◌, ◌^◌, ◌≤◌, ◌<◌, ◌≡◌, refl, sym, ap, ◌∙◌, subst, List, [], ◌∷◌, ◌++◌, append_assoc,
  All, length, take, drop, take-append-drop, length-append, length-take, Result, ok, err,
  Result-cases, inl, inr, arith,
}
use ipcap.Bytes.{put_be, get_be}
use ipcap.Bytes.RoundTrip.{length-put_be, get_be-put_be, read_full-append}
use ipcap.Storage.Io.{Sys}
use ipcap.Storage.Triple.{After, After-weaken}
use ipcap.Transport.Conn.{
  Cipher, Sender, write, Receiver, StreamError, message, read_message, fill, copied, read,
  read_many,
}
use ipcap.Transport.Carries.{Carries, done, more, Paired, Written, Broken, write-Written}

read_message-message :
    (ct raw : List ℕ) → length ct < 2 ^ 16 → read_message (message ct ++ raw) ≡ ok (ct, raw)
unfolding read_message
read_message-message ct raw small =
    let hdr = put_be 2 (length ct % 2 ^ 16) in
    let n : get_be hdr ≡ length ct =
      get_be-put_be 2 (length ct % 2 ^ 16) (omega arith) ∙ omega arith in
    ap read_message (append_assoc hdr ct raw)
    ∙ rw (read_full-append 2 hdr (ct ++ raw) (length-put_be 2 (length ct % 2 ^ 16)), read_message)
        (rw n (read_full-append (length ct) ct raw refl))

module _ {S : Type 0} (cipher : Cipher S) where
  -- The plaintext that the receiver has still to deliver: its buffer, and what the stream carries.
  pub record Holds (c : Receiver S) (p : List ℕ) : Type 0 where
    pub ahead : List ℕ
    pub carried : Carries cipher c.recv c.raw ahead
    pub split : p ≡ c.buf ++ ahead

  -- A read takes from the front of what is held, and something if it can.
  abbrev Takes : ℕ → List ℕ → Result StreamError (List ℕ × Receiver S) → Type 0
  Takes n p (err e) = p ≡ []
  Takes n p (ok (bs, c)) =
      (rest : List ℕ) × (p ≡ bs ++ rest) × Holds c rest × (0 < n → 0 < length bs)

  copied-Takes :
      (n : ℕ) (c : Receiver S) (ahead : List ℕ)
      → Carries cipher c.recv c.raw ahead
      → 0 < length c.buf
      → Takes n (c.buf ++ ahead) (ok (copied cipher n c))
  copied-Takes n c ahead carried some_byte = (
    drop n c.buf ++ ahead,
    ap (λ t. t ++ ahead) (sym (take-append-drop n c.buf))
        ∙ append_assoc (take n c.buf) (drop n c.buf) ahead,
    record { ahead = ahead; carried = carried; split = refl },
    λ h. omega (arith, length-take n c.buf),
  )

  read_empty :
      (n : ℕ) (r : S) (raw p : List ℕ)
      → Carries cipher r raw p
      → Takes n p (read cipher n (record { recv = r; raw = raw; buf = [] }))
  unfolding read fill
  read_empty n r _ _ (done _) = refl
  read_empty n r _ _ (more _ r' ct pt raw p small some_byte opens rest) =
      rw (read_message-message ct raw small, opens, fill, read)
        (copied-Takes n (record { recv = r'; raw = raw; buf = pt }) p rest some_byte)

  read_buffered :
      (n : ℕ) (r : S) (raw buf ahead : List ℕ)
      → Carries cipher r raw ahead
      → Takes n (buf ++ ahead) (read cipher n (record { recv = r; raw = raw; buf = buf }))
  unfolding read fill
  read_buffered n r raw [] ahead carried = read_empty n r raw ahead carried
  read_buffered n r raw (b ∷ buf) ahead carried =
      copied-Takes n (record { recv = r; raw = raw; buf = b ∷ buf }) ahead carried (omega arith)

  read-Takes : (n : ℕ) (c : Receiver S) (p : List ℕ) → Holds c p → Takes n p (read cipher n c)
  read-Takes n c p h =
      subst (λ q. Takes n q (read cipher n c)) (sym h.split)
        (read_buffered n c.recv c.raw c.buf h.ahead h.carried)

  read_many-Holds :
      (ns : List ℕ) (c : Receiver S) (p : List ℕ)
      → Holds c p
      → All (λ n. 0 < n) ns
      → length p ≤ length ns
      → read_many cipher ns c ≡ p
  unfolding read_many
  read_many-Holds [] c [] h positive enough = refl
  read_many-Holds [] c (b ∷ p) h positive enough = absurd (omega arith)
  read_many-Holds (n ∷ ns) c p h positive enough = elim (Result-cases (read cipher n c)) [
    | inr (e, failed) ↦ rw (failed, read_many) (sym (subst (Takes n p) failed (read-Takes n c p h)))
    | inl ((bs, c'), copied_bs) ↦
        let (rest, split, later, some_byte) = subst (Takes n p) copied_bs (read-Takes n c p h) in
        let sizes : length p ≡ length bs + length rest = ap length split ∙ length-append bs rest in
        let taken = some_byte positive.0 in
        rw (copied_bs, read_many)
          (ap (λ t. bs ++ t) (read_many-Holds ns c' rest later positive.1 (omega arith))
            ∙ sym split)
  ]

  -- For two cipher states that belong together: when Write of `p` returns, it returns the number of
  -- bytes, and reads into as many buffers as `p` has bytes or more, none of them empty and of whatever
  -- sizes, give exactly `p`; else a write failed, and the front of such a stream is written.
  module _ (Pair : S → S → Type 0) (paired : Paired cipher Pair) where
    pub read_many-write :
        (p ns : List ℕ) (r : S) (s : Sys (Sender S))
        → Pair s.state.send r
        → s.state.raw ≡ []
        → All (λ n. 0 < n) ns
        → length p ≤ length ns
        → After
            (λ n c.
              (n ≡ length p)
              × (read_many cipher ns (record { recv = r; raw = c.raw; buf = [] }) ≡ p))
            (Broken cipher Pair paired r [] p)
            s.faults
            (write cipher p s)
    read_many-write p ns r s pair new positive enough =
        After-weaken {Q = λ n c. (n ≡ length p) × Written cipher Pair paired r [] p c}
          {I = Broken cipher Pair paired r [] p} s.faults _
          (λ n c (count, (raw, r', carried, at, next)). (
            count,
            read_many-Holds ns (record { recv = r; raw = c.raw; buf = [] }) p
                (record {
                  ahead = p;
                  carried = subst (λ x. Carries cipher r x p) (sym at) carried;
                  split = refl;
                })
                positive enough,
          ))
          (λ c g. g) (write-Written cipher Pair paired p [] r s pair new)
