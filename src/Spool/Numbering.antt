-- ===== src/Spool/Numbering.antt =====
-- `WritePacket` gives each packet the next number, whatever sync and rotation follow.
use ipcap.Base.{
  ℕ, zero, suc, ◌≡◌, refl, sym, ap, ◌∙◌, subst, some, Bool, true, false, ◌⊎◌, inl, inr, add64,
}
use ipcap.Storage.Io.{Sys, pure, gets, modify, quiet, ◌>>=◌, ◌>>◌}
use ipcap.Storage.Triple.{
  Triple, Triple-bind, Triple-then, Triple-syscall, Triple-modify, Triple-quiet, Triple-pure,
  Triple-gets, Triple-weaken, After, After-weaken,
}
use ipcap.Pcap.{Record}
use ipcap.Spool.{Segment}
use ipcap.Spool.Writer.{
  Writer, io, W, with_file, on_open, write, write_start, fdatasync, publish_head, sync, synced,
  seal_to_manifest, open_new_segment, activated, take_seq, rotate, when, sync_due, rotate_due,
  counted, write_packet, torn_line, header_of, durable_segment,
}

torn_head : (n : ℕ) (w : Writer) {k : ℕ} → w.head ≡ k → (torn_line n w).head ≡ k
torn_head zero w e = e
torn_head (suc n) w e = e

module _ (h : ℕ) where
  -- The next number is `n`, and a file is open.
  abbrev Next : ℕ → Writer → Type 0
  Next n w = (w.head ≡ n) × ((q : ℕ) × (w.file ≡ some q))

  -- The number `h` has not been given, or has been given once.
  abbrev Once : Writer → Type 0
  Once w = (w.head ≡ h) ⊎ (w.head ≡ add64 h 1)

  with_file-Next :
      (n : ℕ) (f : ℕ → W (Unit {0}))
      → ((q : ℕ) → Triple (Next n) (f q) (λ (a : Unit {0}) w. Next n w) Once)
      → Triple (Next n) (with_file f) (λ (a : Unit {0}) w. Next n w) Once
  unfolding with_file
  with_file-Next n f t = record {
    run = λ s k.
        subst (λ o. After (λ (a : Unit {0}) w. Next n w) Once s.faults (on_open o f s)) (sym k.1.1)
          ((t k.1.0).run s k);
  }

  abbrev n1 : ℕ
  n1 = add64 h 1

  abbrev Kept : W (Unit {0}) → Type 0
  Kept m = Triple (Next n1) m (λ (a : Unit {0}) w. Next n1 w) Once

  wait : Kept (quiet io)
  wait = Triple-quiet io (λ w k. inr k.0)

  publish-Kept : Kept publish_head
  unfolding publish_head
  publish-Kept =
      Triple-then
        (Triple-then
          (Triple-then (Triple-then (Triple-then wait (λ a. wait)) (λ a. wait))
            (λ a. Triple-syscall io _ _ (λ w k. k) (λ w n k. inr k.0)))
          (λ a. wait))
        (λ a. wait)

  sync-Kept : (now : ℕ) → Kept (sync now)
  unfolding sync fdatasync
  sync-Kept now =
      Triple-then
        (Triple-then
          (with_file-Next n1 fdatasync (λ q. Triple-syscall io _ _ (λ w k. k) (λ w n k. inr k.0)))
          (λ a. Triple-modify (synced now) (λ w k. k)))
        (λ a. publish-Kept)

  -- A value that is read of the writer changes nothing.
  reading :
      {A : Type 0} (f : Writer → A) (k : A → W (Unit {0}))
      → ((x : A) → Kept (k x))
      → Kept (gets f >>= k)
  reading f k t =
      Triple-bind (Triple-gets f) (λ x. Triple-weaken (t x) (λ w p. p.0) (λ a w p. p) (λ w p. p))

  seal-Kept : (seg : Segment) → Kept (seal_to_manifest seg)
  unfolding seal_to_manifest
  seal-Kept seg =
      Triple-then
        (Triple-then (Triple-syscall io _ _ (λ w k. k) (λ w n k. inr (torn_head n w k.0)))
          (λ a. wait))
        (λ a. Triple-modify _ (λ w k. k))

  open-Kept : (now seq start : ℕ) → Kept (open_new_segment now seq start)
  unfolding open_new_segment write_start fdatasync
  open-Kept now seq start =
      Triple-then
        (Triple-then
          (Triple-then
            (Triple-then
              (Triple-then (Triple-syscall io _ _ (λ w k. k) (λ w n k. inr k.0)) (λ a.
                reading (λ w. header_of w.cfg) (write_start seq)
                  (λ bs. Triple-syscall io _ _ (λ w k. k) (λ w n k. inr k.0))))
              (λ a. Triple-syscall io _ _ (λ w k. k) (λ w n k. inr k.0)))
            (λ a. wait))
          (λ a. wait))
        (λ a. Triple-modify (activated now seq start) (λ w k. (k.0, (seq, refl))))

  rotate-Kept : (now : ℕ) → Kept (rotate now)
  unfolding rotate
  rotate-Kept now =
      Triple-then
        (Triple-then
          (Triple-then (sync-Kept now)
            (λ a. reading (durable_segment true) seal_to_manifest seal-Kept))
          (λ a.
            reading (λ w. (w.next_seq, w.head)) _
              (λ x. Triple-then (Triple-modify take_seq (λ w k. k)) (λ b. open-Kept now x.0 x.1))))
        (λ a. publish-Kept)

  when-Kept : (b : Bool) (m : W (Unit {0})) → Kept m → Kept (when b m)
  when-Kept true m t = t
  when-Kept false m t = Triple-pure tt

  -- The number is counted, then come the sync and the rotation.
  rest-Next :
      (now bytes g : ℕ)
      → g ≡ h
      → Triple
          (Next h)
          (modify (counted bytes)
            >> (gets (sync_due now) >>= λ (due : Bool). when due (sync now))
            >> (gets (rotate_due now) >>= λ (due : Bool). when due (rotate now))
            >> pure g)
          (λ x w. (x ≡ h) × Next n1 w)
          Once
  rest-Next now bytes g e =
      Triple-then
        (Triple-then
          (Triple-then (Triple-modify (counted bytes) (λ w k. (ap (λ n. add64 n 1) k.0, k.1)))
            (λ a. reading (sync_due now) _ (λ due. when-Kept due (sync now) (sync-Kept now))))
          (λ a. reading (rotate_due now) _ (λ due. when-Kept due (rotate now) (rotate-Kept now))))
        (λ a.
          Triple-weaken (Triple-pure {Q = λ x w. (x ≡ h) × Next n1 w} g) (λ w k. (e, k))
            (λ x w p. p) (λ w p. p))

  write_packet-Once :
      (now : ℕ) (rec : Record)
      → Triple (Next h) (write_packet now rec) (λ g w. (g ≡ h) × Next (add64 h 1) w) Once
  unfolding write_packet write
  write_packet-Once now rec =
      Triple-then (with_file-Next h _ (λ q. Triple-syscall io _ _ (λ w k. k) (λ w n k. inl k.0)))
        (λ a.
          Triple-bind (Triple-gets (λ w. w.head))
            (λ g. record { run = λ s p. (rest-Next now _ g (p.1 ∙ p.0.0)).run s p.0 }))

-- With a segment open, WritePacket returns the next number and moves it on by one, modulo 2^64, with
-- a segment open again; or it stops at a call that failed, with the next number moved on by one at
-- most.
pub write_packet_numbers :
    (now : ℕ) (rec : Record) (q : ℕ) (s : Sys Writer)
    → s.state.file ≡ some q
    → After
        (λ g w.
          (g ≡ s.state.head) × (w.head ≡ add64 s.state.head 1) × ((p : ℕ) × (w.file ≡ some p)))
        (λ w. (w.head ≡ s.state.head) ⊎ (w.head ≡ add64 s.state.head 1))
        s.faults
        (write_packet now rec s)
write_packet_numbers now rec q s opened =
    After-weaken s.faults (write_packet now rec s) (λ g w p. (p.0, p.1.0, p.1.1)) (λ w p. p)
      ((write_packet-Once s.state.head now rec).run s (refl, (q, opened)))
