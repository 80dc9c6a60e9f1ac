-- ===== src/Spool/Rotated.antt =====
-- `rotate` with `sealToManifest` and `openNewSegment` keeps what is advertised on the disk.
use ipcap.Base.{
  inl, inr, ℕ, zero, suc, ◌-◌, ◌≤◌, ◌<◌, ◌≡◌, refl, sym, ap, ◌∙◌, subst, arith, List, [], ◌∷◌, ◌++◌,
  length, take, true, All-append, length-replicate, length-append,
}
use ipcap.Storage.Triple.{
  Triple-bind, Triple-then, Triple-syscall, Triple-modify, Triple-quiet, Triple-gets, Triple-weaken,
}
use ipcap.Storage.File.{write_at, write_at-end, truncate, sync as sync_file}
use ipcap.Pcap.Encoding.{length-append_global_header}
use ipcap.Spool.{Segment, entry}
use ipcap.Spool.Writer.{
  Writer, io, write_start, on_segment, fdatasync, seal_to_manifest, open_new_segment, created,
  activated, take_seq, rotate, header_of, durable_segment, add_line, torn_line,
}
use ipcap.Spool.Durable.{
  Safe, Known, Inv, InLine, Older, Making, change-Making, activated-Inv, Making-Safe,
  map-Advertised,
}
use ipcap.Spool.Synced.{Steps, Ready, Ready-Safe, own-Known, wait, publish-Steps, sync-Steps}

torn-Safe : (n : ℕ) (w : Writer) → Safe w → Safe (torn_line n w)
torn-Safe zero w h = h
torn-Safe (suc n) w h = (
  h.0,
  All-append (InLine (λ s. s.valid_len ≤ (w.dir.files s.seq).synced)) w.dir.manifest _ h.1 (tt, tt),
)

line-Inv : (seg : Segment) (w : Writer) → Inv 0 w → Known w seg → Inv 0 (add_line seg w)
line-Inv seg w h k = record {
  opened = h.opened;
  position = h.position;
  size = h.size;
  durable = h.durable;
  within = h.within;
  newer = h.newer;
  known =
      (h.known.0, All-append (InLine (Known w)) w.dir.manifest (entry seg ∷ []) h.known.1 (k, tt));
}

seal-Steps :
    (x : Segment) → Steps (λ w. Ready w × (x ≡ durable_segment true w)) (seal_to_manifest x) Ready
unfolding seal_to_manifest
seal-Steps x =
    Triple-then
      (Triple-then
        (Triple-syscall {Q = Ready} io _ _
          (λ w p.
            let k : Known w (record x { sealed = true }) =
              subst (λ (y : Segment). Known w (record y { sealed = true })) (sym p.1)
                (own-Known true w p.0.0) in
            (line-Inv (record x { sealed = true }) w p.0.0 k, p.0.1))
          (λ w n p. torn-Safe n w (Ready-Safe w p.0)))
        (λ a. wait))
      (λ a. Triple-modify _ (λ w h. (
        record {
          opened = h.0.opened;
          position = h.0.position;
          size = h.0.size;
          durable = h.0.durable;
          within = h.0.within;
          newer = h.0.newer;
          known = h.0.known;
        },
        h.1,
      )))

module _ (now seq start : ℕ) where
  abbrev Made : ℕ → ℕ → Writer → Type 0
  Made = Making seq

  -- Nothing of the new file has been looked at.
  abbrev Any : Writer → Type 0
  Any w = Made (length (w.dir.files seq).bytes) 0 w

  empty_file : (w : Writer) → length (truncate 0 (w.dir.files seq)).bytes ≡ 0
  empty_file w = omega (arith, length-replicate {A = ℕ} (0 - length (w.dir.files seq).bytes) 0)

  created-Made : (w : Writer) → Any w → Made 0 0 (created seq w)
  created-Made w h =
      let m = change-Making seq _ 0 0 0 (truncate 0) w h (empty_file w) (omega arith) in
      record {
        older = m.older;
        numbered = m.numbered;
        len_eq = m.len_eq;
        flushed_le = m.flushed_le;
      }

  written-Made :
      (bs : List ℕ) (w : Writer)
      → Made 0 0 w
      → Made (length bs) 0 (on_segment seq (write_at 0 bs) w)
  written-Made bs w h =
      let f = w.dir.files seq in
      let grown : (write_at 0 bs f).bytes ≡ f.bytes ++ bs =
        ap (λ p. (write_at p bs f).bytes) (sym h.len_eq) ∙ write_at-end bs f in
      change-Making seq 0 0 (length bs) 0 (write_at 0 bs) w h
        (ap length grown ∙ length-append f.bytes bs ∙ omega (arith, h.len_eq)) (omega arith)

  flushed-Made : (w : Writer) → Made 24 0 w → Made 24 24 (on_segment seq sync_file w)
  flushed-Made w h = change-Making seq 24 0 24 24 sync_file w h h.len_eq (omega (arith, h.len_eq))

  -- After this segment there may be no room for another.
  open-Steps : Steps Any (open_new_segment now seq start) (Inv 0)
  unfolding open_new_segment write_start fdatasync
  open-Steps =
      Triple-then
        (Triple-then
          (Triple-then
            (Triple-then
              (Triple-then
                (Triple-syscall {Q = Made 0 0} io _ _ created-Made
                  (λ w n h. Making-Safe seq _ 0 w h))
                (λ a. Triple-bind (Triple-gets (λ w. header_of w.cfg)) (λ bs.
                  Triple-syscall {Q = Made 24 0} io _ _
                    (λ w p.
                      subst (λ k. Made k 0 (on_segment seq (write_at 0 bs) w))
                        (ap length p.1 ∙ length-append_global_header _) (written-Made bs w p.0))
                    (λ w n p. Making-Safe seq _ 0 _ (written-Made (take n bs) w p.0)))))
              (λ a.
                Triple-syscall {Q = Made 24 24} io _ _ flushed-Made
                  (λ w n h. Making-Safe seq 24 0 w h)))
            (λ a. Triple-quiet io (λ w h. Making-Safe seq 24 24 w h)))
          (λ a. Triple-quiet io (λ w h. Making-Safe seq 24 24 w h)))
        (λ a. Triple-modify (activated now seq start) (λ w h. activated-Inv now seq start 24 w h))

any_made :
    (seq : ℕ) (w : Writer)
    → Inv 0 w
    → w.active.seq < seq
    → seq < w.next_seq
    → Making seq (length (w.dir.files seq).bytes) 0 w
any_made seq w h newer below = record {
  older =
      map-Advertised (Known w) (Older seq w)
        (λ s k. (k.0, elim k.1 [ inl lt ↦ omega arith | inr p ↦ omega (arith, p.0) ])) w.dir
        w.dir.files h.known;
  numbered = below;
  len_eq = refl;
  flushed_le = omega arith;
}

abbrev pub Plain : Writer → Type 0
Plain w = Inv 0 w × Unit {0}

taken_made :
    (x : ℕ × ℕ) (w : Writer)
    → Ready w × (x ≡ (w.next_seq, w.head))
    → Making x.0 (length ((take_seq w).dir.files x.0).bytes) 0 (take_seq w)
taken_made x w p =
    let number : x.0 ≡ w.next_seq = ap (λ y. y.0) p.1 in
    let h = p.0.0 in
    any_made x.0 (take_seq w)
      (record {
        opened = h.opened;
        position = h.position;
        size = h.size;
        durable = h.durable;
        within = h.within;
        newer = omega (arith, h.newer, p.0.1);
        known = h.known;
      })
      (omega (arith, number, h.newer)) (omega (arith, number, p.0.1))

pub rotate-Steps : (now : ℕ) → Steps Ready (rotate now) Plain
unfolding rotate
rotate-Steps now =
    Triple-then
      (Triple-then
        (Triple-then (sync-Steps now)
          (λ a. Triple-bind (Triple-gets (durable_segment true)) seal-Steps))
        (λ a. Triple-bind (Triple-gets (λ w. (w.next_seq, w.head))) (λ x.
          Triple-then (Triple-modify take_seq (taken_made x)) (λ b.
            Triple-weaken (open-Steps now x.0 x.1) (λ w h. h) (λ c w h. (h, tt)) (λ w h. h)))))
      (λ a. publish-Steps (λ w. Unit {0}) (λ w d r. r))
