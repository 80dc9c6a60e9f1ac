-- ===== src/Spool/Synced.antt =====
-- `sync` and `publishHead` keep what is advertised on the disk.
use ipcap.Base.{
  inl, inr, ℕ, ◌+◌, ◌<◌, ◌^◌, ◌≡◌, refl, sym, subst, arith, some, List, length, take, Bool, false,
}
use ipcap.Storage.Io.{quiet}
use ipcap.Storage.Triple.{Triple, Triple-then, Triple-syscall, Triple-modify, Triple-quiet, After}
use ipcap.Storage.File.{sync as sync_file}
use ipcap.Spool.{Dir}
use ipcap.Spool.Writer.{
  Writer, io, W, with_file, on_open, write, write_effect, on_segment, fdatasync, publish_head, sync,
  synced, counted, durable_segment,
}
use ipcap.Spool.Durable.{
  Safe, Known, Inv, Flushed, write-Inv, sync-Flushed, Inv-Safe, map-Advertised,
}

-- A step that ends well keeps the invariant, and one that fails keeps what is advertised.
abbrev pub Steps : (Writer → Type 0) → W (Unit {0}) → (Writer → Type 0) → Type 0
Steps P m Q = Triple P m (λ (a : Unit {0}) w. Q w) Safe

with_file-Steps :
    (P Q : Writer → Type 0) (f : ℕ → W (Unit {0}))
    → ((w : Writer) → P w → w.file ≡ some w.active.seq)
    → ((q : ℕ) → Steps (λ w. P w × (w.active.seq ≡ q)) (f q) Q)
    → Steps P (with_file f) Q
unfolding with_file
with_file-Steps P Q f opened t = record {
  run = λ s p.
      subst (λ o. After (λ (a : Unit {0}) w. Q w) Safe s.faults (on_open o f s))
        (sym (opened s.state p)) ((t s.state.active.seq).run s (p, refl));
}

-- Also, the next segment's number can be counted on.
abbrev pub Room : Writer → Type 0
Room w = w.next_seq + 1 < 2 ^ 64

abbrev pub Ready : Writer → Type 0
Ready w = Inv 0 w × Room w

pub Ready-Safe : (w : Writer) → Ready w → Safe w
Ready-Safe w h = Inv-Safe 0 w h.0

pub write-Steps :
    (bs : List ℕ) → Steps Ready (with_file (λ q. write q bs)) (λ w. Inv (length bs) w × Room w)
unfolding write
write-Steps bs =
    with_file-Steps Ready (λ w. Inv (length bs) w × Room w) (λ q. write q bs) (λ w h. h.0.opened)
      (λ q.
        Triple-syscall io _ _
          (λ w p.
            (subst (λ k. Inv (length bs) (write_effect k bs w)) p.1 (write-Inv bs w p.0.0), p.0.1))
          (λ w n p.
            subst (λ k. Safe (write_effect k (take n bs) w)) p.1
              (Inv-Safe (length (take n bs)) _ (write-Inv (take n bs) w p.0.0))))

pub counted-Inv : (b : ℕ) (w : Writer) → Inv b w → Inv 0 (counted b w)
counted-Inv b w h = record {
  opened = h.opened;
  position = omega (arith, h.position);
  size = h.size;
  durable = h.durable;
  within = omega (arith, h.within);
  newer = h.newer;
  known =
      map-Advertised (Known w) (Known (counted b w))
        (λ s k. (k.0, elim k.1 [ inl lt ↦ inl lt | inr p ↦ inr (p.0, omega (arith, p.1)) ])) w.dir
        w.dir.files h.known;
}

synced-Inv : (now : ℕ) (w : Writer) → Flushed w → Inv 0 (synced now w)
synced-Inv now w h = record {
  opened = h.0.opened;
  position = h.0.position;
  size = h.0.size;
  durable = h.1;
  within = omega arith;
  newer = h.0.newer;
  known = h.0.known;
}

-- The extent that is advertised next.
pub own-Known : (b : Bool) (w : Writer) → Inv 0 w → Known w (durable_segment b w)
own-Known b w h = (h.durable, inr (refl, h.within))

pub wait : Steps Ready (quiet io) Ready
wait = Triple-quiet io Ready-Safe

module _ (K : Writer → Type 0)
    (keeps : (w : Writer) (d : Dir) → K w → K (record w { dir = d })) where
  abbrev pub With : Writer → Type 0
  With w = Inv 0 w × K w

  with-Safe : (w : Writer) → With w → Safe w
  with-Safe w h = Inv-Safe 0 w h.0

  rest : Steps With (quiet io) With
  rest = Triple-quiet io with-Safe

  advertised-With :
      (w : Writer)
      → With w
      → With (record w { dir = record w.dir { head_file = some (durable_segment false w) } })
  advertised-With w h = (
    record {
      opened = h.0.opened;
      position = h.0.position;
      size = h.0.size;
      durable = h.0.durable;
      within = h.0.within;
      newer = h.0.newer;
      known = (own-Known false w h.0, h.0.known.1);
    },
    keeps w _ h.1,
  )

  pub publish-Steps : Steps With publish_head With
  unfolding publish_head
  publish-Steps =
      Triple-then
        (Triple-then
          (Triple-then (Triple-then (Triple-then rest (λ a. rest)) (λ a. rest))
            (λ a. Triple-syscall io _ _ advertised-With (λ w n h. with-Safe w h)))
          (λ a. rest))
        (λ a. rest)

pub sync-Steps : (now : ℕ) → Steps Ready (sync now) Ready
unfolding sync fdatasync
sync-Steps now =
    Triple-then
      (Triple-then
        (with_file-Steps Ready (λ w. Flushed w × Room w) fdatasync (λ w h. h.0.opened)
          (λ q.
            Triple-syscall io _ _
              (λ w p.
                (subst (λ k. Flushed (on_segment k sync_file w)) p.1 (sync-Flushed w p.0.0), p.0.1))
              (λ w n p. Ready-Safe w p.0)))
        (λ a. Triple-modify (synced now) (λ w h. (synced-Inv now w h.0, h.1))))
      (λ a. publish-Steps Room (λ w d r. r))
