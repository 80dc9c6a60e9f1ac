-- ===== src/Spool/Position.antt =====
-- internal/spool/reader.go: how a call of `Next` moves the reader.
use ipcap.Base.{
  ℕ, zero, suc, ◌≡◌, refl, Option, none, some, Bool, true, false, ltb, leb, if◌then◌else◌, inl, inr,
  Bool-cases, add64, Result, ok, err, subst,
}
use ipcap.Bytes.{ReadError}
use ipcap.Pcap.{Record, PcapError, read_record_at}
use ipcap.Spool.{Segment, Dir}
use ipcap.Spool.Reader.{
  Reader, ReaderError, no_data, refresh, owning, exists, position, positioned, is_open, Outcome,
  delivered, read_segment, locate, caught_up, next,
}

-- A packet that is returned has the number at which the reader stood, and the reader stands at the
-- number behind it; an error leaves it where it was.
abbrev pub Moves : ℕ → Outcome → Type 0
Moves at none = Unit {0}
Moves at (some (ok (rec, gp), r)) = (gp ≡ at) × (r.gpidx ≡ add64 at 1)
Moves at (some (err e, r)) = r.gpidx ≡ at

Moves-if :
    (at : ℕ) (b : Bool) (m n : Outcome) → Moves at m → Moves at n → Moves at (if b then m else n)
Moves-if at true m n hm hn = hm
Moves-if at false m n hm hn = hn

module _ (d : Dir) (again : Reader → Outcome) (ih : (r : Reader) → Moves r.gpidx (again r)) where
  delivered-Moves :
      (r : Reader) (found : Result PcapError (Option (Record × ℕ)))
      → Moves r.gpidx (delivered again d r found)
  unfolding refresh
  delivered-Moves r (err e) = refl
  delivered-Moves r (ok none) =
      Moves-if r.gpidx (leb (refresh d r).head (refresh d r).gpidx) _ _ refl (ih (refresh d r))
  delivered-Moves r (ok (some (rec, offset))) = (refl, refl)

  read_segment-Moves :
      (seg : Segment) (at : ℕ) (opened : Result ReaderError (Unit {0}) × Reader)
      → opened.1.gpidx ≡ at
      → Moves at (read_segment again d seg opened)
  read_segment-Moves seg at (err e, r) h = h
  read_segment-Moves seg at (ok u, r) h =
      subst (λ g. Moves g (read_segment again d seg (ok u, r))) h
        (delivered-Moves r
          (read_record_at (d.files seg.seq).bytes r.offset seg.valid_len r.snaplen))

  positioned-gpidx : (r : Reader) (to : ℕ × Option ReadError) → (positioned r to).1.gpidx ≡ r.gpidx
  positioned-gpidx r (offset, none) = refl
  positioned-gpidx r (offset, some e) = refl

  position-gpidx : (seg : Segment) (r : Reader) → (position d seg r.gpidx r).1.gpidx ≡ r.gpidx
  unfolding position
  position-gpidx seg r = elim (Bool-cases (exists seg.seq d.seqs)) [
    | inl there ↦ rw (there, if◌then◌else◌) (positioned-gpidx (record r { file = some seg.seq }) _)
    | inr gone ↦ rw (gone, if◌then◌else◌)
  ]

  opened-gpidx :
      (b : Bool) (seg : Segment) (r : Reader)
      → (if b then (ok tt, r) else position d seg r.gpidx r).1.gpidx ≡ r.gpidx
  opened-gpidx true seg r = refl
  opened-gpidx false seg r = position-gpidx seg r

  locate-Moves : (r : Reader) (seg : Option Segment) → Moves r.gpidx (locate again d r seg)
  unfolding refresh
  locate-Moves r (some seg) =
      read_segment-Moves seg r.gpidx _ (opened-gpidx (is_open r.file seg.seq) seg r)
  locate-Moves r none =
      let r' = refresh d r in
      elim (owning r'.gpidx r'.view)
        as (λ o. Moves r.gpidx (elim o [ none ↦ some (err no_data, r') | some seg ↦ again r' ])) [
          | none ↦ refl
          | some seg ↦ ih r'
        ]

  caught_up-Moves : (r : Reader) → Moves r.gpidx (caught_up again d r)
  caught_up-Moves r =
      Moves-if r.gpidx (ltb r.gpidx r.oldest) _ _ refl
        (Moves-if r.gpidx (leb r.head r.gpidx) _ _ refl (locate-Moves r (owning r.gpidx r.view)))

-- Whatever the directory holds and however long `Next` looks: a packet that it returns has the number
-- at which the reader stood, and the reader then stands one further; with an error the reader stays.
pub next-Moves : (fuel : ℕ) (d : Dir) (r : Reader) → Moves r.gpidx (next fuel d r)
unfolding next
next-Moves zero d r = tt
next-Moves (suc fuel) d r = Moves-if r.gpidx (ltb r.gpidx r.oldest) _ _ refl (
    Moves-if r.gpidx (leb r.head r.gpidx) _ _
      (unfold refresh in caught_up-Moves d (next fuel d) (next-Moves fuel d) (refresh d r))
      (locate-Moves d (next fuel d) (next-Moves fuel d) r (owning r.gpidx r.view)))
