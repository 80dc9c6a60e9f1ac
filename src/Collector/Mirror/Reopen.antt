-- ===== src/Collector/Mirror/Reopen.antt =====
-- `OpenMirror` after a power loss, from the directory alone.
use ipcap.Base.{ℕ, ◌<◌, ◌^◌, ◌≡◌, refl, sym, ap, subst, List, ◌++◌, ◌⊎◌, inl, inr}
use ipcap.Storage.Io.{Fault, Sys}
use ipcap.Storage.Triple.{Triple, Triple-then, Triple-modify, Triple-quiet, After, After-weaken}
use ipcap.Pcap.{GlobalHeader, Record}
use ipcap.Collector.State.{ResumeState, Mirror, Disk, io}
use ipcap.Collector.Mirror.{load_state, open_mirror, new_mirror, loaded}
use ipcap.Collector.Mirror.Stages.{Stage}
use ipcap.Collector.Mirror.Stored.{Stored}
use ipcap.Collector.Mirror.Recoverable.{
  image, Counts, Fronts, Covers, Recoverable, CrashedDisk, Recoverable-crash,
}
use ipcap.Collector.Mirror.Recovery.{session_part, publish_part}

module _ (gh : GlobalHeader) (d : Disk) (rs : List Record) (settled : d.resume_synced ≡ d.resume)
    (snaplen_bound : gh.snaplen < 2 ^ 32) where
  abbrev st : ResumeState
  st = loaded d.resume

  module _ (counts : Counts st st.session_seq rs) (f : Fronts gh rs (d.files st.session_seq)) where
    abbrev k : ℕ
    k = (d.files st.session_seq).synced

    abbrev Unread : Mirror → Type 0
    Unread m = m ≡ new_mirror gh d

    abbrev Loaded : Mirror → Type 0
    Loaded m = Stage gh st st st (image gh rs ++ f.rest) k m

    abbrev Fails : Mirror → Type 0
    Fails m = Recoverable gh st.session_seq rs rs m.disk

    Unread-ends : (m : Mirror) → Unread m → Fails m
    Unread-ends m e =
        subst (λ (x : Mirror). Recoverable gh st.session_seq rs rs x.disk) (sym e)
          (record {
            now = inl (counts, f);
            later =
                subst
                  (λ o.
                    Covers gh st.session_seq (d.files st.session_seq) rs (loaded o)
                    ⊎ Covers gh st.session_seq (d.files st.session_seq) rs (loaded o))
                  (sym settled) (inl (counts, f));
          })

    load_part : Triple Unread load_state (λ (a : Unit {0}) m. Loaded m) Fails
    unfolding load_state
    load_part = Triple-then (Triple-quiet {P = Unread} {I = Fails} io Unread-ends) (λ a.
        Triple-modify (λ m. record m { state = loaded m.disk.resume })
          (λ m e.
            subst (λ (x : Mirror). Loaded (record x { state = loaded x.disk.resume })) (sym e)
              (record {
                header = refl;
                in_memory = refl;
                on_disk_now = refl;
                on_disk_safe = ap loaded settled;
                bytes = f.front;
                durable = refl;
              })))

    open_part : Triple Unread open_mirror (λ (a : Unit {0}) m. Stored gh st rs m) Fails
    unfolding open_mirror
    open_part =
        Triple-then
          (Triple-then
            (Triple-then (Triple-quiet {P = Unread} {I = Fails} io Unread-ends) (λ a. load_part))
            (λ a. session_part gh st rs f.rest k counts f.valid snaplen_bound f.enough))
          (λ a. publish_part gh st rs f.rest k counts f.valid snaplen_bound f.enough)

  -- The directory covers the records in session `q`.
  pub open_covered :
      (q : ℕ) (fs : List Fault)
      → Covers gh q (d.files q) rs st
      → After
          (λ (a : Unit {0}) m. Stored gh st rs m)
          (λ m. Recoverable gh q rs rs m.disk)
          fs
          (open_mirror (record { state = new_mirror gh d; faults = fs }))
  open_covered q fs c =
      let Goal : ℕ → Type 0 = λ p.
        Covers gh p (d.files p) rs st
        → After (λ (a : Unit {0}) m. Stored gh st rs m) (λ m. Recoverable gh p rs rs m.disk) fs
            (open_mirror (record { state = new_mirror gh d; faults = fs })) in
      let own : Goal st.session_seq =
        λ h. (open_part h.0 h.1).run (record { state = new_mirror gh d; faults = fs }) refl in
      subst Goal c.0.session own c

same : {A : Type 0} → A ⊎ A → A
same (inl a) = a
same (inr a) = a

with_right :
    (gh : GlobalHeader) (q : ℕ) (rs rs' : List Record) (d : Disk)
    → Recoverable gh q rs rs d
    → Recoverable gh q rs rs' d
with_right gh q rs rs' d r = record { now = inl (same r.now); later = inl (same r.later) }

with_left :
    (gh : GlobalHeader) (q : ℕ) (rs rs' : List Record) (d : Disk)
    → Recoverable gh q rs' rs' d
    → Recoverable gh q rs rs' d
with_left gh q rs rs' d r = record { now = inr (same r.now); later = inr (same r.later) }

-- A power loss leaves a directory that is recoverable with `rs` or `rs'`; OpenMirror on it returns a
-- mirror that stores exactly `rs` or exactly `rs'`, as the resume state that is left says, or stops at
-- a call that failed, and then the directory is still recoverable.
pub open_mirror_recovers :
    (gh : GlobalHeader) (q : ℕ) (rs rs' : List Record) (d d' : Disk) (fs : List Fault)
    → CrashedDisk d d'
    → Recoverable gh q rs rs' d
    → gh.snaplen < 2 ^ 32
    → After
        (λ (a : Unit {0}) m. Stored gh (loaded d'.resume) rs m ⊎ Stored gh (loaded d'.resume) rs' m)
        (λ m. Recoverable gh q rs rs' m.disk)
        fs
        (open_mirror (record { state = new_mirror gh d'; faults = fs }))
open_mirror_recovers gh q rs rs' d d' fs c r bound =
    let start : Sys Mirror = record { state = new_mirror gh d'; faults = fs } in
    let Open : Unit {0} → Mirror → Type 0 =
      λ a m. Stored gh (loaded d'.resume) rs m ⊎ Stored gh (loaded d'.resume) rs' m in
    let Left : Mirror → Type 0 = λ m. Recoverable gh q rs rs' m.disk in
    elim (Recoverable-crash gh q rs rs' d d' c r) [
      | inl h ↦
          After-weaken {Q' = Open} {I' = Left} fs (open_mirror start) (λ a m s. inl s)
            (λ m s. with_right gh q rs rs' m.disk s) (open_covered gh d' rs c.settled bound q fs h)
      | inr h ↦
          After-weaken {Q' = Open} {I' = Left} fs (open_mirror start) (λ a m s. inr s)
            (λ m s. with_left gh q rs rs' m.disk s) (open_covered gh d' rs' c.settled bound q fs h)
    ]
