-- ===== src/Collector/Mirror/Recoverable.antt =====
-- What the directory must hold so that a mirror can be opened with given records.
use ipcap.Base.{
  ℕ, ◌+◌, ◌-◌, ◌≤◌, ◌<◌, ◌^◌, ◌≡◌, sym, ap, ◌∙◌, subst, arith, Option, List, [], ◌++◌, length, take,
  ◌⊎◌, inl, inr, length-append, take-append_ge, All,
}
use ipcap.Storage.File.{File, CrashedFile}
use ipcap.Pcap.{GlobalHeader, Record, append_global_header}
use ipcap.Pcap.Encoding.{IsRecord}
use ipcap.Pcap.Scan.{encode_records}
use ipcap.Collector.State.{ResumeState, Mirror, Disk}
use ipcap.Collector.Mirror.{loaded}
use ipcap.Collector.Mirror.Stages.{Stage}

-- A session's file with these records.
abbrev pub image : GlobalHeader → List Record → List ℕ
image gh rs = append_global_header gh [] ++ encode_records rs

-- The state counts the records, with no overflow.
pub record Counts (st : ResumeState) (q : ℕ) (rs : List Record) : Type 0 where
  pub session : st.session_seq ≡ q
  pub count : st.session_start_gpidx + length rs ≡ st.committed_gpidx
  pub bound : st.committed_gpidx < 2 ^ 64

-- The records stand synced at the front of the file.
pub record Fronts (gh : GlobalHeader) (rs : List Record) (f : File) : Type 0 where
  pub rest : List ℕ
  pub front : f.bytes ≡ image gh rs ++ rest
  pub enough : length (image gh rs) ≤ f.synced
  pub valid : All (IsRecord gh.snaplen) rs

abbrev pub Covers : GlobalHeader → ℕ → File → List Record → ResumeState → Type 0
Covers gh q f rs st = Counts st q rs × Fronts gh rs f

-- Whichever resume state a crash leaves, it counts `rs` or `rs'`, and these records are there.
pub record Recoverable (gh : GlobalHeader) (q : ℕ) (rs rs' : List Record) (d : Disk) : Type 0 where
  pub now :
      Covers gh q (d.files q) rs (loaded d.resume) ⊎ Covers gh q (d.files q) rs' (loaded d.resume)
  pub later :
      Covers gh q (d.files q) rs (loaded d.resume_synced)
      ⊎ Covers gh q (d.files q) rs' (loaded d.resume_synced)

-- What a crash may leave of a directory: one of the two resume states, and crashed files.
pub record CrashedDisk (d d' : Disk) : Type 0 where
  pub which : (d'.resume ≡ d.resume) ⊎ (d'.resume ≡ d.resume_synced)
  pub settled : d'.resume_synced ≡ d'.resume
  pub crashed : (q : ℕ) → CrashedFile (d.files q) (d'.files q)

-- Synced records outlive a crash.
Fronts-crash :
    (gh : GlobalHeader) (rs : List Record) (f f' : File)
    → CrashedFile f f'
    → Fronts gh rs f
    → Fronts gh rs f'
Fronts-crash gh rs f f' c h =
    let e : f'.bytes ≡ image gh rs ++ take (c.kept - length (image gh rs)) h.rest =
      c.front
      ∙ ap (take c.kept) h.front
      ∙ take-append_ge c.kept (image gh rs) h.rest (omega (arith, h.enough, c.enough)) in
    record {
      rest = take (c.kept - length (image gh rs)) h.rest;
      front = e;
      enough = omega (
        arith,
        c.settled,
        ap length e,
        length-append (image gh rs) (take (c.kept - length (image gh rs)) h.rest),
      );
      valid = h.valid;
    }

Covers-crash :
    (gh : GlobalHeader) (q : ℕ) (d d' : Disk) (rs : List Record) (st : ResumeState)
    → CrashedDisk d d'
    → Covers gh q (d.files q) rs st
    → Covers gh q (d'.files q) rs st
Covers-crash gh q d d' rs st c h =
    (h.0, Fronts-crash gh rs (d.files q) (d'.files q) (c.crashed q) h.1)

-- A directory that is recoverable stays so over a crash, and then holds one state only.
pub Recoverable-crash :
    (gh : GlobalHeader) (q : ℕ) (rs rs' : List Record) (d d' : Disk)
    → CrashedDisk d d'
    → Recoverable gh q rs rs' d
    → Covers gh q (d'.files q) rs (loaded d'.resume)
      ⊎ Covers gh q (d'.files q) rs' (loaded d'.resume)
Recoverable-crash gh q rs rs' d d' c h =
    let Target : Option ResumeState → Type 0 =
      λ o. Covers gh q (d'.files q) rs (loaded o) ⊎ Covers gh q (d'.files q) rs' (loaded o) in
    let over : (o : Option ResumeState)
        → Covers gh q (d.files q) rs (loaded o) ⊎ Covers gh q (d.files q) rs' (loaded o)
        → Target o =
      λ o e. elim e [
        | inl a ↦ inl (Covers-crash gh q d d' rs (loaded o) c a)
        | inr a ↦ inr (Covers-crash gh q d d' rs' (loaded o) c a)
      ] in
    elim c.which [
      | inl e ↦ subst Target (sym e) (over d.resume h.now)
      | inr e ↦ subst Target (sym e) (over d.resume_synced h.later)
    ]

-- The file at a stage.
abbrev pub file_of : List ℕ → ℕ → File
file_of content k = record { bytes = content; synced = k }

pub Stage-Recoverable :
    (gh : GlobalHeader) (st now safe : ResumeState) (content : List ℕ) (k : ℕ)
    (rs rs' : List Record) (m : Mirror)
    → Covers gh st.session_seq (file_of content k) rs now
      ⊎ Covers gh st.session_seq (file_of content k) rs' now
    → Covers gh st.session_seq (file_of content k) rs safe
      ⊎ Covers gh st.session_seq (file_of content k) rs' safe
    → Stage gh st now safe content k m
    → Recoverable gh st.session_seq rs rs' m.disk
Stage-Recoverable gh st now safe content k rs rs' m a b g =
    let q = st.session_seq in
    let e : file_of content k ≡ m.disk.files q =
      λ i. record { bytes = sym g.bytes i; synced = sym g.durable i } in
    let Either : File → ResumeState → Type 0 = λ f r. Covers gh q f rs r ⊎ Covers gh q f rs' r in
    record {
      now =
          subst (λ f. Either f (loaded m.disk.resume)) e
            (subst (Either (file_of content k)) (sym g.on_disk_now) a);
      later =
          subst (λ f. Either f (loaded m.disk.resume_synced)) e
            (subst (Either (file_of content k)) (sym g.on_disk_safe) b);
    }
