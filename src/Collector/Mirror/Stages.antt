-- ===== src/Collector/Mirror/Stages.antt =====
-- Where an action of the mirror stands: its state, its files and the resume state on the disk.
use ipcap.Base.{ℕ, ◌≤◌, ◌≡◌, refl, sym, ap, ◌∙◌, subst, arith, some, List, ◌++◌, length, ==_refl}
use ipcap.Storage.Io.{syscall, quiet}
use ipcap.Storage.Triple.{Triple, Triple-syscall, Triple-then, Triple-quiet, After}
use ipcap.Storage.File.{File, write_at, sync, write_at-end}
use ipcap.Pcap.{GlobalHeader}
use ipcap.Collector.State.{
  ResumeState, Mirror, Disk, io, M, on_open, with_file, write_effect, on_disk, update,
  persist_state, write_resume, sync_dir,
}
use ipcap.Collector.Mirror.{loaded}

-- `st` is the state in memory, `now` and `safe` the one on the disk, before and after a crash.
pub record Stage (gh : GlobalHeader) (st now safe : ResumeState) (content : List ℕ) (synced : ℕ)
    (m : Mirror) : Type 0 where
  pub header : m.gh ≡ gh
  pub in_memory : m.state ≡ st
  pub on_disk_now : loaded m.disk.resume ≡ now
  pub on_disk_safe : loaded m.disk.resume_synced ≡ safe
  pub bytes : (m.disk.files st.session_seq).bytes ≡ content
  pub durable : (m.disk.files st.session_seq).synced ≡ synced

-- The handle of session `q` is open at `pos`, and `len` is the length that is counted.
pub record IsOpen (q pos len : ℕ) (m : Mirror) : Type 0 where
  pub opened : m.file ≡ some q
  pub position : m.pos ≡ pos
  pub counted : m.file_len ≡ len

pub update-eq : (q : ℕ) (f : File → File) (files : ℕ → File) → update q f files q ≡ f (files q)
update-eq q f files = rw (==_refl q)

module _ {gh : GlobalHeader} {st now safe : ResumeState} {k : ℕ} where
  pub Stage-write :
      (content bs : List ℕ) (m : Mirror)
      → k ≤ length content
      → Stage gh st now safe content k m
      → m.pos ≡ length content
      → Stage gh st now safe (content ++ bs) k (write_effect st.session_seq bs m)
  Stage-write content bs m le g e =
      let q = st.session_seq in
      let f = m.disk.files q in
      let at : m.pos ≡ length f.bytes = e ∙ ap length (sym g.bytes) in
      record {
        header = g.header;
        in_memory = g.in_memory;
        on_disk_now = g.on_disk_now;
        on_disk_safe = g.on_disk_safe;
        bytes =
            ap (λ (x : File). x.bytes) (update-eq q (write_at m.pos bs) m.disk.files)
            ∙ ap (λ p. (write_at p bs f).bytes) at
            ∙ write_at-end bs f
            ∙ ap (λ b. b ++ bs) g.bytes;
        durable =
            ap (λ (x : File). x.synced) (update-eq q (write_at m.pos bs) m.disk.files)
            ∙ omega (arith, g.durable, e);
      }

  pub Stage-sync :
      (content : List ℕ) (m : Mirror)
      → Stage gh st now safe content k m
      → Stage gh st now safe content (length content) (on_disk st.session_seq sync m)
  Stage-sync content m g =
      let q = st.session_seq in
      record {
        header = g.header;
        in_memory = g.in_memory;
        on_disk_now = g.on_disk_now;
        on_disk_safe = g.on_disk_safe;
        bytes = ap (λ (x : File). x.bytes) (update-eq q sync m.disk.files) ∙ g.bytes;
        durable = ap (λ (x : File). x.synced) (update-eq q sync m.disk.files) ∙ ap length g.bytes;
      }

Stage-rename :
    (gh : GlobalHeader) (st now safe : ResumeState) (content : List ℕ) (k : ℕ) (m : Mirror)
    → Stage gh st now safe content k m
    → Stage gh st st safe content k (record m { disk = record m.disk { resume = some st } })
Stage-rename gh st now safe content k m g = record {
  header = g.header;
  in_memory = g.in_memory;
  on_disk_now = refl;
  on_disk_safe = g.on_disk_safe;
  bytes = g.bytes;
  durable = g.durable;
}

Stage-settle :
    (gh : GlobalHeader) (st safe : ResumeState) (content : List ℕ) (k : ℕ) (m : Mirror)
    → Stage gh st st safe content k m
    → Stage gh st st st content k
        (record m { disk = record m.disk { resume_synced = m.disk.resume } })
Stage-settle gh st safe content k m g = record {
  header = g.header;
  in_memory = g.in_memory;
  on_disk_now = g.on_disk_now;
  on_disk_safe = g.on_disk_now;
  bytes = g.bytes;
  durable = g.durable;
}

module _ {P Q I : Mirror → Type 0} where
  pub Triple-with_file :
      (f : ℕ → M (Unit {0})) (q : ℕ)
      → ((m : Mirror) → P m → m.file ≡ some q)
      → Triple P (f q) (λ (a : Unit {0}) m. Q m) I
      → Triple P (with_file f) (λ (a : Unit {0}) m. Q m) I
  unfolding with_file
  Triple-with_file f q opened t = record {
    run = λ s p.
        subst (λ o. After (λ (a : Unit {0}) m. Q m) I s.faults (on_open o f s))
          (sym (opened s.state p)) (t.run s p);
  }

-- `persistState` brings the state in memory to the disk, and then past a crash.
module _ (gh : GlobalHeader) (st now safe : ResumeState) (content : List ℕ) (k : ℕ)
    (K I : Mirror → Type 0) (keeps : (m : Mirror) (d : Disk) → K m → K (record m { disk = d }))
    (before : (m : Mirror) → Stage gh st now safe content k m → I m)
    (between : (m : Mirror) → Stage gh st st safe content k m → I m) where
  Triple-write_resume :
      Triple
        (λ m. Stage gh st now safe content k m × K m)
        (write_resume st)
        (λ (a : Unit {0}) m. Stage gh st st st content k m × K m)
        I
  unfolding write_resume sync_dir
  Triple-write_resume =
      let From : Mirror → Type 0 = λ m. Stage gh st now safe content k m × K m in
      let Mid : Mirror → Type 0 = λ m. Stage gh st st safe content k m × K m in
      let To : Mirror → Type 0 = λ m. Stage gh st st st content k m × K m in
      let wait : Triple From (quiet io) (λ (a : Unit {0}) m. From m) I =
        Triple-quiet io (λ m p. before m p.0) in
      let rename : Triple From
          (syscall io (λ m. record m { disk = record m.disk { resume = some st } }) (λ j m. m))
          (λ (a : Unit {0}) m. Mid m) I =
        Triple-syscall io _ _ (λ m p. (Stage-rename gh st now safe content k m p.0, keeps m _ p.1))
          (λ m n p. before m p.0) in
      let open_dir : Triple Mid (quiet io) (λ (a : Unit {0}) m. Mid m) I =
        Triple-quiet io (λ m p. between m p.0) in
      let settle : Triple Mid
          (syscall io (λ m. record m { disk = record m.disk { resume_synced = m.disk.resume } })
            (λ j m. m))
          (λ (a : Unit {0}) m. To m) I =
        Triple-syscall io _ _ (λ m p. (Stage-settle gh st safe content k m p.0, keeps m _ p.1))
          (λ m n p. between m p.0) in
      Triple-then
        (Triple-then
          (Triple-then (Triple-then (Triple-then wait (λ a. wait)) (λ a. wait)) (λ a. wait))
          (λ a. rename))
        (λ a. Triple-then open_dir (λ a. settle))

  pub Triple-persist_state :
      Triple
        (λ m. Stage gh st now safe content k m × K m)
        persist_state
        (λ (a : Unit {0}) m. Stage gh st st st content k m × K m)
        I
  unfolding persist_state
  Triple-persist_state = record {
    run = λ s p.
        subst
          (λ x.
            After (λ (a : Unit {0}) m. Stage gh st st st content k m × K m) I s.faults
              (write_resume x s))
          (sym p.0.in_memory) (Triple-write_resume.run s p);
  }
