-- ===== src/Spool/Durable.antt =====
-- What head.json and the manifest tell readers is synced, also where a call fails.
use ipcap.Base.{
  ℕ, ◌+◌, ◌≤◌, ◌<◌, ◌≡◌, refl, sym, ap, ◌∙◌, subst, arith, Option, none, some, List, [], ◌∷◌, ◌++◌,
  length, ◌⊎◌, inl, inr, ◌==◌, ==_refl, ==_iff, Bool-cases, All, length-append,
}
use ipcap.Storage.File.{File, write_at, write_at-end, sync as sync_file}
use ipcap.Spool.{Segment, Line, blank, torn, entry, Dir}
use ipcap.Spool.Writer.{Writer, write_effect, on_segment, activated}

abbrev pub InOption : (Segment → Type 0) → Option Segment → Type 0
InOption P none = Unit {0}
InOption P (some s) = P s

abbrev pub InLine : (Segment → Type 0) → Line → Type 0
InLine P blank = Unit {0}
InLine P torn = Unit {0}
InLine P (entry s) = P s

-- Of every segment that a reader may take from head.json or from the manifest.
abbrev pub Advertised : (Segment → Type 0) → Dir → Type 0
Advertised P d = InOption P d.head_file × All (InLine P) d.manifest

-- Its durable extent is on the disk.
abbrev pub Backed : (ℕ → File) → Segment → Type 0
Backed files s = s.valid_len ≤ (files s.seq).synced

abbrev pub Safe : Writer → Type 0
Safe w = Advertised (Backed w.dir.files) w.dir

-- A segment that is known is an older one, or the active one no longer than it is.
abbrev pub Known : Writer → Segment → Type 0
Known w s =
    Backed w.dir.files s
    × ((s.seq < w.active.seq) ⊎ ((s.seq ≡ w.active.seq) × (s.valid_len ≤ w.file_offset)))

module _ (P Q : Segment → Type 0) (f : (s : Segment) → P s → Q s) where
  map_option : (o : Option Segment) → InOption P o → InOption Q o
  map_option none h = tt
  map_option (some s) h = f s h

  map_lines : (ls : List Line) → All (InLine P) ls → All (InLine Q) ls
  map_lines [] h = tt
  map_lines (blank ∷ ls) h = (tt, map_lines ls h.1)
  map_lines (torn ∷ ls) h = (tt, map_lines ls h.1)
  map_lines (entry s ∷ ls) h = (f s h.0, map_lines ls h.1)

  pub map-Advertised :
      (d : Dir) (files : ℕ → File) → Advertised P d → Advertised Q (record d { files = files })
  map-Advertised d files h = (map_option d.head_file h.0, map_lines d.manifest h.1)

-- The writer between its calls: `gap` bytes have been written that are not counted.
pub record Inv (gap : ℕ) (w : Writer) : Type 0 where
  pub opened : w.file ≡ some w.active.seq
  pub position : w.pos ≡ w.file_offset + gap
  pub size : length (w.dir.files w.active.seq).bytes ≡ w.pos
  pub durable : w.durable_len ≤ (w.dir.files w.active.seq).synced
  pub within : w.durable_len ≤ w.file_offset
  pub newer : w.active.seq < w.next_seq
  pub known : Advertised (Known w) w.dir

pub Inv-Safe : (gap : ℕ) (w : Writer) → Inv gap w → Safe w
Inv-Safe gap w h =
    map-Advertised (Known w) (Backed w.dir.files) (λ s k. k.0) w.dir w.dir.files h.known

-- `Fdatasync` of the active segment.
abbrev pub synced_file : Writer → Writer
synced_file w = on_segment w.active.seq sync_file w

-- A change of the active file that keeps what is synced below the counted length.
on_active-Known :
    (w : Writer) (f : File → File) (s : Segment)
    → ((n : ℕ)
        → n ≤ (w.dir.files w.active.seq).synced
        → n ≤ w.file_offset
        → n ≤ (f (w.dir.files w.active.seq)).synced)
    → Known w s
    → Known (on_segment w.active.seq f w) s
on_active-Known w f s keeps k = elim (Bool-cases (s.seq == w.active.seq)) [
  | inl e ↦
      let q = w.active.seq in
      let here : s.seq ≡ q = (==_iff s.seq q).0 e in
      let backed : s.valid_len ≤ (w.dir.files q).synced =
        subst (λ p. s.valid_len ≤ (w.dir.files p).synced) here k.0 in
      let counted : s.valid_len ≤ w.file_offset = elim k.1 [
        | inl lt ↦ absurd (omega arith)
        | inr p ↦ p.1
      ] in
      rw e (keeps s.valid_len backed counted, k.1)
  | inr e ↦ rw e k
]

at_active :
    (w : Writer) (f : File → File)
    → (on_segment w.active.seq f w).dir.files w.active.seq ≡ f (w.dir.files w.active.seq)
at_active w f = rw (==_refl w.active.seq)

pub write-Inv :
    (bs : List ℕ) (w : Writer) → Inv 0 w → Inv (length bs) (write_effect w.active.seq bs w)
write-Inv bs w h =
    let q = w.active.seq in
    let f = w.dir.files q in
    let new = at_active w (write_at w.pos bs) in
    let grown : (write_at w.pos bs f).bytes ≡ f.bytes ++ bs =
      ap (λ p. (write_at p bs f).bytes) (sym h.size) ∙ write_at-end bs f in
    record {
      opened = h.opened;
      position = omega (arith, h.position);
      size =
          ap (λ (x : File). length x.bytes) new
          ∙ ap length grown
          ∙ length-append f.bytes bs
          ∙ ap (λ k. k + length bs) h.size;
      durable =
          subst (λ (x : File). w.durable_len ≤ x.synced) (sym new)
            (omega (arith, h.durable, h.within, h.position));
      within = h.within;
      newer = h.newer;
      known =
          map-Advertised (Known w) (Known (on_segment q (write_at w.pos bs) w))
            (λ s k. on_active-Known w (write_at w.pos bs) s (λ n a b. omega (arith, h.position)) k)
            w.dir (on_segment q (write_at w.pos bs) w).dir.files h.known;
    }

-- Behind the sync the counted bytes are on the disk.
abbrev pub Flushed : Writer → Type 0
Flushed w = Inv 0 w × (w.file_offset ≤ (w.dir.files w.active.seq).synced)

pub sync-Flushed : (w : Writer) → Inv 0 w → Flushed (synced_file w)
sync-Flushed w h =
    let q = w.active.seq in
    let new = at_active w sync_file in
    let all : w.file_offset ≤ length (w.dir.files q).bytes = omega (arith, h.size, h.position) in
    (
      record {
        opened = h.opened;
        position = h.position;
        size = ap (λ (x : File). length x.bytes) new ∙ h.size;
        durable =
            subst (λ (x : File). w.durable_len ≤ x.synced) (sym new) (omega (arith, all, h.within));
        within = h.within;
        newer = h.newer;
        known =
            map-Advertised (Known w) (Known (synced_file w))
              (λ s k. on_active-Known w sync_file s (λ n a b. omega (arith, all, b)) k) w.dir
              (synced_file w).dir.files h.known;
      },
      subst (λ (x : File). w.file_offset ≤ x.synced) (sym new) all,
    )

-- A segment that is older than the file that is being made.
abbrev pub Older : ℕ → Writer → Segment → Type 0
Older seq w s = Backed w.dir.files s × (s.seq < seq)

on_new-Older :
    (seq : ℕ) (w : Writer) (f : File → File) (s : Segment)
    → Older seq w s
    → Older seq (on_segment seq f w) s
on_new-Older seq w f s k = elim (Bool-cases (s.seq == seq)) [
  | inl e ↦ absurd (omega (arith, (==_iff s.seq seq).0 e, k.1))
  | inr e ↦ rw e k
]

-- The file of segment `seq` is being made.
pub record Making (seq : ℕ) (len flushed : ℕ) (w : Writer) : Type 0 where
  pub older : Advertised (Older seq w) w.dir
  pub numbered : seq < w.next_seq
  pub len_eq : length (w.dir.files seq).bytes ≡ len
  pub flushed_le : flushed ≤ (w.dir.files seq).synced

pub Making-Safe : (seq len flushed : ℕ) (w : Writer) → Making seq len flushed w → Safe w
Making-Safe seq len flushed w h =
    map-Advertised (Older seq w) (Backed w.dir.files) (λ s k. k.0) w.dir w.dir.files h.older

on_new :
    (seq : ℕ) (w : Writer) (f : File → File)
    → (on_segment seq f w).dir.files seq ≡ f (w.dir.files seq)
on_new seq w f = rw (==_refl seq)

-- Any change of the file that is being made.
pub change-Making :
    (seq len flushed len' flushed' : ℕ) (f : File → File) (w : Writer)
    → Making seq len flushed w
    → length (f (w.dir.files seq)).bytes ≡ len'
    → flushed' ≤ (f (w.dir.files seq)).synced
    → Making seq len' flushed' (on_segment seq f w)
change-Making seq len flushed len' flushed' f w h e le =
    let new = on_new seq w f in
    record {
      older =
          map-Advertised (Older seq w) (Older seq (on_segment seq f w))
            (λ s k. on_new-Older seq w f s k) w.dir (on_segment seq f w).dir.files h.older;
      numbered = h.numbered;
      len_eq = ap (λ (x : File). length x.bytes) new ∙ e;
      flushed_le = subst (λ (x : File). flushed' ≤ x.synced) (sym new) le;
    }

pub activated-Inv :
    (now seq start len : ℕ) (w : Writer) → Making seq 24 24 w → Inv 0 (activated now seq start w)
activated-Inv now seq start len w h = record {
  opened = refl;
  position = refl;
  size = h.len_eq;
  durable = h.flushed_le;
  within = omega arith;
  newer = h.numbered;
  known =
      map-Advertised (Older seq w) (Known (activated now seq start w)) (λ s k. (k.0, inl k.1)) w.dir
        w.dir.files h.older;
}
