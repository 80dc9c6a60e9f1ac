-- ===== src/Spool/Janitor.antt =====
-- internal/spool/janitor.go: whole sealed segments are deleted, the oldest first, down to a cap.
-- `locked` says which files cannot be deleted, for a reader's lock or for an error.
use ipcap.Base.{
  ℕ, ◌+◌, ◌-◌, ◌≤◌, ◌≡◌, refl, arith, List, [], ◌∷◌, length, Bool, true, false, not, ◌&&◌, leb, ltb,
  ◌==◌, ==_iff, Bool-cases, inl, inr, All, if◌then◌else◌,
}
use ipcap.Spool.{Segment, Dir}
use ipcap.Spool.Reader.{exists, insert_by_start, sort_by_start}
use ipcap.Spool.Writer.{Writer, on_dir}

abbrev pub sum_sizes : List ℕ → Dir → ℕ
sum_sizes [] d = 0
sum_sizes (q ∷ qs) d = length (d.files q).bytes + sum_sizes qs d

-- `SpoolBytes`
unfoldable pub spool_bytes : Writer → ℕ
spool_bytes w = sum_sizes w.dir.seqs w.dir

-- `Remove`
unfoldable pub remove_seq : ℕ → List ℕ → List ℕ
remove_seq q [] = []
remove_seq q (p ∷ ps) = let rest = remove_seq q ps in if p == q then rest else p ∷ rest

unfoldable pub delete_sealed : ℕ → List Segment → List Segment
delete_sealed q [] = []
delete_sealed q (s ∷ ss) = let rest = delete_sealed q ss in if s.seq == q then rest else s ∷ rest

-- The sealed segments whose files are there, without the active one.
unfoldable pub choose : ℕ → List ℕ → List Segment → List Segment
unfolding exists
choose active seqs [] = []
choose active seqs (s ∷ ss) =
    let rest = choose active seqs ss in
    if not (s.seq == active) && exists s.seq seqs then s ∷ rest else rest

unfoldable pub candidates : Writer → List Segment
unfolding choose sort_by_start
candidates w = sort_by_start (choose w.active.seq w.dir.seqs w.sealed)

unfoldable pub reap_one : Segment → Writer → Writer
unfolding remove_seq delete_sealed
reap_one s w = record (on_dir (λ d. record d { seqs = remove_seq s.seq d.seqs }) w) {
  oldest_gpidx = if ltb w.oldest_gpidx s.end_gpidx then s.end_gpidx else w.oldest_gpidx;
  sealed = delete_sealed s.seq w.sealed;
}

-- The loop of `Reap`: the number of segments that are deleted.
unfoldable pub reap_loop : (ℕ → Bool) → ℕ → ℕ → ℕ → List Segment → Writer → ℕ × Writer
unfolding reap_one
reap_loop locked max_bytes total deleted [] w = (deleted, w)
reap_loop locked max_bytes total deleted (s ∷ ss) w =
    let size = length (w.dir.files s.seq).bytes in
    let rest = reap_loop locked max_bytes (total - size) (deleted + 1) ss (reap_one s w) in
    if leb total max_bytes then (deleted, w) else if locked s.seq then (deleted, w) else rest

unfoldable pub reap : (ℕ → Bool) → ℕ → Writer → ℕ × Writer
unfolding spool_bytes candidates reap_loop
reap locked max_bytes w =
    let total = spool_bytes w in
    let result = reap_loop locked max_bytes total 0 (candidates w) w in
    if max_bytes == 0 then (0, w) else if leb total max_bytes then (0, w) else result

-- None of the segments is the active one.
abbrev Others : ℕ → List Segment → Type 0
Others active ss = All (λ (s : Segment). (s.seq == active) ≡ false) ss

choose-Others :
    (active : ℕ) (seqs : List ℕ) (ss : List Segment) → Others active (choose active seqs ss)
unfolding choose
choose-Others active seqs [] = tt
choose-Others active seqs (s ∷ ss) = elim (Bool-cases (s.seq == active)) [
  | inl e ↦ rw e (choose-Others active seqs ss)
  | inr e ↦ elim (Bool-cases (exists s.seq seqs)) [
    | inl t ↦ rw (e, t) (e, choose-Others active seqs ss)
    | inr t ↦ rw (e, t) (choose-Others active seqs ss)
  ]
]

insert-Others :
    (active : ℕ) (s : Segment) (ss : List Segment)
    → (s.seq == active) ≡ false
    → Others active ss
    → Others active (insert_by_start s ss)
unfolding insert_by_start
insert-Others active s [] e h = (e, tt)
insert-Others active s (t ∷ ts) e h = elim (Bool-cases (leb s.start_gpidx t.start_gpidx)) [
  | inl le ↦ rw le (e, h)
  | inr gt ↦ rw gt (h.0, insert-Others active s ts e h.1)
]

sort-Others : (active : ℕ) (ss : List Segment) → Others active ss → Others active (sort_by_start ss)
unfolding sort_by_start
sort-Others active [] h = tt
sort-Others active (s ∷ ss) h =
    insert-Others active s (sort_by_start ss) h.0 (sort-Others active ss h.1)

remove-exists :
    (q active : ℕ) (qs : List ℕ)
    → (q == active) ≡ false
    → exists active qs ≡ true
    → exists active (remove_seq q qs) ≡ true
unfolding exists remove_seq
remove-exists q active [] e h = h
remove-exists q active (p ∷ ps) e h =
    ground (arith, remove-exists q active ps, ==_iff p q, ==_iff p active, ==_iff q active)

-- What a deletion must leave: the active segment with its file, the bytes of all files, head.json, the
-- manifest and the numbering; the oldest number does not fall.
pub record Kept (w w' : Writer) : Type 0 where
  pub active : w'.active ≡ w.active
  pub head : w'.head ≡ w.head
  pub files : w'.dir.files ≡ w.dir.files
  pub manifest : w'.dir.manifest ≡ w.dir.manifest
  pub head_file : w'.dir.head_file ≡ w.dir.head_file
  pub present : exists w.active.seq w'.dir.seqs ≡ true
  pub oldest : w.oldest_gpidx ≤ w'.oldest_gpidx

same-Kept : (w : Writer) → exists w.active.seq w.dir.seqs ≡ true → Kept w w
same-Kept w h = record {
  active = refl;
  head = refl;
  files = refl;
  manifest = refl;
  head_file = refl;
  present = h;
  oldest = omega arith;
}

oldest-le : (a b : ℕ) → a ≤ (if ltb a b then b else a)
oldest-le a b = ground arith

reap_loop-Kept :
    (locked : ℕ → Bool) (max_bytes total deleted : ℕ) (ss : List Segment) (w : Writer)
    → Others w.active.seq ss
    → exists w.active.seq w.dir.seqs ≡ true
    → Kept w (reap_loop locked max_bytes total deleted ss w).1
unfolding reap_loop
reap_loop-Kept locked max_bytes total deleted [] w o h = same-Kept w h
reap_loop-Kept locked max_bytes total deleted (s ∷ ss) w o h =
    elim (Bool-cases (leb total max_bytes)) [
      | inl small ↦ rw small (same-Kept w h)
      | inr large ↦ elim (Bool-cases (locked s.seq)) [
        | inl held ↦ rw (large, held) (same-Kept w h)
        | inr free ↦
            let k =
              reap_loop-Kept locked max_bytes (total - length (w.dir.files s.seq).bytes)
                (deleted + 1) ss (reap_one s w) o.1
                (remove-exists s.seq w.active.seq w.dir.seqs o.0 h) in
            rw (large, free)
              (record {
                active = k.active;
                head = k.head;
                files = k.files;
                manifest = k.manifest;
                head_file = k.head_file;
                present = k.present;
                oldest = omega (arith, k.oldest, oldest-le w.oldest_gpidx s.end_gpidx);
              })
      ]
    ]

-- Reap never deletes the file of the active segment: where it is there it stays, with the numbering, the
-- manifest and head.json as they were, and the oldest number does not fall.
pub reap-Kept :
    (locked : ℕ → Bool) (max_bytes : ℕ) (w : Writer)
    → exists w.active.seq w.dir.seqs ≡ true
    → Kept w (reap locked max_bytes w).1
unfolding reap candidates
reap-Kept locked max_bytes w h =
    let others : Others w.active.seq (candidates w) =
      sort-Others w.active.seq _ (choose-Others w.active.seq w.dir.seqs w.sealed) in
    let k = reap_loop-Kept locked max_bytes (spool_bytes w) 0 (candidates w) w others h in
    elim (Bool-cases (max_bytes == 0)) [
      | inl off ↦ rw off (same-Kept w h)
      | inr on ↦ elim (Bool-cases (leb (spool_bytes w) max_bytes)) [
        | inl small ↦ rw (on, small) (same-Kept w h)
        | inr large ↦ rw (on, large) k
      ]
    ]
