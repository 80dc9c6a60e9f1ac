-- ===== src/Collector/Mirror/Commit.antt =====
-- `Append`: the bytes, their sync, the resume state and the publication, in this order.
use ipcap.Base.{
  ℕ, ◌+◌, ◌≤◌, ◌<◌, ◌^◌, ◌≡◌, ◌≢◌, refl, sym, ap, ◌∙◌, subst, arith, List, [], ◌∷◌, ◌++◌, length,
  take, All, inl, inr, add64, append-nil, length-append, All-append,
}
use ipcap.Storage.Io.{Sys, modify}
use ipcap.Storage.Triple.{Triple, Triple-syscall, Triple-then, Triple-modify, After}
use ipcap.Pcap.{GlobalHeader, Record}
use ipcap.Pcap.Encoding.{IsRecord}
use ipcap.Pcap.Scan.{encode_records}
use ipcap.Collector.State.{
  ResumeState, Mirror, CollectorError, io, write, fdatasync, with_file, persist_state, publish,
  published,
}
use ipcap.Collector.Mirror.{append_bytes, append, encode_all, advance}
use ipcap.Collector.Mirror.Stages.{
  Stage, IsOpen, Stage-write, Stage-sync, Triple-with_file, Triple-persist_state,
}
use ipcap.Collector.Mirror.Stored.{Stored, advanced, image-append, encode_all-eq}
use ipcap.Collector.Mirror.Recoverable.{
  image, Counts, Covers, Recoverable, file_of, Stage-Recoverable,
}

module _ (gh : GlobalHeader) (st : ResumeState) (rs recs : List Record) (last_seq : ℕ)
    (counts : Counts st st.session_seq rs) (valid : All (IsRecord gh.snaplen) rs)
    (new_valid : All (IsRecord gh.snaplen) recs)
    (room : st.committed_gpidx + length recs < 2 ^ 64) where
  abbrev old_image : List ℕ
  old_image = image gh rs

  abbrev new_image : List ℕ
  new_image = old_image ++ encode_records recs

  abbrev goal_state : ResumeState
  goal_state = advanced st (length recs) last_seq

  abbrev Ends : Mirror → Type 0
  Ends m = Recoverable gh st.session_seq rs (rs ++ recs) m.disk

  Covers-old :
      (content rest : List ℕ) (k : ℕ)
      → content ≡ old_image ++ rest
      → length old_image ≤ k
      → Covers gh st.session_seq (file_of content k) rs st
  Covers-old content rest k e le =
      (counts, record { rest = rest; front = e; enough = le; valid = valid })

  Covers-new :
      Covers gh st.session_seq (file_of new_image (length new_image)) (rs ++ recs) goal_state
  Covers-new = (
    record {
      session = refl;
      count = omega (arith, counts.count, room, length-append rs recs);
      bound = omega arith;
    },
    record {
      rest = [];
      front = sym (image-append gh rs recs) ∙ sym (append-nil (image gh (rs ++ recs)));
      enough = omega (arith, ap length (image-append gh rs recs));
      valid = All-append (IsRecord gh.snaplen) rs recs valid new_valid;
    },
  )

  -- A torn write leaves the old records at the front, and so does a whole one.
  Ends-old :
      (content rest : List ℕ) (k : ℕ) (m : Mirror)
      → content ≡ old_image ++ rest
      → length old_image ≤ k
      → Stage gh st st st content k m
      → Ends m
  Ends-old content rest k m e le g =
      let c = Covers-old content rest k e le in
      Stage-Recoverable gh st st st content k rs (rs ++ recs) m (inl c) (inl c) g

  grown : length old_image ≤ length new_image
  grown = omega (arith, length-append old_image (encode_records recs))

  Ends-before : (m : Mirror) → Stage gh goal_state st st new_image (length new_image) m → Ends m
  Ends-before m g =
      let c = Covers-old new_image (encode_records recs) (length new_image) refl grown in
      Stage-Recoverable gh goal_state st st new_image (length new_image) rs (rs ++ recs) m (inl c)
        (inl c) g

  Ends-between :
      (m : Mirror) → Stage gh goal_state goal_state st new_image (length new_image) m → Ends m
  Ends-between m g =
      let c = Covers-old new_image (encode_records recs) (length new_image) refl grown in
      Stage-Recoverable gh goal_state goal_state st new_image (length new_image) rs (rs ++ recs) m
        (inr Covers-new) (inl c) g

  abbrev At : ResumeState → ResumeState → List ℕ → ℕ → ℕ → ℕ → Mirror → Type 0
  At st' r content k pos len m = Stage gh st' r r content k m × IsOpen st.session_seq pos len m

  abbrev old_len : ℕ
  old_len = length old_image

  abbrev buf : List ℕ
  buf = encode_records recs

  write_part :
      Triple
        (At st st old_image old_len old_len old_len)
        (with_file (λ q. write q buf))
        (λ (a : Unit {0}) m. At st st new_image old_len (old_len + length buf) old_len m)
        Ends
  unfolding write
  write_part =
      Triple-with_file (λ q. write q buf) st.session_seq (λ m p. p.1.opened)
        (Triple-syscall io _ _
          (λ m p. (
            Stage-write old_image buf m (omega arith) p.0 p.1.position,
            record {
              opened = p.1.opened;
              position = ap (λ k. k + length buf) p.1.position;
              counted = p.1.counted;
            },
          ))
          (λ m n p.
            Ends-old (old_image ++ take n buf) (take n buf) old_len _ refl (omega arith)
              (Stage-write old_image (take n buf) m (omega arith) p.0 p.1.position)))

  sync_part :
      Triple
        (At st st new_image old_len (old_len + length buf) old_len)
        (with_file fdatasync)
        (λ (a : Unit {0}) m. At st st new_image (length new_image) (old_len + length buf) old_len m)
        Ends
  unfolding fdatasync
  sync_part =
      Triple-with_file fdatasync st.session_seq (λ m p. p.1.opened)
        (Triple-syscall io _ _
          (λ m p. (
            Stage-sync new_image m p.0,
            record { opened = p.1.opened; position = p.1.position; counted = p.1.counted },
          ))
          (λ m n p. Ends-old new_image buf old_len m refl (omega arith) p.0))

  advance_part :
      Triple
        (At st st new_image (length new_image) (old_len + length buf) old_len)
        (modify {E = CollectorError} (advance (length buf) (length recs) last_seq))
        (λ (a : Unit {0}) m.
          At goal_state st new_image
            (length new_image)
            (old_len + length buf)
            (old_len + length buf)
            m)
        Ends
  advance_part = Triple-modify (advance (length buf) (length recs) last_seq) (λ m p. (
    record {
      header = p.0.header;
      in_memory =
          ap
            (λ (x : ResumeState). record x {
              committed_gpidx = add64 x.committed_gpidx (length recs);
              last_seq = last_seq;
            })
            p.0.in_memory;
      on_disk_now = p.0.on_disk_now;
      on_disk_safe = p.0.on_disk_safe;
      bytes = p.0.bytes;
      durable = p.0.durable;
    },
    record {
      opened = p.1.opened;
      position = p.1.position;
      counted = ap (λ k. k + length buf) p.1.counted;
    },
  ))

  persist_part :
      Triple
        (At goal_state st new_image
          (length new_image)
          (old_len + length buf)
          (old_len + length buf))
        persist_state
        (λ (a : Unit {0}) m.
          At goal_state goal_state new_image
            (length new_image)
            (old_len + length buf)
            (old_len + length buf)
            m)
        Ends
  persist_part =
      Triple-persist_state gh goal_state st st new_image (length new_image)
        (IsOpen st.session_seq (old_len + length buf) (old_len + length buf)) Ends
        (λ m d p. record { opened = p.opened; position = p.position; counted = p.counted })
        Ends-before Ends-between

  -- What holds at the end.
  abbrev Done : Mirror → Type 0
  Done m = Stored gh goal_state (rs ++ recs) m

  done :
      (m : Mirror)
      → At goal_state goal_state new_image
          (length new_image)
          (old_len + length buf)
          (old_len + length buf)
          m
      → Done (published m)
  done m p =
      let e : new_image ≡ image gh (rs ++ recs) = sym (image-append gh rs recs) in
      let len : old_len + length buf ≡ length (image gh (rs ++ recs)) =
        omega (arith, ap length e, length-append old_image buf) in
      let g = subst (λ c. Stage gh goal_state goal_state goal_state c (length c) m) e p.0 in
      record {
        stage = record {
          header = g.header;
          in_memory = g.in_memory;
          on_disk_now = g.on_disk_now;
          on_disk_safe = g.on_disk_safe;
          bytes = g.bytes;
          durable = g.durable;
        };
        handle = record {
          opened = p.1.opened;
          position = p.1.position ∙ len;
          counted = p.1.counted ∙ len;
        };
        counts = Covers-new.0;
        shown = record {
          committed = refl;
          session_start = refl;
          session_seq = refl;
          committed_len = refl;
        };
        valid = All-append (IsRecord gh.snaplen) rs recs valid new_valid;
      }

  publish_part :
      Triple
        (At goal_state goal_state new_image
          (length new_image)
          (old_len + length buf)
          (old_len + length buf))
        publish
        (λ (a : Unit {0}) m. Done m)
        Ends
  unfolding publish
  publish_part = Triple-modify published done

  append_part :
      Triple
        (At st st old_image old_len old_len old_len)
        (append_bytes buf (length recs) last_seq)
        (λ (a : Unit {0}) m. Done m)
        Ends
  unfolding append_bytes
  append_part =
      Triple-then
        (Triple-then (Triple-then (Triple-then write_part (λ a. sync_part)) (λ a. advance_part))
          (λ a. persist_part))
        (λ a. publish_part)

-- From a mirror that stores `rs`, Append of valid records either returns, and then the mirror
-- stores `rs ++ recs` with the commit point and the last sequence number advanced, or stops at a call
-- that failed, and then the directory is recoverable with `rs` or with `rs ++ recs`.
pub append_commits :
    (gh : GlobalHeader) (st : ResumeState) (rs recs : List Record) (last_seq : ℕ) (s : Sys Mirror)
    → Stored gh st rs s.state
    → All (IsRecord gh.snaplen) recs
    → recs ≢ []
    → st.committed_gpidx + length recs < 2 ^ 64
    → After
        (λ (a : Unit {0}) m. Stored gh (advanced st (length recs) last_seq) (rs ++ recs) m)
        (λ m. Recoverable gh st.session_seq rs (rs ++ recs) m.disk)
        s.faults
        (append recs last_seq s)
unfolding append
append_commits gh st rs [] last_seq s h valid some_recs room = absurd (some_recs refl)
append_commits gh st rs (r ∷ recs) last_seq s h valid some_recs room =
    let t = append_part gh st rs (r ∷ recs) last_seq h.counts h.valid valid room in
    let e : encode_all (r ∷ recs) [] ≡ encode_records (r ∷ recs) = encode_all-eq (r ∷ recs) [] in
    subst
      (λ bs.
        After
          (λ (a : Unit {0}) m.
            Stored gh (advanced st (length (r ∷ recs)) last_seq) (rs ++ (r ∷ recs)) m)
          (λ m. Recoverable gh st.session_seq rs (rs ++ (r ∷ recs)) m.disk) s.faults
          (append_bytes bs (length (r ∷ recs)) last_seq s))
      (sym e) (t.run s (h.stage, h.handle))
