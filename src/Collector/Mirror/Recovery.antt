-- ===== src/Collector/Mirror/Recovery.antt =====
-- `OpenMirror` on what a power loss left.
use ipcap.Base.{
  ℕ, ◌+◌, ◌-◌, ◌≤◌, ◌<◌, ◌^◌, ◌≡◌, refl, sym, ap, ◌∙◌, subst, arith, some, List, [], Result, ◌++◌,
  length, All, inl, false, if◌then◌else◌, ltb, le→ltb, sub64, append-nil, append_assoc,
  length-append, take-append_length,
}
use ipcap.Storage.Io.{Sys}
use ipcap.Storage.Triple.{Triple, Triple-syscall, Triple-then, Triple-modify, Triple-quiet, After}
use ipcap.Storage.File.{truncate}
use ipcap.Pcap.{GlobalHeader, Record, append_global_header}
use ipcap.Pcap.Encoding.{IsRecord, length-append_global_header}
use ipcap.Pcap.Scan.{encode_records}
use ipcap.Collector.State.{
  ResumeState, Mirror, CollectorError, io, fdatasync, publish, published, truncate_file, seek_end,
}
use ipcap.Collector.Mirror.{
  recover_session, recover_tail, lowered, record_offset_for_count, open_file_of, open_session,
  fresh_header,
}
use ipcap.Collector.Mirror.Stages.{Stage, IsOpen, Stage-sync, update-eq}
use ipcap.Collector.Mirror.Stored.{Stored}
use ipcap.Collector.Mirror.Recoverable.{
  image, Counts, Covers, Recoverable, file_of, Stage-Recoverable,
}
use ipcap.Collector.Mirror.Offset.{record_offset-encode_records}

module _ (gh : GlobalHeader) (st : ResumeState) (rs : List Record) (rest : List ℕ) (k : ℕ)
    (counts : Counts st st.session_seq rs) (valid : All (IsRecord gh.snaplen) rs)
    (snaplen_bound : gh.snaplen < 2 ^ 32) (enough : length (image gh rs) ≤ k) where
  abbrev pub q : ℕ
  q = st.session_seq

  abbrev pub Ends : Mirror → Type 0
  Ends m = Recoverable gh q rs rs m.disk

  -- Before and after the truncation.
  abbrev pub Long : Mirror → Type 0
  Long m = Stage gh st st st (image gh rs ++ rest) k m

  abbrev pub Exact : ℕ → Mirror → Type 0
  Exact j m = Stage gh st st st (image gh rs) j m

  pub Long-Ends : (m : Mirror) → Long m → Ends m
  Long-Ends m g =
      let c : Covers gh q (file_of (image gh rs ++ rest) k) rs st =
        (counts, record { rest = rest; front = refl; enough = enough; valid = valid }) in
      Stage-Recoverable gh st st st (image gh rs ++ rest) k rs rs m (inl c) (inl c) g

  Exact-Ends : (j : ℕ) (m : Mirror) → length (image gh rs) ≤ j → Exact j m → Ends m
  Exact-Ends j m le g =
      let c : Covers gh q (file_of (image gh rs) j) rs st = (
        counts,
        record { rest = []; front = sym (append-nil (image gh rs)); enough = le; valid = valid },
      ) in
      Stage-Recoverable gh st st st (image gh rs) j rs rs m (inl c) (inl c) g

  offset_found :
      record_offset_for_count (image gh rs ++ rest) gh.snaplen (length rs) 24 0
      ≡ (length (image gh rs), length rs)
  offset_found =
      let h = append_global_header gh [] in
      let len : length h ≡ 24 = length-append_global_header gh in
      let total : length h + length (encode_records rs) ≡ length (image gh rs) =
        sym (length-append h (encode_records rs)) in
      let count : 0 + length rs ≡ length rs = omega arith in
      (λ i.
        record_offset_for_count (append_assoc h (encode_records rs) rest i) gh.snaplen (length rs)
          (sym len i) 0)
      ∙ record_offset-encode_records gh.snaplen 0 h rs rest valid snaplen_bound
      ∙ (λ i. (total i, count i))

  want_eq : sub64 st.committed_gpidx st.session_start_gpidx ≡ length rs
  want_eq = omega (arith, counts.count, counts.bound)

  image_len : length (image gh rs) ≡ 24 + length (encode_records rs)
  image_len = omega (
    arith,
    length-append (append_global_header gh []) (encode_records rs),
    length-append_global_header gh,
  )

  whole : ltb (length (image gh rs ++ rest)) 24 ≡ false
  whole = le→ltb _ _ (omega (arith, image_len, length-append (image gh rs) rest))

  recover-eq :
      (s : Sys Mirror)
      → Long s.state
      → recover_session q s ≡ recover_tail q (length rs) (length (image gh rs), length rs) s
  unfolding recover_session
  recover-eq s g =
      let run : List ℕ
          → GlobalHeader
          → ResumeState
          → Result CollectorError (Unit {0}) × Sys Mirror =
        λ file h x.
          let want = sub64 x.committed_gpidx x.session_start_gpidx in
          if ltb (length file) 24
          then fresh_header q h s
          else recover_tail q want (record_offset_for_count file h.snaplen want 24 0) s in
      (λ i. run (g.bytes i) (g.header i) (g.in_memory i)) ∙ rw (whole, want_eq, offset_found)

  abbrev pub len : ℕ
  len = length (image gh rs)

  cut : (truncate len (file_of (image gh rs ++ rest) k)).bytes ≡ image gh rs
  cut =
      let none_missing : len - length (image gh rs ++ rest) ≡ 0 =
        omega (arith, length-append (image gh rs) rest) in
      rw (take-append_length (image gh rs) rest, none_missing) (append-nil (image gh rs))

  truncate_part : Triple Long (truncate_file q len) (λ (a : Unit {0}) m. Exact len m) Ends
  unfolding truncate_file
  truncate_part =
      Triple-syscall io _ _
        (λ m g.
          let to_file = update-eq q (truncate len) m.disk.files in
          record {
            header = g.header;
            in_memory = g.in_memory;
            on_disk_now = g.on_disk_now;
            on_disk_safe = g.on_disk_safe;
            bytes =
                (λ i. (to_file i).bytes)
                ∙ (λ i. (truncate len (file_of (g.bytes i) k)).bytes)
                ∙ cut;
            durable = (λ i. (to_file i).synced) ∙ omega (arith, g.durable);
          })
        (λ m n g. Long-Ends m g)

  same_state :
      (m : Mirror) → Long m → Long (record m { state = lowered (length rs) (length rs) m.state })
  same_state m g = record {
    header = g.header;
    in_memory = rw (le→ltb (length rs) (length rs) (omega arith)) g.in_memory;
    on_disk_now = g.on_disk_now;
    on_disk_safe = g.on_disk_safe;
    bytes = g.bytes;
    durable = g.durable;
  }

  tail_part :
      Triple Long
        (recover_tail q (length rs) (len, length rs))
        (λ (a : Unit {0}) m. Exact len m)
        Ends
  tail_part =
      Triple-then
        (Triple-modify (λ m. record m { state = lowered (length rs) (length rs) m.state })
          same_state)
        (λ a. truncate_part)

  recover_part : Triple Long (recover_session q) (λ (a : Unit {0}) m. Exact len m) Ends
  recover_part = record {
    run = λ s g.
        subst (λ r. After (λ (a : Unit {0}) m. Exact len m) Ends s.faults r) (sym (recover-eq s g))
          (tail_part.run s g);
  }

  sync_part : Triple (Exact len) (fdatasync q) (λ (a : Unit {0}) m. Exact len m) Ends
  unfolding fdatasync
  sync_part =
      Triple-syscall io _ _ (λ m g. Stage-sync (image gh rs) m g)
        (λ m n g. Exact-Ends len m (omega arith) g)

  seek_part : Triple (Exact len) (seek_end q) (λ (a : Unit {0}) m. Exact len m × (m.pos ≡ len)) Ends
  unfolding seek_end
  seek_part =
      Triple-syscall io _ _
        (λ m g. (
          record {
            header = g.header;
            in_memory = g.in_memory;
            on_disk_now = g.on_disk_now;
            on_disk_safe = g.on_disk_safe;
            bytes = g.bytes;
            durable = g.durable;
          },
          ap length g.bytes,
        ))
        (λ m n g. Exact-Ends len m (omega arith) g)

  IsOpen-part :
      Triple Long (open_file_of q) (λ (a : Unit {0}) m. Exact len m × IsOpen q len len m) Ends
  unfolding open_file_of
  IsOpen-part =
      Triple-then
        (Triple-then
          (Triple-then
            (Triple-then
              (Triple-then
                (Triple-syscall {P = Long} {Q = Long} {I = Ends} io (λ m. record m { pos = 0 })
                  (λ j m. m)
                  (λ m g. record {
                    header = g.header;
                    in_memory = g.in_memory;
                    on_disk_now = g.on_disk_now;
                    on_disk_safe = g.on_disk_safe;
                    bytes = g.bytes;
                    durable = g.durable;
                  })
                  (λ m n g. Long-Ends m g))
                (λ a. Triple-quiet {P = Long} {I = Ends} io Long-Ends))
              (λ a. recover_part))
            (λ a. sync_part))
          (λ a. seek_part))
        (λ a.
          Triple-modify (λ m. record m { file = some q; file_len = m.pos })
            (λ m g. (
              record {
                header = g.0.header;
                in_memory = g.0.in_memory;
                on_disk_now = g.0.on_disk_now;
                on_disk_safe = g.0.on_disk_safe;
                bytes = g.0.bytes;
                durable = g.0.durable;
              },
              record { opened = refl; position = g.1; counted = g.1 },
            )))

  pub session_part :
      Triple Long open_session (λ (a : Unit {0}) m. Exact len m × IsOpen q len len m) Ends
  unfolding open_session
  session_part = record {
    run = λ s g.
        subst
          (λ x.
            After (λ (a : Unit {0}) m. Exact len m × IsOpen q len len m) Ends s.faults
              (open_file_of x s))
          (λ i. (sym g.in_memory i).session_seq) (IsOpen-part.run s g);
  }

  pub publish_part :
      Triple
        (λ m. Exact len m × IsOpen q len len m)
        publish
        (λ (a : Unit {0}) m. Stored gh st rs m)
        Ends
  unfolding publish
  publish_part = Triple-modify published (λ m g. record {
    stage = record {
      header = g.0.header;
      in_memory = g.0.in_memory;
      on_disk_now = g.0.on_disk_now;
      on_disk_safe = g.0.on_disk_safe;
      bytes = g.0.bytes;
      durable = g.0.durable;
    };
    handle = record { opened = g.1.opened; position = g.1.position; counted = g.1.counted };
    counts = counts;
    shown = record {
      committed = refl;
      session_start = refl;
      session_seq = refl;
      committed_len = refl;
    };
    valid = valid;
  })
