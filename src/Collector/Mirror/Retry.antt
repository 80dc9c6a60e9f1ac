-- ===== src/Collector/Mirror/Retry.antt =====
-- `Append` called again on a mirror whose last `Append` failed, as a reconnection does.
use ipcap.Base.{
  ℕ, ◌+◌, ◌≡◌, refl, sym, ap, ◌∙◌, subst, arith, some, List, [], ◌∷◌, ◌++◌, length, take, add64,
  Result, ok, ==_refl, append_assoc, length-append,
}
use ipcap.Storage.Io.{Fault, fine, fails, Sys, ◌>>◌, syscall, modify, quiet}
use ipcap.Storage.File.{File, write_at, write_at-end}
use ipcap.Pcap.{GlobalHeader, Record}
use ipcap.Pcap.Scan.{encode_records}
use ipcap.Collector.State.{ResumeState, Mirror, CollectorError}
use ipcap.Collector.Mirror.{append, encode_all}
use ipcap.Collector.Mirror.Stored.{Stored, encode_all-eq}
use ipcap.Collector.Mirror.Recoverable.{image}

-- The first call under a schedule, and the second with no fault, from what the first left.
abbrev pub first_try :
    List Record → ℕ → List Fault → Mirror → Result CollectorError (Unit {0}) × Sys Mirror
first_try recs seq fs m = append recs seq (record { state = m; faults = fs })

abbrev pub second_try :
    List Record → ℕ → List Fault → Mirror → Result CollectorError (Unit {0}) × Sys Mirror
second_try recs seq fs m =
    append recs seq (record { state = (first_try recs seq fs m).1.state; faults = [] })

-- What the second call leaves in the session's file, and its commit point.
pub record Retried (q : ℕ) (bytes : List ℕ) (at : ℕ)
    (r : Result CollectorError (Unit {0}) × Sys Mirror) : Type 0 where
  pub returned : r.0 ≡ ok tt
  pub content : (r.1.state.disk.files q).bytes ≡ bytes
  pub commit_point : r.1.state.state.committed_gpidx ≡ at

abbrev reopened : ℕ → Mirror → Mirror
reopened q m = record m { file = some q }

module _ (q : ℕ) (m : Mirror) (r : Record) (recs : List Record) (seq : ℕ)
    (at_end : m.pos ≡ length (m.disk.files q).bytes) where
  abbrev f : File
  f = m.disk.files q

  abbrev buf : List ℕ
  buf = encode_all (r ∷ recs) []

  write_twice :
      (a b : List ℕ)
      → (write_at (m.pos + length a) b (write_at m.pos a f)).bytes ≡ f.bytes ++ (a ++ b)
  write_twice a b =
      let g = write_at m.pos a f in
      let once : g.bytes ≡ f.bytes ++ a =
        ap (λ p. (write_at p a f).bytes) at_end ∙ write_at-end a f in
      let end : m.pos + length a ≡ length g.bytes =
        omega (arith, at_end, ap length once, length-append f.bytes a) in
      ap (λ p. (write_at p b g).bytes) end
      ∙ write_at-end b g
      ∙ ap (λ t. t ++ b) once
      ∙ append_assoc f.bytes a b

  torn :
      (n : ℕ)
      → Retried q
          (f.bytes ++ (take n buf ++ buf))
          (add64 m.state.committed_gpidx (length (r ∷ recs)))
          (second_try (r ∷ recs) seq (fails n ∷ []) (reopened q m))
  unfolding append ◌>>◌ syscall modify quiet
  torn n = record {
    returned = refl;
    content = rw (==_refl q) (write_twice (take n buf) buf);
    commit_point = refl;
  }

  unpublished :
      Retried q
        (f.bytes ++ (buf ++ buf))
        (add64 (add64 m.state.committed_gpidx (length (r ∷ recs))) (length (r ∷ recs)))
        (second_try (r ∷ recs) seq (fine ∷ fine ∷ fails 0 ∷ []) (reopened q m))
  unfolding append ◌>>◌ syscall modify quiet
  unpublished = record {
    returned = refl;
    content = rw (==_refl q) (write_twice buf buf);
    commit_point = refl;
  }

module _ (gh : GlobalHeader) (st : ResumeState) (rs recs : List Record) (r : Record) (seq : ℕ)
    (m : Mirror) (stored : Stored gh st rs m) where
  abbrev q : ℕ
  q = st.session_seq

  abbrev encoded : List ℕ
  encoded = encode_records (r ∷ recs)

  at_end : m.pos ≡ length (m.disk.files q).bytes
  at_end = stored.handle.position ∙ ap length (sym stored.stage.bytes)

  open_again : reopened q m ≡ m
  open_again i = record m { file = sym stored.handle.opened i }

  filled : encode_all (r ∷ recs) [] ≡ encoded
  filled = encode_all-eq (r ∷ recs) []

  -- When the write of Append fails after `n` bytes, these stay: the next Append of the same records
  -- returns, with the bytes of the torn write between the old records and the new ones.
  pub append_retry_torn :
      (n : ℕ)
      → Retried st.session_seq
          (image gh rs ++ (take n (encode_records (r ∷ recs)) ++ encode_records (r ∷ recs)))
          (add64 st.committed_gpidx (length (r ∷ recs)))
          (second_try (r ∷ recs) seq (fails n ∷ []) m)
  append_retry_torn n =
      subst
        (λ (x : List ℕ × List ℕ × ResumeState × Mirror).
          Retried q (x.0 ++ (take n x.1 ++ x.1)) (add64 x.2.committed_gpidx (length (r ∷ recs)))
            (second_try (r ∷ recs) seq (fails n ∷ []) x.3))
        (λ i. (stored.stage.bytes i, filled i, stored.stage.in_memory i, open_again i))
        (torn q m r recs seq at_end n)

  -- When the resume state cannot be written, the next Append of the same records returns too: the
  -- records stand in the file twice, and the commit point moves on twice.
  pub append_retry_unpublished :
      Retried st.session_seq
        (image gh rs ++ (encode_records (r ∷ recs) ++ encode_records (r ∷ recs)))
        (add64 (add64 st.committed_gpidx (length (r ∷ recs))) (length (r ∷ recs)))
        (second_try (r ∷ recs) seq (fine ∷ fine ∷ fails 0 ∷ []) m)
  append_retry_unpublished =
      subst
        (λ (x : List ℕ × List ℕ × ResumeState × Mirror).
          Retried q (x.0 ++ (x.1 ++ x.1))
            (add64 (add64 x.2.committed_gpidx (length (r ∷ recs))) (length (r ∷ recs)))
            (second_try (r ∷ recs) seq (fine ∷ fine ∷ fails 0 ∷ []) x.3))
        (λ i. (stored.stage.bytes i, filled i, stored.stage.in_memory i, open_again i))
        (unpublished q m r recs seq at_end)
