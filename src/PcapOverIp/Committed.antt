-- ===== src/PcapOverIp/Committed.antt =====
-- internal/pcapoverip/server.go: a client of a mirror gets what is committed while it is connected.
use ipcap.Base.{
  ℕ, suc, ◌<◌, ◌^◌, ◌≡◌, ◌≢◌, refl, sym, ap, ◌∙◌, subst, List, [], ◌∷◌, ◌++◌, All, false, ◌==◌,
  append-nil, append_assoc, All-of_append, ==_iff, length, length-append, arith,
}
use ipcap.Storage.Io.{Sys, modify, quiet, ◌>>◌}
use ipcap.Storage.Triple.{
  After, Triple, Triple-weaken, Triple-then, Triple-modify, Triple-quiet, Triple-pure, Triple-if,
}
use ipcap.Pcap.{GlobalHeader, Record, append_global_header}
use ipcap.Pcap.Encoding.{IsRecord}
use ipcap.Pcap.Scan.{encode_records, encode_records-append}
use ipcap.Collector.State.{ResumeState, Mirror}
use ipcap.Collector.Mirror.Recoverable.{image}
use ipcap.Collector.Mirror.Stored.{Stored, image-append}
use ipcap.PcapOverIp.Server.{Client, open_failed, move, mirror_source, write_conn, polls, serve}
use ipcap.PcapOverIp.Tailing.{
  Got, Part, Part-after, Part-front, Between, write_conn-Got, send_records-Got,
}

-- The mirror is in the session `q` and advertises these records, which stand at the front of the
-- session's file. Bytes behind them may belong to a call of Append that is under way.
pub record Shows (gh : GlobalHeader) (q : ℕ) (rs : List Record) (m : Mirror) : Type 0 where
  pub tail : List ℕ
  pub bytes : (m.disk.files q).bytes ≡ image gh rs ++ tail
  pub session : m.session_seq ≡ q
  pub committed : m.committed_len ≡ length (image gh rs)
  pub valid : All (IsRecord gh.snaplen) rs

-- The invariant of the mirror between its operations is a case of it.
pub Stored-Shows :
    (gh : GlobalHeader) (st : ResumeState) (rs : List Record) (m : Mirror)
    → Stored gh st rs m
    → Shows gh st.session_seq rs m
Stored-Shows gh st rs m s = record {
  tail = [];
  bytes = s.stage.bytes ∙ sym (append-nil (image gh rs));
  session = s.shown.session_seq ∙ ap (λ t. t.session_seq) s.stage.in_memory;
  committed = s.shown.committed_len ∙ s.handle.counted;
  valid = s.valid;
}

-- What a client meets whose session had the records `rs` when it last looked: `news` are the records
-- that are committed from then on, up to its last look or to the first one in another session.
pub data Met (gh : GlobalHeader) (q : ℕ) : List Record → List Mirror → List Record → Type 0 where
  cancelled : (rs : List Record) → Met gh q rs [] []
  rotated :
      (rs : List Record) (m : Mirror) (ms : List Mirror)
      → m.session_seq ≢ q
      → Met gh q rs (m ∷ ms) []
  grown :
      (rs more news : List Record) (m : Mirror) (ms : List Mirror)
      → Shows gh q (rs ++ more) m
      → Met gh q (rs ++ more) ms news
      → Met gh q rs (m ∷ ms) (more ++ news)

Shows-Between :
    (gh : GlobalHeader) (q : ℕ) (rs more : List Record) (m : Mirror)
    → Shows gh q (rs ++ more) m
    → Between gh.snaplen (length (image gh rs)) m.committed_len (m.disk.files q).bytes more
Shows-Between gh q rs more m s = record {
  front = image gh rs;
  back = s.tail;
  content =
      s.bytes
      ∙ ap (λ t. t ++ s.tail) (image-append gh rs more)
      ∙ append_assoc (image gh rs) (encode_records more) s.tail;
  starts = refl;
  ends =
      s.committed
      ∙ ap length (image-append gh rs more)
      ∙ length-append (image gh rs) (encode_records more);
  valid = (All-of_append (IsRecord gh.snaplen) rs more s.valid).1;
}

module _ (gh : GlobalHeader) (q : ℕ) (bound : gh.snaplen < 2 ^ 32) where
  -- The end of the client: it stands anywhere, and has got `bs` since it had `before`.
  abbrev Given : List ℕ → List ℕ → Client → Type 0
  Given before bs c = c.conn ≡ before ++ bs

  not_other : (m : Mirror) → m.session_seq ≡ q → ¬ ((m.session_seq == q) ≡ false)
  not_other m same e = ground arith

  polls-Given :
      (rs : List Record) (ms : List Mirror) (news : List Record) (before : List ℕ)
      → Met gh q rs ms news
      → Triple
          (Got before [] (length (image gh rs)))
          (polls mirror_source q gh ms)
          (λ u. Given before (encode_records news))
          (Part before (encode_records news))
  unfolding polls
  polls-Given rs _ _ before (cancelled _) =
      Triple-weaken (Triple-pure tt) (λ c g. g.0) (λ u c g. g) (λ c g. g)
  polls-Given rs _ _ before (rotated _ m ms other) =
      Triple-if (m.session_seq == q) _ _ (λ e. absurd (other ((==_iff m.session_seq q).0 e)))
        (λ e. Triple-weaken (Triple-pure tt) (λ c g. g.0) (λ u c g. g) (λ c g. g))
  polls-Given rs _ _ before (grown _ more news m ms shows later) =
      let joined = sym (encode_records-append more news) in
      let split_len =
        ap length (image-append gh rs more) ∙ length-append (image gh rs) (encode_records more) in
      Triple-if (m.session_seq == q) _ _
        (λ e.
          Triple-then
            {Q = λ u. Got (before ++ encode_records more) [] (length (image gh (rs ++ more)))}
            (Triple-weaken
              (send_records-Got (suc m.committed_len) gh.snaplen m.committed_len
                (length (image gh rs)) (m.disk.files q).bytes before more bound
                (omega (arith, shows.committed, split_len)) (Shows-Between gh q rs more m shows))
              (λ c g. g)
              (λ u c (g, l).
                (g ∙ sym (append-nil (before ++ encode_records more)), l ∙ shows.committed))
              (λ c g.
                subst (λ x. Part before x c) joined
                  (Part-front before (encode_records more) (encode_records news) c g)))
            (λ u.
              Triple-weaken (polls-Given (rs ++ more) ms news (before ++ encode_records more) later)
                (λ c g. g)
                (λ u c g.
                  g
                  ∙ append_assoc before (encode_records more) (encode_records news)
                  ∙ ap (λ t. before ++ t) joined)
                (λ c g.
                  subst (λ x. Part before x c) joined
                    (Part-after before (encode_records more) (encode_records news) c g))))
        (λ e. absurd (not_other m shows.session e))

  -- A client that connects to a mirror with a snapshot length below 2^32, and meets the
  -- mirror's states in the order of its polls: when no write to it fails, it gets the global header, and
  -- after it the records that were committed since it connected, each once and in order, up to its last
  -- look or to the end of the session; else it gets a front of these bytes. With no failing call the
  -- goroutine returns.
  pub serve-committed :
      (rs news : List Record) (m : Mirror) (ms : List Mirror) (s : Sys Client)
      → Shows gh q rs m
      → m.gh ≡ gh
      → Met gh q rs ms news
      → s.state.conn ≡ []
      → After
          (λ u c. c.conn ≡ append_global_header gh [] ++ encode_records news)
          (Part [] (append_global_header gh [] ++ encode_records news))
          s.faults
          (serve mirror_source m ms s)
  unfolding serve
  serve-committed rs news m ms s shows header met fresh =
      let hdr = append_global_header gh [] in
      let at = length (image gh rs) in
      subst
        (λ (x : ℕ × ℕ × GlobalHeader).
          After (λ u c. c.conn ≡ hdr ++ encode_records news) (Part [] (hdr ++ encode_records news))
            s.faults
            ((modify (move x.0)
                >> write_conn (append_global_header x.2 [])
                >> quiet open_failed
                >> polls mirror_source x.1 x.2 ms)
              s))
        (λ i. (sym shows.committed i, sym shows.session i, sym header i))
        ((Triple-then {Q = λ u. Got hdr [] at} {R = λ u c. c.conn ≡ hdr ++ encode_records news}
            {I = Part [] (hdr ++ encode_records news)}
            (Triple-then {Q = λ u. Got hdr [] at}
              (Triple-then {Q = λ u. Got [] [] at} {P = λ c. c.conn ≡ []}
                (Triple-modify (move at) (λ c h. (h, refl)))
                (λ u.
                  Triple-weaken (write_conn-Got [] hdr at) (λ c g. g)
                    (λ u c (g, l). (g ∙ sym (append-nil hdr), l))
                    (λ c g. Part-front [] hdr (encode_records news) c g)))
              (λ u. Triple-quiet open_failed (λ c (g, l). record {
                got = hdr;
                rest = encode_records news;
                split = refl;
                conn = g ∙ append-nil hdr;
              })))
            (λ u.
              Triple-weaken (polls-Given rs ms news hdr met) (λ c g. g) (λ u c g. g)
                (λ c g. Part-after [] hdr (encode_records news) c g))).run
          s fresh)
