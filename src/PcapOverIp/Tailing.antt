-- ===== src/PcapOverIp/Tailing.antt =====
-- internal/pcapoverip/server.go: the inner loop sends the records between the cursor and the limit.
use ipcap.Base.{
  ℕ, zero, suc, ◌+◌, ◌^◌, ◌<◌, ◌≡◌, refl, sym, ap, ◌∙◌, subst, List, [], ◌∷◌, ◌++◌, All, true, ltb,
  ok, none, some, append-nil, append_assoc, length, take, drop, length-append, take-append-drop,
  lt→ltb, arith,
}
use ipcap.Storage.Io.{pure}
use ipcap.Storage.Triple.{After, Triple, Triple-weaken, Triple-then, Triple-modify, Triple-syscall}
use ipcap.Pcap.{Record, append_record, read_record_at, size}
use ipcap.Pcap.Encoding.{IsRecord, length-append_record}
use ipcap.Pcap.ReadAt.{read_record_at-append_record}
use ipcap.Pcap.Scan.{encode_records}
use ipcap.PcapOverIp.Server.{Client, write_failed, move, write_conn, send_record, send_records}

-- The client has got `bs` since it had `before`, and stands at `at`.
abbrev pub Got : List ℕ → List ℕ → ℕ → Client → Type 0
Got before bs at c = (c.conn ≡ before ++ bs) × (c.cursor ≡ at)

-- The client has got a front of `bs` since it had `before`.
pub record Part (before bs : List ℕ) (c : Client) : Type 0 where
  pub got : List ℕ
  pub rest : List ℕ
  pub split : bs ≡ got ++ rest
  pub conn : c.conn ≡ before ++ got

pub write_conn-Got :
    (before bs : List ℕ) (at : ℕ)
    → Triple (Got before [] at) (write_conn bs) (λ u. Got before bs at) (Part before bs)
unfolding write_conn
write_conn-Got before bs at =
    Triple-syscall write_failed _ _ (λ c (h, k). (ap (λ t. t ++ bs) (h ∙ append-nil before), k))
      (λ c n (h, k). record {
        got = take n bs;
        rest = drop n bs;
        split = sym (take-append-drop n bs);
        conn = ap (λ t. t ++ take n bs) (h ∙ append-nil before);
      })

pub Part-after :
    (before xs ys : List ℕ) (c : Client) → Part (before ++ xs) ys c → Part before (xs ++ ys) c
Part-after before xs ys c p = record {
  got = xs ++ p.got;
  rest = p.rest;
  split = ap (λ t. xs ++ t) p.split ∙ sym (append_assoc xs p.got p.rest);
  conn = p.conn ∙ append_assoc before xs p.got;
}

pub Part-front : (before xs ys : List ℕ) (c : Client) → Part before xs c → Part before (xs ++ ys) c
Part-front before xs ys c p = record {
  got = p.got;
  rest = p.rest ++ ys;
  split = ap (λ t. t ++ ys) p.split ∙ append_assoc p.got p.rest ys;
  conn = p.conn;
}

-- Nothing is read behind the committed bytes.
read_record_at-end : (file : List ℕ) (at snaplen : ℕ) → read_record_at file at at snaplen ≡ ok none
unfolding read_record_at
read_record_at-end file at snaplen =
    let outside : ltb at (at + 16) ≡ true = lt→ltb _ _ (omega arith) in rw outside refl

-- The records `rs` stand in the file between the position `at` and the limit.
pub record Between (snaplen at limit : ℕ) (file : List ℕ) (rs : List Record) : Type 0 where
  pub front : List ℕ
  pub back : List ℕ
  pub content : file ≡ front ++ (encode_records rs ++ back)
  pub starts : at ≡ length front
  pub ends : limit ≡ at + length (encode_records rs)
  pub valid : All (IsRecord snaplen) rs

Between-tail :
    (snaplen at limit : ℕ) (file : List ℕ) (r : Record) (rs : List Record)
    → Between snaplen at limit file (r ∷ rs)
    → Between snaplen (at + size r) limit file rs
unfolding size
Between-tail snaplen at limit file r rs b =
    let body = length-append_record r in
    record {
      front = b.front ++ append_record r [];
      back = b.back;
      content =
          b.content
          ∙ ap (λ t. b.front ++ t) (append_assoc (append_record r []) (encode_records rs) b.back)
          ∙ sym (append_assoc b.front (append_record r []) (encode_records rs ++ b.back));
      starts = omega (arith, b.starts, length-append b.front (append_record r []), body);
      ends = omega (arith, b.ends, length-append (append_record r []) (encode_records rs), body);
      valid = b.valid.1;
    }

read_record_at-Between :
    (snaplen at limit : ℕ) (file : List ℕ) (r : Record) (rs : List Record)
    → snaplen < 2 ^ 32
    → Between snaplen at limit file (r ∷ rs)
    → read_record_at file at limit snaplen ≡ ok (some (r, at + size r))
unfolding size
read_record_at-Between snaplen at limit file r rs bound b =
    let body = length-append_record r in
    let file_eq : file ≡ b.front ++ (append_record r [] ++ (encode_records rs ++ b.back)) =
      b.content
      ∙ ap (λ t. b.front ++ t) (append_assoc (append_record r []) (encode_records rs) b.back) in
    (λ i. read_record_at (file_eq i) (b.starts i) limit snaplen)
    ∙ read_record_at-append_record snaplen limit b.front r (encode_records rs ++ b.back) b.valid.0
        bound
        (omega
          (arith, b.starts, b.ends, length-append (append_record r []) (encode_records rs), body))
    ∙ ap (λ n. ok (some (r, n + size r))) (sym b.starts)

-- The records between the cursor and the limit are sent, each once and in order, and the cursor is at
-- the limit then.
pub send_records-Got :
    (fuel snaplen limit at : ℕ) (file before : List ℕ) (rs : List Record)
    → snaplen < 2 ^ 32
    → length (encode_records rs) < fuel
    → Between snaplen at limit file rs
    → Triple
        (Got before [] at)
        (send_records fuel file limit snaplen)
        (λ u. Got before (encode_records rs) limit)
        (Part before (encode_records rs))
unfolding send_records send_record pure size
send_records-Got zero snaplen limit at file before rs bound enough b = absurd (omega arith)
send_records-Got (suc fuel) snaplen limit at file before [] bound enough b = record {
  run = λ s (h, k).
      let here : limit ≡ at = b.ends ∙ (omega arith) in
      subst
        (λ x.
          After (λ u. Got before [] limit) (Part before []) s.faults
            (send_record (send_records fuel file limit snaplen) x s))
        (sym (
          (λ i. read_record_at file ((k ∙ sym here) i) limit snaplen)
          ∙ read_record_at-end file limit snaplen))
        ((h, k ∙ sym here), λ fine_all. fine_all);
}
send_records-Got (suc fuel) snaplen limit at file before (r ∷ rs) bound enough b = record {
  run = λ s (h, k).
      let bytes = append_record r [] in
      let sizes = length-append bytes (encode_records rs) in
      let body = length-append_record r in
      subst
        (λ x.
          After (λ u. Got before (bytes ++ encode_records rs) limit)
            (Part before (bytes ++ encode_records rs)) s.faults
            (send_record (send_records fuel file limit snaplen) x s))
        (sym (
          ap (λ c. read_record_at file c limit snaplen) k
          ∙ read_record_at-Between snaplen at limit file r rs bound b))
        ((Triple-then {Q = λ u. Got (before ++ bytes) [] (at + size r)}
            {R = λ u. Got before (bytes ++ encode_records rs) limit}
            {I = Part before (bytes ++ encode_records rs)}
            (Triple-then {Q = λ u. Got before bytes at}
              (Triple-weaken (write_conn-Got before bytes at) (λ c g. g) (λ u c g. g)
                (λ c p. Part-front before bytes (encode_records rs) c p))
              (λ u.
                Triple-modify (move (at + size r))
                  (λ c (g, l). (g ∙ sym (append-nil (before ++ bytes)), refl))))
            (λ u.
              Triple-weaken
                (send_records-Got fuel snaplen limit (at + size r) file (before ++ bytes) rs bound
                  (omega arith) (Between-tail snaplen at limit file r rs b))
                (λ c g. g) (λ u c (g, l). (g ∙ append_assoc before bytes (encode_records rs), l))
                (λ c g. Part-after before bytes (encode_records rs) c g))).run
          s (h, k));
}
