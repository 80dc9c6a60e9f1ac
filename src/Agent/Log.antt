-- ===== src/Agent/Log.antt =====
-- internal/agent/serve_cmd.go: what a streamer has sent, item by item, and what that says of the
-- source's packets.
use ipcap.Base.{
  ℕ, ◌+◌, ◌≤◌, ◌<◌, ◌≡◌, refl, sym, ap, ◌⊎◌, ◌∙◌, subst, List, [], ◌∷◌, ◌++◌, append_assoc,
  append-nil, length, if◌then◌else◌, add64,
}
use ipcap.Proto.Types.{
  frame_pkt_batch, frame_heartbeat, frame_tls_keylog, frame_stats, frame_gap, flag_compressed,
  flag_gap,
}
use ipcap.Proto.Frame.{Frame, append_frame}
use ipcap.Proto.Zstd.{compress_batch}
use ipcap.Proto.Batch.{PktRecord, encode_pkt_batch}
use ipcap.Proto.Messages.{encode_gap}
use ipcap.Collector.Demux.ExactlyOnce.{packets}
use ipcap.Agent.Streamer.{Options, set_seq}

-- `note`: a heartbeat, the statistics or a key log line.
pub data Item : Type 0 where
  packet_batch : ℕ → List PktRecord → Item
  gap : ℕ → ℕ → Item
  note : ℕ → List ℕ → Item

abbrev pub item_type : Item → ℕ
item_type (packet_batch base recs) = frame_pkt_batch
item_type (gap from to) = frame_gap
item_type (note t payload) = t

abbrev pub plain_frame : Options → ℕ → ℕ → ℕ → List ℕ → ℕ → Frame
plain_frame o t flags base payload seq = record {
  frame_type = t;
  flags = flags;
  source_id = o.src_id;
  base_gpidx = base;
  seq = seq;
  payload = payload;
}

-- The frame that carries an item.
abbrev pub item_frame : Options → Item → ℕ → Frame
item_frame o (packet_batch base recs) seq =
    if o.compress
    then plain_frame o frame_pkt_batch flag_compressed base
        (compress_batch o.zstd (encode_pkt_batch recs)) seq
    else plain_frame o frame_pkt_batch 0 base (encode_pkt_batch recs) seq
item_frame o (gap from to) seq =
    plain_frame o frame_gap flag_gap 0
      (encode_gap (record { src_id = o.src_id; from_gpidx = from; to_gpidx = to })) seq
item_frame o (note t payload) seq = plain_frame o t 0 0 payload seq

abbrev pub bump : (ℕ → ℕ) → Item → ℕ → ℕ
bump seq it = set_seq seq (item_type it) (add64 (seq (item_type it)) 1)

-- The map of sequence numbers behind a log.
abbrev pub bumps : (ℕ → ℕ) → List Item → ℕ → ℕ
bumps seq [] = seq
bumps seq (it ∷ log) = bumps (bump seq it) log

-- The bytes of a log whose frames are numbered from `seq` on, type by type.
abbrev pub wire : Options → (ℕ → ℕ) → List Item → List ℕ
wire o seq [] = []
wire o seq (it ∷ log) =
    append_frame (item_frame o it (seq (item_type it))) [] ++ wire o (bump seq it) log

pub bumps-append :
    (seq : ℕ → ℕ) (log : List Item) (it : Item)
    → bumps seq (log ++ (it ∷ [])) ≡ bump (bumps seq log) it
bumps-append seq [] it = refl
bumps-append seq (x ∷ log) it = bumps-append (bump seq x) log it

pub wire-append :
    (o : Options) (seq : ℕ → ℕ) (log : List Item) (it : Item)
    → wire o seq (log ++ (it ∷ []))
      ≡ wire o seq log ++ append_frame (item_frame o it (bumps seq log (item_type it))) []
wire-append o seq [] it = append-nil (append_frame (item_frame o it (seq (item_type it))) [])
wire-append o seq (x ∷ log) it =
    let front = append_frame (item_frame o x (seq (item_type x))) [] in
    ap (λ t. front ++ t) (wire-append o (bump seq x) log it)
    ∙ sym (append_assoc front (wire o (bump seq x) log) _)

-- The bytes that the reader counts for the packets of a batch.
abbrev pub weight : List PktRecord → ℕ
weight [] = 0
weight (p ∷ ps) = 16 + length p.body + weight ps

-- The types of frames that carry no packets.
abbrev pub IsNote : ℕ → Type 0
IsNote t = (t ≡ frame_heartbeat) ⊎ ((t ≡ frame_stats) ⊎ (t ≡ frame_tls_keylog))

module _ (o : Options) (limit : ℕ) (src : ℕ → PktRecord) where
  -- The item leads from packet number `p` to packet number `q`: a batch holds the packets from `p` on
  -- to `q`, at least one, within the limits, where no packet is longer than `limit`; a gap names both
  -- numbers.
  abbrev pub Leads : ℕ → Item → ℕ → Type 0
  Leads p (packet_batch base recs) q =
      (base ≡ p)
      × (recs ≡ packets src p (length recs))
      × (q ≡ p + length recs)
      × (0 < length recs)
      × (length recs ≤ o.batch_max_packets)
      × (weight recs < o.batch_max_bytes + (16 + limit))
  Leads p (gap from to) q = (from ≡ p) × (q ≡ to)
  Leads p (note t payload) q = IsNote t × (q ≡ p)

  -- The log leads from `p` to `q` without a break.
  abbrev pub Follows : ℕ → List Item → ℕ → Type 0
  Follows p [] q = q ≡ p
  Follows p (it ∷ log) q = (m : ℕ) × Leads p it m × Follows m log q

  pub Follows-append :
      (p : ℕ) (log : List Item) (m : ℕ) (it : Item) (q : ℕ)
      → Follows p log m
      → Leads m it q
      → Follows p (log ++ (it ∷ [])) q
  Follows-append p [] m it q h l = (q, subst (λ (x : ℕ). Leads x it q) h l, refl)
  Follows-append p (x ∷ log) m it q (k, l', h) l = (k, l', Follows-append k log m it q h l)
