-- ===== src/Spool/Writer.antt =====
-- internal/spool/spool.go: the append-only writer of the spool.
-- The clock is read once for each call of an operation. The three calls that write head.json without a
-- sync are its rename and calls that change nothing that is modelled. A write of a manifest line that
-- fails leaves a line that does not parse, or nothing; that a cut right in front of the newline leaves
-- one that parses is not modelled.
use ipcap.Base.{
  ℕ, zero, suc, ◌+◌, ◌-◌, ◌*◌, ◌%◌, ◌^◌, Option, none, some, List, [], ◌∷◌, ◌++◌, length, take,
  Bool, true, false, ◌&&◌, ◌||◌, ltb, leb, ◌==◌, if◌then◌else◌, add64,
}
use ipcap.Storage.Io.{Io, pure, raise, gets, modify, syscall, quiet, ◌>>=◌, ◌>>◌}
use ipcap.Storage.File.{File, write_at, truncate, sync as sync_file}
use ipcap.Pcap.{Record, append_global_header, append_record, global_header_len}
use ipcap.Spool.{Segment, SpoolError, torn, entry, Dir, put_segment}

-- Sizes in bytes and times in nanoseconds; a value that is not positive is 0.
pub record Config : Type 0 where
  pub snaplen : ℕ
  pub link_type : ℕ
  pub rotate_bytes : ℕ
  pub rotate_interval : ℕ
  pub sync_bytes : ℕ
  pub sync_interval : ℕ

abbrev pub or_default : ℕ → ℕ → ℕ
or_default zero d = d
or_default (suc n) d = suc n

unfoldable pub apply_defaults : Config → Config
apply_defaults c = record {
  snaplen = or_default c.snaplen 65536;
  link_type = c.link_type;
  rotate_bytes = or_default c.rotate_bytes (64 * 2 ^ 20);
  rotate_interval = or_default c.rotate_interval 60_000_000_000;
  sync_bytes = or_default c.sync_bytes (64 * 2 ^ 10);
  sync_interval = or_default c.sync_interval 500_000_000;
}

-- `file` is the segment whose file is open, `pos` its write position.
pub record Writer : Type 0 where
  pub cfg : Config
  pub file : Option ℕ
  pub pos : ℕ
  pub active : Segment
  pub next_seq : ℕ
  pub sealed : List Segment
  pub head : ℕ
  pub oldest_gpidx : ℕ
  pub file_offset : ℕ
  pub durable_len : ℕ
  pub durable_end : ℕ
  pub pending_bytes : ℕ
  pub seg_start : ℕ
  pub last_sync : ℕ
  pub dir : Dir

pub data WriterError : Type 0 where
  io closed : WriterError
  recovery : SpoolError → WriterError

abbrev pub W : Type 0 → Type 0
W = Io WriterError Writer

abbrev pub on_dir : (Dir → Dir) → Writer → Writer
on_dir f w = record w { dir = f w.dir }

abbrev pub on_segment : ℕ → (File → File) → Writer → Writer
on_segment q f w =
    on_dir (λ d. record d { files = λ k. if k == q then f (d.files q) else d.files k }) w

abbrev pub write_effect : ℕ → List ℕ → Writer → Writer
write_effect q bs w = record (on_segment q (write_at w.pos bs) w) { pos = w.pos + length bs }

abbrev pub on_open : Option ℕ → (ℕ → W (Unit {0})) → W (Unit {0})
on_open none f = raise closed
on_open (some q) f = f q

unfoldable pub with_file : (ℕ → W (Unit {0})) → W (Unit {0})
with_file f s = on_open s.state.file f s

unfoldable pub write : ℕ → List ℕ → W (Unit {0})
write q bs = syscall io (write_effect q bs) (λ n. write_effect q (take n bs))

unfoldable pub fdatasync : ℕ → W (Unit {0})
fdatasync q = syscall io (on_segment q sync_file) (λ n w. w)

-- `publishHead`
abbrev pub durable_segment : Bool → Writer → Segment
durable_segment sealed w = record w.active {
  end_gpidx = w.durable_end;
  valid_len = w.durable_len;
  sealed = sealed;
}

unfoldable pub publish_head : W (Unit {0})
publish_head =
    quiet io
    >> quiet io
    >> quiet io
    >> syscall io (λ w. on_dir (λ d. record d { head_file = some (durable_segment false w) }) w)
        (λ n w. w)
    >> quiet io
    >> quiet io

abbrev pub synced : ℕ → Writer → Writer
synced now w = record w {
  durable_len = w.file_offset;
  durable_end = w.head;
  pending_bytes = 0;
  last_sync = now;
}

unfoldable pub sync : ℕ → W (Unit {0})
unfolding with_file fdatasync publish_head
sync now = with_file fdatasync >> modify (synced now) >> publish_head

abbrev pub add_line : Segment → Writer → Writer
add_line seg w = on_dir (λ d. record d { manifest = d.manifest ++ (entry seg ∷ []) }) w

abbrev pub torn_line : ℕ → Writer → Writer
torn_line zero w = w
torn_line (suc n) w = on_dir (λ d. record d { manifest = d.manifest ++ (torn ∷ []) }) w

-- `sealToManifest`; the mark is set in the copy that is written.
unfoldable pub seal_to_manifest : Segment → W (Unit {0})
unfolding put_segment
seal_to_manifest seg =
    let seg' : Segment = record seg { sealed = true } in
    syscall io (add_line seg') torn_line
    >> quiet io
    >> modify (λ w. record w { sealed = put_segment seg' w.sealed })

abbrev pub add_seq : ℕ → List ℕ → List ℕ
add_seq q [] = q ∷ []
add_seq q (p ∷ ps) = if q == p then p ∷ ps else if ltb q p then q ∷ (p ∷ ps) else p ∷ add_seq q ps

-- `OpenFile` with O_CREATE and O_TRUNC.
abbrev pub created : ℕ → Writer → Writer
created q w = on_dir (λ d. record d { seqs = add_seq q d.seqs }) (on_segment q (truncate 0) w)

-- The first write to the new handle.
unfoldable pub write_start : ℕ → List ℕ → W (Unit {0})
write_start q bs =
    syscall io (on_segment q (write_at 0 bs)) (λ n. on_segment q (write_at 0 (take n bs)))

abbrev pub activated : ℕ → ℕ → ℕ → Writer → Writer
activated now seq start_gpidx w = record w {
  file = some seq;
  pos = global_header_len;
  active = record {
    seq = seq;
    start_gpidx = start_gpidx;
    end_gpidx = start_gpidx;
    valid_len = global_header_len;
    sealed = false;
  };
  file_offset = global_header_len;
  durable_len = global_header_len;
  durable_end = start_gpidx;
  pending_bytes = 0;
  seg_start = now;
}

abbrev pub header_of : Config → List ℕ
header_of c = append_global_header (record { snaplen = c.snaplen; link_type = c.link_type }) []

-- The last two calls are `SyncDir`.
unfoldable pub open_new_segment : ℕ → ℕ → ℕ → W (Unit {0})
unfolding write_start fdatasync
open_new_segment now seq start_gpidx =
    syscall io (created seq) (λ n w. w)
    >> (gets (λ (w : Writer). header_of w.cfg) >>= write_start seq)
    >> fdatasync seq
    >> quiet io
    >> quiet io
    >> modify (activated now seq start_gpidx)

abbrev pub take_seq : Writer → Writer
take_seq w = record w { next_seq = add64 w.next_seq 1 }

unfoldable pub rotate : ℕ → W (Unit {0})
unfolding sync seal_to_manifest open_new_segment publish_head
rotate now =
    sync now
    >> (gets (durable_segment true) >>= seal_to_manifest)
    >> (gets (λ (w : Writer). (w.next_seq, w.head)) >>= λ (x : ℕ × ℕ).
        modify take_seq >> open_new_segment now x.0 x.1)
    >> publish_head

abbrev pub when : Bool → W (Unit {0}) → W (Unit {0})
when true m = m
when false m = pure tt

abbrev pub sync_due : ℕ → Writer → Bool
sync_due now w = leb w.cfg.sync_bytes w.pending_bytes || leb w.cfg.sync_interval (now - w.last_sync)

abbrev pub rotate_due : ℕ → Writer → Bool
rotate_due now w =
    leb w.cfg.rotate_bytes w.file_offset || leb w.cfg.rotate_interval (now - w.seg_start)

abbrev pub counted : ℕ → Writer → Writer
counted bytes w = record w {
  head = add64 w.head 1;
  active = record w.active { end_gpidx = add64 w.head 1 };
  file_offset = w.file_offset + bytes;
  pending_bytes = w.pending_bytes + bytes;
}

abbrev pub with_orig_len : Record → Record
with_orig_len rec =
    if rec.orig_len == 0 then record rec { orig_len = length rec.body % 2 ^ 32 } else rec

-- `WritePacket`. When a sync or a rotation fails the packet has its number all the same.
unfoldable pub write_packet : ℕ → Record → W ℕ
unfolding with_file write sync rotate
write_packet now rec =
    let buf = append_record (with_orig_len rec) [] in
    with_file (λ q. write q buf)
    >> (gets (λ (w : Writer). w.head) >>= λ (gpidx : ℕ).
        modify (counted (length buf))
        >> (gets (sync_due now) >>= λ (due : Bool). when due (sync now))
        >> (gets (rotate_due now) >>= λ (due : Bool). when due (rotate now))
        >> pure gpidx)

unfoldable pub tick : ℕ → W (Unit {0})
unfolding sync rotate
tick now =
    (gets (λ (w : Writer). ltb 0 w.pending_bytes && leb w.cfg.sync_interval (now - w.last_sync))
      >>= λ (due : Bool). when due (sync now))
    >> (gets (λ (w : Writer).
          ltb global_header_len w.file_offset && leb w.cfg.rotate_interval (now - w.seg_start))
        >>= λ (due : Bool). when due (rotate now))
