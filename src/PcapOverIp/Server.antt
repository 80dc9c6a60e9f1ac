-- ===== src/PcapOverIp/Server.antt =====
-- internal/pcapoverip/server.go: the goroutine of one client. What it waits for between two polls is
-- left out; a client whose context is cancelled has met the last of its polls.
use ipcap.Base.{
  ℕ, zero, suc, ◌==◌, Option, none, some, List, [], ◌∷◌, ◌++◌, take, Result, ok, err, if◌then◌else◌,
}
use ipcap.Storage.Io.{Io, pure, raise, modify, syscall, quiet, ◌>>◌}
use ipcap.Pcap.{
  GlobalHeader, Record, PcapError, append_global_header, append_record, read_record_at,
}
use ipcap.Collector.State.{Mirror}

-- The results of `Snapshot`; the file is known by its session.
pub record Snapshot : Type 0 where
  pub session_seq : ℕ
  pub committed_len : ℕ
  pub gh : GlobalHeader

-- `Source`, with the directory that its files stand in.
pub record Source (S : Type 0) : Type 0 where
  pub snapshot : S → Snapshot
  pub contents : S → ℕ → List ℕ

-- `Mirror.Snapshot`, where no operation of the mirror runs between its loads.
abbrev pub mirror_source : Source Mirror
mirror_source = record {
  snapshot =
      λ m. record { session_seq = m.session_seq; committed_len = m.committed_len; gh = m.gh };
  contents = λ m q. (m.disk.files q).bytes;
}

-- `stuck`: the fuel ran out.
pub data ClientError : Type 0 where
  stuck : ClientError
  write_failed open_failed : ClientError

-- What the client has got, and its cursor in the file.
pub record Client : Type 0 where
  pub conn : List ℕ
  pub cursor : ℕ

-- `conn.Write`
unfoldable pub write_conn : List ℕ → Io ClientError Client (Unit {0})
write_conn bs =
    syscall write_failed (λ c. record c { conn = c.conn ++ bs })
      (λ n c. record c { conn = c.conn ++ take n bs })

abbrev pub move : ℕ → Client → Client
move next c = record c { cursor = next }

-- One turn of the inner loop, with what `ReadRecordAt` returned.
unfoldable pub send_record :
    Io ClientError Client (Unit {0})
    → Result PcapError (Option (Record × ℕ))
    → Io ClientError Client (Unit {0})
unfolding write_conn
send_record rest (err e) = pure tt
send_record rest (ok none) = pure tt
send_record rest (ok (some (rec, next))) =
    write_conn (append_record rec []) >> modify (move next) >> rest

-- The inner loop, on a file of which `limit` bytes are committed.
unfoldable pub send_records : ℕ → List ℕ → ℕ → ℕ → Io ClientError Client (Unit {0})
unfolding send_record
send_records zero file limit snaplen s = raise stuck s
send_records (suc fuel) file limit snaplen s =
    send_record (send_records fuel file limit snaplen)
      (read_record_at file s.state.cursor limit snaplen) s

module _ {S : Type 0} (source : Source S) where
  -- The outer loop over the states of the source that its polls meet. A record takes a byte at least,
  -- so one more than the committed length is fuel enough.
  unfoldable pub polls : ℕ → GlobalHeader → List S → Io ClientError Client (Unit {0})
  unfolding send_records
  polls session gh [] = pure tt
  polls session gh (m ∷ ms) =
      let view = source.snapshot m in
      let rest = polls session gh ms in
      let round =
        send_records (suc view.committed_len) (source.contents m session) view.committed_len
          gh.snaplen in
      if view.session_seq == session then round >> rest else pure tt

  -- `serve`, for a client that connects at the first state.
  unfoldable pub serve : S → List S → Io ClientError Client (Unit {0})
  unfolding polls
  serve m ms =
      let view = source.snapshot m in
      modify (move view.committed_len)
      >> write_conn (append_global_header view.gh [])
      >> quiet open_failed
      >> polls view.session_seq view.gh ms
