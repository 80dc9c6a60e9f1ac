-- ===== src/Lib.antt =====
-- ipcap: durable, resumable transport of captured packets.
--
-- An agent on the captured machine writes packets to a spool of libpcap segments, and numbers them
-- (gpidx). A collector connects, gives the number of the next packet that it needs, and drains the
-- agent over a stream of checksummed frames. It deduplicates by number, stores the packets in a
-- mirror, and serves the mirror to readers again. Spool, mirror and served stream share one byte
-- format; frames and messages share one wire format.
--
--   Base       passes shared names on; native-number lists, Boolean tests, Go's (value, error) pairs
--   Bytes      little- and big-endian fields and io.ReadFull on a stream of bytes
--   Pcap       internal/pcapio/pcapio.go: GlobalHeader and Record with AppendTo
--              (append_global_header, append_record), ParseGlobalHeader, ParseRecordHeader, ReadRecord,
--              ReadRecordAt, ScanRecords. Encoding, Head, Scan and ReadAt prove; Runs evaluates
--   Proto      internal/proto: Crc (CRC32C), Zstd (CompressBatch,
--              DecompressBatch), Frame (AppendTo, ReadFrame), Types (constants), Batch
--              (PktRecord, EncodePktBatch, DecodePktBatch), Messages (Ack, Gap, Heartbeat), Preamble
--              (WritePreamble, ReadPreamble). Their children RoundTrip and Exact prove
--   Keylog     internal/keylog/keylog.go: Valid, with bytes.TrimSpace and bytes.Fields
--   Capture    internal/capture/bpf.go: NewExcluder and Exclude with l3Offset, checkIPv4, checkIPv6,
--              matchTCPPort and matchHost (Exclude), and what they use of package net (Address). An
--              index or a bound out of range is a value there. InRange proves that there is none;
--              Shift, Packet, Tags, Verdict and Ethernet are about whole packets
--   Storage    what Go code that calls the system needs: Io is state passing with a schedule that
--              says which calls fail; File is a file with its synced length and what a crash leaves
--              of it; Triple states what holds after an action that may stop anywhere
--   Collector  internal/collector: State (the fields of Mirror and the resume state, its directory,
--              the calls of internal/pcapio/durable.go), Mirror (OpenMirror, Append, NewSession,
--              SetHeader, the epochs), Demux (commit, handleGap, reconcileEpoch,
--              maybeAck, isCorruptErr, and Run in its child Loop), KeylogSink (keylog.go, with its
--              child Unique). The children of Mirror: Stages and Recoverable say where an action stands
--              and what its directory can be opened with, Stored is the invariant, Commit is Append,
--              Offset, Recovery and Reopen are OpenMirror, Retry is Append after a failure. The
--              children of Demux that prove: Dedupe, ExactlyOnce
--   Spool      internal/spool: the segments and the manifest (manifest.go) and recoverSpool with
--              scanSegment (Recover, recover.go), the writer (Writer, and Open for NewWriter,
--              spool.go), the tailing reader (Reader, reader.go) and Reap (Janitor, janitor.go).
--              Position, Manifest, Chain, Restart, Numbering, Next, and Durable with
--              Synced, Rotated and Promise prove
--   Agent      internal/agent: Streamer (the streamer of serve_cmd.go), Tailer (keylog.go) and Serve
--              (RunServe as rounds of its loop; a Round is what one of them meets: the directory, the
--              clocks, the key log files and the statistics). Log says what a stream carries; Sent,
--              Notes, Beat, Holding, Flush, Handle, Rounds and Stream prove
--   Transfer   the agent's stream in the collector's loop: Conversion is a record on its way
--              through, Held says what a mirror holds, Item and Step are one frame, Delivery is the log
--   PcapOverIp internal/pcapoverip/server.go: serve on the states of the source that its polls meet
--              (Server), with Mirror.Snapshot as the source. Tailing and Committed prove
--   Tls        internal/tls: reconcile.go, mergeTail (Merge), reconcileOnce with
--              Plan of config.go (Reconcile). Lines, Chunks, Again and Running prove
--   Transport  internal/transport/noise.go: Write and Read of conn, the framing of the handshake's
--              messages, keyAllowed (Conn). Carries and RoundTrip prove
--
-- Go's (value, error) is `Result`; constants, types and functions keep their names in snake_case.
-- Streams deliver their bytes and then report the end; files are read whole. Packet numbers are
-- numbers below 2^64 with the wrap-around of sums and differences written out, lengths are written
-- modulo the width of their field, and byte counts of one file or stream are plain numbers. A
-- map-typed field is an association list or a function. Every record takes at least 16 bytes, so the fuel of
-- ScanRecords is one more than the length of its input. The rounds of Reader.Next are fuel: one is
-- enough where the packet is at hand. The key log loops take the length of what they read. The loops of
-- RunServe and of Run take a round for each entry of a list, after which the context is cancelled.
--
-- A directory entry of a session's file is taken as durable, which persistState makes true before it
-- counts a record. The lines of the manifest are known by what they parse to, and resume.json is read
-- back as it was written. A power loss leaves the synced bytes of each file with any number of the
-- others, and the old or the new resume state until the directory is synced.
--
-- Parameters: the CBOR package that encodes the preamble, with the law that it reads its own output
-- back, the zstd package that compresses a batch, with the law that it decodes what it encoded of at
-- most 32 MiB, the cap that the decoder is given (Inverts), and the cipher states of the Noise
-- package, with the law that a receiving state opens what its sending state seals, in the same order
-- (Paired). A packet of the spool is numbered by a function from numbers to packets.
--
-- Not modelled: counters and logs; network supervision, timers and signals; the third-party capture
-- packages and the Noise handshake; YAML and flags; the listeners; the agent's capture loop, and of
-- the TLS hooks the search for targets and the programs that are run. The goroutine of RunServe that
-- waits for the collector to go is left out: it can end the loop between two rounds.
pub mod Base
pub mod Bytes
pub mod Capture
pub mod Keylog
pub mod Agent
pub mod Transfer
pub mod Transport
pub mod PcapOverIp
pub mod Tls
pub mod Pcap
pub mod Proto
pub mod Storage
pub mod Collector
pub mod Spool
