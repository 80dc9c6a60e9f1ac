-- ===== src/Spool.antt =====
-- internal/spool: the agent's durable spool of libpcap segments.
-- A segment's file is known by its sequence number, and the manifest's lines by what they parse to.
pub mod Position
pub mod Manifest
pub mod Recover
pub mod Reader
pub mod Next
pub mod Writer
pub mod Numbering
pub mod Durable
pub mod Synced
pub mod Rotated
pub mod Promise
pub mod Janitor
pub mod Open
pub mod Chain
pub mod Restart
mod Runs
use ipcap.Base.{
  ℕ, ◌+◌, Option, none, some, List, [], ◌∷◌, Bool, true, false, ltb, ◌==◌, if◌then◌else◌,
}
use ipcap.Storage.File.{File}

pub record Segment : Type 0 where
  pub seq : ℕ
  pub start_gpidx : ℕ
  pub end_gpidx : ℕ
  pub valid_len : ℕ
  pub sealed : Bool

-- A line of the manifest: empty, not parsed, or an entry.
pub data Line : Type 0 where
  blank torn : Line
  entry : Segment → Line

-- The directory: the manifest, the sequence numbers of the segment files in ascending order, the
-- files, and head.json where it is there and parses.
pub record Dir : Type 0 where
  pub manifest : List Line
  pub seqs : List ℕ
  pub files : ℕ → File
  pub head_file : Option Segment

pub data SpoolError : Type 0 where
  io missing_header bad_header : SpoolError
  non_contiguous : ℕ → ℕ → ℕ → SpoolError

-- `bySeq[seg.Seq] = seg`, in a map that is kept in the order in which it is listed.
unfoldable pub put_segment : Segment → List Segment → List Segment
put_segment s [] = s ∷ []
put_segment s (t ∷ ts) =
    let rest = put_segment s ts in
    if s.seq == t.seq then s ∷ ts else if ltb s.seq t.seq then s ∷ (t ∷ ts) else t ∷ rest

unfoldable pub find_segment : ℕ → List Segment → Option Segment
find_segment seq [] = none
find_segment seq (s ∷ ss) = let rest = find_segment seq ss in if s.seq == seq then some s else rest

-- The loop of `loadManifest`: it stops at a line that does not parse.
unfoldable pub load_lines : List Line → List Segment → List Segment
unfolding put_segment
load_lines [] segs = segs
load_lines (blank ∷ ls) segs = load_lines ls segs
load_lines (torn ∷ ls) segs = segs
load_lines (entry s ∷ ls) segs = load_lines ls (put_segment s segs)

unfoldable pub load_manifest : Dir → List Segment
unfolding load_lines
load_manifest d = load_lines d.manifest []
