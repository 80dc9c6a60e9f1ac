-- ===== src/Storage/File.antt =====
-- A file: its bytes, and how many of them at its front a crash cannot take away.
use ipcap.Base.{
  ℕ, ◌+◌, ◌-◌, ◌≤◌, ◌≡◌, refl, arith, List, [], ◌++◌, length, take, drop, drop_all, take-length,
  append-nil, replicate, min,
}

pub record File : Type 0 where
  pub bytes : List ℕ
  pub synced : ℕ

abbrev pub empty_file : File
empty_file = record { bytes = []; synced = 0 }

-- `Write` at a position; a hole in front of it is read as zeros.
abbrev pub write_at : ℕ → List ℕ → File → File
write_at pos bs f = record {
  bytes =
      take pos f.bytes
      ++ (replicate (pos - length f.bytes) 0 ++ (bs ++ drop (pos + length bs) f.bytes));
  synced = min f.synced pos;
}

-- `Truncate`: a file that is shorter is extended with zeros.
abbrev pub truncate : ℕ → File → File
truncate n f = record {
  bytes = take n f.bytes ++ replicate (n - length f.bytes) 0;
  synced = min f.synced n;
}

-- `Fdatasync`
abbrev pub sync : File → File
sync f = record f { synced = length f.bytes }

-- What a crash may leave: the synced bytes, and any number of the others, now all on the disk.
pub record CrashedFile (f f' : File) : Type 0 where
  pub kept : ℕ
  pub enough : f.synced ≤ kept
  pub front : f'.bytes ≡ take kept f.bytes
  pub settled : f'.synced ≡ length f'.bytes

-- A write at the end is an append.
pub write_at-end : (bs : List ℕ) (f : File) → (write_at (length f.bytes) bs f).bytes ≡ f.bytes ++ bs
write_at-end bs f =
    let hole : length f.bytes - length f.bytes ≡ 0 = omega arith in
    rw
      (
        take-length f.bytes,
        hole,
        drop_all (length f.bytes + length bs) f.bytes (omega arith),
        append-nil bs,
      )
      refl
