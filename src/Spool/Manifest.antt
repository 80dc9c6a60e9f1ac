-- ===== src/Spool/Manifest.antt =====
-- `loadManifest` on what follows a torn line.
use ipcap.Base.{◌≡◌, refl, List, [], ◌∷◌, ◌++◌}
use ipcap.Spool.{Segment, Line, blank, torn, entry, Dir, put_segment, load_lines, load_manifest}

torn_from :
    (ls more : List Line) (segs : List Segment)
    → load_lines (ls ++ (torn ∷ more)) segs ≡ load_lines ls segs
unfolding load_lines
torn_from [] more segs = refl
torn_from (blank ∷ ls) more segs = torn_from ls more segs
torn_from (torn ∷ ls) more segs = refl
torn_from (entry s ∷ ls) more segs = torn_from ls more (put_segment s segs)

-- Lines that stand behind a torn one are never read, whatever they are.
pub load_manifest-torn :
    (ls more : List Line) (d : Dir)
    → load_manifest (record d { manifest = ls ++ (torn ∷ more) })
      ≡ load_manifest (record d { manifest = ls })
unfolding load_manifest
load_manifest-torn ls more d = torn_from ls more []
