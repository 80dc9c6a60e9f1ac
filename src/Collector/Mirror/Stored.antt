-- ===== src/Collector/Mirror/Stored.antt =====
-- The invariant of a mirror between its operations.
use ipcap.Base.{
  ℕ, ◌≡◌, sym, ap, ◌∙◌, List, [], ◌∷◌, ◌++◌, length, All, add64, append-nil, append_assoc,
}
use ipcap.Pcap.{GlobalHeader, Record, append_record, append_global_header}
use ipcap.Pcap.Encoding.{IsRecord}
use ipcap.Pcap.Scan.{encode_records, encode_records-append}
use ipcap.Collector.State.{ResumeState, Mirror}
use ipcap.Collector.Mirror.{encode_all}
use ipcap.Collector.Mirror.Stages.{Stage, IsOpen}
use ipcap.Collector.Mirror.Recoverable.{image, Counts}

-- The state after `count` more records, the last of them from the frame `last_seq`.
abbrev pub advanced : ResumeState → ℕ → ℕ → ResumeState
advanced st count last_seq = record st {
  committed_gpidx = add64 st.committed_gpidx count;
  last_seq = last_seq;
}

-- The atomics show the state.
pub record Published (m : Mirror) : Type 0 where
  pub committed : m.committed ≡ m.state.committed_gpidx
  pub session_start : m.session_start ≡ m.state.session_start_gpidx
  pub session_seq : m.session_seq ≡ m.state.session_seq
  pub committed_len : m.committed_len ≡ m.file_len

-- The session holds exactly these records, all durable, and every counter agrees.
pub record Stored (gh : GlobalHeader) (st : ResumeState) (rs : List Record) (m : Mirror)
    : Type 0 where
  pub stage : Stage gh st st st (image gh rs) (length (image gh rs)) m
  pub handle : IsOpen st.session_seq (length (image gh rs)) (length (image gh rs)) m
  pub counts : Counts st st.session_seq rs
  pub shown : Published m
  pub valid : All (IsRecord gh.snaplen) rs

pub image-append :
    (gh : GlobalHeader) (xs ys : List Record)
    → image gh (xs ++ ys) ≡ image gh xs ++ encode_records ys
image-append gh xs ys =
    ap (λ t. append_global_header gh [] ++ t) (encode_records-append xs ys)
    ∙ sym (append_assoc (append_global_header gh []) (encode_records xs) (encode_records ys))

-- The loop of `Append` that fills the buffer.
pub encode_all-eq : (rs : List Record) (buf : List ℕ) → encode_all rs buf ≡ buf ++ encode_records rs
unfolding encode_all append_record
encode_all-eq [] buf = sym (append-nil buf)
encode_all-eq (r ∷ rs) buf = encode_all-eq rs (append_record r buf) ∙ simp append_assoc
