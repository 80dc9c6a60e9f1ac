-- ===== src/Spool/Restart.antt =====
-- `recoverSpool` on a directory whose only segment file is the active one, as the janitor may leave it.
use ipcap.Base.{
  ℕ, ◌+◌, ◌<◌, ◌^◌, ◌≡◌, refl, sym, ap, ◌∙◌, arith, none, List, [], ◌∷◌, ◌++◌, true, false, ◌==◌,
  ==_refl, length, take, drop, All, ltb, le→ltb, ok, append-nil, length-append, take-append_length,
  drop-append_length,
}
use ipcap.Storage.Io.{Sys, pure, gets, quiet, syscall, continue, ◌>>=◌, ◌>>◌}
use ipcap.Pcap.{GlobalHeader, Record, append_global_header, parse_global_header, scan_records, stop}
use ipcap.Pcap.Encoding.{
  IsGlobalHeader, IsRecord, length-append_global_header, parse_global_header-append,
}
use ipcap.Pcap.Scan.{encode_records, scan_records-encode_records, IsTorn-nil}
use ipcap.Spool.{Dir, find_segment, load_manifest}
use ipcap.Spool.Recover.{
  Recovered, Walk, no_callback, cut_tail, scan_bytes, scan_segment, unsealed_step, step_with, walk,
  start_walk, finished, recover_files, recover_spool,
}

module _ (snaplen link_type : ℕ) (gh : GlobalHeader) (rs : List Record) (q : ℕ) (d : Dir)
    (header : IsGlobalHeader gh) (valid : All (IsRecord snaplen) rs)
    (snaplen_bound : snaplen < 2 ^ 32)
    (content : (d.files q).bytes ≡ append_global_header gh [] ++ encode_records rs) where
  abbrev h : List ℕ
  h = append_global_header gh []

  abbrev body : List ℕ
  body = encode_records rs

  abbrev quiet_run : Sys Dir
  quiet_run = record { state = d; faults = [] }

  front : take 24 (h ++ body) ≡ h
  front =
      ap (λ k. take k (h ++ body)) (sym (length-append_global_header gh))
      ∙ take-append_length h body

  behind : drop 24 (h ++ body) ≡ body
  behind =
      ap (λ k. drop k (h ++ body)) (sym (length-append_global_header gh))
      ∙ drop-append_length h body

  header_read : parse_global_header (take 24 (h ++ body)) ≡ ok gh
  header_read =
      ap parse_global_header (front ∙ sym (append-nil h)) ∙ parse_global_header-append gh [] header

  body_scanned :
      scan_records (drop 24 (h ++ body)) snaplen no_callback ≡ stop (length body) (length rs) none
  body_scanned =
      ap (λ t. scan_records t snaplen no_callback) (behind ∙ sym (append-nil body))
      ∙ scan_records-encode_records snaplen no_callback rs [] (λ r. refl) valid snaplen_bound
          (IsTorn-nil snaplen)

  size : length (h ++ body) ≡ 24 + length body
  size = omega (arith, length-append h body, length-append_global_header gh)

  bytes_scanned :
      scan_bytes q snaplen link_type true (h ++ body) quiet_run
      ≡ (ok (length body, length rs), quiet_run)
  unfolding cut_tail pure
  bytes_scanned =
      let long : ltb (length (h ++ body)) 24 ≡ false = le→ltb _ _ (omega (arith, size)) in
      let whole : (length (h ++ body) == 24 + length body) ≡ true =
        ap (λ k. k == 24 + length body) size ∙ ==_refl (24 + length body) in
      rw (long, header_read, body_scanned, whole) refl

  segment_scanned :
      scan_segment q snaplen link_type true quiet_run ≡ (ok (length body, length rs), quiet_run)
  unfolding scan_segment quiet syscall gets ◌>>=◌ ◌>>◌
  segment_scanned =
      ap (λ b. scan_bytes q snaplen link_type true b quiet_run) content ∙ bytes_scanned

  module _ (only : d.seqs ≡ q ∷ []) (unsealed : find_segment q (load_manifest d) ≡ none)
      (small : length rs < 2 ^ 64) where
    -- Where the one segment file that is left is not in the manifest, recoverSpool returns, and numbers
    -- its packets from 0: the head is their count, whatever range the manifest records.
    pub recover_spool_restarts :
        (r : Recovered) × ((recover_spool snaplen link_type (record { state = d; faults = [] })).0
          ≡ ok r)
        × (r.oldest_gpidx ≡ 0)
        × (r.head ≡ length rs)
    unfolding recover_spool walk unsealed_step quiet syscall gets ◌>>=◌ ◌>>◌ pure
    recover_spool_restarts =
        let w : Walk = unsealed_step q true start_walk (length body, length rs) in
        let manifest = load_manifest d in
        let one : step_with snaplen link_type q true start_walk (find_segment q manifest) quiet_run
            ≡ (ok w, quiet_run) =
          ap (λ o. step_with snaplen link_type q true start_walk o quiet_run) unsealed
          ∙ ap (λ x. continue x (λ c. pure (unsealed_step q true start_walk c))) segment_scanned in
        (
          finished (q ∷ []) w,
          ap (λ qs. (recover_files snaplen link_type manifest qs quiet_run).0) only
              ∙ ap
                  (λ x.
                    (continue (continue x (walk snaplen link_type manifest []))
                      (λ v. pure (finished (q ∷ []) v))).0)
                  one,
          refl,
          omega arith,
        )
