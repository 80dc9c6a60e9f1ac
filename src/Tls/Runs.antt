-- ===== src/Tls/Runs.antt =====
-- The key log of a hook, merged in chunks, and the theorem on it.
use ipcap.Base.{
  ok, map, none, err, length-drop, ℕ, ◌+◌, ◌≡◌, refl, arith, List, [], ◌∷◌, ◌++◌, length, false,
  drop,
}
use ipcap.Storage.Io.{◌>>◌, Sys}
use ipcap.Keylog.{codes}
use ipcap.Tls.Merge.{Merge, chunks, merge_tail}
use ipcap.Tls.Lines.{Tame-small, relay}
use ipcap.Tls.Reconcile.{Target, Config, Map, lookup, plan, found, reconcile_once}
use ipcap.Tls.Running.{hooked, reconcile_once-lookup}
use ipcap.Tls.Again.{merge_tail-again}
use ipcap.Tls.Chunks.{merge_tail-eq-relay}

-- A key twice, garbage, and a line that has no end yet.
abbrev key : List ℕ
key = codes "CLIENT_RANDOM 0a 0b" ++ (10 ∷ [])

abbrev key_log : List ℕ
key_log = codes "junk" ++ (10 ∷ (key ++ (key ++ codes "CLI")))

abbrev start : Sys Merge
start = record {
  state = record { sink = record { file = []; seen = [] }; off = 0; skipping = false };
  faults = [];
}

merged : (merge_tail key_log start).1.state.sink.file ≡ key
unfolding merge_tail ipcap.Storage.Io.◌>>=◌ ipcap.Collector.KeylogSink.write_line
    ipcap.Storage.Io.pure ipcap.Storage.Io.◌>>◌ ipcap.Storage.Io.modify ipcap.Storage.Io.syscall
merged = refl

-- The cursor is at the line without an end.
merged_at : (merge_tail key_log start).1.state.off + 3 ≡ length key_log
unfolding merge_tail ipcap.Storage.Io.◌>>=◌ ipcap.Collector.KeylogSink.write_line
    ipcap.Storage.Io.pure ipcap.Storage.Io.◌>>◌ ipcap.Storage.Io.modify ipcap.Storage.Io.syscall
merged_at = refl

merged_in_sevens : (chunks 7 key_log 40 [] start).1.state.sink.file ≡ key
unfolding chunks ipcap.Storage.Io.◌>>=◌ ipcap.Collector.KeylogSink.write_line ipcap.Storage.Io.pure
    ipcap.Storage.Io.◌>>◌ ipcap.Storage.Io.modify ipcap.Storage.Io.syscall
merged_in_sevens = refl

merge_tail-eq-relay_example : merge_tail key_log start ≡ relay [] (drop 0 key_log) start
merge_tail-eq-relay_example =
    merge_tail-eq-relay key_log start (Tame-small [] key_log (omega arith))

-- The key log while the key is being written.
abbrev early : List ℕ
early = codes "junk" ++ (10 ∷ codes "CLIENT_RAN")

abbrev later : List ℕ
later = codes "DOM 0a 0b" ++ (10 ∷ [])

merge_tail-again_example :
    (merge_tail early >> merge_tail (early ++ later)) start ≡ merge_tail (early ++ later) start
merge_tail-again_example =
    merge_tail-again early later start (omega arith)
      (λ n. Tame-small [] (drop n (early ++ later)) (omega (arith, length-drop n (early ++ later))))

-- A configuration with one manual target that names a library, and one that does not.
abbrev config : Config
config = record {
  auto = none;
  exclude = codes " fragile" ∷ [];
  targets =
      record { container = codes "api"; library = codes "GoTLS"; path = []; cgroup = [] }
      ∷ record { container = codes "x"; library = codes "ssl"; path = []; cgroup = [] }
      ∷ [];
}

abbrev target : List ℕ → List ℕ → Target
target key container = record {
  key = key;
  container = container;
  pid = 7;
  library = codes "openssl";
  lib_path = [];
  cgroup_path = [];
  source = codes "auto";
}

abbrev web : Target
web = target (codes "web/openssl") (codes "web")

abbrev hooks : Map
hooks = (web.key, web) ∷ []

planned :
    map (λ e. e.0) (plan config (web ∷ target (codes "f/openssl") (codes "a-fragile") ∷ []))
    ≡ codes "web/openssl" ∷ codes "api/gotls" ∷ []
unfolding plan ipcap.Keylog.trim_space
planned = refl

-- The hook of a container ends when Discover fails once.
reconcile_once-lookup_example :
    lookup web.key (reconcile_once false (ok config) (err tt) hooks).0
    ≡ hooked (lookup web.key (plan config (found config (err tt)))) (lookup web.key hooks)
reconcile_once-lookup_example = reconcile_once-lookup config (err tt) hooks web.key

unhooked : lookup web.key (reconcile_once false (ok config) (err tt) hooks).0 ≡ none
unfolding reconcile_once ipcap.Keylog.trim_space
unhooked = refl
