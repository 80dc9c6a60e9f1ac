-- ===== src/Tls/Reconcile.antt =====
-- internal/tls/reconcile.go and internal/tls/config.go: which hooks run after a round. Texts are bytes;
-- a map is the list of its entries. What the configuration file says, and what Discover finds, are given.
use ipcap.Base.{
  ℕ, ◌+◌, List, [], ◌∷◌, ◌++◌, map, Bool, true, false, ◌&&◌, ◌||◌, leb, Option, none, some, Result,
  ok, err, if◌then◌else◌,
}
use ipcap.Keylog.{codes, bytes_eq, trim_space}

pub record Target : Type 0 where
  pub key : List ℕ
  pub container : List ℕ
  pub pid : ℕ
  pub library : List ℕ
  pub lib_path : List ℕ
  pub cgroup_path : List ℕ
  pub source : List ℕ

pub record OverrideTarget : Type 0 where
  pub container : List ℕ
  pub library : List ℕ
  pub path : List ℕ
  pub cgroup : List ℕ

pub record Config : Type 0 where
  pub auto : Option Bool
  pub exclude : List (List ℕ)
  pub targets : List OverrideTarget

abbrev pub Map : Type 0
Map = List (List ℕ × Target)

unfoldable pub lookup : List ℕ → Map → Option Target
lookup key [] = none
lookup key ((k, t) ∷ m) = if bytes_eq k key then some t else lookup key m

abbrev pub is_some : Option Target → Bool
is_some none = false
is_some (some t) = true

-- `m[key] = t`
unfoldable pub put : List ℕ → Target → Map → Map
put key t [] = (key, t) ∷ []
put key t ((k, u) ∷ m) =
    let rest = put key t m in if bytes_eq k key then (key, t) ∷ m else (k, u) ∷ rest

abbrev auto_enabled : Config → Bool
auto_enabled c = elim c.auto [ none ↦ true | some b ↦ b ]

-- `strings.HasPrefix` and `strings.Contains`
abbrev has_prefix : List ℕ → List ℕ → Bool
has_prefix s [] = true
has_prefix [] (x ∷ p) = false
has_prefix (y ∷ s) (x ∷ p) = bytes_eq (y ∷ []) (x ∷ []) && has_prefix s p

abbrev has_part : List ℕ → List ℕ → Bool
has_part [] p = has_prefix [] p
has_part (y ∷ s) p = has_prefix (y ∷ s) p || has_part s p

abbrev excludes : List ℕ → List ℕ → Bool
excludes container [] = false
excludes container (x ∷ ex) = has_prefix container (x ∷ ex) || has_part container (x ∷ ex)

abbrev any_excludes : List ℕ → List (List ℕ) → Bool
any_excludes container [] = false
any_excludes container (ex ∷ exs) = excludes container (trim_space ex) || any_excludes container exs

-- `IsExcluded`
unfoldable pub is_excluded : Config → Target → Bool
unfolding trim_space
is_excluded c t = any_excludes t.container c.exclude

-- `strings.ToLower`, as far as it can lead to the name of a library.
abbrev lower : ℕ → ℕ
lower b = if leb 65 b && leb b 90 then b + 32 else b

abbrev is_library : List ℕ → Bool
is_library lib =
    bytes_eq lib (codes "openssl")
    || (bytes_eq lib (codes "gnutls") || bytes_eq lib (codes "gotls"))

abbrev label : List ℕ → List ℕ
label [] = codes "override"
label (b ∷ container) = b ∷ container

abbrev key_of : List ℕ → List ℕ → List ℕ → List ℕ
key_of container lib [] = container ++ (codes "/" ++ lib)
key_of container lib (b ∷ path) = (container ++ (codes "/" ++ lib)) ++ (codes "/" ++ (b ∷ path))

abbrev manual_target : OverrideTarget → List ℕ → Target
manual_target o lib = record {
  key = key_of (label o.container) lib o.path;
  container = label o.container;
  pid = 0;
  library = lib;
  lib_path = o.path;
  cgroup_path = o.cgroup;
  source = codes "override";
}

-- `ManualTargets`
unfoldable pub manual_targets : List OverrideTarget → List Target
unfolding trim_space
manual_targets [] = []
manual_targets (o ∷ os) =
    let lib = map lower (trim_space o.library) in
    let rest = manual_targets os in if is_library lib then manual_target o lib ∷ rest else rest

unfoldable pub add_targets : Config → List Target → Map → Map
unfolding is_excluded put
add_targets c [] m = m
add_targets c (t ∷ ts) m = add_targets c ts (if is_excluded c t then m else put t.key t m)

-- `Plan`, as the map of `reconcileOnce`, in which every target stands under its key.
unfoldable pub plan : Config → List Target → Map
unfolding manual_targets add_targets
plan c auto =
    add_targets c (manual_targets c.targets) (if auto_enabled c then add_targets c auto [] else [])

-- The hooks that run, and what was done to them: `cancel`, and `go runHook`.
pub data Event : Type 0 where
  cancelled : List ℕ → Event
  started : Target → Event

-- The first loop: the hooks that are desired no longer are cancelled.
unfoldable pub keep_desired : Map → Map → Map × List Event
unfolding lookup
keep_desired desired [] = ([], [])
keep_desired desired ((k, t) ∷ running) =
    let rest = keep_desired desired running in
    if is_some (lookup k desired) then ((k, t) ∷ rest.0, rest.1) else (rest.0, cancelled k ∷ rest.1)

-- The second loop, which with `DryRun` starts nothing.
unfoldable pub start_missing : Bool → Map → Map → Map × List Event
unfolding lookup
start_missing dry_run [] running = (running, [])
start_missing dry_run ((k, t) ∷ desired) running =
    let skip = is_some (lookup k running) || dry_run in
    let rest = start_missing dry_run desired (if skip then running else (k, t) ∷ running) in
    if skip then rest else (rest.0, started t ∷ rest.1)

-- An error of Discover leaves no automatic targets.
abbrev pub found : Config → Result (Unit {0}) (List Target) → List Target
found c (err e) = []
found c (ok auto) = if auto_enabled c then auto else []

-- `reconcileOnce`
unfoldable pub reconcile_once :
    Bool → Result (Unit {0}) Config → Result (Unit {0}) (List Target) → Map → Map × List Event
unfolding plan keep_desired start_missing
reconcile_once dry_run (err e) discovered running = (running, [])
reconcile_once dry_run (ok c) discovered running =
    let desired = plan c (found c discovered) in
    let kept = keep_desired desired running in
    let now = start_missing dry_run desired kept.0 in (now.0, kept.1 ++ now.1)
