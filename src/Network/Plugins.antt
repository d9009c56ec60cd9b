-- ===== src/Network/Plugins.antt =====
-- What internal/host/network/manager_cni.go asks of the CNI plugins and of network namespaces:
-- `performCNISetup` and `performCNITeardown`. The calls go on a trace, newest first, and answer by a
-- function of the trace.
pub mod Namespaces
pub mod Teardown
use qemubox.Base.{
  ℕ, Bool, true, false, not, ◌||◌, ◌&&◌, Option, none, some, List, [], ◌∷◌, ◌==◌, update,
  if◌then◌else◌,
}

-- The namespace of a container, and the one that is made to clean up after it, with its own name.
pub data Netns : Type 0 where
  of_container cleanup_of : ℕ → Netns

-- The plugins run in a namespace, or in none.
pub data Call : Type 0 where
  create_netns delete_netns netns_exists : Netns → Call
  plugins_add : ℕ → Netns → Call
  plugins_del : ℕ → Option Netns → Call
  read_ipam : ℕ → Call

abbrev pub Trace : Type 0
Trace = List Call

-- A file of the address management, with the container that it names, and a directory of them.
pub record IpamFile : Type 0 where
  pub is_dir : Bool
  pub special : Bool
  pub content : Option ℕ

pub record IpamDir : Type 0 where
  pub is_dir : Bool
  pub files : Option (List IpamFile)

-- `result` is what the plugins answer, and `conflicts` whether their error is of a resource in use.
-- `ipam` are the directories, `none` where they cannot be read.
pub record Env : Type 0 where
  pub succeeds : Trace → Call → Bool
  pub result : Trace → ℕ
  pub conflicts : Trace → Bool
  pub ipam : Trace → Option (List IpamDir)

pub data SetupError : Type 0 where
  no_netns conflict plugins_failed : SetupError

pub data SetupResult : Type 0 where
  configured : ℕ → SetupResult
  refused : SetupError → SetupResult

unfoldable pub attempt_orphan_cleanup : Env → ℕ → Trace → Trace
attempt_orphan_cleanup env id trace =
    let temporary : Netns = cleanup_of id in
    if env.succeeds trace (create_netns temporary)
    then delete_netns temporary ∷ plugins_del id (some temporary) ∷ create_netns temporary ∷ trace
    else create_netns temporary ∷ trace

unfoldable pub after_failure : Env → ℕ → Trace → Trace × SetupResult
after_failure env id trace =
    let cleaned : Trace = delete_netns (of_container id) ∷ trace in
    if env.conflicts trace
    then (attempt_orphan_cleanup env id cleaned, refused conflict)
    else (cleaned, refused plugins_failed)

unfoldable pub perform_cni_setup : Env → ℕ → Trace → Trace × SetupResult
perform_cni_setup env id trace =
    let own : Netns = of_container id in
    let created : Trace = create_netns own ∷ trace in
    let added : Trace = plugins_add id own ∷ created in
    if not (env.succeeds trace (create_netns own))
    then (created, refused no_netns)
    else if env.succeeds created (plugins_add id own)
    then (added, configured (env.result added))
    else after_failure env id added

-- Each is whether there is an error.
pub record CleanupResult : Type 0 where
  pub cni_teardown : Bool
  pub netns_delete : Bool
  pub ipam_verify : Bool
  pub in_memory_clear : Bool

unfoldable pub has_error : CleanupResult → Bool
has_error r = r.cni_teardown || r.netns_delete || r.ipam_verify

names : ℕ → IpamFile → Bool
names id file = elim file.content [
  | none ↦ false
  | some n ↦ not file.is_dir && not file.special && n == id
]

unfoldable pub any_names : ℕ → List IpamFile → Bool
unfolding names
any_names id [] = false
any_names id (file ∷ files) = names id file || any_names id files

unfoldable pub leaks_in : ℕ → List IpamDir → Bool
unfolding any_names
leaks_in id [] = false
leaks_in id (dir ∷ dirs) =
    (dir.is_dir && elim dir.files [ none ↦ false | some files ↦ any_names id files ])
    || leaks_in id dirs

-- Whether the container still has an address.
unfoldable pub verify_ipam_cleanup : Env → ℕ → Trace → Bool
verify_ipam_cleanup env id trace = elim (env.ipam trace) [
  | none ↦ false
  | some dirs ↦ leaks_in id dirs
]

-- The namespace for the teardown, which is made where it is gone, and whether making it failed.
unfoldable pub teardown_netns : Env → ℕ → Trace → Trace × Option Netns × Bool
teardown_netns env id trace =
    let own : Netns = of_container id in
    let asked : Trace = netns_exists own ∷ trace in
    if env.succeeds trace (netns_exists own)
    then (asked, some own, false)
    else if env.succeeds asked (create_netns own)
    then (create_netns own ∷ asked, some own, false)
    else (create_netns own ∷ asked, none, true)

-- The rest of the teardown, which goes on after every error.
unfoldable pub teardown_in : Env → ℕ → Trace × Option Netns × Bool → Trace × CleanupResult
teardown_in env id (trace, netns, failed) =
    let own : Netns = of_container id in
    let deleted : Trace = plugins_del id netns ∷ trace in
    let verified : Trace = read_ipam id ∷ deleted in
    (
      delete_netns own ∷ verified,
      record {
        cni_teardown = not (env.succeeds trace (plugins_del id netns));
        netns_delete = failed || not (env.succeeds verified (delete_netns own));
        ipam_verify = verify_ipam_cleanup env id deleted;
        in_memory_clear = true;
      },
    )

-- The map of results is left without the container.
unfoldable pub perform_cni_teardown :
    Env → ℕ → (ℕ → Option ℕ) → Trace → (ℕ → Option ℕ) × (Trace × CleanupResult)
perform_cni_teardown env id cni_results trace =
    (update cni_results id none, teardown_in env id (teardown_netns env id trace))
