-- ===== src/Network/Plugins/Namespaces.antt =====
-- The namespaces that a set-up of internal/host/network/manager_cni.go leaves.
use qemubox.Base.{ℕ, ◌≡◌, Bool, true, false, ◌&&◌, some, [], ◌∷◌, ◌==◌, if◌then◌else◌, arith}
use qemubox.Network.Plugins.{
  Netns, of_container, cleanup_of, create_netns, delete_netns, plugins_add, plugins_del, Trace, Env,
  SetupResult, configured, refused, attempt_orphan_cleanup, after_failure, perform_cni_setup,
}

abbrev pub same : Netns → Netns → Bool
same (of_container i) (of_container j) = i == j
same (cleanup_of i) (cleanup_of j) = i == j
same _ _ = false

-- Whether a namespace was made and not deleted since.
abbrev pub made : Env → Netns → Trace → Bool
made env n [] = false
made env n (create_netns m ∷ trace) =
    let rest = made env n trace in
    if same n m && env.succeeds trace (create_netns m) then true else rest
made env n (delete_netns m ∷ trace) =
    let rest = made env n trace in
    if same n m && env.succeeds trace (delete_netns m) then false else rest
made env n (_ ∷ trace) = made env n trace

abbrev pub is_configured : SetupResult → Bool
is_configured (configured r) = true
is_configured (refused e) = false

-- Set up the network of a container that has no namespaces, where namespaces can be deleted. It has
-- its own namespace afterwards exactly if the set-up succeeds, and no namespace for cleaning up;
-- namespaces of others are as before.
pub setup_keeps_namespace_on_success :
    (env : Env) (id : ℕ) (trace : Trace) (other : Netns)
    → ((trace : Trace) (n : Netns) → env.succeeds trace (delete_netns n) ≡ true)
    → made env (of_container id) trace ≡ false
    → made env (cleanup_of id) trace ≡ false
    → same other (of_container id) ≡ false
    → same other (cleanup_of id) ≡ false
    → let r = perform_cni_setup env id trace in
      (made env (of_container id) r.0 ≡ is_configured r.1)
      × (made env (cleanup_of id) r.0 ≡ false)
      × (made env other r.0 ≡ made env other trace)
unfolding perform_cni_setup after_failure attempt_orphan_cleanup
setup_keeps_namespace_on_success env id trace other deletes h k o p =
    let own : Netns = of_container id in
    let temporary : Netns = cleanup_of id in
    let added : Trace = plugins_add id own ∷ create_netns own ∷ trace in
    ground (
      arith,
      deletes added own,
      deletes (plugins_del id (some temporary) ∷ create_netns temporary ∷ delete_netns own ∷ added)
          temporary,
    )
