-- ===== src/Network/Plugins/Teardown.antt =====
-- What a teardown of internal/host/network/manager_cni.go does and reports.
use qemubox.Base.{
  ℕ, ◌≡◌, ◌⊎◌, Bool, true, false, not, ◌||◌, some, List, [], ◌∷◌, ◌==◌, if◌then◌else◌, suc,
}
use qemubox.Network.Plugins.{
  Netns, create_netns, delete_netns, plugins_del, read_ipam, Trace, Env, IpamFile, IpamDir,
}
use qemubox.Network.Plugins.Namespaces.{same}

-- A file names the container: no directory, no special file, and with the name for its content.
pub data NamedIn (id : ℕ) : List IpamFile → Type 0 where
  file_here :
      (file : IpamFile) (files : List IpamFile)
      → file.is_dir ≡ false
      → file.special ≡ false
      → file.content ≡ some id
      → NamedIn id (file ∷ files)
  file_later :
      (file : IpamFile) (files : List IpamFile) → NamedIn id files → NamedIn id (file ∷ files)

-- A directory that can be read has such a file.
pub data Addressed (id : ℕ) : List IpamDir → Type 0 where
  dir_here :
      (dir : IpamDir) (dirs : List IpamDir) (files : List IpamFile)
      → dir.is_dir ≡ true
      → dir.files ≡ some files
      → NamedIn id files
      → Addressed id (dir ∷ dirs)
  dir_later : (dir : IpamDir) (dirs : List IpamDir) → Addressed id dirs → Addressed id (dir ∷ dirs)

-- The address directories of the host can be read, and hold an address of the container.
abbrev Leaks : Env → ℕ → Trace → Type 0
Leaks env id trace = (dirs : List IpamDir) × (env.ipam trace ≡ some dirs) × Addressed id dirs

-- The same where a trace read them.
abbrev pub LeakSeen : Env → Trace → Type 0
LeakSeen env [] = ⊥
LeakSeen env (read_ipam id ∷ trace) = Leaks env id trace
LeakSeen env (_ ∷ trace) = LeakSeen env trace

-- Whether a call of a teardown that is not a reading failed.
abbrev pub any_failed : Env → Trace → Bool
any_failed env [] = false
any_failed env (create_netns m ∷ trace) =
    not (env.succeeds trace (create_netns m)) || any_failed env trace
any_failed env (delete_netns m ∷ trace) =
    not (env.succeeds trace (delete_netns m)) || any_failed env trace
any_failed env (plugins_del i m ∷ trace) =
    not (env.succeeds trace (plugins_del i m)) || any_failed env trace
any_failed env (_ ∷ trace) = any_failed env trace

-- How often the plugins were asked to release the network of a container, and its namespace was
-- asked to be deleted.
abbrev pub releases : ℕ → Trace → ℕ
releases id [] = 0
releases id (plugins_del i m ∷ trace) =
    let rest = releases id trace in if i == id then suc rest else rest
releases id (_ ∷ trace) = releases id trace

abbrev pub deletes_of : Netns → Trace → ℕ
deletes_of n [] = 0
deletes_of n (delete_netns m ∷ trace) =
    let rest = deletes_of n trace in if same n m then suc rest else rest
deletes_of n (_ ∷ trace) = deletes_of n trace

-- A teardown has an error exactly for a call that failed, or an address that it saw.
abbrev pub Reports : Env → Trace → Bool → Type 0
Reports env trace error =
    ((error ≡ true) × ((any_failed env trace ≡ true) ⊎ LeakSeen env trace))
    ⊎ ((error ≡ false) × (any_failed env trace ≡ false) × ¬ (LeakSeen env trace))
