-- ===== src/Qemu/Devices.antt =====
-- The devices on the command line that internal/host/vm/qemu/start.go builds, against the files
-- that the process inherits.
use qemubox.Base.{
  ℕ, zero, suc, ◌+◌, ◌-◌, ◌≡◌, refl, sym, ap, ◌∙◌, Bool, true, Option, none, some, List, [], ◌∷◌,
  ◌++◌, map, append-nil, append_assoc, drop, if◌then◌else◌, arith,
}
use qemubox.Qemu.Instance.{Env, DiskConfig, NetConfig, Instance}
use qemubox.Qemu.Command.{
  Arg, drive, tap_netdev, net_device, blk_device, disk_format, add_disk_args, add_nic_args,
  add_disks, add_nics, machine_args, set_smp, set_memory, build_qemu_command_line, extra_files,
}

-- The network devices on a command line with their descriptors, and the disks with their paths.
abbrev pub netdevs : List Arg → List (ℕ × ℕ)
netdevs [] = []
netdevs (tap_netdev id fd ∷ args) = (id, fd) ∷ netdevs args
netdevs (_ ∷ args) = netdevs args

abbrev pub drives : List Arg → List (ℕ × ℕ × Bool)
drives [] = []
drives (drive path id format readonly ∷ args) = (id, path, readonly) ∷ drives args
drives (_ ∷ args) = drives args

abbrev pub get_elem? {ℓ} : {A : Type ℓ} → List A → ℕ → Option A
get_elem? [] i = none
get_elem? (x ∷ xs) zero = some x
get_elem? (x ∷ xs) (suc i) = get_elem? xs i

-- What the process has under a descriptor: the files that it inherits follow the three standard
-- ones.
abbrev pub inherited : List NetConfig → ℕ → Option ℕ
inherited nets fd = get_elem? (extra_files nets) (fd - 3)

abbrev pub numbered : ℕ → List DiskConfig → List (ℕ × ℕ × Bool)
numbered i [] = []
numbered i (disk ∷ disks) = (i, disk.path, disk.readonly) ∷ numbered (suc i) disks

-- The arguments that the loops append.
abbrev nic_args : ℕ → List NetConfig → List Arg
nic_args i [] = []
nic_args i (nic ∷ nets) = tap_netdev i (3 + i) ∷ net_device i nic.mac ∷ nic_args (suc i) nets

abbrev disk_args : Env → ℕ → List DiskConfig → List Arg
disk_args env i [] = []
disk_args env i (disk ∷ disks) =
    drive disk.path i (disk_format env disk.path) disk.readonly
    ∷ blk_device i
    ∷ disk_args env (suc i) disks

abbrev ids : List NetConfig → List ℕ
ids nets = map (λ nic. nic.id) nets

opened :
    (there : Bool) (rest : Option (List Arg)) (built : List Arg)
    → (if there then rest else none) ≡ some built
    → (there ≡ true) × (rest ≡ some built)
opened there rest built e = ground arith

add_nics-appended :
    (i : ℕ) (nets : List NetConfig) (args built : List Arg)
    → add_nics i nets args ≡ some built
    → (built ≡ args ++ nic_args i nets) × (extra_files nets ≡ ids nets)
unfolding add_nics extra_files add_nic_args
add_nics-appended i [] args built e = ground (arith, append-nil args)
add_nics-appended i (nic ∷ nets) args built e =
    let args' : List Arg = add_nic_args i (3 + i) nic.mac args in
    let o = opened nic.tap_file (add_nics (suc i) nets args') built e in
    let rest = add_nics-appended (suc i) nets args' built o.1 in
    (
      rest.0
          ∙ append_assoc args (tap_netdev i (3 + i) ∷ net_device i nic.mac ∷ [])
              (nic_args (suc i) nets),
      rw o.0 (ap (λ r. nic.id ∷ r) rest.1),
    )

add_disks-appended :
    (env : Env) (i : ℕ) (disks : List DiskConfig) (args : List Arg)
    → add_disks env i disks args ≡ args ++ disk_args env i disks
unfolding add_disks add_disk_args
add_disks-appended env i [] args = sym (append-nil args)
add_disks-appended env i (disk ∷ disks) args =
    let args' : List Arg = add_disk_args env i disk args in
    add_disks-appended env (suc i) disks args'
    ∙ append_assoc args
        (drive disk.path i (disk_format env disk.path) disk.readonly ∷ blk_device i ∷ [])
        (disk_args env (suc i) disks)

netdevs-append : (xs ys : List Arg) → netdevs (xs ++ ys) ≡ netdevs xs ++ netdevs ys
netdevs-append [] ys = refl
netdevs-append (x ∷ xs) ys = ground (arith, netdevs-append xs ys)

drives-append : (xs ys : List Arg) → drives (xs ++ ys) ≡ drives xs ++ drives ys
drives-append [] ys = refl
drives-append (x ∷ xs) ys = ground (arith, drives-append xs ys)

disk_args-netdevs :
    (env : Env) (i : ℕ) (disks : List DiskConfig) → netdevs (disk_args env i disks) ≡ []
disk_args-netdevs env i [] = refl
disk_args-netdevs env i (disk ∷ disks) = disk_args-netdevs env (suc i) disks

disk_args-drives :
    (env : Env) (i : ℕ) (disks : List DiskConfig)
    → drives (disk_args env i disks) ≡ numbered i disks
disk_args-drives env i [] = refl
disk_args-drives env i (disk ∷ disks) =
    ap (λ rest. (i, disk.path, disk.readonly) ∷ rest) (disk_args-drives env (suc i) disks)

nic_args-drives : (i : ℕ) (nets : List NetConfig) → drives (nic_args i nets) ≡ []
nic_args-drives i [] = refl
nic_args-drives i (nic ∷ nets) = nic_args-drives (suc i) nets

machine-netdevs : (q : Instance) → netdevs (machine_args q) ≡ []
unfolding machine_args set_smp set_memory
machine-netdevs q = ground arith

machine-drives : (q : Instance) → drives (machine_args q) ≡ []
unfolding machine_args set_smp set_memory
machine-drives q = ground arith

drop-step :
    (i : ℕ) (xs rest : List ℕ) (x : ℕ)
    → drop i xs ≡ x ∷ rest
    → (get_elem? xs i ≡ some x) × (drop (suc i) xs ≡ rest)
drop-step zero [] rest x e = ground arith
drop-step (suc i) [] rest x e = ground arith
drop-step zero (y ∷ xs) rest x e = ground arith
drop-step (suc i) (y ∷ xs) rest x e = drop-step i xs rest x e

inherited-netdev :
    (i : ℕ) (all : List NetConfig) → inherited all (3 + i) ≡ get_elem? (extra_files all) i
inherited-netdev i all = ap (get_elem? (extra_files all)) (omega arith)

-- What the descriptors of the network devices stand for.
files_of-nic_args :
    (i : ℕ) (nets all : List NetConfig)
    → drop i (extra_files all) ≡ ids nets
    → map (λ d. inherited all d.1) (netdevs (nic_args i nets)) ≡ map (λ nic. some nic.id) nets
files_of-nic_args i [] all e = refl
files_of-nic_args i (nic ∷ nets) all e =
    let s = drop-step i (extra_files all) (ids nets) nic.id e in
    simp (inherited-netdev i all)
      (rw s.0 (ap (λ r. some nic.id ∷ r) (files_of-nic_args (suc i) nets all s.1)))

-- Where the command line can be built, it has the disks in the order in which they were added, each
-- under its number, with its path and whether it is read-only; and the descriptor of each network
-- device is, in the process, the file of the tap of that device.
pub command_line_names_devices :
    (env : Env) (q : Instance) (args : List Arg)
    → build_qemu_command_line env q ≡ some args
    → (drives args ≡ numbered 0 q.disks)
      × (map (λ d. inherited q.nets d.1) (netdevs args) ≡ map (λ nic. some nic.id) q.nets)
unfolding build_qemu_command_line
command_line_names_devices env q args e =
    let a = add_nics-appended 0 q.nets (add_disks env 0 q.disks (machine_args q)) args e in
    let built =
      a.0
      ∙ ap (λ xs. xs ++ nic_args 0 q.nets) (add_disks-appended env 0 q.disks (machine_args q)) in
    (
      rw built (
          simp (drives-append, machine-drives, disk_args-drives, nic_args-drives, append-nil) refl),
      rw built (
          simp (netdevs-append, machine-netdevs, disk_args-netdevs)
            (files_of-nic_args 0 q.nets q.nets a.1)),
    )
