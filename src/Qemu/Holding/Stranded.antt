-- ===== src/Qemu/Holding/Stranded.antt =====
-- A machine of internal/host/vm/qemu whose process could not be killed.
use qemubox.Base.{ℕ, ◌≡◌, refl, sym, ap, subst, Bool, false, List, [], ◌∷◌, arith}
use qemubox.Qemu.Instance.{Env, Error, err, Instance, is_new, add_disk, add_tap_nic}
use qemubox.Qemu.Start.{console_opens, console_ends}
use qemubox.Qemu.Shutdown.{shutdown}
use qemubox.Qemu.Holding.Failed.{Outcome, Running}
use qemubox.Qemu.Holding.Released.{Released, Stranded, shutdown_releases_or_strands}
use qemubox.Qemu.Holding.Histories.{
  Op, op_disk, op_nic, op_start, op_console, op_console_ends, op_shutdown, perform, run,
  start_refused, shutdown_ignored,
}

disk_refused :
    (env : Env) (id path : ℕ) (readonly : Bool) (q : Instance)
    → is_new q.vm_state ≡ false
    → (add_disk env id path readonly q).0 ≡ q
unfolding add_disk
disk_refused env id path readonly q h = simp (h) refl

nic_refused :
    (env : Env) (tap_name mac : ℕ) (q : Instance)
    → is_new q.vm_state ≡ false
    → (add_tap_nic tap_name mac q).0 ≡ q
unfolding add_tap_nic
nic_refused env tap_name mac q h = simp (h) refl

module _ (env : Env) (j : ℕ) (q₀ : Instance) where
  perform-Stranded :
      (op : Op) (q : Instance) → Stranded env j q₀ q → Stranded env j q₀ (perform env op q)
  unfolding console_opens console_ends
  perform-Stranded (op_disk id path readonly) q h =
      rw (disk_refused env id path readonly q (simp (h.state) refl)) h
  perform-Stranded (op_nic tap_name mac) q h =
      rw (nic_refused env tap_name mac q (simp (h.state) refl)) h
  perform-Stranded (op_start netns) q h =
      subst (Stranded env j q₀)
        (sym (ap (λ x. x.0) (start_refused env j netns q (simp (h.state) refl)))) h
  perform-Stranded op_console q h = ground arith
  perform-Stranded op_console_ends q h = ground arith
  perform-Stranded op_shutdown q h =
      subst (Stranded env j q₀)
        (sym (ap (λ x. x.0) (shutdown_ignored env j q (simp (h.state) refl)))) h

  run-Stranded :
      (ops : List Op) (q : Instance) → Stranded env j q₀ q → Stranded env j q₀ (run env ops q)
  run-Stranded [] q h = h
  run-Stranded (op ∷ ops) q h = run-Stranded ops (perform env op q) (perform-Stranded op q h)

-- Where the shutdown of a machine that is running, has a process, and holds nothing that its fields
-- do not name, returns an error, no later calls on the machine, another shutdown included, give
-- back the pipe, the CID or the state directory. (The goroutine of the console closes its file.)
pub failed_shutdown_keeps_for_good :
    (env : Env) (j : ℕ) (q q' : Instance) (e : Error) (ops : List Op)
    → Running env j q
    → shutdown env q ≡ (q', err e)
    → Stranded env j q (run env ops q')
failed_shutdown_keeps_for_good env j q q' e ops h failed = run-Stranded env j q ops q' (
    subst (Outcome (Released env j q) (Stranded env j q)) failed
      (shutdown_releases_or_strands env j q h))
