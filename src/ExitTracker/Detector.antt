-- ===== src/ExitTracker/Detector.antt =====
-- `earlyExitDetector` and `earlyExitSubscription` of internal/guest/vminit/task/exit_tracker.go.
use qemubox.Base.{ℕ, Bool, true, false, List, [], ◌∷◌, ◌++◌, if◌then◌else◌, update, ◌+◌}

-- `runc.Exit` of go-runc.
pub record Exit : Type 0 where
  pub timestamp : ℕ
  pub pid : ℕ
  pub status : ℕ

-- A subscription object; `active` is whether the detector's map holds it.
pub record Subscription : Type 0 where
  pub active : Bool
  pub exits : ℕ → List Exit

pub record Detector : Type 0 where
  pub next_sub_id : ℕ
  pub subscriptions : ℕ → Subscription

abbrev no_exits : ℕ → List Exit
no_exits pid = []

unfoldable pub new_detector : Detector
new_detector = record {
  next_sub_id = 0;
  subscriptions = λ id. record { active = false; exits = no_exits };
}

-- The identifier of the new subscription is the counter after it is raised.
unfoldable pub subscribe : Detector → Detector × ℕ
subscribe d =
    let id = d.next_sub_id + 1 in
    (
      record d {
        next_sub_id = id;
        subscriptions = update d.subscriptions id (record { active = true; exits = no_exits });
      },
      id,
    )

add_exit : Exit → Subscription → Subscription
add_exit e sub =
    if sub.active
    then record sub { exits = update sub.exits e.pid (sub.exits e.pid ++ e ∷ []) }
    else sub

unfoldable pub notify_exit : Detector → Exit → Detector
unfolding add_exit
notify_exit d e = record d { subscriptions = λ id. add_exit e (d.subscriptions id) }

unfoldable pub remove : Detector → ℕ → Detector
remove d id = record d {
  subscriptions = update d.subscriptions id (record (d.subscriptions id) { active = false });
}

unfoldable pub complete : Detector → ℕ → ℕ → Detector × List Exit
unfolding remove
complete d id pid = (remove d id, (d.subscriptions id).exits pid)

unfoldable pub cancel : Detector → ℕ → Detector
unfolding remove
cancel d id = remove d id
