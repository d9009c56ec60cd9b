-- ===== src/Network/Setup.antt =====
-- `ensureNetworkResourcesCNI` of internal/host/network/manager_cni.go among concurrent callers. The
-- parts of a call between its locks are steps of their own. A caller and what it waits for are
-- numbers: a tracker is known by the caller that made it.
pub mod Exclusive
use qemubox.Base.{ℕ, ◌≡◌, Bool, true, false, Option, none, some, update}

-- The answer of a call: a result, an error, or the end of its context.
pub data Outcome : Type 0 where
  configured failed : ℕ → Outcome
  canceled : Outcome

-- Where a call is: before its look at the results, after it, waiting for the tracker of another; or
-- setting up, with the result to be stored, with the tracker to be closed, and to be removed.
pub data Phase : Type 0 where
  idle missed performing : Phase
  waiting storing : ℕ → Phase
  closing removing returned : Outcome → Phase

-- `cni_results` and `in_flight` are the two maps; `closed` is what the trackers say whose channel is
-- closed.
pub record World : Type 0 where
  pub cni_results : ℕ → Option ℕ
  pub in_flight : ℕ → Option ℕ
  pub closed : ℕ → Option Outcome
  pub phase : ℕ → Phase

-- No results, no trackers, and every caller before its call.
abbrev pub new_manager : World
new_manager = record {
  cni_results = λ id. none;
  in_flight = λ id. none;
  closed = λ c. none;
  phase = λ c. idle;
}

abbrev pub go : ℕ → Phase → World → World
go c p w = record w { phase = update w.phase c p }

-- `id_of` is the container of a caller.
module _ (id_of : ℕ → ℕ) where
  unfoldable pub lead : ℕ → World → World
  lead c w = go c performing (record w { in_flight = update w.in_flight (id_of c) (some c) })

  unfoldable pub store : ℕ → ℕ → World → World
  store c r w =
      go c (closing (configured r))
        (record w { cni_results = update w.cni_results (id_of c) (some r) })

  unfoldable pub close : ℕ → Outcome → World → World
  close c o w = go c (removing o) (record w { closed = update w.closed c (some o) })

  unfoldable pub remove : ℕ → Outcome → World → World
  remove c o w = go c (returned o) (record w { in_flight = update w.in_flight (id_of c) none })

  -- A release of the network of a container deletes its result, at any time.
  unfoldable pub forget : ℕ → World → World
  forget id w = record w { cni_results = update w.cni_results id none }

  pub data Step (w : World) : World → Type 0 where
    hit :
        (c r : ℕ)
        → w.phase c ≡ idle
        → w.cni_results (id_of c) ≡ some r
        → Step w (go c (returned (configured r)) w)
    miss : (c : ℕ) → w.phase c ≡ idle → w.cni_results (id_of c) ≡ none → Step w (go c missed w)
    join :
        (c o : ℕ)
        → w.phase c ≡ missed
        → w.in_flight (id_of c) ≡ some o
        → Step w (go c (waiting o) w)
    led : (c : ℕ) → w.phase c ≡ missed → w.in_flight (id_of c) ≡ none → Step w (lead c w)
    set_up : (c r : ℕ) → w.phase c ≡ performing → Step w (go c (storing r) w)
    refused : (c e : ℕ) → w.phase c ≡ performing → Step w (go c (closing (failed e)) w)
    stored : (c r : ℕ) → w.phase c ≡ storing r → Step w (store c r w)
    closes : (c : ℕ) (o : Outcome) → w.phase c ≡ closing o → Step w (close c o w)
    removes : (c : ℕ) (o : Outcome) → w.phase c ≡ removing o → Step w (remove c o w)
    wakes :
        (c o : ℕ) (out : Outcome)
        → w.phase c ≡ waiting o
        → w.closed o ≡ some out
        → Step w (go c (returned out) w)
    gives_up : (c o : ℕ) → w.phase c ≡ waiting o → Step w (go c (returned canceled) w)
    forgets : (id : ℕ) → Step w (forget id w)

  pub data Reach : World → Type 0 where
    initially : Reach new_manager
    then_step : (w w' : World) → Reach w → Step w w' → Reach w'
