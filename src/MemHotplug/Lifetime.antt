-- ===== src/MemHotplug/Lifetime.antt =====
-- `Start` and `Stop` of internal/shim/memhotplug/controller.go. The goroutine of the monitoring loop
-- ends, and closes `stoppedCh`, when `stopCh` is closed.
use qemubox.Base.{ℕ, ◌+◌, ◌≡◌, refl, Bool, true, false, List, [], ◌∷◌, if◌then◌else◌, arith}

-- The flag `started`, and whether `stopCh` is closed.
record Loop : Type 0 where
  started : Bool
  stop_closed : Bool

-- `Stop` waits on `stoppedCh`, for ever if there is no loop to close it.
data Stopping : Type 0 where
  already_stopped loop_ended blocked : Stopping

abbrev new_loop : Loop
new_loop = record { started = false; stop_closed = false }

-- Whether a loop is begun.
unfoldable start : Loop → Loop × Bool
start l = if l.started then (l, false) else (record l { started = true }, true)

unfoldable stop : Loop → Loop × Stopping
stop l =
    if l.stop_closed
    then (l, already_stopped)
    else (record l { stop_closed = true }, if l.started then loop_ended else blocked)

data Request : Type 0 where
  starts stops : Request

abbrev is_blocked : Stopping → Bool
is_blocked blocked = true
is_blocked _ = false

-- How many loops are begun, and whether a stop has blocked.
unfoldable run : Loop → List Request → ℕ × Bool
run l [] = (0, false)
run l (starts ∷ rs) =
    let (l', begun) = start l in
    let (loops, stuck) = run l' rs in ((if begun then 1 else 0) + loops, stuck)
run l (stops ∷ rs) =
    let (l', outcome) = stop l in
    let (loops, stuck) = run l' rs in (loops, if is_blocked outcome then true else stuck)

started_runs : (rs : List Request) (l : Loop) → l.started ≡ true → run l rs ≡ (0, false)
unfolding run start stop
started_runs [] l h = refl
started_runs (starts ∷ rs) l h = ground (arith, h, started_runs rs l h)
started_runs (stops ∷ rs) l h =
    ground (arith, h, started_runs rs l h, started_runs rs (record l { stop_closed = true }) h)

-- A controller that is started first begins one loop, and none of its stops blocks, whatever starts
-- and stops follow.
stops_return : (rs : List Request) → run new_loop (starts ∷ rs) ≡ (1, false)
unfolding run start
stops_return rs =
    ground (arith, started_runs rs (record { started = true; stop_closed = false }) refl)
