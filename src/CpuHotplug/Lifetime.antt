-- ===== src/CpuHotplug/Lifetime.antt =====
-- `Start` and `Stop` of internal/shim/cpuhotplug/controller.go.
use qemubox.Base.{Bool, true, false}

-- The channel `stopCh`: nil, open, or closed.
pub data StopChannel : Type 0 where
  unset open_channel closed_channel : StopChannel

data Stopped : Type 0 where
  not_started stopped panics : Stopped

-- The channel afterwards, and whether a monitoring loop is begun.
unfoldable pub start : StopChannel → StopChannel × Bool
start unset = (open_channel, true)
start open_channel = (open_channel, false)
start closed_channel = (closed_channel, false)

-- `close` of a closed channel panics.
unfoldable stop : StopChannel → StopChannel × Stopped
stop unset = (unset, not_started)
stop open_channel = (closed_channel, stopped)
stop closed_channel = (closed_channel, panics)
