-- ===== src/Lib.antt =====
-- Verification library of spinbox: a shim that runs each container in a QEMU virtual machine, and
-- the service that manages the container's processes inside that machine.
--
-- Parts and files:
--   Lifecycle     internal/shim/lifecycle (state.go, cleanup.go, errors.go): the states of the shim
--                 (State), their diagram (Edges), histories of operations (Histories), and the
--                 cleanup phases with the order in which they run (Cleanup, Cleanup.Order).
--   Process       internal/guest/vminit/process (state.go, and from init.go, exec.go and utils.go
--                 what the state machines call): init processes (Init) and exec processes (Exec).
--   ExitTracker   internal/guest/vminit/task/exit_tracker.go: Detector, Coordinator, Registry, and
--                 Tracker, which joins them.
--   TaskEvents    internal/guest/vminit/task/events.go: the service that publishes exits, over
--                 ExitTracker.
--   Shim          internal/shim/task (service.go, create.go, connmanager.go) and
--                 internal/shim/lifecycle/vm.go: the connection to the guest (Connection), the state
--                 of the service and its calls outside (Service), its shutdown over Lifecycle.Cleanup
--                 (Shutdown), Create with its rollback (Create), Delete (Delete), Exec (Exec), the
--                 other requests (Requests), histories of all of them (History), and the loops that
--                 dial again (Retry).
--   CpuHotplug    internal/shim/cpuhotplug/controller.go: Controller (state and configuration),
--                 Sample (sampleCPU, calculateTargetCPUs), Scale (scaleUp, scaleDown), Check
--                 (checkAndAdjust), Lifetime (Start, Stop).
--   MemHotplug    internal/shim/memhotplug/controller.go: Controller (state, configuration, slots),
--                 Target (sampleMemory, calculateTargetMemory), Scale (scaleUp, scaleDown,
--                 checkAndAdjust), Lifetime (Start, Stop); Bounds, Pressure, Streak, Slots, Dimms, Guest
--                 and Alignment hold the proofs.
--   Qemu          internal/host/vm/qemu (qemu.go, types.go, instance.go, devices.go, client.go,
--                 start.go, shutdown.go, qemu_command.go, qmp_memory.go): the machine and its devices
--                 (Instance), the command line (Command), Start with its rollback (Start), Shutdown
--                 (Shutdown), HotplugMemory and UnplugMemory (Memory); Devices, Holding,
--                 Memory.Outcomes and Memory.Blocked hold the proofs.
--   Mounts        internal/shim/platform/mounts/linux.go and internal/host/mountutil/mount.go: what
--                 becomes of the mounts of a container on the host (Transform, and Transform.Setup for
--                 the generated overlay and the disks) and in the guest (Format for the templates,
--                 Mounting for the mounts), and a QEMU machine as
--                 what takes the disks (Machine); Transform.Layout, Transform.Disks, and the files below
--                 Mounting hold the proofs.
--   Network       internal/host/network (network.go, manager_cni.go): the set-up of a network among
--                 concurrent callers (Setup), and what is asked of plugins and namespaces (Plugins);
--                 Setup.Exclusive, Plugins.Namespaces and Plugins.Teardown hold the proofs.
--   Vsock         internal/vsock/allocator.go: Allocator (Allocate, Release); Search, Exclusive and
--                 Cooldown hold the proofs.
--   Resources     internal/shim/resources/config.go and validateResourceConfig of
--                 internal/host/vm/qemu/instance.go: Config; Limits holds the proofs.
--   Configuration internal/config (config.go, validation.go): the data and its defaults
--                 (Configuration), Validate and LoadFrom (Validation); Validation.Accepted and Defaults
--                 hold the proofs.
--   GuestContainer  Container of internal/guest/vminit/runc/container.go: the names of processes and
--                 their reservation; Names holds the proofs.
--   Base          shared helpers; no code of the repository.
--
-- How state and operations correspond to the code: a struct is a record, and a method that changes
-- it is a function that returns the new record, under the Go name in snake case. A method that runs
-- under one mutex is one step; where a method takes several mutexes in turn, its parts are steps of
-- their own. Where the code closes a channel, the state says whether it is closed, and a second
-- close is the outcome `panics`. A Go map is a function from keys.
--
-- A request handler of the shim runs as one step, so histories are sequences of requests. Its calls
-- outside are on a trace, newest first, and what they answer is a function of the trace so far. The
-- names of containers and processes are numbers there, as the texts of the configuration are, and 0 is
-- the empty one; the I/O of a container is never nil, since finalizeCreate alone makes containers. A Go
-- map is there a list of keys.
--
-- The panic of a method of a nil instance, which a failed NewInstance can leave, is not modelled: the
-- service says whether it has one.
--
-- A virtual machine runs its calls one after the other, and its goroutine that copies the console runs
-- between them. What it takes and gives back, and what it asks of QEMU, is on a trace as well. The
-- paths and texts of Mounts are lists of pieces, of which a template is one; suffixes of paths are
-- answers of the environment. The host hands its disks to a machine through the record
-- DiskTarget, whose law Appends says that disks keep their order; Machine fills it with
-- Qemu.Instance. Callers of the network manager take
-- steps in any order, one for each part of a call between its locks.
--
-- Code outside these files is a parameter. The cleanup functions, and the calls of the two hotplug
-- controllers to QEMU, the guest, the statistics and the clock, answer by any function of the calls
-- made before; what the OCI runtime and the console answer is an argument of the call, and what the
-- operating system answers about a lock file is a function of the CID. Floats are a type with
-- operations of which nothing is assumed, but for the comparison of whole numbers in
-- Configuration.Defaults. A loop is over a list or a number of rounds that the code
-- fixes, but for three, which have fuel. The loop of Allocate counts in 32 bits and would not end if the
-- range went up to the largest number: one more than the range has CIDs is enough for every range below
-- that number. The two loops of Shim.Retry go on until a time is over: each of their rounds sleeps for a
-- millisecond or more, so the milliseconds to that time, and two more, are enough if the clock does not
-- run behind the sleeps.
--
-- Bounds: counts, sizes and times are natural numbers, and are not taken to wrap. The counter of
-- running execs, the CPU quota and the memory limit are signed integers; the memory sizes of Resources wrap in 64
-- bits; CIDs count in 32 bits.
--
-- Not modelled: parseCPUSet (what it counts is an argument), logging, metrics, the texts of errors,
-- the ticker of the monitoring loops, the goroutines of the shim that forward events and output, the
-- waits of requestShutdownAndExit, and the parts of the repository that the list above does not name.
pub mod Base
pub mod Lifecycle
pub mod Process
pub mod Qemu
pub mod Mounts
pub mod Network
pub mod ExitTracker
pub mod TaskEvents
pub mod CpuHotplug
pub mod MemHotplug
pub mod Vsock
pub mod Resources
pub mod Configuration
pub mod GuestContainer
pub mod Shim
