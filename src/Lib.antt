-- ===== src/Lib.antt =====
-- A model of the kernel module of this repository, which dims the panel of a laptop when nobody uses
-- it and lights it up on input, with proofs about it.
--
-- The program. kmod/framework.c sets up the parts below and hands each the addresses of the ones it
-- uses. A thread (kmod/framework_callout.c) compares the time of the last input with the timeout of
-- the current power source and lowers the brightness; the input callback
-- (kmod/framework_evdev.c) notes the time and wakes the level again through
-- `framework_callout_inputintr`, which also hands brightness keys to kmod/framework_keyhandler.c. The
-- brightness and the timeout are read from two configurations, for battery and mains
-- (kmod/framework_screen.c), chosen by the answer of ACPI (kmod/framework_power.c) and changed by the
-- keys and by sysctl (kmod/framework_sysctl.c). kmod/framework_backlight.c writes the panel.
-- kmod/framework_state.c counts the hints against dimming that sysctl takes; the thread does not look
-- at the counter. Each input device has a listener thread with a session
-- (kmod/framework_evdev_thread.c), which calls the input callback. dbus/framework_debus.c is a program
-- of its own, which listens for media players on the message bus and prints when playback starts and
-- stops; xss/framework_xss.c is another, which prints when the state of the screen saver changes.
--
-- The files.
-- - Base: the words of the C types, actions on a state that may fault, mutexes, texts; runs of a step
--   function, and tests at all values of a finite type.
-- - Kernel: what the kernel offers and the module only calls (ACPI, the device list, the
--   backlight, the clock) as fields of a record `Kernel E` over an unknown outer state `E`, and the
--   input system, kqueue and kthread(9) as a record `InputApi E`.
-- - State: kmod/framework_state.c. State.Counting: the counter against a run of hints.
-- - Screen: kmod/framework_screen.c, both configurations and the table of functions. Screen.Levels:
--   `framework_screen_config_changebrightness` against integer arithmetic. Screen.Bounds: limits.
-- - Cdevs: the two searches of the device list in kmod/framework_utils.c.
-- - Power: kmod/framework_power.c. Power.Modes: the answers. Power.Start: `framework_pwr_init`.
-- - Backlight: kmod/framework_backlight.c. Backlight.Panel: what the panel shows afterwards.
-- - Display: power, screen configuration and backlight side by side.
-- - Utils: `framework_util_getscreenconfig` of kmod/framework_utils.c. Utils.Lookup: its answers.
-- - Keyhandler: kmod/framework_keyhandler.c. Keyhandler.Keys: the effect of a key.
-- - Sysctl: the handlers of kmod/framework_sysctl.c. Sysctl.Limits and Sysctl.Dimming: their effect.
--   Sysctl.Tree: `framework_sysctl_init` and `framework_sysctl_destroy`.
-- - Evthread: kmod/framework_evdev_thread.c, the session and its locks. Evthread.Calls: the functions
--   that set it up, register its client and destroy it; Evthread.Calls.Life: a session from start to
--   end. Evthread.Listener: what the thread runs. Evthread.Shutdown: the thread and the destruction at
--   the same time, one access to shared memory at a time; its children prove what that comes to.
--   Evthread.Shutdown.Code: the code between two of these places and its executions;
--   Evthread.Shutdown.Code.Paths is about the pieces one after the other.
-- - Evdev: kmod/framework_evdev.c, the time of the last input and the interrupt function. Evdev.Names:
--   which devices are listened to. Evdev.Bindings: the list of bindings, `framework_evdev_init` and
--   `framework_evdev_destroy`; Evdev.Bindings.Chosen: the table of names in other words.
-- - Callout: kmod/framework_callout.c. Callout.Wanted: brightness and timeout. Callout.Input: the
--   interrupt. Callout.Wakeup: `framework_evdev_oninput` with its call of the interrupt.
--   Callout.Rounds: a round of the thread. Callout.Setup: `framework_callout_init` and
--   `framework_callout_destroy`. Callout.Stopping: thread, destruction and input at the same time.
--   Callout.Stopping.Code: the code between two of its places and its executions;
--   Callout.Stopping.Code.Paths is about the pieces one after the other, and
--   Callout.Stopping.Code.Finishing and Callout.Stopping.Code.Ending about the end of the wait of the
--   destroyer.
--   Callout.Timed: thread and input second by second; its children say what the level and the panel
--   are at every time. Callout.Timed.Tuned: the same while the sysctls write levels and timeouts.
-- - Driver: kmod/framework.c. Driver.Loaded: what `framework_init` leaves; Driver.Loading: its undo
--   ladder. Driver.Unloading: `framework_destroy`. Driver.Cycle: one after the other.
-- - Signal: the parser of dbus/framework_debus.c (`makeupper`, `parse_signal_iter`, `parse_signal`).
--   Signal.Mpris: what it reads from the signal of a media player.
-- - Players: the rest of dbus/framework_debus.c: the list of players, the handlers, `sigfunc`, and
--   `main`. Players.Playing: the list. Players.Notices and Players.Handled: the handlers.
--   Players.History and Players.Last: the loop and the program.
-- - Saver: xss/framework_xss.c. Saver.Changes: what its loop prints.
-- - Bench: a kernel and states to run the model on. Examples and its children: the runs.
--
-- The correspondence. A function `framework_<part>_<name>` is `<name>` in the part's file, with the
-- same order of calls and of locking. It is an action: a function from the state of its part and of
-- the parts below it to a result with the new state, or to a fault. Faults are what C leaves
-- undefined or the kernel panics on: a null pointer, memory used after free, a mutex that is locked
-- while it is held (deadlock) or used when it is not initialised (bad mutex). So a theorem that an
-- action is `ok` says that it ends and that none of this happens. Allocated memory is a slot that is
-- null, live or freed. A pointer that may be null is an option of an address; the two configurations
-- and the addresses in them are data types.
--
-- Numbers. An unsigned word is a natural number with its wrap-around written out; an int is stored as
-- its bit pattern, and signed arithmetic and comparison go through `ℤ`.
--
-- Bounds. Searches of lists are recursions on the list. The endless loop of the callout thread runs
-- on fuel (`rounds`): the theorems are about one round, which needs none, and about the end of the
-- loop, for which any fuel above 0 is enough, since its test fails at once. The loop of a
-- listener is a recursion on the list of its sleeps.
--
-- Threads. An action runs without another thread in between; where the code sleeps (`msleep`), what
-- others do meanwhile is an argument. The two shutdowns, in which threads meet, are modelled a second
-- time as step functions over the places where each thread stands (Evthread.Shutdown,
-- Callout.Stopping), with reachability over all interleavings; Evthread.Shutdown.Code and
-- Callout.Stopping.Code tie the steps to the code, as long as the memory is not freed; a thread that
-- waits for a mutex is one that has no step. There, a callback returns, `msleep` wakes up for `wakeup`
-- or at its timeout only, and a single listener stands for those that have input. In Callout.Stopping
-- a query of ACPI returns as well, so the steps are those of a machine whose power mutex is not left
-- locked: an unknown battery state leaves it so (Power.Modes), and the thread would wait for it in its
-- next query for ever. `IsSteady` excludes such a state for the code of Callout.Stopping.Code. What
-- the destroyer of a session does after its wait, from the place `released` on (it unregisters the
-- client and destroys the mutexes, which takes some of the locks again), is one step that does not
-- wait; Evthread.Calls has its calls one by one.
--
-- Time. In Callout.Timed a history is a list of events, seconds and reports of input. The thread
-- wakes up in the second in which the ticks of its sleep end, and a report or a round is done before
-- the next event. The clock, ACPI and the backlight are as hypotheses say (`IsSteady`, `Works`): one
-- source of power, and calls that take no time. `tvtohz` returns an int, which `uint32_t` then takes; it
-- stops at 2 ^ 31 - 1, so that `KeepsTime` asks of it only that it is right up to less than a second for
-- times that fit. What the panel shows is any relation `shown` between device, level and the
-- kernel's state: a device may round, and report another level than the one that was set. In
-- Callout.Timed.Tuned a write through a sysctl is one more kind of event, and a timeout may be 0.
--
-- The helpers. Their models are programs of their own: the arguments of a message are a tree, as the
-- iterator of the bus library walks it, and the events of a loop (a message or none, the answer of the
-- X server, an operating system signal) are a list, so that the loop is a recursion on that list.
--
-- Not modelled. The printing macros of the module, which also read the debug level, under the mutex of
-- sysctl (`framework_sysctl_debuglevel`); the line that the bus program prints for a message without
-- arguments; the bodies of the kernel's, ACPI's, the bus
-- library's and the X libraries' functions; other interleavings than those of the two shutdowns;
-- `print_signal`, which is not called. The pointers that the code passes to
-- `framework_sysctl_destroy` and to the callbacks as their context are addresses of structures that
-- always exist, and are left out.
mod Base
pub mod State
pub mod Screen
pub mod Kernel
pub mod Cdevs
pub mod Power
pub mod Backlight
pub mod Display
pub mod Utils
pub mod Keyhandler
pub mod Sysctl
pub mod Evthread
pub mod Evdev
pub mod Callout
pub mod Driver
pub mod Signal
pub mod Players
pub mod Saver
mod Bench
mod Examples
