-- ===== src/Proc/Sleep.antt =====
-- Sleeping and waking, of kernel/proc.c: `sleep_prepare`, `sleep` and `wakeup`. Each takes a
-- process's lock for one step on that process, so each is a function on the table.
pub mod Fields
pub mod Entry
pub mod Wakeups
use os_design_practice.Prelude.{
  ℕ, ◌≡◌, Bool, true, false, not, Option, none, some, List, map, ◌==◌, if◌then◌else◌, modify,
  get_elem?,
}
use os_design_practice.Proc.Types.{Proc, is_sleeping, sleeping, runnable}
use os_design_practice.Proc.Sched.{Table}

-- `none` is the panic on a null channel.
unfoldable pub sleep_prepare : ℕ → ℕ → Table → Option Table
sleep_prepare c chan t =
    if chan == 0 then none else some (modify t c (λ p. record p { chan = chan }))

-- Process `c` goes to sleep, unless its channel has been woken since `sleep_prepare`.
pub sleep_one : Proc → Proc
sleep_one p = if p.chan == 0 then p else record p { state = sleeping }

pub sleep : ℕ → Table → Table
unfolding sleep_one
sleep c t = modify t c sleep_one

pub wake_one : ℕ → Proc → Proc
wake_one chan p =
    if p.chan == chan
    then record p { chan = 0; state = if is_sleeping p.state then runnable else p.state }
    else p

pub wakeup : ℕ → Table → Table
wakeup chan t = map (wake_one chan) t
