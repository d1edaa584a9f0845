-- ===== src/Proc/Control.antt =====
-- `ksetpriority`, `kgetpriority`, `kkill`, `setkilled` and `killed` of kernel/proc.c: each looks for
-- one process, a lock at a time, and returns an `int`.
pub mod Find
pub mod Priority
pub mod Kill
use os_design_practice.Prelude.{
  ℕ, zero, suc, Bool, true, false, not, ◌&&◌, Option, none, some, List, [], ◌∷◌, ◌==◌, leb,
  if◌then◌else◌, modify, get_elem?, ℤ, pos, negsuc, minus_one,
}
use os_design_practice.Proc.Types.{Proc, is_unused, is_sleeping, runnable, priority_valid}
use os_design_practice.Proc.Sched.{Table}

-- `for (p = proc; p < &proc[NPROC]; p++)` up to the first process that passes a test.
unfoldable pub find_index : (Proc → Bool) → Table → Option ℕ
find_index test [] = none
find_index test (p ∷ ps) =
    if test p then some 0 else elim (find_index test ps) [ none ↦ none | some i ↦ some (suc i) ]

abbrev pub is_live : ℕ → Proc → Bool
is_live pid p = not (is_unused p.state) && (p.pid == pid)

-- `p->priority = priority; p->wait_ticks = 0`
abbrev pub with_priority : ℕ → Proc → Proc
with_priority n p = record p { priority = n; wait_ticks = 0 }

set_found : ℕ → Table → Option ℕ → ℤ × Table
set_found n t none = (minus_one, t)
set_found n t (some i) = (pos 0, modify t i (with_priority n))

-- A pid is positive, and a priority must be valid.
unfoldable pub ksetpriority : ℤ → ℤ → Table → ℤ × Table
unfolding set_found
ksetpriority (pos zero) priority t = (minus_one, t)
ksetpriority (pos (suc k)) (pos n) t =
    if priority_valid n then set_found n t (find_index (is_live (suc k)) t) else (minus_one, t)
ksetpriority (pos (suc k)) (negsuc n) t = (minus_one, t)
ksetpriority (negsuc k) priority t = (minus_one, t)

get_found : Table → Option ℕ → ℤ
get_found t none = minus_one
get_found t (some i) = elim (get_elem? t i) [ none ↦ minus_one | some p ↦ pos p.priority ]

pub kgetpriority : ℤ → Table → ℤ
unfolding get_found
kgetpriority (pos zero) t = minus_one
kgetpriority (pos (suc k)) t = get_found t (find_index (is_live (suc k)) t)
kgetpriority (negsuc k) t = minus_one

abbrev pub has_pid : ℕ → Proc → Bool
has_pid pid p = p.pid == pid

unfoldable pub kill_one : Proc → Proc
kill_one p =
    if is_sleeping p.state
    then record p { killed = true; state = runnable }
    else record p { killed = true }

kill_found : Table → Option ℕ → ℤ × Table
kill_found t none = (minus_one, t)
kill_found t (some i) = (pos 0, modify t i kill_one)

-- Unlike the two above, it looks at unused entries too. No process has a negative pid.
unfoldable pub kkill : ℤ → Table → ℤ × Table
unfolding kill_one kill_found
kkill (pos k) t = kill_found t (find_index (has_pid k) t)
kkill (negsuc k) t = (minus_one, t)

unfoldable pub setkilled : ℕ → Table → Table
setkilled c t = modify t c (λ p. record p { killed = true })

unfoldable pub killed : ℕ → Table → Bool
killed c t = elim (get_elem? t c) [ none ↦ false | some p ↦ p.killed ]
