-- ===== src/Proc/Types.antt =====
-- kernel/proc.h and the constants of kernel/param.h: a process, its states and its priorities.
-- Pointers are addresses, 0 the null pointer. Another process is named by its index in `proc[]`.
use os_design_practice.Prelude.{ℕ, ◌≤◌, Bool, true, false, Option, List, leb, ℤ}

pub data ProcState : Type 0 where
  unused used sleeping runnable running zombie : ProcState

abbrev pub is_unused : ProcState → Bool
is_unused unused = true
is_unused _ = false

abbrev pub is_sleeping : ProcState → Bool
is_sleeping sleeping = true
is_sleeping _ = false

abbrev pub is_runnable : ProcState → Bool
is_runnable runnable = true
is_runnable _ = false

abbrev pub is_running : ProcState → Bool
is_running running = true
is_running _ = false

abbrev pub is_zombie : ProcState → Bool
is_zombie zombie = true
is_zombie _ = false

abbrev pub nproc : ℕ
nproc = 64

abbrev pub nofile : ℕ
nofile = 16

abbrev pub priority_max : ℕ
priority_max = 31

abbrev pub priority_default : ℕ
priority_default = 10

abbrev pub aging_interval : ℕ
aging_interval = 50

-- `priority_valid` for an `int` that is not negative
abbrev pub priority_valid : ℕ → Bool
priority_valid n = leb n priority_max

-- `struct context`: the registers that `swtch` saves
pub record Context : Type 0 where
  pub ra : ℕ
  pub sp : ℕ
  pub callee_saved : List ℕ  -- s0 to s11

-- `struct proc`, less its lock. Every assignment to the `int`s `pid` and `priority` stores a value
-- that is not negative. `ofile` holds pointers, `name` is char[16].
pub record Proc : Type 0 where
  pub state : ProcState
  pub chan : ℕ
  pub killed : Bool
  pub xstate : ℤ
  pub pid : ℕ
  pub priority : ℕ
  pub wait_ticks : ℕ  -- uint
  pub parent : Option ℕ
  pub kstack : ℕ
  pub sz : ℕ
  pub pagetable : ℕ
  pub trapframe : ℕ
  pub context : Context
  pub ofile : List ℕ
  pub cwd : ℕ
  pub name : List ℕ

-- what every process that can be scheduled satisfies
abbrev pub HasValidPriority : Proc → Type 0
HasValidPriority p = p.priority ≤ priority_max
