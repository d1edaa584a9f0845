-- ===== src/Proc/Services.antt =====
-- What kernel/proc.c calls of the memory, file and inode layers (kernel/kalloc.c, kernel/vm.c,
-- kernel/file.c, kernel/fs.c): a client of these layers sees a state and operations on it. A call
-- that may wake sleepers returns the channels that it wakes, for the table of processes.
use os_design_practice.Prelude.{Bool, List, ℕ, ℤ, ◌<◌}

pub record Services : Type 1 where
  pub State : Type 0
  pub kalloc : State → ℕ × State  -- 0 if there is no page
  pub kfree : ℕ → State → State
  pub proc_pagetable : ℕ → State → ℕ × State  -- of a trapframe's address; 0 on failure
  pub proc_freepagetable : ℕ → ℕ → State → State
  pub uvmcopy : ℕ → ℕ → ℕ → State → Bool × State  -- false on failure
  pub copyout : ℕ → ℕ → ℕ → ℤ → State → Bool × State  -- an int, to a user address
  pub copy_trapframe : ℕ → ℕ → State → State  -- from, to; and a0 = 0 in the copy
  pub filedup : ℕ → State → State
  pub fileclose : ℕ → State → List ℕ × State
  pub idup : ℕ → State → State
  pub iput : ℕ → State → List ℕ × State  -- between begin_op() and end_op()
  pub proc_addr : ℕ → ℕ  -- &proc[i], as a channel
  pub proc_addr_pos : (i : ℕ) → 0 < proc_addr i
  pub forkret : ℕ
