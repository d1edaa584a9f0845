-- ===== src/Spinlock.antt =====
-- kernel/spinlock.c: spin locks, and the nesting of the disabling of interrupts.
pub mod Nesting
pub mod Turns
pub mod Inside
pub mod Exclusion
mod Tests
use os_design_practice.Prelude.{
  Bool, Option, false, if◌then◌else◌, ltb, none, not, some, true, ℕ, ◌&&◌, ◌+◌, ◌-◌, ◌==◌, ◌||◌,
}

-- The fields of `struct cpu` that the locks use, and the interrupt flag of the CPU.
pub record Cpu : Type 0 where
  pub noff : ℕ
  pub intena : Bool
  pub enabled : Bool

pub record Spinlock : Type 0 where
  pub locked : Bool
  pub cpu : Option ℕ

pub initlock : Spinlock
initlock = record { locked = false; cpu = none }

pub holding : ℕ → Spinlock → Bool
holding me lk = lk.locked && elim lk.cpu [ none ↦ false | some c ↦ c == me ]

pub push_off : Cpu → Cpu
push_off c = record {
  noff = c.noff + 1;
  intena = if c.noff == 0 then c.enabled else c.intena;
  enabled = false;
}

-- `none` is a panic.
pub pop_off : Cpu → Option Cpu
pop_off c =
    if c.enabled || ltb c.noff 1
    then none
    else some (record c { noff = c.noff - 1; enabled = c.noff - 1 == 0 && c.intena })

-- `acquire` before its loop: interrupts go off, and `none` is a panic.
pub acquire_begin : ℕ → Cpu → Spinlock → Option Cpu
acquire_begin me c lk = if holding me lk then none else some (push_off c)

-- `__atomic_exchange_n(&lk->locked, 1, ...)`, which the loop of `acquire` repeats until it returns 0; the
-- first component tells whether it does.
pub exchange : Spinlock → Bool × Spinlock
exchange lk = (not lk.locked, record lk { locked = true })

-- `lk->cpu = mycpu()`, after the loop.
pub acquire_end : ℕ → Spinlock → Spinlock
acquire_end me lk = record lk { cpu = some me }

-- `release` up to `lk->cpu = 0`; `none` is a panic.
pub release_begin : ℕ → Spinlock → Option Spinlock
release_begin me lk = if holding me lk then some (record lk { cpu = none }) else none

-- `__atomic_store_n(&lk->locked, 0, ...)`; after it, `release` ends with `pop_off`.
pub release_store : Spinlock → Spinlock
release_store lk = record lk { locked = false }
