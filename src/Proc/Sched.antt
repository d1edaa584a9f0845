-- ===== src/Proc/Sched.antt =====
-- The scheduler of kernel/proc.c, `apply_aging` and `scheduler`.
--
-- Each iteration of its two loops over `proc[]` holds one process's lock, so a round is two passes
-- over the table, and other CPUs may act between the passes and while the chosen process runs.
pub mod Scan
pub mod Choice
pub mod Priority
pub mod Fairness
mod Tests
use os_design_practice.Prelude.{
  ℕ, zero, suc, ◌+◌, ◌-◌, ◌%◌, ◌^◌, Bool, true, false, ◌&&◌, Option, none, some, List, [], ◌∷◌, ltb,
  leb, ◌==◌, if◌then◌else◌, modify, get_elem?,
}
use os_design_practice.Proc.Types.{
  Proc, is_runnable, running, nproc, aging_interval, priority_max, priority_valid,
}

abbrev pub Table : Type 0
Table = List Proc

pub apply_aging : Proc → Proc
apply_aging p =
    if is_runnable p.state
      && leb aging_interval p.wait_ticks
      && priority_valid p.priority
      && ltb 0 p.priority
    then record p { priority = p.priority - 1; wait_ticks = 0 }
    else p

-- The first loop's body, on the process itself: aging, then one more round of waiting.
pub wait_round : Proc → Proc
unfolding apply_aging
wait_round p =
    let q = apply_aging p in
    if is_runnable q.state then record q { wait_ticks = (q.wait_ticks + 1) % 2 ^ 32 } else q

-- What the first loop leaves behind: the table, `best_priority` and `found`.
pub record Pass : Type 0 where
  pub table : Table
  pub best : ℕ
  pub found : Bool

abbrev pub improves : Proc → ℕ → Bool
improves q best = is_runnable q.state && ltb q.priority best

pub scan_from : Table → ℕ → Bool → Pass
scan_from [] best found = record { table = []; best = best; found = found }
scan_from (p ∷ ps) best found =
    let q = wait_round p in
    let rest =
      scan_from ps (if improves q best then q.priority else best)
        (if improves q best then true else found) in
    record rest { table = q ∷ rest.table }

pub scan : Table → Pass
scan t = scan_from t (priority_max + 1) false

-- The test of the second loop at `proc[index]`.
pub ready : Table → ℕ → ℕ → Bool
ready t best index = elim (get_elem? t index) [
  | none ↦ false
  | some p ↦ is_runnable p.state && (p.priority == best)
]

-- The second loop with `k` offsets left, from `offset` on: the index that it dispatches.
pub select_from : Table → ℕ → ℕ → ℕ → ℕ → Option ℕ
select_from t best next zero offset = none
select_from t best next (suc k) offset =
    let index = (next + offset) % nproc in
    let rest = select_from t best next k (offset + 1) in
    if ready t best index then some index else rest

pub select : Table → ℕ → ℕ → Option ℕ
select t best next = select_from t best next nproc 0

pub dispatch : Table → ℕ → Table
dispatch t index = modify t index (λ p. record p { state = running; wait_ticks = 0 })

-- What others do to the table between the two loops, and until the chosen process is back in the
-- scheduler.
pub record Interference : Type 0 where
  pub between : Table → Table
  pub during : Table → Table

pub record Round : Type 0 where
  pub table : Table
  pub next : ℕ  -- `next_index`
  pub picked : Option ℕ

-- One pass of the scheduler's `for (;;)`.
pub finish : Interference → Table → ℕ → Option ℕ → Round
finish e t next none = record { table = t; next = next; picked = none }
finish e t next (some index) = record {
  table = e.during (dispatch t index);
  next = (index + 1) % nproc;
  picked = some index;
}

pub round : Interference → Table → ℕ → Round
round e t next =
    let pass = scan t in
    let t' = e.between pass.table in
    finish e t' next (if pass.found then select t' pass.best next else none)
