-- ===== src/Proc/Control/Kill.antt =====
-- `kkill` of kernel/proc.c.
use os_design_practice.Prelude.{
  arith, false, get_elem?, get_elem?-modify_ne, get_elem?-modify_self, modify, pos, refl, some,
  true, ℕ, ◌≡◌, ◌≢◌,
}
use os_design_practice.Proc.Types.{Proc, is_sleeping, is_unused, runnable}
use os_design_practice.Proc.Sched.{Table}
use os_design_practice.Proc.Control.{find_index, has_pid, kill_one, kill_found, kkill}
use os_design_practice.Proc.Control.Find.{IsFirstMatch, find_index-ne-none}

-- What `kkill` has done to its victim.
pub record Victim (pid : ℕ) (t t' : Table) : Type 0 where
  pub index : ℕ
  pub match : IsFirstMatch (has_pid pid) t index
  pub victim : Proc
  pub after : get_elem? t' index ≡ some victim
  pub killed : victim.killed ≡ true
  pub awake : is_sleeping victim.state ≡ false
  pub woken : is_sleeping match.proc.state ≡ true → victim.state ≡ runnable
  pub not_woken : is_sleeping match.proc.state ≡ false → victim.state ≡ match.proc.state
  pub others : (j : ℕ) → index ≢ j → get_elem? t' j ≡ get_elem? t j

kill_one-fields :
    (p : Proc)
    → ((kill_one p).killed ≡ true)
      × (is_sleeping (kill_one p).state ≡ false)
      × (is_sleeping p.state ≡ true → (kill_one p).state ≡ runnable)
      × (is_sleeping p.state ≡ false → (kill_one p).state ≡ p.state)
unfolding kill_one
kill_one-fields p = (ground arith, ground arith, λ e. ground arith, λ e. ground arith)

-- `kkill` of a pid that stands in the table returns 0 and marks the first entry with this pid
-- killed; if that sleeps it becomes RUNNABLE, and otherwise keeps its state. Every other entry
-- is as before.
pub kkill-Victim :
    (pid i : ℕ) (t : Table) (p : Proc)
    → get_elem? t i ≡ some p
    → p.pid ≡ pid
    → ((kkill (pos pid) t).0 ≡ pos 0) × Victim pid t (kkill (pos pid) t).1
unfolding kkill kill_found
kkill-Victim pid i t p here e =
    let (r, found, m) = find_index-ne-none (has_pid pid) t i here (ground arith) in
    let f = kill_one-fields m.proc in
    rw found (
      refl,
      record {
        index = r;
        match = m;
        victim = kill_one m.proc;
        after = get_elem?-modify_self t r kill_one m.here;
        killed = f.0;
        awake = f.1;
        woken = f.2;
        not_woken = f.3;
        others = λ j ne. get_elem?-modify_ne t r j kill_one ne;
      },
    )

-- A kill does not change which entries are unused.
pub is_unused-kill_one : (p : Proc) → is_unused (kill_one p).state ≡ is_unused p.state
unfolding kill_one
is_unused-kill_one p = ground arith

-- The table after a kill that found the entry `i`.
pub kkill-found :
    (pid i : ℕ) (t : Table)
    → find_index (has_pid pid) t ≡ some i
    → kkill (pos pid) t ≡ (pos 0, modify t i kill_one)
unfolding kkill kill_found
kkill-found pid i t e = rw e

pub killed-kill_one : (p : Proc) → (kill_one p).killed ≡ true
killed-kill_one p = (kill_one-fields p).0
