-- ===== src/Proc/Life/KillZero.antt =====
-- `kkill(0)` of kernel/proc.c looks at unused entries too, whose pid is 0, and `allocproc` does not
-- reset `killed`.
use os_design_practice.Prelude.{
  Bool-cases, ap, arith, get_elem?, get_elem?-modify_self, get_elem?-set_self, inl, inr,
  lt_of_get_elem?, modify, pos, some, true, ℕ, ℤ, ◌∙◌, ◌≡◌,
}
use os_design_practice.Proc.Types.{Proc, is_unused}
use os_design_practice.Proc.Services.{Services}
use os_design_practice.Proc.Sched.{Table}
use os_design_practice.Proc.Control.{has_pid, kkill, kill_one}
use os_design_practice.Proc.Control.Find.{find_index-modify, find_index-agree, find_index-ne-none}
use os_design_practice.Proc.Control.Kill.{is_unused-kill_one, kkill-found, killed-kill_one}
use os_design_practice.Proc.Life.{Kernel, allocproc}
use os_design_practice.Proc.Life.Alloc.{Allocated, allocproc-Outcome, AllocOutcome-some, is_free}
use os_design_practice.Proc.Life.Valid.{IsValid}

-- Unused entries have pid 0, as `freeproc` leaves them.
abbrev pub UnusedHasNoPid : Table → Type 0
UnusedHasNoPid t =
    (i : ℕ) (p : Proc) → get_elem? t i ≡ some p → is_unused p.state ≡ true → p.pid ≡ 0

same_test :
    (t : Table) (nextpid : ℕ)
    → IsValid t nextpid
    → UnusedHasNoPid t
    → (i : ℕ) (p : Proc) → get_elem? t i ≡ some p
    → has_pid 0 p ≡ is_unused p.state
same_test t nextpid v zero' i p e = elim (Bool-cases (is_unused p.state)) [
  | inl y ↦ ground (arith, zero' i p e y)
  | inr n ↦ ground (arith, v.handed_out i p e n)
]

-- In every valid table with an UNUSED entry `kill(0)` succeeds, though no process has pid 0, and the
-- next process that `allocproc` makes is killed before it has run.
pub kill_zero-born_killed :
    (v : Services) (k : Kernel v.State) (i j : ℕ) (p : Proc)
    → IsValid k.procs k.nextpid
    → UnusedHasNoPid k.procs
    → get_elem? k.procs j ≡ some p
    → is_unused p.state ≡ true
    → (allocproc v (record k { procs = (kkill (pos 0) k.procs).1 })).0 ≡ some i
    → ((kkill (pos 0) k.procs).0 ≡ pos 0)
      × ((q : Proc) × (get_elem?
              (allocproc v (record k { procs = (kkill (pos 0) k.procs).1 })).1.procs
              i
            ≡ some q)
          × (q.killed ≡ true))
kill_zero-born_killed v k i j p valid zero' here free made =
    let same =
      find_index-agree (has_pid 0) is_free k.procs (same_test k.procs k.nextpid valid zero') in
    let (r, found, m) = find_index-ne-none is_free k.procs j here free in
    let kill = kkill-found 0 r k.procs (same ∙ found) in
    let t1 : Table = (kkill (pos 0) k.procs).1 in
    let a : Allocated t1 (allocproc v (record k { procs = t1 })).1.procs k.nextpid i =
      AllocOutcome-some _ _ i _ _ _ made (allocproc-Outcome v (record k { procs = t1 })) in
    let marked : t1 ≡ modify k.procs r kill_one = ap (λ (x : ℤ × Table). x.1) kill in
    let again = find_index-modify is_free kill_one k.procs r is_unused-kill_one ∙ found in
    let index : i ≡ r = ground (arith, a.first, marked, again) in
    let old : a.old ≡ kill_one m.proc =
      ground (arith, a.was, index, marked, get_elem?-modify_self k.procs r kill_one m.here) in
    (
      ap (λ (x : ℤ × Table). x.0) kill,
      (
        a.new,
        ap (λ u. get_elem? u i) a.table
            ∙ get_elem?-set_self t1 i a.new (lt_of_get_elem? t1 i a.was),
        a.killed ∙ ap (λ (x : Proc). x.killed) old ∙ killed-kill_one m.proc,
      ),
    )
