-- ===== src/Proc/Life/Fork.antt =====
-- What `kfork` of kernel/proc.c does, on success and on failure.
use os_design_practice.Prelude.{
  Bool-cases, Option, ap, get_elem?, get_elem?-set_self, if◌then◌else◌, inl, inr, lt_of_get_elem?,
  minus_one, none, pos, refl, set, set-set, some, true, ℕ, ℤ, ◌%◌, ◌+◌, ◌^◌, ◌∙◌, ◌≡◌, ◌≢◌, ◌⊎◌,
}
use os_design_practice.Proc.Types.{Proc, is_unused, runnable, priority_default, priority_valid}
use os_design_practice.Proc.Services.{Services}
use os_design_practice.Proc.Sched.{Table}
use os_design_practice.Proc.Life.Child.{Memory, found-Memory}
use os_design_practice.Proc.Life.{Kernel, allocproc, fork_into, fork_found, kfork}
use os_design_practice.Proc.Life.Alloc.{Allocated, Cleared, AllocOutcome, allocproc-Outcome}

-- The table `t'` is `t` with a child of process `c`, which is `p`, at the UNUSED entry `index`.
pub record Forked (t t' : Table) (nextpid c : ℕ) (p : Proc) : Type 0 where
  pub index : ℕ
  pub old : Proc
  pub child : Proc
  pub was : get_elem? t index ≡ some old
  pub was_unused : is_unused old.state ≡ true
  pub table : t' ≡ set t index child
  pub state : child.state ≡ runnable
  pub pid : child.pid ≡ nextpid
  pub parent : child.parent ≡ some c
  pub priority :
      child.priority ≡ (if priority_valid p.priority then p.priority else priority_default)
  pub wait_ticks : child.wait_ticks ≡ 0
  pub sz : child.sz ≡ p.sz
  pub cwd : child.cwd ≡ p.cwd
  pub has_trapframe : child.trapframe ≢ 0
  pub has_pagetable : child.pagetable ≢ 0
  pub killed : child.killed ≡ old.killed

-- `kfork` returns the new pid, or -1 with no new process.
abbrev pub ForkOutcome : Table → ℕ → ℕ → Proc → ℤ → Table → ℕ → Type 0
ForkOutcome t nextpid c p z t' nextpid' =
    (z ≡ pos nextpid) × Forked t t' nextpid c p × (nextpid' ≡ (nextpid + 1) % 2 ^ 32)
    ⊎ (z ≡ minus_one)
      × ((t' ≡ t) × (nextpid' ≡ nextpid) ⊎ Cleared t t' × (nextpid' ≡ (nextpid + 1) % 2 ^ 32))

set_again : (t t' : Table) (i : ℕ) (x y : Proc) → t' ≡ set t i x → set t' i y ≡ set t i y
set_again t t' i x y e = ap (λ u. set u i y) e ∙ set-set t i x y

module _ (v : Services) where
  open v use {State}

  abbrev Outcome : Kernel State → ℕ → Proc → ℤ × Kernel State → Type 0
  Outcome k c p r = ForkOutcome k.procs k.nextpid c p r.0 r.1.procs r.1.nextpid

  fork_into-Outcome :
      (c i : ℕ) (p : Proc) (k k' : Kernel State) (a : Allocated k.procs k'.procs k.nextpid i)
      → k'.nextpid ≡ (k.nextpid + 1) % 2 ^ 32
      → Outcome k c p (fork_into v c p i a.new k')
  unfolding fork_into
  fork_into-Outcome c i p k k' a n =
      elim (Bool-cases ((v.uvmcopy p.pagetable a.new.pagetable p.sz k'.below).0)) [
        | inl y ↦ rw y (
            inl (
              ap pos a.pid,
              record {
                index = i;
                old = a.old;
                child = _;
                was = a.was;
                was_unused = a.was_unused;
                table = set_again k.procs k'.procs i a.new _ a.table;
                state = refl;
                pid = a.pid;
                parent = refl;
                priority = refl;
                wait_ticks = refl;
                sz = refl;
                cwd = refl;
                has_trapframe = a.has_trapframe;
                has_pagetable = a.has_pagetable;
                killed = a.killed;
              },
              n,
            ))
        | inr no' ↦ rw no' (
            inr (
              refl,
              inr (
                record {
                  index = i;
                  old = a.old;
                  new = _;
                  was = a.was;
                  was_unused = a.was_unused;
                  table = set_again k.procs k'.procs i a.new _ a.table;
                  unused = refl;
                  priority = refl;
                  killed = refl;
                },
                n,
              ),
            ))
      ]

  fork_found-Outcome :
      (c : ℕ) (p : Proc) (k k' : Kernel State) (o : Option ℕ)
      → AllocOutcome k.procs k.nextpid o k'.procs k'.nextpid
      → Outcome k c p (fork_found v c p k' o)
  unfolding fork_found
  fork_found-Outcome c p k k' none a = inr (refl, a)
  fork_found-Outcome c p k k' (some i) (a, n) =
      let here : get_elem? k'.procs i ≡ some a.new =
        ap (λ u. get_elem? u i) a.table
        ∙ get_elem?-set_self k.procs i a.new (lt_of_get_elem? k.procs i a.was) in
      rw (here, fork_found) (fork_into-Outcome c i p k k' a n)

  pub kfork-Outcome :
      (c : ℕ) (k : Kernel State) (p : Proc)
      → get_elem? k.procs c ≡ some p
      → ForkOutcome k.procs k.nextpid c p
          (kfork v c k).0
          (kfork v c k).1.procs
          (kfork v c k).1.nextpid
        × Memory v p k (kfork v c k)
  unfolding kfork allocproc
  kfork-Outcome c k p here = (
    rw (here, kfork)
        (fork_found-Outcome c p k (allocproc v k).1 (allocproc v k).0 (allocproc-Outcome v k)),
    rw (here, kfork) (found-Memory v c p k),
  )
