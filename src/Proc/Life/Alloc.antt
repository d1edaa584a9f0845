-- ===== src/Proc/Life/Alloc.antt =====
-- What `allocproc` of kernel/proc.c does, on success and on failure.
use os_design_practice.Prelude.{
  ==_iff, Bool, Bool-cases, Option, Option-cases, false, get_elem?, inl, inr, none, refl, set, some,
  subst, true, ℕ, ◌%◌, ◌+◌, ◌==◌, ◌^◌, ◌≡◌, ◌≢◌, ◌⊎◌,
}
use os_design_practice.Proc.Types.{Proc, is_unused, used, priority_default}
use os_design_practice.Proc.Services.{Services}
use os_design_practice.Proc.Control.{find_index}
use os_design_practice.Proc.Control.Find.{IsFirstMatch, found-IsFirstMatch}
use os_design_practice.Proc.Sched.{Table}
use os_design_practice.Proc.Life.{
  Kernel, pgsize, freeproc, free_fields, claim, give_pagetable, alloc_at, alloc_found, allocproc,
}

abbrev pub is_free : Proc → Bool
is_free p = is_unused p.state

-- The table `t'` is `t` with the UNUSED entry `i` claimed by the new process `new`.
pub record Allocated (t t' : Table) (nextpid i : ℕ) : Type 0 where
  pub old : Proc
  pub new : Proc
  pub first : find_index is_free t ≡ some i
  pub was : get_elem? t i ≡ some old
  pub was_unused : is_unused old.state ≡ true
  pub table : t' ≡ set t i new
  pub state : new.state ≡ used
  pub pid : new.pid ≡ nextpid
  pub priority : new.priority ≡ priority_default
  pub wait_ticks : new.wait_ticks ≡ 0
  pub has_trapframe : new.trapframe ≢ 0
  pub has_pagetable : new.pagetable ≢ 0
  pub stack : new.context.sp ≡ new.kstack + pgsize
  pub killed : new.killed ≡ old.killed

-- Nothing was claimed: if an entry was tried, it has been cleared and is UNUSED as before.
pub record Cleared (t t' : Table) : Type 0 where
  pub index : ℕ
  pub old : Proc
  pub new : Proc
  pub was : get_elem? t index ≡ some old
  pub was_unused : is_unused old.state ≡ true
  pub table : t' ≡ set t index new
  pub unused : is_unused new.state ≡ true
  pub priority : new.priority ≡ priority_default
  pub killed : new.killed ≡ false

abbrev pub AllocOutcome : Table → ℕ → Option ℕ → Table → ℕ → Type 0
AllocOutcome t nextpid (some i) t' nextpid' =
    Allocated t t' nextpid i × (nextpid' ≡ (nextpid + 1) % 2 ^ 32)
AllocOutcome t nextpid none t' nextpid' =
    (t' ≡ t) × (nextpid' ≡ nextpid) ⊎ Cleared t t' × (nextpid' ≡ (nextpid + 1) % 2 ^ 32)

module _ (v : Services) where
  open v use {State}

  abbrev Outcome : Kernel State → Option ℕ × Kernel State → Type 0
  Outcome k r = AllocOutcome k.procs k.nextpid r.0 r.1.procs r.1.nextpid

  -- `freeproc` clears the entry in the table.
  pub procs-freeproc :
      (i : ℕ) (p : Proc) (k : Kernel State)
      → (freeproc v i p k).procs ≡ set k.procs i (free_fields p)
  unfolding freeproc
  procs-freeproc i p k = refl

  give_pagetable-Outcome :
      (i : ℕ) (p : Proc) (m : State) (k : Kernel State) (tf : ℕ)
      → find_index is_free k.procs ≡ some i
      → get_elem? k.procs i ≡ some p
      → is_unused p.state ≡ true
      → tf ≢ 0
      → Outcome k (
          give_pagetable v i
            (record (claim v k.nextpid p) { trapframe = tf })
            (record k { nextpid = (k.nextpid + 1) % 2 ^ 32; below = m }))
  unfolding give_pagetable
  give_pagetable-Outcome i p m k tf first here free has =
      elim (Bool-cases ((v.proc_pagetable tf m).0 == 0)) [
        | inl z ↦ rw z (
            inr (
              record {
                index = i;
                old = p;
                new = _;
                was = here;
                was_unused = free;
                table = refl;
                unused = refl;
                priority = refl;
                killed = refl;
              },
              refl,
            ))
        | inr nz ↦ rw nz (
          record {
            old = p;
            new = _;
            first = first;
            was = here;
            was_unused = free;
            table = refl;
            state = refl;
            pid = refl;
            priority = refl;
            wait_ticks = refl;
            has_trapframe = has;
            has_pagetable = λ e. cc ((==_iff ((v.proc_pagetable tf m).0) 0).1 e);
            stack = refl;
            killed = refl;
          },
          refl,
        )
      ]

  alloc_at-Outcome :
      (i : ℕ) (p : Proc) (k : Kernel State)
      → find_index is_free k.procs ≡ some i
      → get_elem? k.procs i ≡ some p
      → is_unused p.state ≡ true
      → Outcome k (alloc_at v i k (some p))
  unfolding alloc_at
  alloc_at-Outcome i p k first here free = elim (Bool-cases ((v.kalloc k.below).0 == 0)) [
    | inl z ↦ rw z (
        inr (
          record {
            index = i;
            old = p;
            new = _;
            was = here;
            was_unused = free;
            table = refl;
            unused = refl;
            priority = refl;
            killed = refl;
          },
          refl,
        ))
    | inr nz ↦ rw nz (
        give_pagetable-Outcome i p (v.kalloc k.below).1 k (v.kalloc k.below).0 first here free
          (λ e. cc ((==_iff (v.kalloc k.below).0 0).1 e)))
  ]

  -- `allocproc` returns an entry that was UNUSED, now USED with the next pid, the default priority,
  -- no wait, a trapframe page, a page table and a stack; it sets no other field that matters to
  -- others, in particular not `killed`. Without an UNUSED entry it changes nothing, and without
  -- memory it leaves the entry that it tried cleared and UNUSED. No other entry changes.
  pub allocproc-Outcome :
      (k : Kernel State)
      → AllocOutcome k.procs k.nextpid
          (allocproc v k).0
          (allocproc v k).1.procs
          (allocproc v k).1.nextpid
  unfolding allocproc
  allocproc-Outcome k = elim (Option-cases (find_index is_free k.procs)) [
    | inl e ↦ rw e (inl (refl, refl))
    | inr (i, e) ↦
        let m : IsFirstMatch is_free k.procs i = found-IsFirstMatch is_free k.procs e in
        rw (e, m.here, alloc_found) (alloc_at-Outcome i m.proc k e m.here m.passes)
  ]

pub AllocOutcome-some :
    (t : Table) (nextpid i : ℕ) (o : Option ℕ) (t' : Table) (nextpid' : ℕ)
    → o ≡ some i
    → AllocOutcome t nextpid o t' nextpid'
    → Allocated t t' nextpid i
AllocOutcome-some t nextpid i o t' nextpid' e h =
    (subst (λ x. AllocOutcome t nextpid x t' nextpid') e h).0
