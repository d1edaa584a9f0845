-- ===== src/Proc/Life.antt =====
-- The life of a process up to its first run, of kernel/proc.c: `allocpid`, `allocproc`, `freeproc`
-- and `kfork`. A call is one step. In the source `kfork` lets go of the lock of the new entry for a
-- moment, to take `wait_lock` and set the parent, and a `kill` or a `setpriority` for the new pid may
-- come in there; this is not represented.
pub mod Alloc
pub mod Child
pub mod Fork
pub mod Valid
pub mod KillZero
use os_design_practice.Prelude.{
  List, Option, [], false, get_elem?, if◌then◌else◌, minus_one, none, pos, replicate, set, some,
  take, ℕ, ℤ, ◌%◌, ◌++◌, ◌+◌, ◌==◌, ◌^◌, ◌∷◌,
}
use os_design_practice.KString.{safestrcpy}
use os_design_practice.Proc.Types.{
  Proc, Context, is_unused, unused, used, runnable, priority_default, priority_valid,
}
use os_design_practice.Proc.Services.{Services}
use os_design_practice.Proc.Sched.{Table}
use os_design_practice.Proc.Control.{find_index}

abbrev pub pgsize : ℕ
pgsize = 4096

-- The globals of kernel/proc.c, and the state of the layers below.
pub record Kernel (S : Type 0) : Type 0 where
  pub procs : Table
  pub nextpid : ℕ  -- an int, as its 32 bits
  pub initproc : ℕ
  pub below : S

abbrev pub free_fields : Proc → Proc
free_fields p = record p {
  trapframe = 0;
  pagetable = 0;
  sz = 0;
  pid = 0;
  name = set p.name 0 0;
  chan = 0;
  killed = false;
  xstate = pos 0;
  priority = priority_default;
  wait_ticks = 0;
  state = unused;
}

module _ (v : Services) where
  open v use {
    State, kalloc, kfree, proc_pagetable, proc_freepagetable, uvmcopy, copy_trapframe, filedup,
    idup, forkret,
  }

  -- The pages of a process go back; the layers below are returned.
  unfoldable pub free_pages : Proc → State → State
  free_pages p m =
      let m' = if p.trapframe == 0 then m else kfree p.trapframe m in
      if p.pagetable == 0 then m' else proc_freepagetable p.pagetable p.sz m'

  pub freeproc : ℕ → Proc → Kernel State → Kernel State
  freeproc i p k = record k { procs = set k.procs i (free_fields p); below = free_pages p k.below }

  abbrev pub claim : ℕ → Proc → Proc
  claim pid p = record p { pid = pid; state = used; priority = priority_default; wait_ticks = 0 }

  -- The new context starts at `forkret`, on the process's kernel stack.
  abbrev pub ready_context : Proc → Proc
  ready_context p = record p {
    context = record { ra = forkret; sp = p.kstack + pgsize; callee_saved = replicate 12 0 };
  }

  -- After the trapframe page: the page table.
  pub give_pagetable : ℕ → Proc → Kernel State → Option ℕ × Kernel State
  unfolding freeproc
  give_pagetable i p k =
      let (pt, m) = proc_pagetable p.trapframe k.below in
      let p' = record p { pagetable = pt } in
      let k' = record k { below = m } in
      if pt == 0
      then (none, freeproc i p' k')
      else (some i, record k' { procs = set k.procs i (ready_context p') })

  pub give_trapframe : ℕ → Proc → Kernel State → Option ℕ × Kernel State
  unfolding give_pagetable
  give_trapframe i p k =
      let (tf, m) = kalloc k.below in
      let p' = record p { trapframe = tf } in
      let k' = record k { below = m } in
      if tf == 0 then (none, freeproc i p' k') else give_pagetable i p' k'

  pub alloc_at : ℕ → Kernel State → Option Proc → Option ℕ × Kernel State
  unfolding give_trapframe
  alloc_at i k none = (none, k)
  alloc_at i k (some p) =
      give_trapframe i (claim k.nextpid p) (record k { nextpid = (k.nextpid + 1) % 2 ^ 32 })

  pub alloc_found : Kernel State → Option ℕ → Option ℕ × Kernel State
  unfolding alloc_at
  alloc_found k none = (none, k)
  alloc_found k (some i) = alloc_at i k (get_elem? k.procs i)

  -- The result is the index of the new process.
  unfoldable pub allocproc : Kernel State → Option ℕ × Kernel State
  unfolding alloc_found
  allocproc k = alloc_found k (find_index (λ p. is_unused p.state) k.procs)

  -- `for (i = 0; i < NOFILE; i++) if (p->ofile[i]) np->ofile[i] = filedup(p->ofile[i]);`
  pub dup_files : List ℕ → List ℕ → State → List ℕ × State
  dup_files [] ours m = (ours, m)
  dup_files (f ∷ fs) [] m = ([], m)
  dup_files (f ∷ fs) (o ∷ os) m =
      let (rest, m') = dup_files fs os (if f == 0 then m else filedup f m) in
      ((if f == 0 then o else f) ∷ rest, m')

  abbrev pub name_size : ℕ
  name_size = 16

  -- `safestrcpy(np->name, p->name, sizeof(p->name))`, the two arrays side by side in memory
  abbrev pub copy_name : List ℕ → List ℕ → List ℕ
  copy_name ours theirs = take name_size (safestrcpy (ours ++ theirs) 0 name_size name_size)

  -- The fields that the child `np` has when it is made RUNNABLE by its parent `p`, process `c`.
  pub child_of : ℕ → Proc → Proc → List ℕ → Proc
  child_of c p np files = record np {
    sz = p.sz;
    priority = if priority_valid p.priority then p.priority else priority_default;
    wait_ticks = 0;
    ofile = files;
    cwd = p.cwd;
    name = copy_name np.name p.name;
    parent = some c;
    state = runnable;
  }

  -- From `uvmcopy` on, for the current process `c`, which is `p`, and the new one `i`, which is `np`.
  pub fork_into : ℕ → Proc → ℕ → Proc → Kernel State → ℤ × Kernel State
  unfolding freeproc child_of dup_files
  fork_into c p i np k =
      let (done, m) = uvmcopy p.pagetable np.pagetable p.sz k.below in
      let m' = copy_trapframe p.trapframe np.trapframe m in
      let (files, m'') = dup_files p.ofile np.ofile m' in
      if done
      then (
        pos np.pid,
        record k { procs = set k.procs i (child_of c p np files); below = idup p.cwd m'' },
      )
      else (minus_one, freeproc i np (record k { below = m }))

  pub fork_found : ℕ → Proc → Kernel State → Option ℕ → ℤ × Kernel State
  fork_found c p k none = (minus_one, k)
  fork_found c p k (some i) = elim (get_elem? k.procs i) [
    | none ↦ (minus_one, k)
    | some np ↦ fork_into c p i np k
  ]

  -- The current process is `proc[c]`.
  pub kfork : ℕ → Kernel State → ℤ × Kernel State
  unfolding fork_found
  kfork c k = elim (get_elem? k.procs c) [
    | none ↦ (minus_one, k)
    | some p ↦ let (o, k') = allocproc k in fork_found c p k' o
  ]
