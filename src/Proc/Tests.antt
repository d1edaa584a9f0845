-- ===== src/Proc/Tests.antt =====
-- kernel/proc.c at concrete inputs: a table with init and one child, over a memory that never fails.
use os_design_practice.Prelude.{
  All, Option, [], arith, false, get_elem?, map, minus_one, none, pos, refl, replicate, some, suc,
  true, zero, ℕ, ℤ, ◌+◌, ◌∷◌, ◌≡◌, ◌≢◌,
}
use os_design_practice.Proc.Types.{Proc, ProcState, is_unused, HasValidPriority, priority_default}
use os_design_practice.Proc.Services.{Services}
use os_design_practice.Proc.Sched.{Table}
use os_design_practice.Proc.Sleep.{sleep_prepare, sleep, wakeup}
use os_design_practice.Proc.Sleep.Wakeups.{Stands, wakeup_before_sleep}
use os_design_practice.Proc.Sleep.Fields.{parents}
use os_design_practice.Proc.Control.{
  find_index, ksetpriority, kgetpriority, kkill, setkilled, killed,
}
use os_design_practice.Proc.Control.Priority.{setpriority-getpriority}
use os_design_practice.Proc.Control.Kill.{Victim, kkill-Victim}
use os_design_practice.Proc.Life.{Kernel, allocproc, kfork, free_pages}
use os_design_practice.Proc.Life.Valid.{IsValid, kfork-IsValid}
use os_design_practice.Proc.Life.KillZero.{UnusedHasNoPid, kill_zero-born_killed}
use os_design_practice.Proc.Exit.{
  kexit, wait_pass, reparent, returned, kwait, wait_found, scan_children,
}
use os_design_practice.Proc.Exit.Orphans.{adopt, parents-reparent}
use os_design_practice.Proc.Exit.Exiting.{Exited, kexit-Exited}
use os_design_practice.Proc.Exit.Waiting.{WaitOutcome, wait_pass-Outcome, Reaped, wait_after_exit}

-- The layers below as a counter of pages.
abbrev toy : Services
toy = record {
  State = ℕ;
  kalloc = λ m. (m, m + 4096);
  kfree = λ p m. m;
  proc_pagetable = λ tf m. (m, m + 4096);
  proc_freepagetable = λ pt sz m. m;
  uvmcopy = λ from to sz m. (true, m);
  copyout = λ pt sz a x m. (true, m);
  copy_trapframe = λ from to m. m;
  filedup = λ f m. m;
  fileclose = λ f m. ([], m);
  idup = λ f m. m;
  iput = λ f m. ([], m);
  proc_addr = λ i. i + 1;
  proc_addr_pos = λ i. omega arith;
  forkret = 7;
}

abbrev entry : ProcState → ℕ → Option ℕ → ℕ → Proc
entry s pid parent chan = record {
  state = s;
  chan = chan;
  killed = false;
  xstate = pos 0;
  pid = pid;
  priority = priority_default;
  wait_ticks = 0;
  parent = parent;
  kstack = 0;
  sz = 0;
  pagetable = 8;
  trapframe = 8;
  context = record { ra = 0; sp = 0; callee_saved = [] };
  ofile = 0 ∷ 5 ∷ [];
  cwd = 3;
  name = [];
}

abbrev free_entry : Proc
free_entry = entry ProcState.unused 0 none 0

abbrev kernel : Table → ℕ → Kernel ℕ
kernel t n = record { procs = t; nextpid = n; initproc = 0; below = 4096 }

-- init waits for its child on its own address, which is 1.
abbrev pair : Table
pair = entry ProcState.sleeping 1 none 1 ∷ entry ProcState.running 2 (some 0) 0 ∷ free_entry ∷ []

abbrev full : Table
full = entry ProcState.running 1 none 0 ∷ replicate 63 free_entry

replicate-same : (n i : ℕ) (p q : Proc) → get_elem? (replicate n p) i ≡ some q → q ≡ p
replicate-same zero i p q e = absurd (ground arith)
replicate-same (suc n) zero p q e = ground arith
replicate-same (suc n) (suc i) p q e = replicate-same n i p q e

All-replicate : (P : Proc → Type 0) (n : ℕ) (p : Proc) → P p → All P (replicate n p)
All-replicate P zero p h = tt
All-replicate P (suc n) p h = (h, All-replicate P n p h)

-- Only init is live.
live-first :
    (i : ℕ) (p : Proc)
    → get_elem? full i ≡ some p
    → is_unused p.state ≡ false
    → (i ≡ 0) × (p.pid ≡ 1)
live-first zero p e live = (refl, ground arith)
live-first (suc i) p e live = let same = replicate-same 63 i free_entry p e in absurd (ground arith)

full-IsValid : IsValid full 2
full-IsValid = record {
  full = refl;
  priorities = (omega arith, All-replicate HasValidPriority 63 free_entry (omega arith));
  next_pos = omega arith;
  handed_out = λ i p e live. let f = live-first i p e live in omega (arith, f.1);
  unique = λ i j p q e f live live' same.
      omega (arith, (live-first i p e live).0, (live-first j q f live').0);
}

full-UnusedHasNoPid : UnusedHasNoPid full
full-UnusedHasNoPid zero p e u = absurd (ground arith)
full-UnusedHasNoPid (suc i) p e u = let same = replicate-same 63 i free_entry p e in ground arith

set_twelve : (ksetpriority (pos 2) (pos 12) pair).0 ≡ pos 0
unfolding ksetpriority find_index
set_twelve = refl

setpriority-getpriority_example :
    (kgetpriority (pos 2) (ksetpriority (pos 2) (pos 12) pair).1 ≡ pos 12)
    × ((j : ℕ) (q : Proc)
        → get_elem? pair j ≡ some q
        → pos q.pid ≢ pos 2
        → get_elem? (ksetpriority (pos 2) (pos 12) pair).1 j ≡ some q)
setpriority-getpriority_example = setpriority-getpriority (pos 2) (pos 12) pair set_twelve

kkill-Victim_example : ((kkill (pos 1) pair).0 ≡ pos 0) × Victim 1 pair (kkill (pos 1) pair).1
kkill-Victim_example = kkill-Victim 1 0 pair (entry ProcState.sleeping 1 none 1) refl refl

kfork-IsValid_example :
    IsValid (kfork toy 0 (kernel full 2)).1.procs (kfork toy 0 (kernel full 2)).1.nextpid
kfork-IsValid_example =
    kfork-IsValid toy (kernel full 2) full-IsValid (omega arith) 0
      (entry ProcState.running 1 none 0) refl

parents-reparent_example : parents (reparent 1 0 1 pair) ≡ map (adopt 1 0) (parents pair)
parents-reparent_example = parents-reparent 1 0 1 pair

kexit-Exited_example :
    (k' : Kernel ℕ) × (kexit toy 1 (pos 9) (kernel pair 3) ≡ some k')
    × Exited toy 1 0 2 (pos 9) 0 pair k'.procs
kexit-Exited_example =
    kexit-Exited toy 1 0 2 (pos 9) (kernel pair 3) (entry ProcState.running 2 (some 0) 0)
      (omega arith) (omega arith) refl (refl, refl)

wait_pass-Outcome_example :
    WaitOutcome toy 0 64
      (entry ProcState.sleeping 1 none 1)
      (kernel pair 3)
      (wait_pass toy 0 64 (kernel pair 3))
wait_pass-Outcome_example =
    wait_pass-Outcome toy 0 64 (kernel pair 3) (entry ProcState.sleeping 1 none 1) refl

wait_after_exit_example :
    (k' : Kernel ℕ) × (kexit toy 1 (pos 9) (kernel pair 3) ≡ some k')
    × ((z : ℤ) × (k'' : Kernel ℕ) × (wait_pass toy 0 0 k' ≡ returned z k'')
        × Reaped 0 k'.procs k''.procs z)
wait_after_exit_example =
    wait_after_exit toy 1 0 2 (pos 9) (kernel pair 3) (entry ProcState.running 2 (some 0) 0)
      (entry ProcState.sleeping 1 none 1) (omega arith) (omega arith) refl (refl, refl) refl

-- init, running, registers on channel 6.
abbrev prepared : Table
prepared = entry ProcState.running 1 none 6 ∷ replicate 63 free_entry

prepares : sleep_prepare 0 6 full ≡ some prepared
unfolding sleep_prepare
prepares = refl

wakeup_before_sleep_example : Stands (sleep 0 (wakeup 6 prepared)) 0 0 ProcState.running
wakeup_before_sleep_example =
    wakeup_before_sleep full 0 6 (λ t. t) (λ t. t) refl refl prepares (λ t p e. (p, e, refl, refl))
      (λ t p e. (p, e, refl, refl))

made_one : (allocproc toy (record (kernel full 2) { procs = (kkill (pos 0) full).1 })).0 ≡ some 1
unfolding allocproc kkill find_index
made_one = refl

kill_zero-born_killed_example :
    ((kkill (pos 0) full).0 ≡ pos 0)
    × ((q : Proc) × (get_elem?
            (allocproc toy (record (kernel full 2) { procs = (kkill (pos 0) full).1 })).1.procs
            1
          ≡ some q)
        × (q.killed ≡ true))
kill_zero-born_killed_example =
    kill_zero-born_killed toy (kernel full 2) 1 1 free_entry full-IsValid full-UnusedHasNoPid refl
      refl made_one

test_killed : (killed 1 (setkilled 1 pair) ≡ true) × (killed 0 (setkilled 1 pair) ≡ false)
unfolding setkilled killed
test_killed = (refl, refl)

-- A process without children does not wait, and freeing an entry without pages frees none.
test_no_children : kwait toy 2 0 [] (kernel pair 3) ≡ some (minus_one, kernel pair 3)
unfolding kwait wait_pass scan_children wait_found killed
test_no_children = refl

test_no_pages : free_pages toy (record free_entry { trapframe = 0; pagetable = 0 }) 5 ≡ 5
unfolding free_pages
test_no_pages = refl
