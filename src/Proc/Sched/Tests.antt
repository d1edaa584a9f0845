-- ===== src/Proc/Sched/Tests.antt =====
-- Runs of the scheduler, and the theorems about it at concrete inputs.
use os_design_practice.Prelude.{
  ℕ, pos, zero, suc, ◌≡◌, refl, false, some, none, [], ◌∷◌, ◌++◌, arith, replicate, All,
}
use os_design_practice.Proc.Types.{Proc, ProcState}
use os_design_practice.Proc.Sched.{
  Table, Interference, round, finish, scan, scan_from, wait_round, select, select_from, ready,
  dispatch,
}
use os_design_practice.Proc.Sched.Priority.{alone, IsFirst, best_dispatched}
use os_design_practice.Proc.Sched.Fairness.{IsPatient, Served, no_starvation}

abbrev proc_at : ProcState → ℕ → ℕ → Proc
proc_at s prio ticks = record {
  state = s;
  chan = 0;
  killed = false;
  xstate = pos 0;
  pid = 1;
  priority = prio;
  wait_ticks = ticks;
  parent = none;
  kstack = 0;
  sz = 0;
  pagetable = 0;
  trapframe = 0;
  context = record { ra = 0; sp = 0; callee_saved = [] };
  ofile = [];
  cwd = 0;
  name = [];
}

-- A shell at priority 10, a hog at 3 and a nice process at 31.
abbrev three : Table
three =
    proc_at ProcState.sleeping 10 0
    ∷ proc_at ProcState.runnable 3 0
    ∷ proc_at ProcState.runnable 31 0
    ∷ []

abbrev quiet : Interference
quiet = record { between = λ t. t; during = λ t. t }

picks_hog : (round quiet three 2).picked ≡ some 1
unfolding round finish scan scan_from wait_round select select_from ready dispatch
picks_hog = refl

-- the hog, raised to priority 1, waits for its last round of aging
abbrev waiting_pair : Table
waiting_pair = proc_at ProcState.runnable 0 0 ∷ proc_at ProcState.runnable 1 49 ∷ []

quiet-IsPatient : (n i : ℕ) → All (IsPatient i) (replicate n quiet)
quiet-IsPatient zero i = tt
quiet-IsPatient (suc n) i = ((λ t w h. h, λ t w h. h), quiet-IsPatient n i)

no_starvation_example : Served 1 (replicate 115 quiet) waiting_pair 0
no_starvation_example =
    no_starvation (replicate 115 quiet) waiting_pair 0 1 (proc_at ProcState.runnable 1 49)
      (omega arith) (omega arith) refl refl (omega arith) (quiet-IsPatient 115 1) (omega arith)

-- a full table
abbrev full_table : Table
full_table = three ++ replicate 61 (proc_at ProcState.unused 10 0)

best_dispatched_example :
    (r : ℕ) × ((round (alone (λ t. t)) full_table 2).picked ≡ some r)
    × IsFirst (scan full_table).table (scan full_table).best 2 r
best_dispatched_example =
    best_dispatched (λ t. t) full_table 2 1 (proc_at ProcState.runnable 3 0) refl (omega arith) refl
      refl (omega arith)
