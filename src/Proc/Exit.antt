-- ===== src/Proc/Exit.antt =====
-- The end of a process, of kernel/proc.c: `reparent`, `kexit` and `kwait`. The caller is `proc[c]`.
-- `kexit` runs from its first step to its last with no other in between; `kwait` sleeps between two
-- passes over the table, and others run there.
pub mod Orphans
pub mod Exiting
pub mod Waiting
use os_design_practice.Prelude.{
  Bool, List, Option, [], false, get_elem?, if◌then◌else◌, length, minus_one, modify, none, not,
  pos, some, suc, true, zero, ℕ, ℤ, ◌&&◌, ◌++◌, ◌==◌, ◌||◌, ◌∷◌,
}
use os_design_practice.Proc.Types.{Proc, is_zombie, zombie}
use os_design_practice.Proc.Services.{Services}
use os_design_practice.Proc.Sched.{Table}
use os_design_practice.Proc.Sleep.{sleep_prepare, sleep, wakeup}
use os_design_practice.Proc.Control.{killed}
use os_design_practice.Proc.Life.{Kernel, freeproc}

-- `pp->parent == p`
abbrev pub is_child_of : ℕ → Proc → Bool
is_child_of c p = elim p.parent [ none ↦ false | some q ↦ q == c ]

-- `init` is the index of `initproc`, and `chan` its address.
pub adopt_one : ℕ → ℕ → Proc → Proc
adopt_one c init p = if is_child_of c p then record p { parent = some init } else p

pub is_child_at : ℕ → ℕ → Table → Bool
is_child_at c i t = elim (get_elem? t i) [ none ↦ false | some p ↦ is_child_of c p ]

-- One entry of `proc[]`.
pub reparent_step : ℕ → ℕ → ℕ → ℕ → Table → Table
unfolding adopt_one is_child_at
reparent_step c init chan i t =
    if is_child_at c i t then wakeup chan (modify t i (adopt_one c init)) else t

-- `k` entries are left, from index `i` on.
pub reparent_from : ℕ → ℕ → ℕ → ℕ → ℕ → Table → Table
reparent_from c init chan zero i t = t
reparent_from c init chan (suc k) i t =
    reparent_from c init chan k (suc i) (reparent_step c init chan i t)

pub reparent : ℕ → ℕ → ℕ → Table → Table
reparent c init chan t = reparent_from c init chan (length t) 0 t

abbrev pub wake_all : List ℕ → Table → Table
wake_all [] t = t
wake_all (ch ∷ chans) t = wake_all chans (wakeup ch t)

-- What a scan of `kwait` finds: the first child that is a ZOMBIE, or whether there is a child at all.
pub data Scan : Type 0 where
  zombie_at : ℕ → Proc → Scan
  no_zombie : Bool → Scan

unfoldable pub scan_children : ℕ → Table → ℕ → Bool → Scan
scan_children c [] i havekids = no_zombie havekids
scan_children c (p ∷ ps) i havekids =
    let rest = scan_children c ps (suc i) (is_child_of c p || havekids) in
    if is_child_of c p && is_zombie p.state then zombie_at i p else rest

-- A pass of `kwait` returns, or the caller has registered for a wakeup and goes to sleep; the last
-- case is the panic of `sleep_prepare` on a null channel.
pub data WaitStep (S : Type 0) : Type 0 where
  returned : ℤ → Kernel S → WaitStep S
  blocked : Kernel S → WaitStep S
  panicked : WaitStep S

module _ (v : Services) where
  open v use {State, fileclose, iput, copyout, proc_addr}

  -- The loop over `p->ofile`: all are null afterwards.
  pub close_files : List ℕ → State → List ℕ × List ℕ × State
  close_files [] m = ([], [], m)
  close_files (f ∷ fs) m =
      let (chans, m') = if f == 0 then ([], m) else fileclose f m in
      let (rest, more, m'') = close_files fs m' in (0 ∷ rest, chans ++ more, m'')

  -- `wakeup(p->parent)`, which is `wakeup(0)` without a parent
  abbrev pub parent_chan : Table → ℕ → ℕ
  parent_chan t c = elim (get_elem? t c) [
    | none ↦ 0
    | some p ↦ elim p.parent [ none ↦ 0 | some q ↦ proc_addr q ]
  ]

  -- From `acquire(&wait_lock)` on: the children go to init, the parent is woken, and the process
  -- becomes a ZOMBIE.
  pub exit_locked : ℕ → ℤ → ℕ → Table → Table
  exit_locked c status init t =
      let t' = reparent c init (proc_addr init) t in
      modify (wakeup (parent_chan t' c) t') c (λ p. record p { xstate = status; state = zombie })

  -- Up to `acquire(&wait_lock)`: the files are closed and the directory is released.
  pub release_resources : ℕ → Proc → Kernel State → Kernel State
  unfolding close_files
  release_resources c p k =
      let (files, chans, m) = close_files p.ofile k.below in
      let t = wake_all chans (modify k.procs c (λ q. record q { ofile = files })) in
      let (chans', m') = iput p.cwd m in
      record k { procs = modify (wake_all chans' t) c (λ q. record q { cwd = 0 }); below = m' }

  pub exit_found : ℕ → ℤ → Kernel State → Proc → Kernel State
  exit_found c status k p =
      let k' = release_resources c p k in
      record k' { procs = exit_locked c status k.initproc k'.procs }

  -- `none` is the panic of an exiting init. The state is that in which `sched` is called.
  pub kexit : ℕ → ℤ → Kernel State → Option (Kernel State)
  unfolding exit_found exit_locked release_resources
  kexit c status k =
      if c == k.initproc
      then none
      else elim (get_elem? k.procs c) [ none ↦ none | some p ↦ some (exit_found c status k p) ]

  -- The caller is `p`, and the ZOMBIE `pp` stands at `i`.
  pub reap : Proc → ℕ → ℕ → Proc → Kernel State → WaitStep State
  reap p addr i pp k =
      let (done, m) =
        if addr == 0 then (true, k.below) else copyout p.pagetable p.sz addr pp.xstate k.below in
      if done
      then returned (pos pp.pid)
          (freeproc v i (record pp { parent = none }) (record k { below = m }))
      else returned minus_one (record k { below = m })

  pub prepare : ℕ → Kernel State → Option Table → WaitStep State
  prepare c k none = panicked
  prepare c k (some t) = blocked (record k { procs = t })

  unfoldable pub wait_found : ℕ → ℕ → Kernel State → Proc → Scan → WaitStep State
  wait_found c addr k p (zombie_at i pp) = reap p addr i pp k
  wait_found c addr k p (no_zombie havekids) =
      if not havekids || killed c k.procs
      then returned minus_one k
      else prepare c k (sleep_prepare c (proc_addr c) k.procs)

  -- One pass of the `for (;;)` of `kwait`, up to its `sleep()`.
  unfoldable pub wait_pass : ℕ → ℕ → Kernel State → WaitStep State
  unfolding wait_found prepare reap scan_children
  wait_pass c addr k = elim (get_elem? k.procs c) [
    | none ↦ returned minus_one k
    | some p ↦ wait_found c addr k p (scan_children c k.procs 0 false)
  ]

  -- The whole call: each step of `others` is what runs after a `sleep()` until the caller runs again.
  -- `none` means that it has not returned after these.
  unfoldable pub kwait :
      ℕ → ℕ → List (Kernel State → Kernel State) → Kernel State → Option (ℤ × Kernel State)
  kwait c addr [] k = elim (wait_pass c addr k) [ returned z k' ↦ some (z, k') | _ ↦ none ]
  kwait c addr (o ∷ others) k = elim (wait_pass c addr k) [
    | returned z k' ↦ some (z, k')
    | blocked k' ↦ kwait c addr others (o (record k' { procs = sleep c k'.procs }))
    | panicked ↦ none
  ]
