-- ===== src/Proc/Exit/Waiting.antt =====
-- What `kwait` of kernel/proc.c finds and returns.
use os_design_practice.Prelude.{
  Bool, Bool-cases, Option, Option-cases, [], ap, arith, false, get_elem?, get_elem?-map,
  get_elem?-map_inv, if◌then◌else◌, inl, inr, map, minus_one, none, pos, refl, set, some, suc, true,
  zero, ℕ, ℤ, ◌&&◌, ◌+◌, ◌==◌, ◌||◌, ◌∙◌, ◌∷◌, ◌≡◌, ◌≢◌, ◌⊎◌,
}
use os_design_practice.Proc.Types.{Proc, is_zombie, is_unused}
use os_design_practice.Proc.Services.{Services}
use os_design_practice.Proc.Sched.{Table}
use os_design_practice.Proc.Sleep.{sleep_prepare}
use os_design_practice.Proc.Control.{killed}
use os_design_practice.Proc.Life.{Kernel, freeproc, free_fields}
use os_design_practice.Proc.Exit.Exiting.{IsChild, kexit-Exited}
use os_design_practice.Proc.Sleep.Fields.{parents, sleep_prepare-ne-none}
use os_design_practice.Proc.Life.Alloc.{procs-freeproc}
use os_design_practice.Proc.Exit.{
  is_child_of, Scan, zombie_at, no_zombie, scan_children, WaitStep, returned, blocked, panicked,
  prepare, wait_found, reap, wait_pass, kexit,
}

abbrev pub is_dead_child : ℕ → Proc → Bool
is_dead_child c p = is_child_of c p && is_zombie p.state

abbrev pub HasChild : ℕ → Table → Type 0
HasChild c t = (n : ℕ) × (p : Proc) × (get_elem? t n ≡ some p) × (is_child_of c p ≡ true)

-- What a scan says of the entries that it has looked at, those of `t`, which begin at index `i`.
abbrev pub Scanned : ℕ → Table → ℕ → Bool → Scan → Type 0
Scanned c t i kids (zombie_at j p) =
    (n : ℕ) × (j ≡ i + n) × (get_elem? t n ≡ some p) × (is_dead_child c p ≡ true)
Scanned c t i kids (no_zombie havekids) =
    ((n : ℕ) (p : Proc) → get_elem? t n ≡ some p → is_dead_child c p ≡ false)
    × (havekids ≡ false
        → (kids ≡ false) × ((n : ℕ) (p : Proc) → get_elem? t n ≡ some p → is_child_of c p ≡ false))
    × (havekids ≡ true → (kids ≡ true) ⊎ HasChild c t)

Scanned-cons :
    (c : ℕ) (p : Proc) (ps : Table) (i : ℕ) (kids : Bool) (s : Scan)
    → is_dead_child c p ≡ false
    → Scanned c ps (suc i) (is_child_of c p || kids) s
    → Scanned c (p ∷ ps) i kids s
Scanned-cons c p ps i kids (zombie_at j q) h (n, e, here, dead) = (suc n, omega arith, here, dead)
Scanned-cons c p ps i kids (no_zombie false) h (alive, none', kid) =
    (alive_cons, λ e. (ground (arith, none' refl), others), λ e. absurd (ground arith))
  where
    alive_cons : (n : ℕ) (q : Proc) → get_elem? (p ∷ ps) n ≡ some q → is_dead_child c q ≡ false
    alive_cons zero q e = ground arith
    alive_cons (suc n) q e = alive n q e

    others : (n : ℕ) (q : Proc) → get_elem? (p ∷ ps) n ≡ some q → is_child_of c q ≡ false
    others zero q e = ground (arith, none' refl)
    others (suc n) q e = (none' refl).1 n q e
Scanned-cons c p ps i kids (no_zombie true) h (alive, none', kid) = (
  alive_cons,
  λ e. cc,
  λ e. elim (kid refl) [
    | inl both ↦ elim (Bool-cases (is_child_of c p)) [
      | inl y ↦ inr (0, p, refl, y)
      | inr n ↦ inl (ground (arith, both, n))
    ]
    | inr (n, q, there, y) ↦ inr (suc n, q, there, y)
  ],
)
  where
    alive_cons : (n : ℕ) (q : Proc) → get_elem? (p ∷ ps) n ≡ some q → is_dead_child c q ≡ false
    alive_cons zero q e = ground arith
    alive_cons (suc n) q e = alive n q e

scan_children-Scanned :
    (c : ℕ) (t : Table) (i : ℕ) (kids : Bool) → Scanned c t i kids (scan_children c t i kids)
unfolding scan_children
scan_children-Scanned c [] i kids =
    (λ n p e. absurd (ground arith), λ e. (e, λ n p e'. absurd (ground arith)), λ e. inl e)
scan_children-Scanned c (p ∷ ps) i kids = elim (Bool-cases (is_dead_child c p)) [
  | inl y ↦ rw y (0, omega arith, refl, y)
  | inr n ↦ rw n (
      Scanned-cons c p ps i kids _ n (scan_children-Scanned c ps (suc i) (is_child_of c p || kids)))
]

-- The child at `index`, a ZOMBIE, has been reaped: its entry is unused and has no parent.
pub record Reaped (c : ℕ) (t t' : Table) (z : ℤ) : Type 0 where
  pub index : ℕ
  pub child : Proc
  pub freed : Proc
  pub here : get_elem? t index ≡ some child
  pub dead : is_dead_child c child ≡ true
  pub pid : z ≡ pos child.pid
  pub table : t' ≡ set t index freed
  pub unused : is_unused freed.state ≡ true
  pub orphan : freed.parent ≡ none

-- Whether the status of the child `pp` can be stored at `addr` in the memory of the caller `p`.
abbrev pub stores : (v : Services) → ℕ → Proc → Proc → v.State → Bool
stores v addr p pp m = if addr == 0 then true else (v.copyout p.pagetable p.sz addr pp.xstate m).0

-- Why a pass returns -1: the status of a ZOMBIE child cannot be copied out, or there is no ZOMBIE
-- child, and no child at all or the caller has been killed.
abbrev pub Fails : (v : Services) → ℕ → ℕ → Proc → Kernel v.State → Type 0
Fails v c addr p k =
    ((i : ℕ) × (pp : Proc) × (get_elem? k.procs i ≡ some pp)
      × (is_dead_child c pp ≡ true)
      × (stores v addr p pp k.below ≡ false))
    ⊎ ((n : ℕ) (q : Proc) → get_elem? k.procs n ≡ some q → is_dead_child c q ≡ false)
      × (((n : ℕ) (q : Proc) → get_elem? k.procs n ≡ some q → is_child_of c q ≡ false)
          ⊎ (killed c k.procs ≡ true))

-- What a pass of the caller `p` comes to.
abbrev pub WaitOutcome : (v : Services) → ℕ → ℕ → Proc → Kernel v.State → WaitStep v.State → Type 0
WaitOutcome v c addr p k (returned z k') =
    ((r : Reaped c k.procs k'.procs z) × (stores v addr p r.child k.below ≡ true))
    ⊎ (z ≡ minus_one) × (k'.procs ≡ k.procs) × Fails v c addr p k
WaitOutcome v c addr p k (blocked k') =
    ((n : ℕ) (q : Proc) → get_elem? k.procs n ≡ some q → is_dead_child c q ≡ false)
    × HasChild c k.procs
    × (killed c k.procs ≡ false)
    × (sleep_prepare c (v.proc_addr c) k.procs ≡ some k'.procs)
WaitOutcome v c addr p k panicked = ⊥

entry_kept :
    (f : Option ℕ → Option ℕ) (t t' : Table) (i : ℕ) {p : Proc}
    → parents t' ≡ map f (parents t)
    → get_elem? t i ≡ some p
    → (q : Proc) × (get_elem? t' i ≡ some q)
entry_kept f t t' i e here =
    let there = get_elem?-map f (parents t) i (get_elem?-map (λ (r : Proc). r.parent) t i here) in
    let (q, h, _) =
      get_elem?-map_inv (λ (r : Proc). r.parent) t' i (ap (λ l. get_elem? l i) e ∙ there) in
    (q, h)

module _ (v : Services) where
  open v use {State, proc_addr}

  reap-Outcome :
      (c addr i : ℕ) (p pp : Proc) (k : Kernel State)
      → get_elem? k.procs i ≡ some pp
      → is_dead_child c pp ≡ true
      → WaitOutcome v c addr p k (reap v p addr i pp k)
  unfolding reap
  reap-Outcome c addr i p pp k here dead = elim (Bool-cases (addr == 0)) [
    | inl z ↦ rw z (inl (reaped k.below, rw z refl))
    | inr nz ↦ elim (Bool-cases (v.copyout p.pagetable p.sz addr pp.xstate k.below).0) [
      | inl y ↦
          rw (nz, y)
            (inl (reaped (v.copyout p.pagetable p.sz addr pp.xstate k.below).1, rw (nz, y) refl))
      | inr n ↦ rw (nz, n) (inr (refl, refl, inl (i, pp, here, dead, rw (nz, n) refl)))
    ]
  ]
    where
      reaped :
          (m : State)
          → Reaped c k.procs
              (freeproc v i (record pp { parent = none }) (record k { below = m })).procs
              (pos pp.pid)
      reaped m = record {
        index = i;
        child = pp;
        freed = free_fields (record pp { parent = none });
        here = here;
        dead = dead;
        pid = refl;
        table = procs-freeproc v i (record pp { parent = none }) (record k { below = m });
        unused = refl;
        orphan = refl;
      }

  abbrev NoneDead : ℕ → Kernel State → Type 0
  NoneDead c k = (n : ℕ) (p : Proc) → get_elem? k.procs n ≡ some p → is_dead_child c p ≡ false

  prepare-Outcome :
      (c addr : ℕ) (p : Proc) (k : Kernel State)
      → NoneDead c k
      → HasChild c k.procs
      → killed c k.procs ≡ false
      → WaitOutcome v c addr p k (prepare v c k (sleep_prepare c (proc_addr c) k.procs))
  unfolding prepare
  prepare-Outcome c addr p k alive kid up =
      elim (Option-cases (sleep_prepare c (proc_addr c) k.procs)) [
        | inl e ↦ absurd (sleep_prepare-ne-none c (proc_addr c) k.procs (v.proc_addr_pos c) e)
        | inr (t, e) ↦ rw e (alive, kid, up, e)
      ]

  found-Outcome :
      (c addr : ℕ) (p : Proc) (k : Kernel State) (s : Scan)
      → Scanned c k.procs 0 false s
      → WaitOutcome v c addr p k (wait_found v c addr k p s)
  unfolding wait_found
  found-Outcome c addr p k (zombie_at j pp) (n, e, here, dead) =
      reap-Outcome c addr j p pp k (let e' : j ≡ n = omega arith in rw e' here) dead
  found-Outcome c addr p k (no_zombie kids) (alive, none', kid) = elim (Bool-cases kids) [
    | inr n ↦ rw n (inr (refl, refl, inr (alive, inl (none' n).1)))
    | inl y ↦ elim (Bool-cases (killed c k.procs)) [
      | inl dead ↦ rw (y, dead) (inr (refl, refl, inr (alive, inr dead)))
      | inr up ↦ rw (y, up) (prepare-Outcome c addr p k alive (child (kid y)) up)
    ]
  ]
    where
      child : (false ≡ true) ⊎ HasChild c k.procs → HasChild c k.procs
      child (inl e) = absurd (ground arith)
      child (inr h) = h

  -- A pass of `kwait` returns the pid of a ZOMBIE child, whose entry is then unused, if there is one
  -- and the caller asks for no status, or it can be copied out. It returns -1 and leaves the table alone if the status cannot
  -- be copied out, or if there is no ZOMBIE child and either no child or the caller is killed.
  -- Otherwise, with a child but no ZOMBIE child, and a caller that is not killed, it registers the caller
  -- for a wakeup on its own address and sleeps. It never panics.
  pub wait_pass-Outcome :
      (c addr : ℕ) (k : Kernel State) (p : Proc)
      → get_elem? k.procs c ≡ some p
      → WaitOutcome v c addr p k (wait_pass v c addr k)
  unfolding wait_pass
  wait_pass-Outcome c addr k p here =
      rw (here, wait_pass)
        (found-Outcome c addr p k (scan_children c k.procs 0 false)
          (scan_children-Scanned c k.procs 0 false))

  reaps :
      (c : ℕ) (p : Proc) (k : Kernel State) (s : WaitStep State) (i : ℕ) (child : Proc)
      → WaitOutcome v c 0 p k s
      → get_elem? k.procs i ≡ some child
      → is_dead_child c child ≡ true
      → (z : ℤ) × (k' : Kernel State) × (s ≡ returned z k') × Reaped c k.procs k'.procs z
  reaps c p k (returned z k') i child (inl (r, _)) here dead = (z, k', refl, r)
  reaps c p k (returned z k') i child (inr (e, same, inl (_, _, _, _, no_store))) here dead =
      absurd (ground arith)
  reaps c p k (returned z k') i child (inr (e, same, inr (alive, _))) here dead =
      let f = alive i child here in absurd (ground arith)
  reaps c p k (blocked k') i child (alive, _, _, _) here dead =
      let f = alive i child here in absurd (ground arith)
  reaps c p k panicked i child h here dead = absurd h

  -- After `kexit` of a child, `wait(0)` of its parent `q` does not block: it returns the pid of a
  -- ZOMBIE child and frees its entry.
  pub wait_after_exit :
      (c q pid : ℕ) (status : ℤ) (k : Kernel State) (p parent : Proc)
      → c ≢ k.initproc
      → q ≢ c
      → get_elem? k.procs c ≡ some p
      → IsChild pid q p
      → get_elem? k.procs q ≡ some parent
      → (k' : Kernel State) × (kexit v c status k ≡ some k')
        × ((z : ℤ) × (k'' : Kernel State) × (wait_pass v q 0 k' ≡ returned z k'')
            × Reaped q k'.procs k''.procs z)
  wait_after_exit c q pid status k p parent alive ne here child there =
      let (k', e, x) = kexit-Exited v c q pid status k p alive ne here child in
      let (zp, at, (st, _, (_, par))) = x.is_zombie in
      let (caller, there') = entry_kept _ k.procs k'.procs q x.orphans there in
      (
        k',
        e,
        reaps q caller k' (wait_pass v q 0 k') c zp (wait_pass-Outcome q 0 k' caller there') at
            (ground (arith, st, par)),
      )
