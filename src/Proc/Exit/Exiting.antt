-- ===== src/Proc/Exit/Exiting.antt =====
-- What `kexit` of kernel/proc.c leaves behind.
use os_design_practice.Prelude.{
  Bool-cases, List, [], ap, arith, get_elem?, inl, inr, length, map, modify, refl, some, suc, zero,
  ℕ, ℤ, ◌∙◌, ◌∷◌, ◌≡◌, ◌≢◌,
}
use os_design_practice.Proc.Types.{Proc, zombie}
use os_design_practice.Proc.Services.{Services}
use os_design_practice.Proc.Sched.{Table}
use os_design_practice.Proc.Sleep.{wake_one, wakeup}
use os_design_practice.Proc.Sleep.Fields.{
  parents, parents-wakeup, wake_one-fields, IsWoken, AwaitsOn, AwaitsOn-wake, wakeup_on,
  get_elem?-wakeup,
}
use os_design_practice.Proc.Sleep.Entry.{At, IsWakeProof, At-wakeup, At-modify, At-modify_self}
use os_design_practice.Proc.Life.{Kernel}
use os_design_practice.Proc.Exit.{
  adopt_one, is_child_at, reparent_step, reparent_from, reparent, wake_all, release_resources,
  close_files, parent_chan, exit_locked, exit_found, kexit,
}
use os_design_practice.Proc.Exit.Orphans.{adopt, parents-reparent}

module _ (P : Proc → Type 0) (keep : IsWakeProof P) where
  At-wake_all : (i : ℕ) (chans : List ℕ) (t : Table) → At P i t → At P i (wake_all chans t)
  At-wake_all i [] t h = h
  At-wake_all i (ch ∷ chans) t h = At-wake_all i chans (wakeup ch t) (At-wakeup P i ch t keep h)

  module _ (c init : ℕ) (stay : (p : Proc) → P p → P (adopt_one c init p)) (chan i : ℕ) where
    At-reparent_step : (j : ℕ) (t : Table) → At P i t → At P i (reparent_step c init chan j t)
    unfolding reparent_step
    At-reparent_step j t h = elim (Bool-cases (is_child_at c j t)) [
      | inl y ↦ rw y (At-wakeup P i chan _ keep (At-modify P i j (adopt_one c init) t stay h))
      | inr n ↦ rw n h
    ]

    At-reparent_from : (k j : ℕ) (t : Table) → At P i t → At P i (reparent_from c init chan k j t)
    unfolding reparent_from
    At-reparent_from zero j t h = h
    At-reparent_from (suc k) j t h = At-reparent_from k (suc j) _ (At-reparent_step j t h)

    pub At-reparent : (t : Table) → At P i t → At P i (reparent c init chan t)
    unfolding reparent
    At-reparent t h = At-reparent_from (length t) 0 t h

-- A process with this pid and this parent.
abbrev pub IsChild : ℕ → ℕ → Proc → Type 0
IsChild pid q p = (p.pid ≡ pid) × (p.parent ≡ some q)

IsChild-wake : (pid q : ℕ) → IsWakeProof (IsChild pid q)
IsChild-wake pid q chan p (e, f) = let w = wake_one-fields chan p in (w.1 ∙ e, w.0 ∙ f)

IsChild-adopt_one :
    (pid q c init : ℕ) → q ≢ c → (p : Proc) → IsChild pid q p → IsChild pid q (adopt_one c init p)
unfolding adopt_one
IsChild-adopt_one pid q c init ne p (e, f) = (ground arith, ground arith)

AwaitsOn-adopt_one : (a c init : ℕ) (p : Proc) → AwaitsOn a p → AwaitsOn a (adopt_one c init p)
unfolding adopt_one
AwaitsOn-adopt_one a c init p (inl e) = inl (ground arith)
AwaitsOn-adopt_one a c init p (inr (z, w)) = inr (ground arith, ground arith)

parents-wake_all : (chans : List ℕ) (t : Table) → parents (wake_all chans t) ≡ parents t
parents-wake_all [] t = refl
parents-wake_all (ch ∷ chans) t = parents-wake_all chans (wakeup ch t) ∙ parents-wakeup ch t

parents-modify :
    (f : Proc → Proc) (c : ℕ) (t : Table)
    → ((p : Proc) → (f p).parent ≡ p.parent)
    → parents (modify t c f) ≡ parents t
parents-modify f c [] same = refl
parents-modify f zero (p ∷ ps) same = ap (λ q. q ∷ parents ps) (same p)
parents-modify f (suc c) (p ∷ ps) same = ap (λ l. p.parent ∷ l) (parents-modify f c ps same)

module _ (v : Services) where
  open v use {State, proc_addr}

  At-release_resources :
      (P : Proc → Type 0) (c i : ℕ) (p : Proc) (k : Kernel State)
      → IsWakeProof P
      → ((q : Proc) (files : List ℕ) → P q → P (record q { ofile = files }))
      → ((q : Proc) → P q → P (record q { cwd = 0 }))
      → At P i k.procs
      → At P i (release_resources v c p k).procs
  unfolding release_resources
  At-release_resources P c i p k wake files cwd h =
      let (fs, chans, m) = close_files v p.ofile k.below in
      let t = wake_all chans (modify k.procs c (λ (q : Proc). record q { ofile = fs })) in
      At-modify P i c (λ q. record q { cwd = 0 }) (wake_all (v.iput p.cwd m).0 t) cwd
        (At-wake_all P wake i (v.iput p.cwd m).0 t (
          At-wake_all P wake i chans (modify k.procs c (λ (q : Proc). record q { ofile = fs }))
            (At-modify P i c (λ q. record q { ofile = fs }) k.procs (λ q. files q fs) h)))

  parents-release_resources :
      (c : ℕ) (p : Proc) (k : Kernel State)
      → parents (release_resources v c p k).procs ≡ parents k.procs
  unfolding release_resources
  parents-release_resources c p k =
      let (fs, chans, m) = close_files v p.ofile k.below in
      let t = wake_all chans (modify k.procs c (λ (q : Proc). record q { ofile = fs })) in
      parents-modify (λ q. record q { cwd = 0 }) c (wake_all (v.iput p.cwd m).0 t) (λ q. refl)
      ∙ parents-wake_all (v.iput p.cwd m).0 t
      ∙ parents-wake_all chans (modify k.procs c (λ (q : Proc). record q { ofile = fs }))
      ∙ parents-modify (λ q. record q { ofile = fs }) c k.procs (λ q. refl)

  -- The process `c`, a child of `q`, has exited.
  pub record Exited (c q pid : ℕ) (status : ℤ) (init : ℕ) (t t' : Table) : Type 0 where
    pub is_zombie : At (λ p. (p.state ≡ zombie) × (p.xstate ≡ status) × IsChild pid q p) c t'
    pub orphans : parents t' ≡ map (adopt c init) (parents t)
    pub parent_woken : At (AwaitsOn (proc_addr q)) q t → At IsWoken q t'

  module _ (c q pid init : ℕ) (status : ℤ) (t : Table) (ne : q ≢ c) where
    abbrev reparented : Table
    reparented = reparent c init (proc_addr init) t

    parent_chan-lem : At (IsChild pid q) c t → parent_chan v reparented c ≡ proc_addr q
    parent_chan-lem h =
        let (p, e, (_, f)) =
          At-reparent (IsChild pid q) (IsChild-wake pid q) c init
            (IsChild-adopt_one pid q c init ne) (proc_addr init) c t h in
        ground (arith, e, f)

    exit_locked-Exited :
        At (IsChild pid q) c t → Exited c q pid status init t (exit_locked v c status init t)
    unfolding exit_locked
    exit_locked-Exited h = rw (parent_chan-lem h) (record {
      is_zombie =
          At-modify_self (IsChild pid q) _ c _ (wakeup (proc_addr q) reparented)
            (λ p i. (refl, refl, i))
            (At-wakeup (IsChild pid q) c (proc_addr q) reparented (IsChild-wake pid q) (
              At-reparent (IsChild pid q) (IsChild-wake pid q) c init
                (IsChild-adopt_one pid q c init ne) (proc_addr init) c t h));
      orphans =
          parents-modify (λ p. record p { xstate = status; state = zombie }) c
            (wakeup (proc_addr q) reparented) (λ p. refl)
          ∙ parents-wakeup (proc_addr q) reparented
          ∙ parents-reparent c init (proc_addr init) t;
      parent_woken = λ w.
          let (r, e, a) =
            At-reparent (AwaitsOn (proc_addr q)) (AwaitsOn-wake (proc_addr q)) c init
              (AwaitsOn-adopt_one (proc_addr q) c init) (proc_addr init) q t w in
          At-modify IsWoken q c (λ p. record p { xstate = status; state = zombie })
            (wakeup (proc_addr q) reparented) (λ p z. (z.0, refl))
            (
              wake_one (proc_addr q) r,
              get_elem?-wakeup (proc_addr q) reparented q e,
              wakeup_on (proc_addr q) r a,
            );
    })

  -- `kexit` of a process `c` that has a parent `q` and is not init succeeds, and leaves `c` a ZOMBIE
  -- with its exit status, its pid and its parent. Its children have become init's, and every other
  -- process has the parent that it had. If `q` waits for its own address, asleep or about to
  -- sleep, or has been woken, then it has been woken and does not sleep.
  pub kexit-Exited :
      (c q pid : ℕ) (status : ℤ) (k : Kernel State) (p : Proc)
      → c ≢ k.initproc
      → q ≢ c
      → get_elem? k.procs c ≡ some p
      → IsChild pid q p
      → (k' : Kernel State) × (kexit v c status k ≡ some k')
        × Exited c q pid status k.initproc k.procs k'.procs
  unfolding kexit exit_found
  kexit-Exited c q pid status k p alive ne here child =
      let k1 : Kernel State = release_resources v c p k in
      let e = exit_locked-Exited c q pid k.initproc status k1.procs ne (
        At-release_resources (IsChild pid q) c c p k (IsChild-wake pid q) (λ r fs i. i) (λ r i. i)
          (p, here, child)) in
      (
        exit_found v c status k p,
        ground (arith, here),
        record {
          is_zombie = e.is_zombie;
          orphans = e.orphans ∙ ap (map (adopt c k.initproc)) (parents-release_resources c p k);
          parent_woken = λ w. e.parent_woken (
              At-release_resources (AwaitsOn (proc_addr q)) c q p k (AwaitsOn-wake (proc_addr q))
                (λ r fs i. i) (λ r i. i) w);
        },
      )
