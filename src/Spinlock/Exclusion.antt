-- ===== src/Spinlock/Exclusion.antt =====
-- A lock of kernel/spinlock.c is held by one CPU at a time.
use os_design_practice.Prelude.{List, [], none, refl, some, some_inj, sym, ℕ, ◌∷◌, ◌≡◌}
use os_design_practice.Spinlock.{Cpu, initlock}
use os_design_practice.Spinlock.Turns.{
  outside, spinning, System, updated, Event, took, gave, Run, here, starts, spins, wins, records,
  clears, frees, pops, elsewhere, holder, Alternates,
}
use os_design_practice.Spinlock.Inside.{
  IsWith, none_ne_some, IsWith-bystander, IsWith-starts, IsWith-spins, IsWith-wins, IsWith-records,
  IsWith-clears, IsWith-frees, IsWith-pops, IsWith-elsewhere,
}

may_take : (i : ℕ) (es : List Event) → holder es ≡ none → Alternates es → Alternates (took i ∷ es)
may_take i [] free a = tt
may_take i (took j ∷ es) free a = absurd (none_ne_some (sym free))
may_take i (gave j ∷ es) free a = a

may_give : (i : ℕ) (es : List Event) → holder es ≡ some i → Alternates es → Alternates (gave i ∷ es)
may_give i [] held a = absurd (none_ne_some held)
may_give i (took j ∷ es) held a = (sym (some_inj held), a)
may_give i (gave j ∷ es) held a = absurd (none_ne_some held)

-- All CPUs are outside, and the lock is as `initlock` leaves it.
abbrev pub at_first : (ℕ → Cpu) → System
at_first f = record { cpus = f; phase = λ i. outside; lock = initlock }

-- However CPUs run `acquire` and `release` of a lock that `initlock` has made, store by store, they take
-- it and give it back in turn: nobody takes it twice before it is given back, and only the CPU that took
-- it gives it back. The lock is locked exactly while a CPU has it; `lk->cpu` is this CPU while it is in
-- neither of the two functions, and 0 in between and when the lock is free; and no other CPU is between
-- the exchange and `lk->cpu = mycpu()` or between `lk->cpu = 0` and the store.
pub takes_turns :
    (f : ℕ → Cpu) {es : List Event} {t : System}
    → Run (at_first f) es t
    → Alternates es × IsWith t (holder es)
unfolding initlock
takes_turns f here = (tt, (refl, refl, λ j. refl))
takes_turns f (starts {t} {es} i c r at e) =
    let (a, w) = takes_turns f r in
    (
      a,
      IsWith-bystander t i spinning (updated t.cpus i c) (holder es)
          (IsWith-starts t i c (holder es) at e w) refl w,
    )
takes_turns f (spins {t} {es} i r at e) =
    let (a, w) = takes_turns f r in (a, IsWith-spins t (holder es) e w)
takes_turns f (wins {t} {es} i r at e) =
    let (a, w) = takes_turns f r in
    let (free, w') = IsWith-wins t i (holder es) e w in (may_take i es free a, w')
takes_turns f (records {t} {es} i r at) =
    let (a, w) = takes_turns f r in (a, IsWith-records t i (holder es) at w)
takes_turns f (clears {t} {es} i lk r at e) =
    let (a, w) = takes_turns f r in (a, IsWith-clears t i lk (holder es) e w)
takes_turns f (frees {t} {es} i r at) =
    let (a, w) = takes_turns f r in
    let (held, w') = IsWith-frees t i (holder es) at w in (may_give i es held a, w')
takes_turns f (pops {t} {es} i c r at e) =
    let (a, w) = takes_turns f r in
    (
      a,
      IsWith-bystander t i outside (updated t.cpus i c) (holder es)
          (IsWith-pops t i (holder es) at w) refl w,
    )
takes_turns f (elsewhere {t} {es} g r) =
    let (a, w) = takes_turns f r in (a, IsWith-elsewhere t g (holder es) w)
