-- ===== src/Spinlock/Turns.antt =====
-- CPUs that run `acquire` and `release` of kernel/spinlock.c on one lock.
use os_design_practice.Prelude.{
  List, Option, [], false, if◌then◌else◌, none, some, true, ℕ, ◌==◌, ◌∷◌, ◌≡◌,
}
use os_design_practice.Spinlock.{
  Cpu, Spinlock, pop_off, acquire_begin, exchange, acquire_end, release_begin, release_store,
}

-- How far a CPU is in `acquire` or `release` of the lock: in neither of them; in the loop of `acquire`;
-- after the loop; in `release` after `lk->cpu = 0`; and after the store that frees the lock.
pub data Phase : Type 0 where
  outside : Phase
  spinning : Phase
  entered : Phase
  leaving : Phase
  popping : Phase

-- The CPUs, how far they are, and a lock.
pub record System : Type 0 where
  pub cpus : ℕ → Cpu
  pub phase : ℕ → Phase
  pub lock : Spinlock

abbrev pub updated : {A : Type 0} → (ℕ → A) → ℕ → A → ℕ → A
updated f i x j = if i == j then x else f j

-- A CPU gets the lock by an exchange, and gives it back by a store.
pub data Event : Type 0 where
  took : ℕ → Event
  gave : ℕ → Event

-- The CPUs act in any order, each store and each exchange a step of its own; the events are listed from
-- the last one. A CPU in neither `acquire` nor `release` may call either. `elsewhere` is anything that
-- leaves the lock alone.
pub data Run (s : System) : List Event → System → Type 0 where
  here : Run s [] s
  starts :
      {t : System} {es : List Event} (i : ℕ) (c : Cpu)
      → Run s es t
      → t.phase i ≡ outside
      → acquire_begin i (t.cpus i) t.lock ≡ some c
      → Run s es (record t { cpus = updated t.cpus i c; phase = updated t.phase i spinning })
  spins :
      {t : System} {es : List Event} (i : ℕ)
      → Run s es t
      → t.phase i ≡ spinning
      → (exchange t.lock).0 ≡ false
      → Run s es (record t { lock = (exchange t.lock).1 })
  wins :
      {t : System} {es : List Event} (i : ℕ)
      → Run s es t
      → t.phase i ≡ spinning
      → (exchange t.lock).0 ≡ true
      → Run s
          (took i ∷ es)
          (record t { phase = updated t.phase i entered; lock = (exchange t.lock).1 })
  records :
      {t : System} {es : List Event} (i : ℕ)
      → Run s es t
      → t.phase i ≡ entered
      → Run s es (record t { phase = updated t.phase i outside; lock = acquire_end i t.lock })
  clears :
      {t : System} {es : List Event} (i : ℕ) (lk : Spinlock)
      → Run s es t
      → t.phase i ≡ outside
      → release_begin i t.lock ≡ some lk
      → Run s es (record t { phase = updated t.phase i leaving; lock = lk })
  frees :
      {t : System} {es : List Event} (i : ℕ)
      → Run s es t
      → t.phase i ≡ leaving
      → Run s
          (gave i ∷ es)
          (record t { phase = updated t.phase i popping; lock = release_store t.lock })
  pops :
      {t : System} {es : List Event} (i : ℕ) (c : Cpu)
      → Run s es t
      → t.phase i ≡ popping
      → pop_off (t.cpus i) ≡ some c
      → Run s es (record t { cpus = updated t.cpus i c; phase = updated t.phase i outside })
  elsewhere :
      {t : System} {es : List Event} (f : ℕ → Cpu) → Run s es t → Run s es (record t { cpus = f })

-- The CPU that has taken the lock and not given it back.
abbrev pub holder : List Event → Option ℕ
holder [] = none
holder (took i ∷ es) = some i
holder (gave i ∷ es) = none

-- Each `took` follows a `gave` or nothing, and each `gave i` follows `took i`.
abbrev pub Alternates : List Event → Type 0
Alternates [] = Unit
Alternates (took i ∷ []) = Unit
Alternates (took i ∷ took j ∷ es) = ⊥
Alternates (took i ∷ gave j ∷ es) = Alternates (gave j ∷ es)
Alternates (gave i ∷ []) = ⊥
Alternates (gave i ∷ took j ∷ es) = (i ≡ j) × Alternates (took j ∷ es)
Alternates (gave i ∷ gave j ∷ es) = ⊥
