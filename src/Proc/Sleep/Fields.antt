-- ===== src/Proc/Sleep/Fields.antt =====
-- What `wakeup` of kernel/proc.c leaves alone.
use os_design_practice.Prelude.{
  Bool-cases, List, Option, [], ap₂, arith, false, get_elem?, get_elem?-map, inl, inr, length,
  length-map, map, none, refl, some, ℕ, ◌<◌, ◌==◌, ◌∷◌, ◌≡◌, ◌≢◌, ◌⊎◌,
}
use os_design_practice.Proc.Types.{Proc, is_zombie, is_unused, is_sleeping}
use os_design_practice.Proc.Sched.{Table}
use os_design_practice.Proc.Sleep.{sleep_prepare, wake_one, wakeup}

abbrev pub parents : Table → List (Option ℕ)
parents t = map (λ (p : Proc). p.parent) t

parent-wake_one : (chan : ℕ) (p : Proc) → (wake_one chan p).parent ≡ p.parent
unfolding wake_one
parent-wake_one chan p = ground arith

pub parents-wakeup : (chan : ℕ) (t : Table) → parents (wakeup chan t) ≡ parents t
unfolding wakeup
parents-wakeup chan [] = refl
parents-wakeup chan (p ∷ ps) = ap₂ ◌∷◌ (parent-wake_one chan p) (parents-wakeup chan ps)

-- A wakeup changes the channel and the state of a process at most, and the state only from SLEEPING
-- to RUNNABLE.
pub wake_one-fields :
    (chan : ℕ) (p : Proc)
    → ((wake_one chan p).parent ≡ p.parent)
      × ((wake_one chan p).pid ≡ p.pid)
      × ((wake_one chan p).xstate ≡ p.xstate)
      × (is_zombie (wake_one chan p).state ≡ is_zombie p.state)
      × (is_unused (wake_one chan p).state ≡ is_unused p.state)
unfolding wake_one
wake_one-fields chan p = (ground arith, ground arith, ground arith, ground arith, ground arith)

pub get_elem?-wakeup :
    (chan : ℕ) (t : Table) (i : ℕ) {p : Proc}
    → get_elem? t i ≡ some p
    → get_elem? (wakeup chan t) i ≡ some (wake_one chan p)
unfolding wakeup
get_elem?-wakeup chan t i e = get_elem?-map (wake_one chan) t i e

pub length-wakeup : (chan : ℕ) (t : Table) → length (wakeup chan t) ≡ length t
unfolding wakeup
length-wakeup chan t = length-map t (wake_one chan)

-- A process that waits for a wakeup on `chan`, or has had one.
abbrev pub IsWoken : Proc → Type 0
IsWoken p = (p.chan ≡ 0) × (is_sleeping p.state ≡ false)

abbrev pub AwaitsOn : ℕ → Proc → Type 0
AwaitsOn chan p = (p.chan ≡ chan) ⊎ IsWoken p

pub AwaitsOn-wake : (a chan : ℕ) (p : Proc) → AwaitsOn a p → AwaitsOn a (wake_one chan p)
unfolding wake_one
AwaitsOn-wake a chan p (inl e) = elim (Bool-cases (p.chan == chan)) [
  | inl y ↦ inr (ground arith, ground arith)
  | inr n ↦ inl (ground arith)
]
AwaitsOn-wake a chan p (inr (z, w)) = inr (ground arith, ground arith)

-- After the wakeup that it waits for it has been woken.
pub wakeup_on : (a : ℕ) (p : Proc) → AwaitsOn a p → IsWoken (wake_one a p)
unfolding wake_one
wakeup_on a p (inl e) = (ground arith, ground arith)
wakeup_on a p (inr (z, w)) = (ground arith, ground arith)

-- `sleep_prepare` panics only on the null channel.
pub sleep_prepare-ne-none : (c chan : ℕ) (t : Table) → 0 < chan → sleep_prepare c chan t ≢ none
unfolding sleep_prepare
sleep_prepare-ne-none c chan t lt e = ground arith
