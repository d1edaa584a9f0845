-- ===== src/Proc/Sleep/Entry.antt =====
-- An entry of the process table with a property, followed through the steps of kernel/proc.c that
-- keep the property.
use os_design_practice.Prelude.{
  get_elem?, get_elem?-modify_ne, get_elem?-modify_self, modify, some, ℕ, ℕ_discrete, ◌∙◌, ◌≡◌,
}
use os_design_practice.Proc.Types.{Proc}
use os_design_practice.Proc.Sched.{Table}
use os_design_practice.Proc.Sleep.{wake_one, wakeup}
use os_design_practice.Proc.Sleep.Fields.{get_elem?-wakeup}

abbrev pub At : (Proc → Type 0) → ℕ → Table → Type 0
At P i t = (p : Proc) × (get_elem? t i ≡ some p) × P p

-- No wakeup breaks `P`.
abbrev pub IsWakeProof : (Proc → Type 0) → Type 0
IsWakeProof P = (chan : ℕ) (p : Proc) → P p → P (wake_one chan p)

pub At-wakeup :
    (P : Proc → Type 0) (i chan : ℕ) (t : Table) → IsWakeProof P → At P i t → At P i (wakeup chan t)
At-wakeup P i chan t keep (p, e, h) = (wake_one chan p, get_elem?-wakeup chan t i e, keep chan p h)

pub At-modify :
    (P : Proc → Type 0) (i j : ℕ) (f : Proc → Proc) (t : Table)
    → ((p : Proc) → P p → P (f p))
    → At P i t
    → At P i (modify t j f)
At-modify P i j f t keep (p, e, h) = elim (ℕ_discrete j i) [
  | yes same ↦ (f p, rw same (get_elem?-modify_self t i f e), keep p h)
  | no other ↦ (p, get_elem?-modify_ne t j i f other ∙ e, h)
]

-- At the entry itself the step may establish another property.
pub At-modify_self :
    (P Q : Proc → Type 0) (i : ℕ) (f : Proc → Proc) (t : Table)
    → ((p : Proc) → P p → Q (f p))
    → At P i t
    → At Q i (modify t i f)
At-modify_self P Q i f t makes (p, e, h) = (f p, get_elem?-modify_self t i f e, makes p h)
