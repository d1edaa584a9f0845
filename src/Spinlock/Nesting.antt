-- ===== src/Spinlock/Nesting.antt =====
-- `push_off` and `pop_off` of kernel/spinlock.c are matched.
use os_design_practice.Prelude.{
  List, Option, Option-cases, [], arith, false, inl, inr, none, refl, some, some_inj, ◌&&◌, ◌++◌,
  ◌-◌, ◌<◌, ◌==◌, ◌∙◌, ◌∷◌, ◌≡◌,
}
use os_design_practice.Spinlock.{Cpu, push_off, pop_off}

pub data Op : Type 0 where
  push : Op
  pop : Op

pub step : Op → Cpu → Option Cpu
step push c = some (push_off c)
step pop c = pop_off c

pub run : List Op → Cpu → Option Cpu
run [] c = some c
run (o ∷ os) c = elim (step o c) [ none ↦ none | some c' ↦ run os c' ]

-- Every `push` has its `pop`.
pub data Balanced : List Op → Type 0 where
  done : Balanced []
  nest : {os ps : List Op} → Balanced os → Balanced ps → Balanced (push ∷ (os ++ pop ∷ ps))

-- While pushes are open, interrupts are off.
abbrev pub IsMasked : Cpu → Type 0
IsMasked c = 0 < c.noff → c.enabled ≡ false

-- The depth and the flag are back, and so is `intena` where pushes are open.
pub record IsBack (c c' : Cpu) : Type 0 where
  pub depth : c'.noff ≡ c.noff
  pub flag : c'.enabled ≡ c.enabled
  pub saved : 0 < c.noff → c'.intena ≡ c.intena

run-append : (os ps : List Op) (c : Cpu) {d : Cpu} → run os c ≡ some d → run (os ++ ps) c ≡ run ps d
unfolding run
run-append [] ps c {d} e = rw (some_inj e) refl
run-append (o ∷ os) ps c {d} e = elim (Option-cases (step o c)) [
  | inl n ↦ absurd (let f : none ≡ some d = rw (n, run) at e in cc)
  | inr (m, y) ↦ rw (y, run) (run-append os ps m (rw (y, run) at e))
]

-- A push, changes that are back, and a pop.
pop_off-IsBack :
    (c d : Cpu)
    → IsMasked c
    → IsBack (push_off c) d
    → (c' : Cpu) × (pop_off d ≡ some c') × IsBack c c'
unfolding push_off pop_off
pop_off-IsBack c d masked b = (
  record d { noff = d.noff - 1; enabled = d.noff - 1 == 0 && d.intena },
  ground (arith, b.depth, b.flag),
  record {
    depth = omega (arith, b.depth);
    flag = ground (arith, b.depth, b.saved, masked);
    saved = λ lt. ground (arith, b.depth, b.saved, lt);
  },
)

IsBack-IsMasked : {c d : Cpu} → IsMasked c → IsBack c d → IsMasked d
IsBack-IsMasked masked b lt = b.flag ∙ masked (omega (arith, lt, b.depth))

push_off-IsMasked : (c : Cpu) → IsMasked (push_off c)
unfolding push_off
push_off-IsMasked c lt = refl

-- From a state in which interrupts are off while pushes are open, a sequence in which every `push_off`
-- has its `pop_off` panics nowhere, and brings back the depth, the interrupt flag, and what is saved of
-- the flag.
pub matched :
    {os : List Op} (c : Cpu)
    → Balanced os
    → IsMasked c
    → (c' : Cpu) × (run os c ≡ some c') × IsBack c c'
unfolding run step
matched c done masked = (c, refl, record { depth = refl; flag = refl; saved = λ lt. refl })
matched c (nest {os} {ps} b b') masked =
    let (d, e, back) = matched (push_off c) b (push_off-IsMasked c) in
    let (c1, e1, back1) = pop_off-IsBack c d masked back in
    let (c2, e2, back2) = matched c1 b' (IsBack-IsMasked masked back1) in
    (
      c2,
      run-append os (pop ∷ ps) (push_off c) e ∙ after d c1 ps e1 ∙ e2,
      record {
        depth = back2.depth ∙ back1.depth;
        flag = back2.flag ∙ back1.flag;
        saved = λ lt. back2.saved (omega (arith, lt, back1.depth)) ∙ back1.saved lt;
      },
    )
  where
    after : (d c1 : Cpu) (qs : List Op) → pop_off d ≡ some c1 → run (pop ∷ qs) d ≡ run qs c1
    after d c1 qs y = rw (y, run) refl
