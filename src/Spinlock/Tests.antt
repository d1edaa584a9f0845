-- ===== src/Spinlock/Tests.antt =====
-- Concrete runs of kernel/spinlock.c.
use os_design_practice.Prelude.{[], arith, false, none, refl, some, true, ℕ, ◌∷◌, ◌≡◌}
use os_design_practice.Spinlock.{
  Cpu, Spinlock, holding, push_off, initlock, acquire_begin, exchange, acquire_end, release_begin,
}
use os_design_practice.Spinlock.Nesting.{push, pop, done, nest, run, IsBack, matched}
use os_design_practice.Spinlock.Turns.{
  Phase, outside, spinning, entered, Run, here, starts, wins, records, took, updated, holder,
  Alternates,
}
use os_design_practice.Spinlock.Inside.{IsWith}
use os_design_practice.Spinlock.Exclusion.{at_first, takes_turns}

abbrev idle : Cpu
idle = record { noff = 0; intena = false; enabled = true }

abbrev masked : Cpu
masked = record { noff = 1; intena = true; enabled = false }

abbrev held : Spinlock
held = record { locked = true; cpu = some 2 }

-- Two locks, one inside the other.
matched_example : (c' : Cpu) × (run (push ∷ push ∷ pop ∷ pop ∷ []) idle ≡ some c') × IsBack idle c'
matched_example = matched idle (nest (nest done done) done) (λ lt. absurd (omega arith))

-- CPU 2 takes the lock, while CPU 0 has begun to spin.
abbrev apart : ℕ → Phase
apart =
    updated (updated (updated (updated (λ i. outside) 2 spinning) 0 spinning) 2 entered) 2 outside

abbrev masks : ℕ → Cpu
masks = updated (updated (λ i. idle) 2 masked) 0 masked

one_turn :
    Run (at_first (λ i. idle)) (took 2 ∷ []) (record { cpus = masks; phase = apart; lock = held })
unfolding acquire_begin acquire_end exchange push_off holding initlock
one_turn =
    records 2 (wins 2 (starts 0 masked (starts 2 masked here refl refl) refl refl) refl refl) refl

takes_turns_example :
    Alternates (took 2 ∷ [])
    × IsWith (record { cpus = masks; phase = apart; lock = held }) (holder (took 2 ∷ []))
takes_turns_example = takes_turns (λ i. idle) one_turn

-- The holder panics if it takes the lock again, another CPU spins, and only the holder releases.
test_held :
    (acquire_begin 2 masked held ≡ none)
    × (acquire_begin 0 idle held ≡ some masked)
    × (exchange held ≡ (false, held))
    × (release_begin 0 held ≡ none)
    × (release_begin 2 held ≡ some (record { locked = true; cpu = none }))
unfolding acquire_begin release_begin exchange holding push_off
test_held = (refl, refl, refl, refl, refl)
