-- ===== src/Sbrk/Tests.antt =====
-- Concrete runs of `sys_sbrk` and `sys_pause` of kernel/sysproc.c.
use os_design_practice.Prelude.{
  [], arith, false, if◌then◌else◌, inl, inr, leb, ltb, minus_one, negsuc, pos, refl, some, true, ℕ,
  ◌<◌, ◌^◌, ◌∷◌, ◌≡◌, ◌⊎◌,
}
use os_design_practice.Sbrk.{Paging, growproc, sys_sbrk, pause_from, sys_pause}
use os_design_practice.Sbrk.Limits.{IsFull, IsPaging, SbrkOutcome, sys_sbrk-Outcome}

-- A page table without contents, and memory for everything.
abbrev toy : Paging
toy = record {
  State = ℕ;
  uvmalloc = λ old new m. ((if ltb new old then old else new), m);
  uvmdealloc = λ old new m. ((if leb old new then old else new), m);
}

toy-IsPaging : IsPaging toy
toy-IsPaging = record { alloc = λ old new m. inr refl; dealloc = λ old new m. refl }

sys_sbrk-Outcome_example :
    let (r, sz', m') = sys_sbrk toy (negsuc 99) (pos 1) 4096 0 in
    SbrkOutcome (IsFull toy toy-IsPaging (negsuc 99) 4096 0) (negsuc 99) (pos 1) 4096 r sz'
sys_sbrk-Outcome_example =
    sys_sbrk-Outcome toy toy-IsPaging (negsuc 99) (pos 1) 4096 0 (λ k e. small k e) (omega arith)
  where
    small : (k : ℕ) → (negsuc 99 ≡ pos k) ⊎ (negsuc 99 ≡ negsuc k) → k < 2 ^ 31
    small k (inl e) = absurd (ground arith)
    small k (inr e) = ground arith

test_sbrk :
    (sys_sbrk toy (pos 100) (pos 1) 4096 0 ≡ (pos 4096, 4196, 0))
    × (sys_sbrk toy (pos 100) (pos 2) 4096 0 ≡ (pos 4096, 4196, 0))
    × (sys_sbrk toy (negsuc 4999) (pos 1) 4096 0 ≡ (pos 4096, 4096, 0))
unfolding sys_sbrk growproc
test_sbrk = (refl, refl, refl)

-- Woken at each of three ticks; killed at the second.
test_pause :
    (sys_pause (pos 2) 7 ((7, false) ∷ (8, false) ∷ (9, false) ∷ []) ≡ some (pos 0))
    × (sys_pause (pos 2) 7 ((7, false) ∷ (8, true) ∷ []) ≡ some minus_one)
unfolding sys_pause pause_from
test_pause = (refl, refl)
