-- ===== src/Fs/Inode/Runs.antt =====
-- The loops of `itrunc` of kernel/fs.c free a run of addresses.
use os_design_practice.Prelude.{
  ==_iff, Bool-cases, ap, arith, inl, inr, ne_of_test, refl, some, suc, sym, true, zero, ℕ,
  ℕ_discrete, ◌+◌, ◌<◌, ◌==◌, ◌∙◌, ◌≡◌, ◌≢◌, ◌≤◌,
}
use os_design_practice.Fs.{Super, Disk, is_free, bfree}
use os_design_practice.Fs.Alloc.{data_start, IsSound, Freed, bfree-Freed}
use os_design_practice.Fs.Inode.{word, free_run, free_indirect}
use os_design_practice.Fs.Inode.Map.{InUse}

-- The addresses with these indices are in use, and all different.
pub record IsRun (sb : Super) (f : ℕ → ℕ) (d : Disk) (i k : ℕ) : Type 0 where
  pub sound : IsSound sb d
  pub owned : (j : ℕ) → i ≤ j → j < i + k → f j ≢ 0 → InUse sb d (f j)
  pub distinct : (j m : ℕ) → i ≤ j → j < m → m < i + k → f j ≢ 0 → f j ≢ f m

-- They have been freed.
pub record Done (sb : Super) (f : ℕ → ℕ) (d : Disk) (i k : ℕ) (d' : Disk) : Type 0 where
  pub sound : IsSound sb d'
  pub freed : (j : ℕ) → i ≤ j → j < i + k → f j ≢ 0 → is_free sb d' (f j) ≡ true
  pub others : (q : ℕ) → ((j : ℕ) → i ≤ j → j < i + k → f j ≢ q) → is_free sb d' q ≡ is_free sb d q
  pub kept : (q : ℕ) → data_start sb ≤ q → d' q ≡ d q

pub step-IsRun :
    (sb : Super) (f : ℕ → ℕ) (d d1 : Disk) (i k : ℕ)
    → f i ≢ 0
    → IsRun sb f d i (suc k)
    → Freed sb d (f i) d1
    → IsRun sb f d1 (i + 1) k
step-IsRun sb f d d1 i k ne h x = record {
  sound = x.sound;
  owned = λ j low high nz.
      (let u = h.owned j (omega (arith, low)) (omega (arith, high)) nz in
        record {
          low = u.low;
          high = u.high;
          used =
              x.others (f j)
                (h.distinct i j (omega arith) (omega (arith, low)) (omega (arith, high)) ne)
              ∙ u.used;
        });
  distinct = λ j m low lt high nz. h.distinct j m (omega (arith, low)) lt (omega (arith, high)) nz;
}

pub free_run-Done :
    (sb : Super) (f : ℕ → ℕ) (k i : ℕ) (d : Disk)
    → IsRun sb f d i k
    → (d' : Disk) × (free_run sb f k i d ≡ some d') × Done sb f d i k d'
unfolding free_run
free_run-Done sb f zero i d h = (
  d,
  refl,
  record {
    sound = h.sound;
    freed = λ j low high nz. absurd (omega arith);
    others = λ q out. refl;
    kept = λ q low. refl;
  },
)
free_run-Done sb f (suc k) i d h = elim (Bool-cases (f i == 0)) [
  | inl y ↦
      let z : f i ≡ 0 = (==_iff (f i) 0).0 y in
      let (d', e, x) = free_run-Done sb f k (i + 1) d (record {
        sound = h.sound;
        owned = λ j low high nz. h.owned j (omega (arith, low)) (omega (arith, high)) nz;
        distinct =
            λ j m low lt high nz. h.distinct j m (omega (arith, low)) lt (omega (arith, high)) nz;
      }) in
      (
        d',
        rw y e,
        record {
          sound = x.sound;
          freed = λ j low high nz. x.freed j (later z j low nz) (omega (arith, high)) nz;
          others =
              λ q out. x.others q (λ j low high. out j (omega (arith, low)) (omega (arith, high)));
          kept = x.kept;
        },
      )
  | inr n ↦
      let ne : f i ≢ 0 = ne_of_test (f i) 0 n in
      let u = h.owned i (omega arith) (omega arith) ne in
      let (d1, e, x) = bfree-Freed sb d (f i) h.sound u.low u.high u.used in
      let (d', e', y) = free_run-Done sb f k (i + 1) d1 (step-IsRun sb f d d1 i k ne h x) in
      (
        d',
        rw n rw e e',
        record {
          sound = y.sound;
          freed = λ j low high nz. elim (ℕ_discrete i j) [
            | yes s ↦
                let a = y.others (f i) (λ m l hi t.
                  h.distinct i m (omega arith) (omega (arith, l)) (omega (arith, hi)) ne (sym t)) in
                ap (λ m. is_free sb d' (f m)) (sym s) ∙ a ∙ x.now_free
            | no s ↦ y.freed j (omega (arith, low, s)) (omega (arith, high)) nz
          ];
          others = λ q out.
              y.others q (λ j low high. out j (omega (arith, low)) (omega (arith, high)))
              ∙ x.others q (out i (omega arith) (omega arith));
          kept = λ q low. y.kept q low ∙ x.kept q low;
        },
      )
]
  where
    later : f i ≡ 0 → (j : ℕ) → i ≤ j → f j ≢ 0 → i + 1 ≤ j
    later z j low nz = elim (ℕ_discrete i j) [
      | yes s ↦ absurd (nz (ap f (sym s) ∙ z))
      | no s ↦ omega (arith, low, s)
    ]

pub free_indirect-some :
    (sb : Super) (ind n : ℕ) (d1 d2 d3 : Disk)
    → free_run sb (word (d1 ind)) n 0 d1 ≡ some d2
    → bfree sb ind d2 ≡ some d3
    → free_indirect sb ind n d1 ≡ some d3
unfolding free_indirect
free_indirect-some sb ind n d1 d2 d3 e2 e3 = rw (e2, free_indirect) e3
