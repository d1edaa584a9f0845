-- ===== src/Sbrk/Limits.antt =====
-- What `sys_sbrk` of kernel/sysproc.c does to the size of a process.
use os_design_practice.Prelude.{
  ==_iff, Bool-cases, arith, dec_lt, false, if◌then◌else◌, inl, inr, leb, ltb, minus_one, negsuc,
  pos, refl, subst, suc, sym, true, zero, ℕ, ℤ, ◌%◌, ◌+◌, ◌-◌, ◌<◌, ◌==◌, ◌^◌, ◌||◌, ◌≡◌, ◌≤◌, ◌⊎◌,
}
use os_design_practice.Sbrk.{
  Paging, trapframe_page, add_int, is_eager, growproc, sbrk_lazy, sbrk_grown, sys_sbrk,
}

-- `uvmalloc` gives 0 or the new size, and the old one if that is not smaller; `uvmdealloc` gives the new
-- size, and the old one if that is not greater.
pub record IsPaging (v : Paging) : Type 0 where
  pub alloc :
      (old new : ℕ) (m : v.State)
      → ((v.uvmalloc old new m).0 ≡ 0)
        ⊎ ((v.uvmalloc old new m).0 ≡ (if ltb new old then old else new))
  pub dealloc :
      (old new : ℕ) (m : v.State) → (v.uvmdealloc old new m).0 ≡ (if leb old new then old else new)

-- What a call with `n` and the type `t` returns and makes of the size `sz`; `full` says that `uvmalloc` had no
-- memory for it.
pub data SbrkOutcome (full : Type 0) (n t : ℤ) (sz : ℕ) : ℤ → ℕ → Type 0 where
  too_big : (k : ℕ) → n ≡ pos k → trapframe_page < sz + k → SbrkOutcome full n t sz minus_one sz
  no_memory :
      (k : ℕ) → n ≡ pos k → is_eager t ≡ true → 0 < k → full → SbrkOutcome full n t sz minus_one sz
  grown : (k : ℕ) → n ≡ pos k → sz + k ≤ trapframe_page → SbrkOutcome full n t sz (pos sz) (sz + k)
  shrunk : (k : ℕ) → n ≡ negsuc k → k < sz → SbrkOutcome full n t sz (pos sz) (sz - (k + 1))
  ignored : (k : ℕ) → n ≡ negsuc k → sz ≤ k → SbrkOutcome full n t sz (pos sz) sz

module _ (v : Paging) (h : IsPaging v) where
  open v use {State, uvmalloc, uvmdealloc}

  -- There is no memory for `n` bytes more.
  abbrev pub IsFull : ℤ → ℕ → State → Type 0
  IsFull n sz m = (uvmalloc sz (add_int sz n) m).0 ≡ 0

  abbrev After : ℤ → ℤ → ℕ → State → ℤ × ℕ × State → Type 0
  After n t sz m (r, sz', m') = SbrkOutcome (IsFull n sz m) n t sz r sz'

  at_size :
      {full : Type 0} {n t r : ℤ} {sz a b : ℕ}
      → SbrkOutcome full n t sz r a
      → a ≡ b
      → SbrkOutcome full n t sz r b
  at_size {full} {n} {t} {r} {sz} o e = subst (λ k. SbrkOutcome full n t sz r k) e o

  grow-After :
      (k : ℕ) (t : ℤ) (sz : ℕ) (m : State)
      → is_eager t ≡ true
      → k < 2 ^ 31
      → sz ≤ trapframe_page
      → After (pos k) t sz m (sbrk_grown v sz (growproc v (pos k) sz m))
  unfolding growproc
  grow-After zero t sz m eager small le = at_size (grown 0 refl (omega arith)) (omega arith)
  grow-After (suc k) t sz m eager small le =
      let new = (sz + suc k) % 2 ^ 64 in
      let same : new ≡ sz + suc k = omega arith in
      elim (Bool-cases (ltb trapframe_page new)) [
        | inl y ↦ rw y (too_big (suc k) refl (ground (arith, y, same)))
        | inr n ↦ elim (Bool-cases ((uvmalloc sz new m).0 == 0)) [
          | inl z ↦
              rw (n, z)
                (no_memory (suc k) refl eager (omega arith) ((==_iff (uvmalloc sz new m).0 0).0 z))
          | inr z ↦
              rw (n, z)
                (at_size (grown (suc k) refl (ground (arith, n, same)))
                  (given new same z (h.alloc sz new m)))
        ]
      ]
    where
      given :
          (new : ℕ)
          → new ≡ sz + suc k
          → (uvmalloc sz new m).0 == 0 ≡ false
          → ((uvmalloc sz new m).0 ≡ 0) ⊎ ((uvmalloc sz new m).0 ≡ (if ltb new sz then sz else new))
          → sz + suc k ≡ (uvmalloc sz new m).0
      given new same z (inl e) = absurd (ground arith)
      given new same z (inr e) = ground arith

  shrink-After :
      (k : ℕ) (t : ℤ) (sz : ℕ) (m : State)
      → k < 2 ^ 31
      → sz ≤ trapframe_page
      → After (negsuc k) t sz m (sbrk_grown v sz (growproc v (negsuc k) sz m))
  unfolding growproc
  shrink-After k t sz m small le =
      let d = h.dealloc sz (add_int sz (negsuc k)) m in
      elim (dec_lt k sz) [
        | yes lt ↦
            let same : add_int sz (negsuc k) ≡ sz - (k + 1) = omega arith in
            at_size (shrunk k refl lt) (ground (arith, d, same, lt))
        | no ge ↦
            let big : sz ≤ add_int sz (negsuc k) = omega arith in
            at_size (ignored k refl (omega arith)) (ground (arith, d, big))
      ]

  lazy-After :
      (k : ℕ) (t : ℤ) (sz : ℕ) (m : State)
      → k < 2 ^ 31
      → sz ≤ trapframe_page
      → After (pos k) t sz m (sbrk_lazy v k sz m)
  lazy-After k t sz m small le =
      let same : (sz + k) % 2 ^ 64 ≡ sz + k = omega arith in
      elim (Bool-cases (ltb ((sz + k) % 2 ^ 64) sz || ltb trapframe_page ((sz + k) % 2 ^ 64))) [
        | inl y ↦ rw y (too_big k refl (ground (arith, y, same)))
        | inr n ↦ rw n (at_size (grown k refl (ground (arith, n, same))) (sym same))
      ]

  -- `sbrk(n, t)` of an int, by a process whose memory ends below the trapframe page. For `n` of at least
  -- 0 it returns the old size, and the memory then ends `n` bytes further, still below the trapframe
  -- page, whether it is allocated now or later; it fails and keeps the size only if the memory would not
  -- end below that page, or if it is to be allocated now and `uvmalloc` has none. For a negative `n` it does
  -- not fail: it returns the old size, and the memory then ends `-n` bytes earlier; or where it did, if
  -- that is more than there is.
  pub sys_sbrk-Outcome :
      (n t : ℤ) (sz : ℕ) (m : State)
      → ((k : ℕ) → (n ≡ pos k) ⊎ (n ≡ negsuc k) → k < 2 ^ 31)
      → sz ≤ trapframe_page
      → let (r, sz', m') = sys_sbrk v n t sz m in SbrkOutcome (IsFull n sz m) n t sz r sz'
  unfolding sys_sbrk
  sys_sbrk-Outcome (negsuc k) t sz m small le = shrink-After k t sz m (small k (inr refl)) le
  sys_sbrk-Outcome (pos k) t sz m small le = elim (Bool-cases (is_eager t)) [
    | inl y ↦ rw y (grow-After k t sz m y (small k (inl refl)) le)
    | inr n ↦ rw n (lazy-After k t sz m (small k (inl refl)) le)
  ]
