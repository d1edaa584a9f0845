-- ===== src/KString/Move.antt =====
-- `memmove` and `memset` of kernel/string.c.
use os_design_practice.Prelude.{
  add-zero, ap, arith, dec_lt, get_or-set_ne, get_or-set_self, length, length-set, refl, set, suc,
  sym, zero, ℕ, ◌%◌, ◌+◌, ◌<◌, ◌∙◌, ◌≡◌, ◌≤◌, ◌⊎◌,
}
use os_design_practice.KString.{Memory, load, copy_up, copy_down, memmove, memset, memset_from}

copy_up-outside :
    (mem : Memory) (d s n j : ℕ) → (j < d) ⊎ (d + n ≤ j) → load (copy_up mem d s n) j ≡ load mem j
unfolding copy_up
copy_up-outside mem d s zero j h = refl
copy_up-outside mem d s (suc n) j h =
    copy_up-outside (set mem d (load mem s)) (d + 1) (s + 1) n j (omega arith)
    ∙ get_or-set_ne mem d j (load mem s) 0 (omega arith)

-- Going up is right if no byte is overwritten before it is read.
copy_up-inside :
    (mem : Memory) (d s n i : ℕ)
    → (d ≤ s) ⊎ (s + n ≤ d)
    → i < n
    → d + n ≤ length mem
    → load (copy_up mem d s n) (d + i) ≡ load mem (s + i)
unfolding copy_up
copy_up-inside mem d s zero i h lt fits = absurd (omega arith)
copy_up-inside mem d s (suc n) zero h lt fits =
    copy_up-outside (set mem d (load mem s)) (d + 1) (s + 1) n (d + 0) (omega arith)
    ∙ rw (add-zero, add-zero) (get_or-set_self mem d (load mem s) 0 (omega arith))
copy_up-inside mem d s (suc n) (suc i) h lt fits =
    ap (load (copy_up mem d s (suc n))) (shift d i)
    ∙ copy_up-inside (set mem d (load mem s)) (d + 1) (s + 1) n i (omega arith) (omega arith)
        (omega (arith, length-set mem d (load mem s)))
    ∙ get_or-set_ne mem d (s + 1 + i) (load mem s) 0 (omega arith)
    ∙ ap (load mem) (sym (shift s i))
  where
    shift : (a b : ℕ) → a + suc b ≡ a + 1 + b
    shift a b = omega arith

copy_down-outside :
    (mem : Memory) (d s n j : ℕ) → (j < d) ⊎ (d + n ≤ j) → load (copy_down mem d s n) j ≡ load mem j
unfolding copy_down
copy_down-outside mem d s zero j h = refl
copy_down-outside mem d s (suc n) j h =
    copy_down-outside (set mem (d + n) (load mem (s + n))) d s n j (omega arith)
    ∙ get_or-set_ne mem (d + n) j (load mem (s + n)) 0 (omega arith)

copy_down-inside :
    (mem : Memory) (d s n i : ℕ)
    → s < d
    → i < n
    → d + n ≤ length mem
    → load (copy_down mem d s n) (d + i) ≡ load mem (s + i)
unfolding copy_down
copy_down-inside mem d s zero i h lt fits = absurd (omega arith)
copy_down-inside mem d s (suc n) i h lt fits = elim (dec_lt i n) [
  | yes below ↦
      copy_down-inside mem' d s n i h below
        (omega (arith, length-set mem (d + n) (load mem (s + n))))
      ∙ get_or-set_ne mem (d + n) (s + i) (load mem (s + n)) 0 (omega arith)
  | no last ↦
      let e : i ≡ n = omega arith in
      rw e (
        copy_down-outside mem' d s n (d + n) (omega arith)
        ∙ get_or-set_self mem (d + n) (load mem (s + n)) 0 (omega arith))
]
  where
    mem' : Memory
    mem' = set mem (d + n) (load mem (s + n))

-- `memmove` copies the bytes that the source held before the call, also where the two areas overlap,
-- and changes no byte outside the destination.
pub memmove_lem :
    (mem : Memory) (dst src n : ℕ)
    → dst + n ≤ length mem
    → ((i : ℕ) → i < n → load (memmove mem dst src n) (dst + i) ≡ load mem (src + i))
      × ((j : ℕ) → (j < dst) ⊎ (dst + n ≤ j) → load (memmove mem dst src n) j ≡ load mem j)
unfolding memmove
memmove_lem mem dst src n fits = (
  λ i lt. ground (arith, copy_up-inside mem dst src n i, copy_down-inside mem dst src n i),
  λ j out.
      ground (arith, copy_up-outside mem dst src n j out, copy_down-outside mem dst src n j out),
)

memset_from-outside :
    (mem : Memory) (d c n j : ℕ)
    → (j < d) ⊎ (d + n ≤ j)
    → load (memset_from mem d c n) j ≡ load mem j
unfolding memset_from
memset_from-outside mem d c zero j h = refl
memset_from-outside mem d c (suc n) j h =
    memset_from-outside (set mem d (c % 256)) (d + 1) c n j (omega arith)
    ∙ get_or-set_ne mem d j (c % 256) 0 (omega arith)

memset_from-inside :
    (mem : Memory) (d c n i : ℕ)
    → i < n
    → d + n ≤ length mem
    → load (memset_from mem d c n) (d + i) ≡ c % 256
unfolding memset_from
memset_from-inside mem d c zero i lt fits = absurd (omega arith)
memset_from-inside mem d c (suc n) zero lt fits =
    memset_from-outside (set mem d (c % 256)) (d + 1) c n (d + 0) (omega arith)
    ∙ rw add-zero (get_or-set_self mem d (c % 256) 0 (omega arith))
memset_from-inside mem d c (suc n) (suc i) lt fits =
    let e : d + suc i ≡ d + 1 + i = omega arith in
    rw e (
      memset_from-inside (set mem d (c % 256)) (d + 1) c n i (omega arith)
        (omega (arith, length-set mem d (c % 256))))

-- `memset` stores the low byte of `c` in `n` bytes, and changes no other byte.
pub memset_lem :
    (mem : Memory) (dst c n : ℕ)
    → dst + n ≤ length mem
    → ((i : ℕ) → i < n → load (memset mem dst c n) (dst + i) ≡ c % 256)
      × ((j : ℕ) → (j < dst) ⊎ (dst + n ≤ j) → load (memset mem dst c n) j ≡ load mem j)
unfolding memset
memset_lem mem dst c n fits = (
  λ i lt. memset_from-inside mem dst c n i lt fits,
  λ j out. memset_from-outside mem dst c n j out,
)
