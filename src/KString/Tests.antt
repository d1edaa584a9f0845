-- ===== src/KString/Tests.antt =====
-- kernel/string.c at concrete inputs.
use os_design_practice.Prelude.{[], arith, inr, negsuc, pos, refl, ℕ, ◌+◌, ◌<◌, ◌∷◌, ◌≡◌, ◌≤◌, ◌⊎◌}
use os_design_practice.KString.{
  Memory, load, memcmp, memmove, copy_up, copy_down, strncmp, strncpy, fill_zeros, safestrcpy,
  memcpy,
}
use os_design_practice.KString.Move.{memmove_lem}
use os_design_practice.KString.Strings.{Copied, safestrcpy-Copied}

-- "init", its nul, and three bytes more
abbrev init_name : Memory
init_name = b'i' ∷ b'n' ∷ b'i' ∷ b't' ∷ 0 ∷ 7 ∷ 8 ∷ 9 ∷ []

-- Source and destination overlap, upwards and downwards.
memmove_up : memmove init_name 1 0 4 ≡ b'i' ∷ b'i' ∷ b'n' ∷ b'i' ∷ b't' ∷ 7 ∷ 8 ∷ 9 ∷ []
unfolding memmove copy_down copy_up
memmove_up = refl

memmove_down : memmove init_name 0 1 4 ≡ b'n' ∷ b'i' ∷ b't' ∷ 0 ∷ 0 ∷ 7 ∷ 8 ∷ 9 ∷ []
unfolding memmove copy_down copy_up
memmove_down = refl

compare_prefix : (strncmp init_name 0 2 1 ≡ pos 0) × (strncmp init_name 0 2 5 ≡ negsuc 5)
unfolding strncmp
compare_prefix = (refl, refl)

strncpy_pads : strncpy init_name 5 3 3 ≡ b'i' ∷ b'n' ∷ b'i' ∷ b't' ∷ 0 ∷ b't' ∷ 0 ∷ 0 ∷ []
unfolding strncpy fill_zeros
strncpy_pads = refl

memcmp_differs : memcmp init_name 0 2 2 ≡ negsuc 5
unfolding memcmp
memcmp_differs = refl

memmove_lem_example :
    ((i : ℕ) → i < 4 → load (memmove init_name 1 0 4) (1 + i) ≡ load init_name (0 + i))
    × ((j : ℕ) → (j < 1) ⊎ (1 + 4 ≤ j) → load (memmove init_name 1 0 4) j ≡ load init_name j)
memmove_lem_example = memmove_lem init_name 1 0 4 (omega arith)

safestrcpy-Copied_example : Copied init_name (safestrcpy init_name 5 0 3) 5 0 3
safestrcpy-Copied_example =
    safestrcpy-Copied init_name 5 0 3 (omega arith) (omega arith) (inr (omega arith))

test_memcpy : memcpy init_name 4 0 3 ≡ memmove init_name 4 0 3
unfolding memcpy
test_memcpy = refl
