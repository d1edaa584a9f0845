-- ===== src/KString.antt =====
-- kernel/string.c: the byte and string functions of the kernel. Memory is a list of bytes, a pointer
-- an index into it, and both operands lie in one memory, so that they may overlap.
pub mod Move
pub mod Strings
mod Tests
use os_design_practice.Prelude.{
  List, Option, get_or, if◌then◌else◌, length, ltb, negsuc, none, not, pos, set, some, suc, zero, ℕ,
  ℤ, ◌%◌, ◌&&◌, ◌+◌, ◌-◌, ◌==◌,
}

abbrev pub Memory : Type 0
Memory = List ℕ

abbrev pub load : Memory → ℕ → ℕ
load mem a = get_or mem a 0

-- `cdst[i] = c` stores the low byte of `c`. `k` bytes are left.
memset_from : Memory → ℕ → ℕ → ℕ → Memory
memset_from mem d c zero = mem
memset_from mem d c (suc k) = memset_from (set mem d (c % 256)) (d + 1) c k

pub memset : Memory → ℕ → ℕ → ℕ → Memory
unfolding memset_from
memset mem dst c n = memset_from mem dst c n

-- The difference of two bytes, an `int`.
abbrev pub byte_diff : ℕ → ℕ → ℤ
byte_diff a b = if ltb a b then negsuc (b - a - 1) else pos (a - b)

pub memcmp : Memory → ℕ → ℕ → ℕ → ℤ
memcmp mem v1 v2 zero = pos 0
memcmp mem v1 v2 (suc n) =
    let rest = memcmp mem (v1 + 1) (v2 + 1) n in
    if load mem v1 == load mem v2 then rest else byte_diff (load mem v1) (load mem v2)

-- `while (n-- > 0) *d++ = *s++`
pub copy_up : Memory → ℕ → ℕ → ℕ → Memory
copy_up mem d s zero = mem
copy_up mem d s (suc n) = copy_up (set mem d (load mem s)) (d + 1) (s + 1) n

-- `while (n-- > 0) *--d = *--s`, from the ends of the two areas that begin at `d` and `s`
pub copy_down : Memory → ℕ → ℕ → ℕ → Memory
copy_down mem d s zero = mem
copy_down mem d s (suc n) = copy_down (set mem (d + n) (load mem (s + n))) d s n

pub memmove : Memory → ℕ → ℕ → ℕ → Memory
memmove mem dst src n =
    if n == 0
    then mem
    else if ltb src dst && ltb dst (src + n)
    then copy_down mem dst src n
    else copy_up mem dst src n

pub memcpy : Memory → ℕ → ℕ → ℕ → Memory
unfolding memmove
memcpy mem dst src n = memmove mem dst src n

pub strncmp : Memory → ℕ → ℕ → ℕ → ℤ
strncmp mem p q zero = pos 0
strncmp mem p q (suc n) =
    let rest = strncmp mem (p + 1) (q + 1) n in
    if not (load mem p == 0) && (load mem p == load mem q)
    then rest
    else byte_diff (load mem p) (load mem q)

-- The first loop of `strncpy`, then the second: `*s++ = 0` for what is left of `n`.
fill_zeros : Memory → ℕ → ℕ → Memory
fill_zeros mem s zero = mem
fill_zeros mem s (suc n) = fill_zeros (set mem s 0) (s + 1) n

pub strncpy : Memory → ℕ → ℕ → ℕ → Memory
strncpy mem s t zero = mem
strncpy mem s t (suc n) =
    let mem' = set mem s (load mem t) in
    let rest = strncpy mem' (s + 1) (t + 1) n in
    if load mem t == 0 then fill_zeros mem' (s + 1) n else rest

-- The loop of `safestrcpy` with `k` bytes left before the last, which is for the nul; the store after
-- the loop is the nul at `s`, which is a second one where the loop has copied one.
pub safestrcpy_from : Memory → ℕ → ℕ → ℕ → Memory
safestrcpy_from mem s t zero = set mem s 0
safestrcpy_from mem s t (suc k) =
    let mem' = set mem s (load mem t) in
    let rest = safestrcpy_from mem' (s + 1) (t + 1) k in
    if load mem t == 0 then set mem' (s + 1) 0 else rest

pub safestrcpy : Memory → ℕ → ℕ → ℕ → Memory
unfolding safestrcpy_from
safestrcpy mem s t n = if n == 0 then mem else safestrcpy_from mem s t (n - 1)

-- `none` if no nul follows within `fuel` bytes.
pub strlen_from : ℕ → Memory → ℕ → ℕ → Option ℕ
strlen_from zero mem s n = none
strlen_from (suc fuel) mem s n =
    let rest = strlen_from fuel mem s (n + 1) in if load mem (s + n) == 0 then some n else rest

pub strlen : Memory → ℕ → Option ℕ
unfolding strlen_from
strlen mem s = strlen_from (length mem) mem s 0
