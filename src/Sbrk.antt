-- ===== src/Sbrk.antt =====
-- `growproc` of kernel/proc.c, and `sys_sbrk` and `sys_pause` of kernel/sysproc.c.
--
-- The arguments are as `argint` has fetched them. A uint64 is taken modulo 2 ^ 64.
pub mod Limits
mod Tests
use os_design_practice.Prelude.{
  Bool, List, Option, [], false, if◌then◌else◌, is_negative, leb, ltb, minus_one, negsuc, none, pos,
  some, suc, zero, ℕ, ℤ, ◌%◌, ◌+◌, ◌-◌, ◌==◌, ◌^◌, ◌||◌, ◌∷◌,
}

-- `((1 << 38) - PGSIZE) - PGSIZE`
abbrev pub trapframe_page : ℕ
trapframe_page = 2 ^ 38 - 4096 - 4096

-- uint64 plus int
abbrev pub add_int : ℕ → ℤ → ℕ
add_int a (pos n) = (a + n) % 2 ^ 64
add_int a (negsuc n) = (a + (2 ^ 64 - (n + 1))) % 2 ^ 64

-- `t == SBRK_EAGER`
abbrev pub is_eager : ℤ → Bool
is_eager (pos t) = t == 1
is_eager (negsuc t) = false

-- The page table's operations in kernel/vm.c: from an old size to a new one; `uvmalloc` gives 0 if
-- there is no memory.
pub record Paging : Type 1 where
  pub State : Type 0
  pub uvmalloc : ℕ → ℕ → State → ℕ × State
  pub uvmdealloc : ℕ → ℕ → State → ℕ × State

module _ (v : Paging) where
  open v use {State, uvmalloc, uvmdealloc}

  -- The result, the size of the process, and the page table.
  pub growproc : ℤ → ℕ → State → ℤ × ℕ × State
  growproc (pos zero) sz m = (pos 0, sz, m)
  growproc (pos (suc n)) sz m =
      let new = (sz + suc n) % 2 ^ 64 in
      let (got, m') = uvmalloc sz new m in
      if ltb trapframe_page new
      then (minus_one, sz, m)
      else if got == 0
      then (minus_one, sz, m')
      else (pos 0, got, m')
  growproc (negsuc n) sz m =
      let (got, m') = uvmdealloc sz (add_int sz (negsuc n)) m in (pos 0, got, m')

  abbrev pub sbrk_lazy : ℕ → ℕ → State → ℤ × ℕ × State
  sbrk_lazy n sz m =
      let new = (sz + n) % 2 ^ 64 in
      if ltb new sz || ltb trapframe_page new then (minus_one, sz, m) else (pos sz, new, m)

  abbrev pub sbrk_grown : ℕ → ℤ × ℕ × State → ℤ × ℕ × State
  sbrk_grown addr (r, sz, m) = (if is_negative r then minus_one else pos addr, sz, m)

  -- `n`, then the type; -1 is the failure of the source, as a uint64.
  pub sys_sbrk : ℤ → ℤ → ℕ → State → ℤ × ℕ × State
  sys_sbrk (negsuc n) t sz m = sbrk_grown sz (growproc (negsuc n) sz m)
  sys_sbrk (pos n) t sz m =
      if is_eager t then sbrk_grown sz (growproc (pos n) sz m) else sbrk_lazy n sz m

-- `sys_pause` after it has read `ticks0`: the ticks each time that it looks, and whether the process
-- has been killed by then. `none` means that it has not been woken again.
pub pause_from : ℕ → ℕ → List (ℕ × Bool) → Option ℤ
pause_from n ticks0 [] = none
pause_from n ticks0 ((ticks, killed) ∷ later) =
    let rest = pause_from n ticks0 later in
    if leb n ((ticks + (2 ^ 32 - ticks0)) % 2 ^ 32)
    then some (pos 0)
    else if killed
    then some minus_one
    else rest

pub sys_pause : ℤ → ℕ → List (ℕ × Bool) → Option ℤ
unfolding pause_from
sys_pause (pos n) ticks0 looks = pause_from n ticks0 looks
sys_pause (negsuc n) ticks0 looks = pause_from 0 ticks0 looks
