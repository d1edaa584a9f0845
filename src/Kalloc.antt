-- ===== src/Kalloc.antt =====
-- kernel/kalloc.c: the allocator of pages.
--
-- `end`, the first address after the kernel, comes from the linker. The link of a free page, which the
-- source keeps in its first bytes, is kept apart from the bytes. Each operation is what happens under
-- `kmem.lock`, with the fill of the page.
pub mod Pages
mod Tests
use os_design_practice.Prelude.{
  Bool, Option, if◌then◌else◌, leb, ltb, none, not, some, ℕ, ◌%◌, ◌==◌, ◌||◌,
}
use os_design_practice.KString.{Memory, memset}

abbrev pub pgsize : ℕ
pgsize = 4096

abbrev pub phystop : ℕ
phystop = 2281701376

pub record Kmem : Type 0 where
  pub freelist : ℕ  -- 0 is the null pointer
  pub link : ℕ → ℕ  -- `next` of the `struct run` at an address
  pub mem : Memory

abbrev pub relink : (ℕ → ℕ) → ℕ → ℕ → ℕ → ℕ
relink f i v j = if i == j then v else f j

module _ (end_of_kernel : ℕ) where
  abbrev pub is_page : ℕ → Bool
  is_page pa = not (not (pa % pgsize == 0) || ltb pa end_of_kernel || leb phystop pa)

  -- `none` is a panic.
  pub kfree : ℕ → Kmem → Option Kmem
  kfree pa k =
      if is_page pa
      then some (record {
        freelist = pa;
        link = relink k.link pa k.freelist;
        mem = memset k.mem pa 1 pgsize;
      })
      else none

pub kalloc : Kmem → ℕ × Kmem
kalloc k =
    let r = k.freelist in
    if r == 0 then (r, k) else (r, record k { freelist = k.link r; mem = memset k.mem r 5 pgsize })
