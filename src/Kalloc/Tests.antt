-- ===== src/Kalloc/Tests.antt =====
-- Concrete runs of kernel/kalloc.c.
use os_design_practice.Prelude.{
  ==_iff, Bool-cases, List, [], arith, false, if◌then◌else◌, inl, inr, none, occurrences, refl, sym,
  true, ℕ, ◌+◌, ◌<◌, ◌==◌, ◌∷◌, ◌≡◌, ◌≢◌, ◌⊎◌,
}
use os_design_practice.Kalloc.{is_page, kfree, kalloc}
use os_design_practice.Kalloc.Pages.{
  System, alloc, Reach, here, next, IsDisjoint, Chain, no_page_twice,
}

-- Two free pages.
abbrev two_pages : System
two_pages = record {
  kmem = record { freelist = 8192; link = λ a. if a == 8192 then 12288 else 0; mem = [] };
  used = [];
}

two_pages-IsDisjoint : IsDisjoint 4096 two_pages
two_pages-IsDisjoint = record {
  pages = 8192 ∷ 12288 ∷ [];
  chain = (refl, omega arith, (refl, omega arith, refl));
  once = λ a. ground arith;
  proper = λ a lt. proper a (Bool-cases (8192 == a)) (Bool-cases (12288 == a)) lt;
}
  where
    proper :
        (a : ℕ)
        → (8192 == a ≡ true) ⊎ (8192 == a ≡ false)
        → (12288 == a ≡ true) ⊎ (12288 == a ≡ false)
        → 0 < occurrences a (8192 ∷ 12288 ∷ []) + 0
        → is_page 4096 a ≡ true
    proper a (inl y) z lt = rw (sym ((==_iff 8192 a).0 y)) refl
    proper a (inr n) (inl y) lt = rw (sym ((==_iff 12288 a).0 y)) refl
    proper a (inr n) (inr m) lt = absurd (ground arith)

abbrev one_used : System
one_used = record { kmem = (kalloc two_pages.kmem).1; used = 8192 ∷ [] }

one_used-Reach : Reach 4096 two_pages one_used
unfolding kalloc
one_used-Reach = next here (alloc (omega arith))

no_page_twice_example :
    (occurrences 8192 (8192 ∷ []) ≡ 1)
    × ((ps : List ℕ) × Chain one_used.kmem.link one_used.kmem.freelist ps
        × (occurrences 8192 ps ≡ 0))
    × (kfree 4096 8192 one_used.kmem ≢ none)
no_page_twice_example = no_page_twice 0 (omega arith) two_pages-IsDisjoint one_used-Reach refl

-- A page below the kernel's end, and an address that is no page, are refused.
test_panics : (kfree 4096 0 two_pages.kmem ≡ none) × (kfree 4096 8193 two_pages.kmem ≡ none)
unfolding kfree
test_panics = (refl, refl)
