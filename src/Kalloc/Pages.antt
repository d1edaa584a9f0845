-- ===== src/Kalloc/Pages.antt =====
-- The free list of kernel/kalloc.c, and who has which page.
use os_design_practice.Prelude.{
  Bool-cases, List, [], ap, arith, get_elem?, inl, inr, none, occurrences, occurrences-get,
  occurrences-remove, refl, remove, some, some_inj, subst, sym, true, ℕ, ◌+◌, ◌<◌, ◌∷◌, ◌≡◌, ◌≢◌,
  ◌≤◌,
}
use os_design_practice.Kalloc.{Kmem, relink, is_page, kfree, kalloc}

-- Following the links from an address gives these pages, up to the null pointer.
abbrev pub Chain : (ℕ → ℕ) → ℕ → List ℕ → Type 0
Chain link h [] = h ≡ 0
Chain link h (p ∷ ps) = (h ≡ p) × (0 < p) × Chain link (link p) ps

Chain-relink :
    (link : ℕ → ℕ) (pa v h : ℕ) (ps : List ℕ)
    → occurrences pa ps ≡ 0
    → Chain link h ps
    → Chain (relink link pa v) h ps
Chain-relink link pa v h [] none_there c = c
Chain-relink link pa v h (p ∷ ps) none_there (e, real, c) =
    let other : relink link pa v p ≡ link p = ground arith in
    (e, real, rw other (Chain-relink link pa v (link p) ps (ground arith) c))

relink_self : (link : ℕ → ℕ) (pa v : ℕ) → relink link pa v pa ≡ v
relink_self link pa v = ground arith

kfree_inv :
    (start pa : ℕ) (k : Kmem) {k' : Kmem}
    → kfree start pa k ≡ some k'
    → (k'.freelist ≡ pa) × (k'.link ≡ relink k.link pa k.freelist)
unfolding kfree
kfree_inv start pa k e = elim (Bool-cases (is_page start pa)) [
  | inr n ↦ absurd (ground arith)
  | inl y ↦
      let p = some_inj (rw y at e) in
      (ap (λ (x : Kmem). x.freelist) (sym p), ap (λ (x : Kmem). x.link) (sym p))
]

Chain-at : {f g : ℕ → ℕ} {h i : ℕ} (ps : List ℕ) → f ≡ g → h ≡ i → Chain f h ps → Chain g i ps
Chain-at {f} {g} {h} {i} ps e n c = subst (λ x. Chain g x ps) n (subst (λ x. Chain x h ps) e c)

-- A page freed goes to the front of the list.
kfree-Chain :
    (start pa : ℕ) (k : Kmem) (ps : List ℕ) {k' : Kmem}
    → 0 < pa
    → occurrences pa ps ≡ 0
    → Chain k.link k.freelist ps
    → kfree start pa k ≡ some k'
    → Chain k'.link k'.freelist (pa ∷ ps)
kfree-Chain start pa k ps real fresh c e =
    let (front, links) = kfree_inv start pa k e in
    Chain-at (pa ∷ ps) (sym links) (sym front) (
      refl,
      real,
      rw (relink_self k.link pa k.freelist)
          (Chain-relink k.link pa k.freelist k.freelist ps fresh c),
    )

-- The allocator and the pages that are in use.
pub record System : Type 0 where
  pub kmem : Kmem
  pub used : List ℕ

-- A failed `kalloc` changes nothing. Who has a page may free it.
pub data Step (start : ℕ) (s : System) : System → Type 0 where
  alloc :
      0 < (kalloc s.kmem).0
      → Step start s (record { kmem = (kalloc s.kmem).1; used = (kalloc s.kmem).0 ∷ s.used })
  free :
      (i pa : ℕ) (k : Kmem)
      → get_elem? s.used i ≡ some pa
      → kfree start pa s.kmem ≡ some k
      → Step start s (record { kmem = k; used = remove s.used i })

pub data Reach (start : ℕ) (s : System) : System → Type 0 where
  here : Reach start s s
  next : {t u : System} → Reach start s t → Step start t u → Reach start s u

-- Every page of the list and every page in use is a page of the machine, and stands once.
pub record IsDisjoint (start : ℕ) (s : System) : Type 0 where
  pub pages : List ℕ
  pub chain : Chain s.kmem.link s.kmem.freelist pages
  pub once : (a : ℕ) → occurrences a pages + occurrences a s.used ≤ 1
  pub proper : (a : ℕ) → 0 < occurrences a pages + occurrences a s.used → is_page start a ≡ true

kfree-accepts : (start pa : ℕ) (k : Kmem) → is_page start pa ≡ true → kfree start pa k ≢ none
unfolding kfree
kfree-accepts start pa k y n = ground arith

-- `kalloc` from an empty list, and from one with a page in front.
kalloc-first :
    (k : Kmem) (p : ℕ) (ps : List ℕ)
    → Chain k.link k.freelist (p ∷ ps)
    → ((kalloc k).0 ≡ p) × ((kalloc k).1.freelist ≡ k.link p) × ((kalloc k).1.link ≡ k.link)
unfolding kalloc
kalloc-first k p ps (e, real, c) = (ground arith, ground arith, ground arith)

kalloc-none : (k : Kmem) → Chain k.link k.freelist [] → (kalloc k).0 ≡ 0
unfolding kalloc
kalloc-none k e = ground arith

Step-IsDisjoint :
    {start : ℕ} {s t : System}
    → 0 < start
    → Step start s t
    → IsDisjoint start s
    → IsDisjoint start t
Step-IsDisjoint {start} {s} low (alloc got) h = taken h.pages h.chain h.once h.proper
  where
    taken :
        (ps : List ℕ)
        → Chain s.kmem.link s.kmem.freelist ps
        → ((a : ℕ) → occurrences a ps + occurrences a s.used ≤ 1)
        → ((a : ℕ) → 0 < occurrences a ps + occurrences a s.used → is_page start a ≡ true)
        → IsDisjoint start (record { kmem = (kalloc s.kmem).1; used = (kalloc s.kmem).0 ∷ s.used })
    taken [] c one good = absurd (omega (arith, got, kalloc-none s.kmem c))
    taken (p ∷ ps) c one good =
        let (page, front, links) = kalloc-first s.kmem p ps c in
        record {
          pages = ps;
          chain = Chain-at ps (sym links) (sym front) c.2;
          once = λ a. rw page (omega (arith, one a));
          proper = λ a. rw page (λ lt. good a (omega (arith, lt)));
        }
Step-IsDisjoint {start} {s} low (free i pa k g e) h = record {
  pages = pa ∷ h.pages;
  chain =
      kfree-Chain start pa s.kmem h.pages real
        (omega (arith, h.once pa, occurrences-get s.used i g)) h.chain e;
  once = λ a. omega (arith, h.once a, occurrences-remove s.used i a g);
  proper = λ a lt. h.proper a (omega (arith, lt, occurrences-remove s.used i a g));
}
  where
    page : is_page start pa ≡ true
    page = h.proper pa (omega (arith, occurrences-get s.used i g))

    real : 0 < pa
    real = ground (arith, page, low)

-- From an allocator whose list is sound and with no page in use, whatever is allocated and freed: a
-- page in use is in use once and not in the free list, and freeing it does not panic.
pub no_page_twice :
    {start : ℕ} {s t : System} (i : ℕ) {pa : ℕ}
    → 0 < start
    → IsDisjoint start s
    → Reach start s t
    → get_elem? t.used i ≡ some pa
    → (occurrences pa t.used ≡ 1)
      × ((ps : List ℕ) × Chain t.kmem.link t.kmem.freelist ps × (occurrences pa ps ≡ 0))
      × (kfree start pa t.kmem ≢ none)
no_page_twice {start} {s} {t} i {pa} low d r g = (
  omega (arith, h.once pa, occurrences-get t.used i g),
  (h.pages, h.chain, omega (arith, h.once pa, occurrences-get t.used i g)),
  kfree-accepts start pa t.kmem (h.proper pa (omega (arith, occurrences-get t.used i g))),
)
  where
    Reach-IsDisjoint : {u : System} → Reach start s u → IsDisjoint start u
    Reach-IsDisjoint here = d
    Reach-IsDisjoint (next q st) = Step-IsDisjoint low st (Reach-IsDisjoint q)

    h : IsDisjoint start t
    h = Reach-IsDisjoint r
