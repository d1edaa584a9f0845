-- ===== src/Proc/Life/Child.antt =====
-- What `kfork` of kernel/proc.c gives the child besides its entry: memory, trapframe, files, directory.
use os_design_practice.Prelude.{
  ==_iff, Bool, Bool-cases, List, Option-cases, [], ap, ap₂, arith, false, get_elem?,
  get_elem?-set_self, if◌then◌else◌, inl, inr, length, lt_of_get_elem?, minus_one, ne_of_test, refl,
  set, some, sym, true, ℕ, ℤ, ◌%◌, ◌+◌, ◌<◌, ◌==◌, ◌^◌, ◌∙◌, ◌∷◌, ◌≡◌, ◌≢◌, ◌⊎◌,
}
use os_design_practice.Proc.Types.{Proc, is_unused}
use os_design_practice.Proc.Services.{Services}
use os_design_practice.Proc.Control.{find_index}
use os_design_practice.Proc.Control.Find.{IsFirstMatch, found-IsFirstMatch, missing-NoMatch}
use os_design_practice.Proc.Life.{
  Kernel, ready_context, claim, alloc_at, alloc_found, child_of, copy_name, dup_files, fork_into,
  fork_found, free_pages, give_pagetable, give_trapframe,
}

module _ (v : Services) where
  open v use {State}

  -- The trapframe page, the page table, and what is below when both are there.
  abbrev new_trapframe : State → ℕ
  new_trapframe m = (v.kalloc m).0

  abbrev new_pagetable : State → ℕ
  new_pagetable m = (v.proc_pagetable (new_trapframe m) (v.kalloc m).1).0

  abbrev with_pages : State → State
  with_pages m = (v.proc_pagetable (new_trapframe m) (v.kalloc m).1).1

  -- The copy of the memory of the caller `p`.
  abbrev copied : Proc → State → Bool × State
  copied p m = v.uvmcopy p.pagetable (new_pagetable m) p.sz (with_pages m)

  -- Each of the caller's files gets another reference, over the files of the new entry.
  pub dup_each : List ℕ → List ℕ → State → State
  dup_each [] ours m = m
  dup_each (f ∷ fs) [] m = m
  dup_each (f ∷ fs) (o ∷ os) m = dup_each fs os (if f == 0 then m else v.filedup f m)

  -- The files of the child: the caller's, and what stood in the new entry where the caller has none.
  pub inherited : List ℕ → List ℕ → List ℕ
  inherited [] ours = ours
  inherited (f ∷ fs) [] = []
  inherited (f ∷ fs) (o ∷ os) = (if f == 0 then o else f) ∷ inherited fs os

  dup_files_lem :
      (fs ours : List ℕ) (m : State)
      → ((dup_files v fs ours m).0 ≡ inherited fs ours)
        × ((dup_files v fs ours m).1 ≡ dup_each fs ours m)
  unfolding dup_files dup_each inherited
  dup_files_lem [] ours m = (refl, refl)
  dup_files_lem (f ∷ fs) [] m = (refl, refl)
  dup_files_lem (f ∷ fs) (o ∷ os) m =
      let r = dup_files_lem fs os (if f == 0 then m else v.filedup f m) in
      (ap (λ l. (if f == 0 then o else f) ∷ l) r.0, r.1)

  -- Why there is no child, and what is below then: the pages that were got have gone back.
  pub data NoFork (p : Proc) (k k' : Kernel State) : Type 0 where
    no_entry :
        ((i : ℕ) (q : Proc) → get_elem? k.procs i ≡ some q → is_unused q.state ≡ false)
        → k'.below ≡ k.below
        → NoFork p k k'
    no_trapframe :
        (i : ℕ) (old : Proc)
        → get_elem? k.procs i ≡ some old
        → new_trapframe k.below ≡ 0
        → (old.pagetable ≡ 0 → k'.below ≡ (v.kalloc k.below).1)
        → NoFork p k k'
    no_pagetable :
        new_trapframe k.below ≢ 0
        → new_pagetable k.below ≡ 0
        → k'.below ≡ v.kfree (new_trapframe k.below) (with_pages k.below)
        → NoFork p k k'
    no_memory :
        (i : ℕ) (old : Proc)
        → get_elem? k.procs i ≡ some old
        → new_trapframe k.below ≢ 0
        → new_pagetable k.below ≢ 0
        → (copied p k.below).0 ≡ false
        → k'.below
          ≡ v.proc_freepagetable
              (new_pagetable k.below)
              old.sz
              (v.kfree (new_trapframe k.below) (copied p k.below).1)
        → NoFork p k k'

  test_of_ne : (a : ℕ) → a ≢ 0 → (a == 0) ≡ false
  test_of_ne a h = ground arith

  free_pages-both :
      (np : Proc) (m : State)
      → np.trapframe ≢ 0
      → np.pagetable ≢ 0
      → free_pages v np m ≡ v.proc_freepagetable np.pagetable np.sz (v.kfree np.trapframe m)
  unfolding free_pages
  free_pages-both np m a b = rw (test_of_ne np.trapframe a, test_of_ne np.pagetable b) refl

  free_pages-trapframe :
      (np : Proc) (m : State)
      → np.trapframe ≢ 0
      → np.pagetable ≡ 0
      → free_pages v np m ≡ v.kfree np.trapframe m
  unfolding free_pages
  free_pages-trapframe np m a b = rw (test_of_ne np.trapframe a, (==_iff np.pagetable 0).1 b) refl

  free_pages-neither :
      (np : Proc) (m : State) → np.trapframe ≡ 0 → np.pagetable ≡ 0 → free_pages v np m ≡ m
  unfolding free_pages
  free_pages-neither np m a b = rw ((==_iff np.trapframe 0).1 a, (==_iff np.pagetable 0).1 b) refl

  -- The child, made of the entry `old`: its memory is a copy of the caller's, its trapframe too, and it
  -- shares the caller's files and directory, each with a reference more.
  pub record Made (p : Proc) (k k' : Kernel State) : Type 0 where
    pub index : ℕ
    pub old : Proc
    pub child : Proc
    pub was : get_elem? k.procs index ≡ some old
    pub here : get_elem? k'.procs index ≡ some child
    pub trapframe : child.trapframe ≡ new_trapframe k.below
    pub pagetable : child.pagetable ≡ new_pagetable k.below
    pub memory : (copied p k.below).0 ≡ true
    pub files : child.ofile ≡ inherited p.ofile old.ofile
    pub name : child.name ≡ copy_name v old.name p.name
    pub below :
        k'.below
        ≡ v.idup p.cwd (
            dup_each p.ofile old.ofile
              (v.copy_trapframe p.trapframe (new_trapframe k.below) (copied p k.below).1))

  abbrev pub Memory : Proc → Kernel State → ℤ × Kernel State → Type 0
  Memory p k (z, k') = (z ≡ minus_one) × NoFork p k k' ⊎ Made p k k'

  into-Memory :
      (c i : ℕ) (p old : Proc) (k k1 : Kernel State) (np : Proc)
      → get_elem? k.procs i ≡ some old
      → new_trapframe k.below ≢ 0
      → new_pagetable k.below ≢ 0
      → np.trapframe ≡ new_trapframe k.below
      → np.pagetable ≡ new_pagetable k.below
      → np.ofile ≡ old.ofile
      → np.name ≡ old.name
      → np.sz ≡ old.sz
      → k1.below ≡ with_pages k.below
      → i < length k1.procs
      → Memory p k (fork_into v c p i np k1)
  unfolding fork_into child_of
  into-Memory c i p old k k1 np was htf hpt etf ept eo en es eb lt =
      let same : v.uvmcopy p.pagetable np.pagetable p.sz k1.below ≡ copied p k.below =
        rw (ept, eb) refl in
      elim (Bool-cases (copied p k.below).0) [
        | inr n ↦
            (let t : (v.uvmcopy p.pagetable np.pagetable p.sz k1.below).0 ≡ false =
                ap (λ (r : Bool × State). r.0) same ∙ n in
              rw t (
                inl (
                  refl,
                  no_memory i old was htf hpt n (
                      free_pages-both np (v.uvmcopy p.pagetable np.pagetable p.sz k1.below).1
                        (λ z. htf (sym etf ∙ z)) (λ z. hpt (sym ept ∙ z))
                      ∙ ap (v.proc_freepagetable np.pagetable np.sz)
                          (ap (λ (r : Bool × State). v.kfree np.trapframe r.1) same)
                      ∙ ap
                          (λ x.
                            v.proc_freepagetable np.pagetable np.sz
                              (v.kfree x (copied p k.below).1))
                          etf
                      ∙ ap₂
                          (λ x y.
                            v.proc_freepagetable x y
                              (v.kfree (new_trapframe k.below) (copied p k.below).1))
                          ept es),
                )))
        | inl y ↦
            let t : (v.uvmcopy p.pagetable np.pagetable p.sz k1.below).0 ≡ true =
              ap (λ (r : Bool × State). r.0) same ∙ y in
            let m' =
              v.copy_trapframe p.trapframe np.trapframe
                (v.uvmcopy p.pagetable np.pagetable p.sz k1.below).1 in
            let (df, dm) = dup_files_lem p.ofile np.ofile m' in
            rw t (
              inr (record {
                index = i;
                old = old;
                child = _;
                was = was;
                here = get_elem?-set_self k1.procs i _ lt;
                trapframe = etf;
                pagetable = ept;
                memory = y;
                files = df ∙ ap (inherited p.ofile) eo;
                name = ap (λ l. copy_name v l p.name) en;
                below = ap (v.idup p.cwd) (
                    dm
                    ∙ ap₂ (λ l x. dup_each p.ofile l x) eo
                        (ap₂ (λ a (r : Bool × State). v.copy_trapframe p.trapframe a r.1) etf
                          same));
              }))
      ]

  -- The new entry and the kernel when `allocproc` has succeeded.
  abbrev filled : Proc → Kernel State → Proc
  filled old k = ready_context v (record (claim v k.nextpid old) {
    trapframe = new_trapframe k.below;
    pagetable = new_pagetable k.below;
  })

  abbrev claimed : ℕ → Proc → Kernel State → Kernel State
  claimed i old k = record k {
    procs = set k.procs i (filled old k);
    nextpid = (k.nextpid + 1) % 2 ^ 32;
    below = with_pages k.below;
  }

  entry-Memory :
      (c i : ℕ) (p old : Proc) (k k1 : Kernel State) (np : Proc)
      → get_elem? k.procs i ≡ some old
      → new_trapframe k.below ≢ 0
      → new_pagetable k.below ≢ 0
      → np.trapframe ≡ new_trapframe k.below
      → np.pagetable ≡ new_pagetable k.below
      → np.ofile ≡ old.ofile
      → np.name ≡ old.name
      → np.sz ≡ old.sz
      → k1.below ≡ with_pages k.below
      → k1.procs ≡ set k.procs i np
      → Memory p k (fork_found v c p k1 (some i))
  unfolding fork_found
  entry-Memory c i p old k k1 np was htf hpt etf ept eo en es eb et =
      let here : get_elem? k1.procs i ≡ some np =
        ap (λ u. get_elem? u i) et
        ∙ get_elem?-set_self k.procs i np (lt_of_get_elem? k.procs i was) in
      rw (here, fork_found)
        (into-Memory c i p old k k1 np was htf hpt etf ept eo en es eb
          (lt_of_get_elem? k1.procs i here))

  alloc-Memory :
      (c i : ℕ) (p old : Proc) (k : Kernel State)
      → get_elem? k.procs i ≡ some old
      → Memory p k (let (o, k') = alloc_at v i k (some old) in fork_found v c p k' o)
  unfolding alloc_at give_trapframe give_pagetable fork_found
  alloc-Memory c i p old k was = elim (Bool-cases (new_trapframe k.below == 0)) [
    | inl z ↦
        let tf : new_trapframe k.below ≡ 0 = (==_iff (new_trapframe k.below) 0).0 z in
        rw z (
          inl (
            refl,
            no_trapframe i old was tf (λ e.
                free_pages-neither
                  (record (claim v k.nextpid old) { trapframe = new_trapframe k.below })
                  (v.kalloc k.below).1 tf e),
          ))
    | inr z ↦ elim (Bool-cases (new_pagetable k.below == 0)) [
      | inl y ↦
          rw (z, y)
            (inl (
              refl,
              no_pagetable (ne_of_test (new_trapframe k.below) 0 z)
                  ((==_iff (new_pagetable k.below) 0).0 y)
                  (free_pages-trapframe
                    (record (claim v k.nextpid old) {
                      trapframe = new_trapframe k.below;
                      pagetable = new_pagetable k.below;
                    })
                    (with_pages k.below) (ne_of_test (new_trapframe k.below) 0 z)
                    ((==_iff (new_pagetable k.below) 0).0 y)),
            ))
      | inr y ↦
          rw (z, y)
            (entry-Memory c i p old k (claimed i old k) (filled old k) was
              (ne_of_test (new_trapframe k.below) 0 z) (ne_of_test (new_pagetable k.below) 0 y) refl
              refl refl refl refl refl refl)
    ]
  ]

  pub found-Memory :
      (c : ℕ) (p : Proc) (k : Kernel State)
      → Memory p k (
          let (o, k') = alloc_found v k (find_index (λ q. is_unused q.state) k.procs) in
          fork_found v c p k' o)
  unfolding alloc_found fork_found
  found-Memory c p k = elim (Option-cases (find_index (λ q. is_unused q.state) k.procs)) [
    | inl n ↦ rw n (inl (refl, no_entry (missing-NoMatch (λ q. is_unused q.state) k.procs n) refl))
    | inr (i, e) ↦
        let m : IsFirstMatch (λ q. is_unused q.state) k.procs i =
          found-IsFirstMatch (λ q. is_unused q.state) k.procs e in
        rw (e, m.here) (alloc-Memory c i p m.proc k m.here)
  ]
