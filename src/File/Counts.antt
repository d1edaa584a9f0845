-- ===== src/File/Counts.antt =====
-- The reference counts of kernel/file.c are the numbers of references.
use os_design_practice.Prelude.{
  ==_iff, Bool-cases, List, Option-cases, [], ap, arith, first_index, first_index-found, get_elem?,
  if◌then◌else◌, inl, inr, ltb, modify, none, occurrences, occurrences-get, occurrences-remove,
  refl, remove, some, some_inj, suc, sym, zero, ℕ, ◌+◌, ◌-◌, ◌<◌, ◌==◌, ◌∙◌, ◌∷◌, ◌≡◌, ◌≢◌,
}
use os_design_practice.File.{File, Layers, is_unused, filealloc, filedup, fileclose, fd_none}

-- The count of the file at an index.
abbrev pub refs : List File → ℕ → ℕ
refs [] i = 0
refs (f ∷ fs) zero = f.ref
refs (f ∷ fs) (suc i) = refs fs i

refs-get : (fs : List File) (i : ℕ) {f : File} → get_elem? fs i ≡ some f → refs fs i ≡ f.ref
refs-get [] i e = absurd (ground arith)
refs-get (f ∷ fs) zero e = ap (λ (x : File). x.ref) (some_inj e)
refs-get (f ∷ fs) (suc i) e = refs-get fs i e

get_of_refs : (fs : List File) (i : ℕ) → 0 < refs fs i → (f : File) × (get_elem? fs i ≡ some f)
get_of_refs [] i lt = absurd (omega arith)
get_of_refs (f ∷ fs) zero lt = (f, refl)
get_of_refs (f ∷ fs) (suc i) lt = get_of_refs fs i lt

refs-modify :
    (fs : List File) (i j : ℕ) (g : File → File) {f : File}
    → get_elem? fs i ≡ some f
    → refs (modify fs i g) j ≡ (if i == j then (g f).ref else refs fs j)
refs-modify [] i j g e = absurd (ground arith)
refs-modify (x ∷ fs) zero zero g e = ap (λ (y : File). (g y).ref) (some_inj e)
refs-modify (x ∷ fs) zero (suc j) g e = ground arith
refs-modify (x ∷ fs) (suc i) zero g e = ground arith
refs-modify (x ∷ fs) (suc i) (suc j) g e = ground (arith, refs-modify fs i j g e)

filealloc_inv :
    (fs : List File) (i : ℕ) {fs' : List File}
    → filealloc fs ≡ some (i, fs')
    → (f : File) × (get_elem? fs i ≡ some f)
      × (f.ref ≡ 0)
      × (fs' ≡ modify fs i (λ g. record g { ref = 1 }))
unfolding filealloc
filealloc_inv fs i e = elim (Option-cases (first_index is_unused fs)) [
  | inl n ↦ absurd (ground arith)
  | inr (j, y) ↦
      let (f, g, t) = first_index-found is_unused fs y in
      let p = some_inj (rw (y, filealloc) at e) in
      let same : j ≡ i = ap (λ (r : ℕ × List File). r.0) p in
      (f, rw (sym same) g, ground arith, rw (sym same) (sym (ap (λ (r : ℕ × List File). r.1) p)))
]

filedup_inv :
    (i : ℕ) (fs : List File) {fs' : List File}
    → filedup i fs ≡ some fs'
    → (f : File) × (get_elem? fs i ≡ some f)
      × (fs' ≡ modify fs i (λ g. record g { ref = g.ref + 1 }))
unfolding filedup
filedup_inv i fs e = elim (Option-cases (get_elem? fs i)) [
  | inl n ↦ absurd (ground arith)
  | inr (f, y) ↦ (f, y, ground arith)
]

filedup-accepts : (i : ℕ) (fs : List File) → 0 < refs fs i → filedup i fs ≢ none
unfolding filedup
filedup-accepts i fs lt n =
    let (f, y) = get_of_refs fs i lt in let r = refs-get fs i y in absurd (ground arith)

module _ (L : Layers) where
  open L use {State}

  -- One reference less; the last one also clears the type.
  abbrev without_ref : File → File
  without_ref f =
      if ltb 0 (f.ref - 1)
      then record f { ref = f.ref - 1 }
      else record f { ref = 0; kind = fd_none }

  refs-fileclose :
      (i j : ℕ) (fs : List File) (s : State) {fs' : List File} {s' : State}
      → fileclose L i fs s ≡ some (fs', s')
      → refs fs' j ≡ (if i == j then refs fs i - 1 else refs fs j)
  unfolding fileclose
  refs-fileclose i j fs s {fs'} {s'} e = elim (Option-cases (get_elem? fs i)) [
    | inl n ↦ absurd (ground arith)
    | inr (f, y) ↦
        let r = refs-get fs i y in
        let fewer = refs-modify fs i j (λ g. record g { ref = g.ref - 1 }) y in
        let last = refs-modify fs i j (λ g. record g { ref = 0; kind = fd_none }) y in ground arith
  ]

  fileclose-accepts :
      (i : ℕ) (fs : List File) (s : State) → 0 < refs fs i → fileclose L i fs s ≢ none
  unfolding fileclose
  fileclose-accepts i fs s lt n =
      let (f, y) = get_of_refs fs i lt in let r = refs-get fs i y in absurd (ground arith)

  -- The table, and every reference that somebody has: descriptors, and pointers in the kernel.
  pub record System : Type 0 where
    pub files : List File
    pub handles : List ℕ
    pub below : State

  -- In any order: a new file, another reference, a reference less, and any change that leaves the
  -- counts alone, of the files or of what is below.
  pub data Step (s : System) : System → Type 0 where
    alloc :
        (i : ℕ) (fs : List File)
        → filealloc s.files ≡ some (i, fs)
        → Step s (record s { files = fs; handles = i ∷ s.handles })
    dup :
        (k i : ℕ) (fs : List File)
        → get_elem? s.handles k ≡ some i
        → filedup i s.files ≡ some fs
        → Step s (record s { files = fs; handles = i ∷ s.handles })
    close :
        (k i : ℕ) (fs : List File) (b : State)
        → get_elem? s.handles k ≡ some i
        → fileclose L i s.files s.below ≡ some (fs, b)
        → Step s (record { files = fs; handles = remove s.handles k; below = b })
    change :
        (fs : List File) (b : State)
        → ((i : ℕ) → refs fs i ≡ refs s.files i)
        → Step s (record s { files = fs; below = b })

  pub data Reach (s : System) : System → Type 0 where
    here : Reach s s
    next : {t u : System} → Reach s t → Step t u → Reach s u

  abbrev IsCounted : System → Type 0
  IsCounted s = (i : ℕ) → refs s.files i ≡ occurrences i s.handles

  Step-IsCounted : {s t : System} → Step s t → IsCounted s → IsCounted t
  Step-IsCounted {s} (alloc i fs e) h j =
      let (f, g, free, now) = filealloc_inv s.files i e in
      let r = refs-get s.files i g in
      let m = refs-modify s.files i j (λ f. record f { ref = 1 }) g in
      rw now (elim (Bool-cases (i == j)) [
        | inl y ↦
            let same : i ≡ j = (==_iff i j).0 y in
            let hj : refs s.files i ≡ occurrences j s.handles = rw same (h j) in ground arith
        | inr n ↦ (let hj = h j in ground arith)
      ])
  Step-IsCounted {s} (dup k i fs o e) h j =
      let (f, g, now) = filedup_inv i s.files e in
      let r = refs-get s.files i g in
      let m = refs-modify s.files i j (λ f. record f { ref = f.ref + 1 }) g in
      rw now (elim (Bool-cases (i == j)) [
        | inl y ↦
            let same : i ≡ j = (==_iff i j).0 y in
            let hj : refs s.files i ≡ occurrences j s.handles = rw same (h j) in ground arith
        | inr n ↦ (let hj = h j in ground arith)
      ])
  Step-IsCounted {s} (close k i fs b o e) h j =
      let m = refs-fileclose i j s.files s.below e in
      let c = occurrences-remove s.handles k j o in
      elim (Bool-cases (i == j)) [
        | inl y ↦
            let same : i ≡ j = (==_iff i j).0 y in
            let hj : refs s.files i ≡ occurrences j s.handles = rw same (h j) in ground arith
        | inr n ↦ (let hj = h j in ground arith)
      ]
  Step-IsCounted {s} (change fs b e) h j = e j ∙ h j

  -- From a table without references, whatever is opened, duplicated and closed: the count of every
  -- file is the number of references to it, so a file to which there is a reference can be
  -- duplicated and closed without a panic, and `filealloc` does not hand it out again.
  pub references_counted :
      {s t : System} (k : ℕ) {i : ℕ}
      → ((j : ℕ) → refs s.files j ≡ 0)
      → s.handles ≡ []
      → Reach s t
      → get_elem? t.handles k ≡ some i
      → (refs t.files i ≡ occurrences i t.handles)
        × (filedup i t.files ≢ none)
        × (fileclose L i t.files t.below ≢ none)
        × ((j : ℕ) (fs : List File) → filealloc t.files ≡ some (j, fs) → j ≢ i)
  references_counted {s} {t} k {i} empty none_held r o = (
    count i,
    filedup-accepts i t.files used,
    fileclose-accepts i t.files t.below used,
    λ j fs e same.
        (let (f, g, free, now) = filealloc_inv t.files j e in
          let z : refs t.files i ≡ 0 = rw (sym same) (refs-get t.files j g ∙ free) in
          absurd (omega (arith, z, used))),
  )
    where
      Reach-IsCounted : {u : System} → Reach s u → IsCounted u
      Reach-IsCounted here j = empty j ∙ sym (ap (occurrences j) none_held)
      Reach-IsCounted (next q st) j = Step-IsCounted st (Reach-IsCounted q) j

      count : IsCounted t
      count = Reach-IsCounted r

      used : 0 < refs t.files i
      used = omega (arith, count i, occurrences-get t.handles k o)
