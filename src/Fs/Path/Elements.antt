-- ===== src/Fs/Path/Elements.antt =====
-- The elements that `skipelem` of kernel/fs.c takes from a path are its parts between slashes.
mod Tests
use os_design_practice.Prelude.{
  Bool-cases, List, Option, [], ap, ap₂, arith, false, get_elem?, if◌then◌else◌, inl, inr, leb,
  length, length-take, lt_of_get_elem?, map, none, refl, some, some_inj, suc, sym, take, true,
  update, zero, ℕ, ◌+◌, ◌<◌, ◌==◌, ◌∙◌, ◌∷◌, ◌≡◌, ◌≤◌,
}
use os_design_practice.Fs.Path.{
  dirsiz, slash, drop_slashes, cons_first, element, write_bytes, set_name, after_element, skipelem,
}

-- The bytes of a name: up to a NUL, `k` at most.
pub text : (ℕ → ℕ) → ℕ → ℕ → List ℕ
text f i zero = []
text f i (suc k) = let rest = text f (i + 1) k in if f i == 0 then [] else f i ∷ rest

-- The names that `skipelem` gives when it is called until it returns the null pointer.
pub elements : ℕ → List ℕ → (ℕ → ℕ) → List (List ℕ)
elements zero path name = []
elements (suc fuel) path name = elim (skipelem path name) [
  | none ↦ []
  | some (rest, name') ↦ text name' 0 dirsiz ∷ elements fuel rest name'
]

abbrev onto : ℕ → List (List ℕ) → List (List ℕ)
onto c [] = []
onto c (p ∷ ps) = (c ∷ p) ∷ ps

-- The pieces between the slashes, empty ones included.
pub pieces : List ℕ → List (List ℕ)
pieces [] = [] ∷ []
pieces (c ∷ cs) = let ps = pieces cs in if c == slash then [] ∷ ps else onto c ps

pub not_empty : List (List ℕ) → List (List ℕ)
not_empty [] = []
not_empty ([] ∷ ps) = not_empty ps
not_empty ((c ∷ p) ∷ ps) = (c ∷ p) ∷ not_empty ps

-- No byte is NUL.
pub data IsText : List ℕ → Type 0 where
  empty : IsText []
  more : {c : ℕ} {cs : List ℕ} → 0 < c → IsText cs → IsText (c ∷ cs)

-- The list is empty, or begins with a slash: or, for `Dropped`, does not.
data Rest : List ℕ → Type 0 where
  at_end : Rest []
  at_slash : (c : ℕ) (cs : List ℕ) → (c == slash) ≡ true → Rest (c ∷ cs)

data Dropped : List ℕ → Type 0 where
  all_dropped : Dropped []
  dropped : (c : ℕ) (cs : List ℕ) → (c == slash) ≡ false → Dropped (c ∷ cs)

-- The pieces behind the first.
abbrev others : List ℕ → List (List ℕ)
others [] = []
others (c ∷ cs) = pieces cs

drop_slashes-Dropped : (p : List ℕ) → Dropped (drop_slashes p)
unfolding drop_slashes
drop_slashes-Dropped [] = all_dropped
drop_slashes-Dropped (c ∷ cs) = elim (Bool-cases (c == slash)) [
  | inl y ↦ rw y (drop_slashes-Dropped cs)
  | inr n ↦ rw n (dropped c cs n)
]

not_empty-drop_slashes : (p : List ℕ) → not_empty (pieces (drop_slashes p)) ≡ not_empty (pieces p)
unfolding drop_slashes pieces not_empty
not_empty-drop_slashes [] = refl
not_empty-drop_slashes (c ∷ cs) = elim (Bool-cases (c == slash)) [
  | inl y ↦ rw y (not_empty-drop_slashes cs)
  | inr n ↦ rw n rw n refl
]

drop_slashes_shorter : (p : List ℕ) → length (drop_slashes p) ≤ length p
unfolding drop_slashes
drop_slashes_shorter [] = omega arith
drop_slashes_shorter (c ∷ cs) = elim (Bool-cases (c == slash)) [
  | inl y ↦ rw y (omega (arith, drop_slashes_shorter cs))
  | inr n ↦ rw n (omega arith)
]

drop_slashes-IsText : {p : List ℕ} → IsText p → IsText (drop_slashes p)
unfolding drop_slashes
drop_slashes-IsText empty = empty
drop_slashes-IsText (more {c} {cs} lt h) = elim (Bool-cases (c == slash)) [
  | inl y ↦ rw y (drop_slashes-IsText h)
  | inr n ↦ rw n (more lt h)
]

-- What `element` comes to.
record Split (p s rest : List ℕ) : Type 0 where
  whole : pieces p ≡ s ∷ others rest
  shape : Rest rest
  size : length s + length rest ≡ length p
  text_s : IsText p → IsText s
  text_rest : IsText p → IsText rest

tail-IsText : {c : ℕ} {cs : List ℕ} → IsText (c ∷ cs) → IsText cs
tail-IsText (more lt h) = h

head-pos : {c : ℕ} {cs : List ℕ} → IsText (c ∷ cs) → 0 < c
head-pos (more lt h) = lt

element-Split : (p : List ℕ) → Split p (element p).0 (element p).1
unfolding element pieces
element-Split [] = record {
  whole = refl;
  shape = at_end;
  size = refl;
  text_s = λ h. h;
  text_rest = λ h. h;
}
element-Split (c ∷ cs) = elim (Bool-cases (c == slash)) [
  | inl y ↦ rw y (record {
    whole = rw y refl;
    shape = at_slash c cs y;
    size = omega arith;
    text_s = λ h. empty;
    text_rest = λ h. h;
  })
  | inr n ↦
      let r = element-Split cs in
      rw n (record {
        whole = rw n (ap (onto c) r.whole);
        shape = r.shape;
        size = omega (arith, r.size);
        text_s = λ h. more (head-pos h) (r.text_s (tail-IsText h));
        text_rest = λ h. r.text_rest (tail-IsText h);
      })
]

Rest-pieces : {r : List ℕ} → Rest r → not_empty (pieces (drop_slashes r)) ≡ not_empty (others r)
unfolding pieces not_empty drop_slashes
Rest-pieces at_end = refl
Rest-pieces (at_slash c cs y) = rw y (not_empty-drop_slashes cs)

-- The element of a path that does not begin with a slash is not empty.
element_grows :
    (c : ℕ) (cs : List ℕ) → (c == slash) ≡ false → (element (c ∷ cs)).0 ≡ c ∷ (element cs).0
unfolding element
element_grows c cs n = rw n refl

write_bytes_below : (f : ℕ → ℕ) (i : ℕ) (s : List ℕ) (j : ℕ) → j < i → write_bytes f i s j ≡ f j
unfolding write_bytes
write_bytes_below f i [] j lt = refl
write_bytes_below f i (c ∷ s) j lt =
    write_bytes_below (update f i c) (i + 1) s j (omega (arith, lt)) ∙ ground (arith, lt)

write_bytes_at :
    (f : ℕ → ℕ) (i : ℕ) (s : List ℕ) (j : ℕ) {c : ℕ}
    → get_elem? s j ≡ some c
    → write_bytes f i s (i + j) ≡ c
unfolding write_bytes
write_bytes_at f i [] j e = absurd (ground arith)
write_bytes_at f i (c ∷ s) zero e =
    ap (write_bytes (update f i c) (i + 1) s) (omega arith)
    ∙ write_bytes_below (update f i c) (i + 1) s i (omega arith)
    ∙ ground (arith, some_inj e)
write_bytes_at f i (c ∷ s) (suc j) e =
    ap (write_bytes (update f i c) (i + 1) s) (omega arith)
    ∙ write_bytes_at (update f i c) (i + 1) s j e

-- A map that has a text, and a NUL behind it if there is room.
text_lem :
    (g : ℕ → ℕ) (s : List ℕ) (i k : ℕ)
    → IsText s
    → ((j c : ℕ) → get_elem? s j ≡ some c → g (i + j) ≡ c)
    → (length s < k → g (i + length s) ≡ 0)
    → length s ≤ k
    → text g i k ≡ s
unfolding text
text_lem g [] i zero h at stop le = refl
text_lem g [] i (suc k) h at stop le =
    let z : g i ≡ 0 = ap g (omega arith) ∙ stop (omega arith) in
    let t : (g i == 0) ≡ true = ground (arith, z) in rw t refl
text_lem g (c ∷ s) i zero h at stop le = absurd (omega (arith, le))
text_lem g (c ∷ s) i (suc k) (more lt h) at stop le =
    let z : g i ≡ c = ap g (omega arith) ∙ at 0 c refl in
    let t : (g i == 0) ≡ false = ground (arith, z, lt) in
    rw t (
      ap₂ (λ x xs. x ∷ xs) z
        (text_lem g s (i + 1) k h (λ j c' e. ap g (omega arith) ∙ at (suc j) c' e)
          (λ l. ap g (omega arith) ∙ stop (omega (arith, l))) (omega (arith, le))))

take-IsText : (k : ℕ) {s : List ℕ} → IsText s → IsText (take k s)
take-IsText zero h = empty
take-IsText (suc k) empty = empty
take-IsText (suc k) (more lt h) = more lt (take-IsText k h)

take_all : (k : ℕ) (s : List ℕ) → length s ≤ k → take k s ≡ s
take_all zero [] le = refl
take_all zero (c ∷ s) le = absurd (omega arith)
take_all (suc k) [] le = refl
take_all (suc k) (c ∷ s) le = ap (λ xs. c ∷ xs) (take_all k s (omega arith))

text-set_name :
    (name : ℕ → ℕ) (s : List ℕ) → IsText s → text (set_name name s) 0 dirsiz ≡ take dirsiz s
unfolding set_name
text-set_name name s h = elim (Bool-cases (leb dirsiz (length s))) [
  | inl y ↦
      let m : length (take dirsiz s) ≡ dirsiz = length-take dirsiz s ∙ ground (arith, y) in
      rw y (
        text_lem (write_bytes name 0 (take dirsiz s)) (take dirsiz s) 0 dirsiz
          (take-IsText dirsiz h) (λ j c' e. write_bytes_at name 0 (take dirsiz s) j e)
          (λ lt. absurd (omega (arith, m, lt))) (omega (arith, m)))
  | inr n ↦
      let short : length s < dirsiz = ground (arith, n) in
      rw n (
        text_lem (update (write_bytes name 0 s) (length s) 0) s 0 dirsiz h
          (λ j c' e.
            (let l = lt_of_get_elem? s j e in
              let t : (length s == 0 + j) ≡ false = ground (arith, l) in
              rw t (write_bytes_at name 0 s j e)))
          (λ lt. ground arith) (omega (arith, short))
        ∙ sym (take_all dirsiz s (omega (arith, short))))
]

-- One call of `skipelem`.
pub data Skipped (p : List ℕ) : Option (List ℕ × (ℕ → ℕ)) → Type 0 where
  no_name : not_empty (pieces p) ≡ [] → Skipped p none
  named :
      (s rest : List ℕ) (name : ℕ → ℕ)
      → not_empty (pieces p) ≡ s ∷ not_empty (pieces rest)
      → text name 0 dirsiz ≡ take dirsiz s
      → length rest < length p
      → IsText rest
      → Skipped p (some (rest, name))

pub skipelem-Skipped : (p : List ℕ) (name : ℕ → ℕ) → IsText p → Skipped p (skipelem p name)
unfolding skipelem pieces not_empty after_element
skipelem-Skipped p name h =
    given (drop_slashes p) (drop_slashes-Dropped p) (sym (not_empty-drop_slashes p))
      (drop_slashes_shorter p) (drop_slashes-IsText h)
  where
    given :
        (q : List ℕ)
        → Dropped q
        → not_empty (pieces p) ≡ not_empty (pieces q)
        → length q ≤ length p
        → IsText q
        → Skipped p (elim q [ [] ↦ none | c ∷ cs ↦ some (after_element name (element (c ∷ cs))) ])
    given [] d e le t = no_name e
    given (c ∷ cs) (dropped _ _ n) e le t =
        let x = element-Split (c ∷ cs) in
        let g = element_grows c cs n in
        let r = (element (c ∷ cs)).1 in
        named (element (c ∷ cs)).0 (drop_slashes r) (set_name name (element (c ∷ cs)).0)
          (e
            ∙ ap not_empty x.whole
            ∙ ap (λ s. not_empty (s ∷ others r)) g
            ∙ ap₂ (λ s ps. s ∷ ps) (sym g) (sym (Rest-pieces x.shape)))
          (text-set_name name (element (c ∷ cs)).0 (x.text_s t))
          (omega (arith, drop_slashes_shorter r, x.size, le, ap length g))
          (drop_slashes-IsText (x.text_rest t))

-- Calling `skipelem` until it returns the null pointer gives the parts of the path between slashes, less
-- the empty ones, each cut to the 14 bytes of a name; no more calls are needed than the path has bytes.
pub elements-pieces :
    (fuel : ℕ) (path : List ℕ) (name : ℕ → ℕ)
    → IsText path
    → length path < fuel
    → elements fuel path name ≡ map (take dirsiz) (not_empty (pieces path))
unfolding elements not_empty
elements-pieces zero path name h lt = absurd (omega arith)
elements-pieces (suc fuel) path name h lt =
    given (skipelem-Skipped path name h)
      (λ rest name' u l. elements-pieces fuel rest name' u (omega (arith, l, lt)))
  where
    given :
        {r : Option (List ℕ × (ℕ → ℕ))}
        → Skipped path r
        → ((rest : List ℕ) (name' : ℕ → ℕ)
            → IsText rest
            → length rest < length path
            → elements fuel rest name' ≡ map (take dirsiz) (not_empty (pieces rest)))
        → elim r [ none ↦ [] | some (rest, name') ↦ text name' 0 dirsiz ∷ elements fuel rest name' ]
          ≡ map (take dirsiz) (not_empty (pieces path))
    given (no_name e) later = rw e refl
    given (named s rest name' e t l u) later = rw e (ap₂ (λ x xs. x ∷ xs) t (later rest name' u l))
