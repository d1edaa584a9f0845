-- ===== src/Fs/Table/References.antt =====
-- References to entries of the table of inodes of kernel/fs.c.
mod Tests
use os_design_practice.Prelude.{
  ==_iff, Bool-cases, List, Option, [], ap, ap₂, arith, false, get_elem?, inl, inr, modify,
  occurrences, occurrences-get, occurrences-remove, refl, remove, some, some_inj, subst, sym, true,
  ℕ, ℕ_discrete, ◌+◌, ◌-◌, ◌<◌, ◌==◌, ◌∙◌, ◌∷◌, ◌≡◌, ◌≢◌,
}
use os_design_practice.Fs.{Super, Disk}
use os_design_practice.Fs.Table.{
  Entry, Outcome, panics, sleeps, done, is_for, more, renew, iget, idup, iput,
}
use os_design_practice.Fs.Table.Held.{
  refs, ident, refs-get, ident-get, get_of_refs, refs-modify, ident-modify_ne, ident-modify_self,
  ident-modify, Got, full, found, renewed, iget-Got, iput_lem,
}

-- The table, and every reference that somebody has: open files, working directories, and pointers in
-- the kernel.
pub record System : Type 0 where
  pub table : List Entry
  pub held : List ℕ

-- In any order: `iget`, another reference, a reference less, and any change of entries that leaves alone
-- their counts and which inodes they are for, as that of locks and of contents.
pub data Step (s : System) : System → Type 0 where
  get :
      (dev inum i : ℕ) (t : List Entry)
      → iget dev inum s.table ≡ some (i, t)
      → Step s (record { table = t; held = i ∷ s.held })
  dup :
      (k i : ℕ)
      → get_elem? s.held k ≡ some i
      → Step s (record { table = idup i s.table; held = i ∷ s.held })
  put :
      (sb : Super) (me k i : ℕ) (d d' : Disk) (e e' : Entry)
      → get_elem? s.held k ≡ some i
      → get_elem? s.table i ≡ some e
      → iput sb me d e ≡ done (e', d')
      → Step s (record { table = modify s.table i (λ x. e'); held = remove s.held k })
  change :
      (t : List Entry)
      → ((i : ℕ) → (refs t i ≡ refs s.table i) × (ident t i ≡ ident s.table i))
      → Step s (record s { table = t })

pub data Reach (s : System) : System → Type 0 where
  here : Reach s s
  next : {t u : System} → Reach s t → Step t u → Reach s u

record IsGood (s : System) : Type 0 where
  counted : (i : ℕ) → refs s.table i ≡ occurrences i s.held
  unique :
      (i j : ℕ)
      → 0 < refs s.table i
      → 0 < refs s.table j
      → ident s.table i ≡ ident s.table j
      → i ≡ j

-- No entry is for the inode.
not_for :
    (dev inum : ℕ) (t : List Entry) (j : ℕ)
    → ((j : ℕ) (x : Entry) → get_elem? t j ≡ some x → is_for dev inum x ≡ false)
    → 0 < refs t j
    → ident t j ≢ (dev, inum)
not_for dev inum t j h lt same =
    let (x, g) = get_of_refs t j lt in
    let r = refs-get t j g in
    let p : ◌≡◌ {A = ℕ × ℕ} (x.ip.dev, x.ip.inum) (dev, inum) = sym (ident-get t j g) ∙ same in
    let a : x.ip.dev ≡ dev = ap (λ (q : ℕ × ℕ). q.0) p in
    let b : x.ip.inum ≡ inum = ap (λ (q : ℕ × ℕ). q.1) p in
    let f = h j x g in absurd (ground (arith, lt, r, a, b, f))

module _ (s : System) (h : IsGood s) where
  added :
      (i : ℕ) (e : Entry)
      → get_elem? s.table i ≡ some e
      → (g : Entry → Entry) → (g e).ref ≡ e.ref + 1
      → (j : ℕ) → refs (modify s.table i g) j ≡ occurrences j (i ∷ s.held)
  added i e y g up j =
      let r = refs-get s.table i y in
      let m = refs-modify s.table i j g y in
      elim (Bool-cases (i == j)) [
        | inl t ↦
            let same : i ≡ j = (==_iff i j).0 t in
            let hj : refs s.table i ≡ occurrences j s.held = rw same (h.counted j) in
            ground (arith, r, m, up, t, hj)
        | inr n ↦ ground (arith, m, n, h.counted j)
      ]

  -- Another reference to an entry that has one.
  more-IsGood :
      (i : ℕ) (e : Entry)
      → get_elem? s.table i ≡ some e
      → 0 < e.ref
      → IsGood (record { table = modify s.table i more; held = i ∷ s.held })
  more-IsGood i e y lt = record {
    counted = added i e y more refl;
    unique = λ j k lj lk same. h.unique j k (still j lj) (still k lk) (
        sym (ident-modify s.table i j more y (refl, refl))
        ∙ same
        ∙ ident-modify s.table i k more y (refl, refl));
  }
    where
      still : (j : ℕ) → 0 < refs (modify s.table i more) j → 0 < refs s.table j
      still j l =
          let r = refs-get s.table i y in
          let m = refs-modify s.table i j more y in
          elim (ℕ_discrete i j) [
            | yes t ↦ subst (λ k. 0 < refs s.table k) t (omega (arith, r, lt))
            | no n ↦ ground (arith, m, n, l)
          ]

  renew-IsGood :
      (dev inum i : ℕ) (e : Entry)
      → get_elem? s.table i ≡ some e
      → e.ref ≡ 0
      → ((j : ℕ) (x : Entry) → get_elem? s.table j ≡ some x → is_for dev inum x ≡ false)
      → IsGood (record { table = modify s.table i (renew dev inum); held = i ∷ s.held })
  renew-IsGood dev inum i e y z none_for = record {
    counted = added i e y (renew dev inum) (omega (arith, z));
    unique = unique;
  }
    where
      kept : (j : ℕ) → i ≢ j → 0 < refs (modify s.table i (renew dev inum)) j → 0 < refs s.table j
      kept j n l = (let m = refs-modify s.table i j (renew dev inum) y in ground (arith, m, n, l))

      clash :
          (j : ℕ)
          → i ≢ j
          → 0 < refs (modify s.table i (renew dev inum)) j
          → ident (modify s.table i (renew dev inum)) i
            ≢ ident (modify s.table i (renew dev inum)) j
      clash j n l same = not_for dev inum s.table j none_for (kept j n l) (
          sym (ident-modify_ne s.table i j (renew dev inum) n)
          ∙ sym same
          ∙ ident-modify_self s.table i (renew dev inum) y)

      unique :
          (j k : ℕ)
          → 0 < refs (modify s.table i (renew dev inum)) j
          → 0 < refs (modify s.table i (renew dev inum)) k
          → ident (modify s.table i (renew dev inum)) j
            ≡ ident (modify s.table i (renew dev inum)) k
          → j ≡ k
      unique j k lj lk same = elim (ℕ_discrete i j) [
        | yes a ↦ elim (ℕ_discrete i k) [
          | yes b ↦ sym a ∙ b
          | no b ↦ absurd (clash k b lk (ap (ident (modify s.table i (renew dev inum))) a ∙ same))
        ]
        | no a ↦ elim (ℕ_discrete i k) [
          | yes b ↦
              absurd (clash j a lj (ap (ident (modify s.table i (renew dev inum))) b ∙ sym same))
          | no b ↦ h.unique j k (kept j a lj) (kept k b lk) (
              sym (ident-modify_ne s.table i j (renew dev inum) a)
              ∙ same
              ∙ ident-modify_ne s.table i k (renew dev inum) b)
        ]
      ]

  put-IsGood :
      (sb : Super) (me k i : ℕ) (d d' : Disk) (e e' : Entry)
      → get_elem? s.held k ≡ some i
      → get_elem? s.table i ≡ some e
      → iput sb me d e ≡ done (e', d')
      → IsGood (record { table = modify s.table i (λ x. e'); held = remove s.held k })
  put-IsGood sb me k i d d' e e' o y p =
      let (up, a, b) = iput_lem sb me d d' e e' p in
      record {
        counted = λ j. fewer up j;
        unique = λ j m lj lm same. h.unique j m (still up j lj) (still up m lm) (
            sym (ident-modify s.table i j (λ x. e') y (a, b))
            ∙ same
            ∙ ident-modify s.table i m (λ x. e') y (a, b));
      }
    where
      still :
          e'.ref ≡ e.ref - 1
          → (j : ℕ) → 0 < refs (modify s.table i (λ x. e')) j
          → 0 < refs s.table j
      still up j l =
          let r = refs-get s.table i y in
          let m = refs-modify s.table i j (λ x. e') y in
          elim (ℕ_discrete i j) [
            | yes t ↦
                let b : (i == j) ≡ true = ground (arith, t) in
                subst (λ n. 0 < refs s.table n) t (ground (arith, r, m, b, up, l))
            | no n ↦ ground (arith, m, n, l)
          ]

      fewer :
          e'.ref ≡ e.ref - 1
          → (j : ℕ) → refs (modify s.table i (λ x. e')) j ≡ occurrences j (remove s.held k)
      fewer up j =
          let r = refs-get s.table i y in
          let m = refs-modify s.table i j (λ x. e') y in
          let c = occurrences-remove s.held k j o in
          elim (Bool-cases (i == j)) [
            | inl t ↦
                let same : i ≡ j = (==_iff i j).0 t in
                let hj : refs s.table i ≡ occurrences j s.held = rw same (h.counted j) in
                ground (arith, r, m, c, t, up, hj)
            | inr n ↦ ground (arith, m, c, n, h.counted j)
          ]

Step-IsGood : {s t : System} → Step s t → IsGood s → IsGood t
unfolding idup
Step-IsGood {s} (get dev inum i t e) h = given (iget-Got dev inum s.table) e
  where
    given :
        {r : Option (ℕ × List Entry)}
        → Got dev inum s.table r
        → r ≡ some (i, t)
        → IsGood (record { table = t; held = i ∷ s.held })
    given (full why) q = absurd (ground arith)
    given (found j x y lt a b) q =
        subst (λ (r : ℕ × List Entry). IsGood (record { table = r.1; held = r.0 ∷ s.held }))
          (some_inj q) (more-IsGood s h j x y lt)
    given (renewed j x y z none_for) q =
        subst (λ (r : ℕ × List Entry). IsGood (record { table = r.1; held = r.0 ∷ s.held }))
          (some_inj q) (renew-IsGood s h dev inum j x y z none_for)
Step-IsGood {s} (dup k i o) h =
    let lt : 0 < refs s.table i = omega (arith, h.counted i, occurrences-get s.held k o) in
    let (e, y) = get_of_refs s.table i lt in
    more-IsGood s h i e y (omega (arith, lt, refs-get s.table i y))
Step-IsGood {s} (put sb me k i d d' e e' o y p) h = put-IsGood s h sb me k i d d' e e' o y p
Step-IsGood {s} (change t same) h = record {
  counted = λ i. (same i).0 ∙ h.counted i;
  unique = λ i j li lj e.
      h.unique i j (omega (arith, li, (same i).0)) (omega (arith, lj, (same j).0))
        (sym (same i).1 ∙ e ∙ (same j).1);
}

-- A step does not change for which inode an entry with references is.
Step-ident :
    {s t : System} (i : ℕ) → Step s t → 0 < refs s.table i → ident t.table i ≡ ident s.table i
unfolding idup
Step-ident {s} i (get dev inum j t e) lt = given (iget-Got dev inum s.table) e
  where
    given :
        {r : Option (ℕ × List Entry)}
        → Got dev inum s.table r
        → r ≡ some (j, t)
        → ident t i ≡ ident s.table i
    given (full why) q = absurd (ground arith)
    given (found m x y l a b) q =
        ap (λ (r : ℕ × List Entry). ident r.1 i) (sym (some_inj q))
        ∙ ident-modify s.table m i more y (refl, refl)
    given (renewed m x y z none_for) q =
        ap (λ (r : ℕ × List Entry). ident r.1 i) (sym (some_inj q))
        ∙ ident-modify_ne s.table m i (renew dev inum) (λ w. absurd (
            let r = refs-get s.table m y in
            let v = ap (refs s.table) w in omega (arith, r, v, z, lt)))
Step-ident {s} i (dup k j o) lt = elim (ℕ_discrete j i) [
  | yes e ↦
      let (x, y) = get_of_refs s.table i lt in
      ident-modify s.table j i more (ap (get_elem? s.table) e ∙ y) (refl, refl)
  | no n ↦ ident-modify_ne s.table j i more n
]
Step-ident {s} i (put sb me k j d d' e e' o y p) lt =
    let (up, a, b) = iput_lem sb me d d' e e' p in ident-modify s.table j i (λ x. e') y (a, b)
Step-ident i (change t same) lt = (same i).1

-- `iget` finds an entry that has references.
iget_again :
    (s : System) (i : ℕ)
    → IsGood s
    → 0 < refs s.table i
    → iget (ident s.table i).0 (ident s.table i).1 s.table ≡ some (i, modify s.table i more)
iget_again s i h lt = given (iget-Got (ident s.table i).0 (ident s.table i).1 s.table)
  where
    given :
        {r : Option (ℕ × List Entry)}
        → Got (ident s.table i).0 (ident s.table i).1 s.table r
        → r ≡ some (i, modify s.table i more)
    given (full why) =
        absurd (
          not_for (ident s.table i).0 (ident s.table i).1 s.table i (λ j x g. (why j x g).0) lt
            refl)
    given (renewed j x y z none_for) =
        absurd (not_for (ident s.table i).0 (ident s.table i).1 s.table i none_for lt refl)
    given (found j x y l a b) =
        let e : j ≡ i =
          h.unique j i (omega (arith, l, refs-get s.table j y)) lt
            (ident-get s.table j y ∙ ap₂ (λ u v. (u, v)) a b) in
        ap (λ k. some (k, modify s.table k more)) e

-- From a table without references, whatever is got, duplicated and put: the count of each entry is the
-- number of references to it. Two references to one inode are to one entry. An entry to which there is a
-- reference stays for its inode through any step, and `iget` of this inode gives it again.
pub references_stay :
    {s t : System} (k m : ℕ) {i j : ℕ}
    → ((n : ℕ) → refs s.table n ≡ 0)
    → s.held ≡ []
    → Reach s t
    → get_elem? t.held k ≡ some i
    → get_elem? t.held m ≡ some j
    → (refs t.table i ≡ occurrences i t.held)
      × (ident t.table i ≡ ident t.table j → i ≡ j)
      × ((u : System) → Step t u → ident u.table i ≡ ident t.table i)
      × (iget (ident t.table i).0 (ident t.table i).1 t.table ≡ some (i, modify t.table i more))
references_stay {s} {t} k m {i} {j} empty none_held r o p = (
  good.counted i,
  λ e. good.unique i j (used i k o) (used j m p) e,
  λ u st. Step-ident i st (used i k o),
  iget_again t i good (used i k o),
)
  where
    Reach-IsGood : {u : System} → Reach s u → IsGood u
    Reach-IsGood here = record {
      counted = λ n. empty n ∙ sym (ap (occurrences n) none_held);
      unique = λ a b la lb e. absurd (omega (arith, la, empty a));
    }
    Reach-IsGood (next q st) = Step-IsGood st (Reach-IsGood q)

    good : IsGood t
    good = Reach-IsGood r

    used : (n h : ℕ) → get_elem? t.held h ≡ some n → 0 < refs t.table n
    used n h g = omega (arith, good.counted n, occurrences-get t.held h g)
