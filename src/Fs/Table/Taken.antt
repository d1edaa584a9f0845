-- ===== src/Fs/Table/Taken.antt =====
-- The counts of the table of inodes of kernel/fs.c after an operation on one entry.
use os_design_practice.Prelude.{
  Bool-cases, List, Option, Option-cases, ap, arith, get_elem?, if◌then◌else◌, inl, inr, modify,
  none, not, refl, some, some_inj, subst, sym, true, ℕ, ℕ_discrete, ◌%◌, ◌+◌, ◌-◌, ◌==◌, ◌||◌, ◌∙◌,
  ◌≡◌,
}
use os_design_practice.Buffer.{acquiresleep, holdingsleep}
use os_design_practice.Fs.{Super, Disk}
use os_design_practice.Fs.Table.{
  Entry, Outcome, panics, sleeps, done, load_dinode, load_entry, iblock, ipb, iget, idup, ilock,
  iunlock, iunlockput, more, renew,
}
use os_design_practice.Fs.Table.Held.{
  refs, refs-get, refs-modify, Got, full, found, renewed, iget-Got, iput_lem,
}

pub done_inj : {A : Type 0} {a b : A} → ◌≡◌ {A = Outcome A} (done a) (done b) → a ≡ b
done_inj {a = a} e = ap (λ o. elim o [ panics ↦ a | sleeps ↦ a | done x ↦ x ]) e

-- One more reference to the result.
abbrev pub taken : Option ℕ → ℕ → ℕ
taken none j = 0
taken (some i) j = if i == j then 1 else 0

pub one_more :
    (t : List Entry) (i j : ℕ) (g : Entry → Entry) {e : Entry}
    → get_elem? t i ≡ some e
    → (g e).ref ≡ e.ref + 1
    → refs (modify t i g) j ≡ refs t j + taken (some i) j
one_more t i j g y up =
    let r = refs-get t i y in
    let m = refs-modify t i j g y in
    elim (ℕ_discrete i j) [
      | yes s ↦
          (let u = ap (refs t) s in
            let b : (i == j) ≡ true = ground (arith, s) in ground (arith, r, m, up, u, b))
      | no n ↦ ground (arith, m, n)
    ]

pub same_refs :
    (t : List Entry) (i j : ℕ) (g : Entry → Entry) {e : Entry}
    → get_elem? t i ≡ some e
    → (g e).ref ≡ e.ref
    → refs (modify t i g) j ≡ refs t j
same_refs t i j g y up =
    let r = refs-get t i y in
    let m = refs-modify t i j g y in
    elim (ℕ_discrete i j) [
      | yes s ↦
          (let u = ap (refs t) s in
            let b : (i == j) ≡ true = ground (arith, s) in ground (arith, r, m, up, u, b))
      | no n ↦ ground (arith, m, n)
    ]

pub one_less :
    (t : List Entry) (i j : ℕ) (g : Entry → Entry) {e : Entry}
    → get_elem? t i ≡ some e
    → (g e).ref ≡ e.ref - 1
    → refs (modify t i g) j ≡ refs t j - taken (some i) j
one_less t i j g y up =
    let r = refs-get t i y in
    let m = refs-modify t i j g y in
    elim (ℕ_discrete i j) [
      | yes s ↦
          (let u = ap (refs t) s in
            let b : (i == j) ≡ true = ground (arith, s) in ground (arith, r, m, up, u, b))
      | no n ↦ ground (arith, m, n)
    ]

pub refs-iget :
    (dev inum : ℕ) (t : List Entry) {i : ℕ} {t' : List Entry} (j : ℕ)
    → iget dev inum t ≡ some (i, t')
    → refs t' j ≡ refs t j + taken (some i) j
refs-iget dev inum t {i} {t'} j e = given (iget-Got dev inum t) e
  where
    given :
        {r : Option (ℕ × List Entry)}
        → Got dev inum t r
        → r ≡ some (i, t')
        → refs t' j ≡ refs t j + taken (some i) j
    given (full why) q = absurd (ground arith)
    given (found k x y lt a b) q =
        subst (λ (r : ℕ × List Entry). refs r.1 j ≡ refs t j + taken (some r.0) j) (some_inj q)
          (one_more t k j more y refl)
    given (renewed k x y z none_for) q =
        subst (λ (r : ℕ × List Entry). refs r.1 j ≡ refs t j + taken (some r.0) j) (some_inj q)
          (one_more t k j (renew dev inum) y (omega (arith, z)))

pub ilock_ref :
    (sb : Super) (me : ℕ) (d : Disk) (e : Entry) {e' : Entry}
    → ilock sb me d e ≡ done e'
    → e'.ref ≡ e.ref
unfolding ilock load_entry
ilock_ref sb me d e {e'} q = elim (Bool-cases (e.ref == 0)) [
  | inl y ↦ absurd (let p : panics ≡ done e' = rw (y, ilock) at q in ground arith)
  | inr n ↦ elim (Option-cases (acquiresleep me e.lock)) [
    | inl s ↦ absurd (let p : sleeps ≡ done e' = rw (n, s, ilock) at q in ground arith)
    | inr (lk, s) ↦ loaded (record e { lock = lk }) (rw (n, s, ilock) at q)
  ]
]
  where
    loaded : (x : Entry) → load_entry sb d x ≡ done e' → e'.ref ≡ x.ref
    loaded x p = elim (Bool-cases x.valid) [
      | inl y ↦ ap (λ (z : Entry). z.ref) (sym (done_inj (rw y at p)))
      | inr n ↦
          elim (Bool-cases
            ((load_dinode (d (iblock x.ip.inum sb)) (x.ip.inum % ipb) x.ip).kind == 0)) [
              | inl z ↦ absurd (let f : panics ≡ done e' = rw (n, z) at p in ground arith)
              | inr z ↦ ap (λ (y : Entry). y.ref) (sym (done_inj (rw (n, z) at p)))
            ]
    ]

pub iunlock_ref : (me : ℕ) (e : Entry) {e' : Entry} → iunlock me e ≡ done e' → e'.ref ≡ e.ref
unfolding iunlock
iunlock_ref me e {e'} q = elim (Bool-cases (not (holdingsleep me e.lock) || e.ref == 0)) [
  | inl y ↦ absurd (let p : panics ≡ done e' = rw (y, iunlock) at q in ground arith)
  | inr n ↦ ap (λ (y : Entry). y.ref) (sym (done_inj (rw (n, iunlock) at q)))
]

pub iunlockput_ref :
    (sb : Super) (me : ℕ) (d d' : Disk) (e : Entry) {e' : Entry}
    → iunlockput sb me d e ≡ done (e', d')
    → e'.ref ≡ e.ref - 1
unfolding iunlockput
iunlockput_ref sb me d d' e {e'} q = given (iunlock me e) refl
  where
    given : (o : Outcome Entry) → iunlock me e ≡ o → e'.ref ≡ e.ref - 1
    given panics y =
        absurd (let p : panics ≡ done (e', d') = rw (y, iunlockput) at q in ground arith)
    given sleeps y =
        absurd (let p : sleeps ≡ done (e', d') = rw (y, iunlockput) at q in ground arith)
    given (done x) y =
        let (a, b, c) = iput_lem sb me d d' x e' (rw (y, iunlockput) at q) in
        a ∙ ap (λ n. n - 1) (iunlock_ref me e y)

pub refs-idup :
    (t : List Entry) (i j : ℕ) {e : Entry}
    → get_elem? t i ≡ some e
    → refs (idup i t) j ≡ refs t j + taken (some i) j
unfolding idup
refs-idup t i j y = one_more t i j more y refl
