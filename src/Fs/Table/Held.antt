-- ===== src/Fs/Table/Held.antt =====
-- What `iget` and `iput` of kernel/fs.c do to the counts of the table of inodes.
use os_design_practice.Prelude.{
  ==_iff, Bool-cases, List, Option, Option-cases, [], ap, ap₂, arith, false, first_index,
  first_index-found, first_index-none, get_elem?, if◌then◌else◌, inl, inr, modify, none, refl, some,
  some_inj, subst, suc, sym, zero, ℕ, ℕ_discrete, ◌-◌, ◌<◌, ◌==◌, ◌∙◌, ◌∷◌, ◌≡◌, ◌≢◌,
}
use os_design_practice.Buffer.{acquiresleep}
use os_design_practice.Fs.{Super, Disk}
use os_design_practice.Fs.Inode.{itrunc}
use os_design_practice.Fs.Inode.Trunc.{itrunc_same}
use os_design_practice.Fs.Table.{Entry, done, is_for, is_unused, is_last, more, renew, iget, iput}

-- The count of the entry at an index, and which inode it is for.
abbrev pub refs : List Entry → ℕ → ℕ
refs [] i = 0
refs (e ∷ t) zero = e.ref
refs (e ∷ t) (suc i) = refs t i

abbrev pub ident : List Entry → ℕ → ℕ × ℕ
ident [] i = (0, 0)
ident (e ∷ t) zero = (e.ip.dev, e.ip.inum)
ident (e ∷ t) (suc i) = ident t i

pub refs-get : (t : List Entry) (i : ℕ) {e : Entry} → get_elem? t i ≡ some e → refs t i ≡ e.ref
refs-get [] i y = absurd (ground arith)
refs-get (x ∷ t) zero y = ap (λ (z : Entry). z.ref) (some_inj y)
refs-get (x ∷ t) (suc i) y = refs-get t i y

pub ident-get :
    (t : List Entry) (i : ℕ) {e : Entry}
    → get_elem? t i ≡ some e
    → ident t i ≡ (e.ip.dev, e.ip.inum)
ident-get [] i y = absurd (ground arith)
ident-get (x ∷ t) zero y = ap (λ (z : Entry). (z.ip.dev, z.ip.inum)) (some_inj y)
ident-get (x ∷ t) (suc i) y = ident-get t i y

pub get_of_refs : (t : List Entry) (i : ℕ) → 0 < refs t i → (e : Entry) × (get_elem? t i ≡ some e)
get_of_refs [] i lt = absurd (omega arith)
get_of_refs (e ∷ t) zero lt = (e, refl)
get_of_refs (e ∷ t) (suc i) lt = get_of_refs t i lt

pub refs-modify :
    (t : List Entry) (i j : ℕ) (g : Entry → Entry) {e : Entry}
    → get_elem? t i ≡ some e
    → refs (modify t i g) j ≡ (if i == j then (g e).ref else refs t j)
refs-modify [] i j g y = absurd (ground arith)
refs-modify (x ∷ t) zero zero g y = ap (λ (z : Entry). (g z).ref) (some_inj y)
refs-modify (x ∷ t) zero (suc j) g y = ground arith
refs-modify (x ∷ t) (suc i) zero g y = ground arith
refs-modify (x ∷ t) (suc i) (suc j) g y = ground (arith, refs-modify t i j g y)

pub ident-modify_ne :
    (t : List Entry) (i j : ℕ) (g : Entry → Entry) → i ≢ j → ident (modify t i g) j ≡ ident t j
ident-modify_ne [] i j g ne = refl
ident-modify_ne (x ∷ t) zero zero g ne = absurd (ne refl)
ident-modify_ne (x ∷ t) zero (suc j) g ne = refl
ident-modify_ne (x ∷ t) (suc i) zero g ne = refl
ident-modify_ne (x ∷ t) (suc i) (suc j) g ne = ident-modify_ne t i j g (λ e. ne (ap suc e))

pub ident-modify_self :
    (t : List Entry) (i : ℕ) (g : Entry → Entry) {e : Entry}
    → get_elem? t i ≡ some e
    → ident (modify t i g) i ≡ ((g e).ip.dev, (g e).ip.inum)
ident-modify_self [] i g y = absurd (ground arith)
ident-modify_self (x ∷ t) zero g y = ap (λ (z : Entry). ((g z).ip.dev, (g z).ip.inum)) (some_inj y)
ident-modify_self (x ∷ t) (suc i) g y = ident-modify_self t i g y

-- A change of an entry that is for the same inode afterwards.
pub ident-modify :
    (t : List Entry) (i j : ℕ) (g : Entry → Entry) {e : Entry}
    → get_elem? t i ≡ some e
    → ((g e).ip.dev ≡ e.ip.dev) × ((g e).ip.inum ≡ e.ip.inum)
    → ident (modify t i g) j ≡ ident t j
ident-modify t i j g y (a, b) = elim (ℕ_discrete i j) [
  | yes s ↦
      subst (λ k. ident (modify t i g) k ≡ ident t k) s
        (ident-modify_self t i g y ∙ ap₂ (λ u v. (u, v)) a b ∙ sym (ident-get t i y))
  | no n ↦ ident-modify_ne t i j g n
]

-- What `iget` comes to.
pub data Got (dev inum : ℕ) (t : List Entry) : Option (ℕ × List Entry) → Type 0 where
  full :
      ((i : ℕ) (e : Entry) → get_elem? t i ≡ some e → (is_for dev inum e ≡ false) × (0 < e.ref))
      → Got dev inum t none
  found :
      (i : ℕ) (e : Entry)
      → get_elem? t i ≡ some e
      → 0 < e.ref
      → e.ip.dev ≡ dev
      → e.ip.inum ≡ inum
      → Got dev inum t (some (i, modify t i more))
  renewed :
      (i : ℕ) (e : Entry)
      → get_elem? t i ≡ some e
      → e.ref ≡ 0
      → ((j : ℕ) (x : Entry) → get_elem? t j ≡ some x → is_for dev inum x ≡ false)
      → Got dev inum t (some (i, modify t i (renew dev inum)))

-- `iget` adds a reference to the entry of the inode, if there is one with references. If not, it takes an
-- entry without references, and makes it one for the inode that is not read yet; it panics only if each
-- entry has references, and none of them is for the inode.
pub iget-Got : (dev inum : ℕ) (t : List Entry) → Got dev inum t (iget dev inum t)
unfolding iget
iget-Got dev inum t = elim (Option-cases (first_index (is_for dev inum) t)) [
  | inr (i, y) ↦
      let (e, g, h) = first_index-found (is_for dev inum) t y in
      rw (y, iget)
        (found i e g (ground (arith, h)) ((==_iff e.ip.dev dev).0 (ground (arith, h)))
          ((==_iff e.ip.inum inum).0 (ground (arith, h))))
  | inl y ↦ elim (Option-cases (first_index is_unused t)) [
    | inr (i, z) ↦
        let (e, g, h) = first_index-found is_unused t z in
        rw (y, z, iget)
          (renewed i e g ((==_iff e.ref 0).0 h)
            (λ j x k. first_index-none (is_for dev inum) t j y k))
    | inl z ↦
        rw (y, z, iget)
          (full (λ i e k. (
            first_index-none (is_for dev inum) t i y k,
            (let n = first_index-none is_unused t i z k in ground (arith, n)),
          )))
  ]
]

-- `iput` drops one reference, and leaves alone which inode the entry is for.
pub iput_lem :
    (sb : Super) (me : ℕ) (d d' : Disk) (e e' : Entry)
    → iput sb me d e ≡ done (e', d')
    → (e'.ref ≡ e.ref - 1) × (e'.ip.dev ≡ e.ip.dev) × (e'.ip.inum ≡ e.ip.inum)
unfolding iput
iput_lem sb me d d' e e' y = elim (Bool-cases (is_last e)) [
  | inr n ↦ (ground arith, ground arith, ground arith)
  | inl l ↦ elim (Option-cases (acquiresleep me e.lock)) [
    | inl s ↦ absurd (ground arith)
    | inr (lk, s) ↦ elim (Option-cases (itrunc sb e.ip d)) [
      | inl z ↦ absurd (ground arith)
      | inr ((ip, d2), z) ↦
          let (a, b) = itrunc_same sb e.ip d z in (ground arith, ground arith, ground arith)
    ]
  ]
]
