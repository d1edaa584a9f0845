-- ===== src/Buffer/Cached.antt =====
-- No block is cached twice by kernel/bio.c.
use os_design_practice.Prelude.{
  ==_iff, Bool-cases, List, Option, Option-cases, [], ap, arith, first_index, get_elem?,
  if◌then◌else◌, inl, inr, modify, none, refl, remove, some, some_inj, suc, sym, zero, ℕ, ◌&&◌, ◌+◌,
  ◌<◌, ◌==◌, ◌∙◌, ◌∷◌, ◌≡◌, ◌≤◌,
}
use os_design_practice.Buffer.{
  Buf, nbuf, acquiresleep, last_index, to_front, binit, holds, is_free, retain, drop_ref, recycle,
  bget, fill, unlock, let_go, brelse, bpin, bunpin,
}

module _ {B : Type 0} where
  -- How many buffers are for a block.
  abbrev pub copies : ℕ → ℕ → List (Buf B) → ℕ
  copies dev blockno [] = 0
  copies dev blockno (b ∷ bs) = (if holds dev blockno b then 1 else 0) + copies dev blockno bs

  -- Device 0 is no disk; the buffers of the fresh cache are for its block 0.
  abbrev pub IsUnique : List (Buf B) → Type 0
  IsUnique bs = (dev blockno : ℕ) → 0 < dev → copies dev blockno bs ≤ 1

  -- The buffer at `i`, with its sleep lock taken by `me`, if it is free.
  abbrev pub take_lock : ℕ → ℕ → List (Buf B) → Option (List (Buf B))
  take_lock me i bs = elim (get_elem? bs i) [
    | none ↦ none
    | some b ↦ elim (acquiresleep me b.lock) [
      | none ↦ none
      | some lk ↦ some (modify bs i (λ x. record x { lock = lk }))
    ]
  ]

  -- The operations in any order, by any processes, on any buffers: `bget` up to its `acquiresleep`, that
  -- `acquiresleep`, a read and a write of the content, and `brelse`, `bpin` and `bunpin`.
  pub data Step (bs : List (Buf B)) : List (Buf B) → Type 0 where
    get :
        (dev blockno i : ℕ) (bs' : List (Buf B))
        → 0 < dev
        → bget dev blockno bs ≡ some (i, bs')
        → Step bs bs'
    lock : (me i : ℕ) (bs' : List (Buf B)) → take_lock me i bs ≡ some bs' → Step bs bs'
    read : (disk : ℕ → ℕ → B) (i : ℕ) → Step bs (modify bs i (fill disk))
    write : (x : B) (i : ℕ) → Step bs (modify bs i (λ b. record b { content = x }))
    release : (me i : ℕ) (bs' : List (Buf B)) → brelse me i bs ≡ some bs' → Step bs bs'
    pin : (i : ℕ) → Step bs (bpin i bs)
    unpin : (i : ℕ) → Step bs (bunpin i bs)

  pub data Reach (bs : List (Buf B)) : List (Buf B) → Type 0 where
    here : Reach bs bs
    next : {cs ds : List (Buf B)} → Reach bs cs → Step cs ds → Reach bs ds

  -- A change of a buffer that is for the same block afterwards.
  abbrev Keeps : (Buf B → Buf B) → Type 0
  Keeps f = (b : Buf B) → ((f b).dev ≡ b.dev) × ((f b).blockno ≡ b.blockno)

  copies-modify :
      (dev blockno : ℕ) (f : Buf B → Buf B) (bs : List (Buf B)) (i : ℕ)
      → Keeps f
      → copies dev blockno (modify bs i f) ≡ copies dev blockno bs
  copies-modify dev blockno f [] i keep = refl
  copies-modify dev blockno f (b ∷ bs) zero keep = rw ((keep b).0, (keep b).1) refl
  copies-modify dev blockno f (b ∷ bs) (suc i) keep =
      omega (arith, copies-modify dev blockno f bs i keep)

  copies-remove :
      (dev blockno : ℕ) (bs : List (Buf B)) (i : ℕ) (b : Buf B)
      → get_elem? bs i ≡ some b
      → (if holds dev blockno b then 1 else 0) + copies dev blockno (remove bs i)
        ≡ copies dev blockno bs
  copies-remove dev blockno [] i b e = absurd (ground arith)
  copies-remove dev blockno (c ∷ bs) zero b e = rw (some_inj e) refl
  copies-remove dev blockno (c ∷ bs) (suc i) b e = omega (arith, copies-remove dev blockno bs i b e)

  copies-to_front :
      (dev blockno i : ℕ) (bs : List (Buf B))
      → copies dev blockno (to_front i bs) ≡ copies dev blockno bs
  unfolding to_front
  copies-to_front dev blockno i bs = elim (Option-cases (get_elem? bs i)) [
    | inl n ↦ rw (n, to_front) refl
    | inr (b, e) ↦ rw (e, to_front) (copies-remove dev blockno bs i b e)
  ]

  copies-recycle :
      (dev blockno d n : ℕ) (bs : List (Buf B)) (i : ℕ)
      → copies d n (modify bs i (recycle dev blockno))
        ≤ (if dev == d && blockno == n then 1 else 0) + copies d n bs
  copies-recycle dev blockno d n [] i = omega arith
  copies-recycle dev blockno d n (b ∷ bs) zero = ground arith
  copies-recycle dev blockno d n (b ∷ bs) (suc i) =
      omega (arith, copies-recycle dev blockno d n bs i)

  pub no_copies :
      (dev blockno : ℕ) (bs : List (Buf B))
      → first_index (holds dev blockno) bs ≡ none
      → copies dev blockno bs ≡ 0
  unfolding first_index
  no_copies dev blockno [] e = refl
  no_copies dev blockno (b ∷ bs) e = elim (Option-cases (first_index (holds dev blockno) bs)) [
    | inl m ↦ ground (arith, no_copies dev blockno bs m)
    | inr (i, m) ↦ absurd (ground arith)
  ]

  bget-IsUnique :
      (dev blockno i : ℕ) (bs bs' : List (Buf B))
      → bget dev blockno bs ≡ some (i, bs')
      → IsUnique bs
      → IsUnique bs'
  unfolding bget
  bget-IsUnique dev blockno i bs bs' e h d n real =
      elim (Option-cases (first_index (holds dev blockno) bs)) [
        | inr (j, y) ↦
            let p : (j, modify bs j retain) ≡ (i, bs') = some_inj (rw (y, bget) at e) in
            rw (sym (ap (λ (r : ℕ × List (Buf B)). r.1) p))
              (omega (arith, copies-modify d n retain bs j (λ b. (refl, refl)), h d n real))
        | inl y ↦ elim (Option-cases (last_index is_free bs)) [
          | inl z ↦ absurd (let e' : none ≡ some (i, bs') = rw (y, z, bget) at e in cc)
          | inr (j, z) ↦
              let p : (j, modify bs j (recycle dev blockno)) ≡ (i, bs') =
                some_inj (rw (y, z, bget) at e) in
              rw (sym (ap (λ (r : ℕ × List (Buf B)). r.1) p)) (recycled j y)
        ]
      ]
    where
      recycled :
          (j : ℕ)
          → first_index (holds dev blockno) bs ≡ none
          → copies d n (modify bs j (recycle dev blockno)) ≤ 1
      recycled j y = elim (Bool-cases (dev == d && blockno == n)) [
        | inl same ↦
            let u : dev ≡ d = (==_iff dev d).0 (ground arith) in
            let v : blockno ≡ n = (==_iff blockno n).0 (ground arith) in
            let c : copies d n bs ≡ 0 = rw (sym u, sym v) (no_copies dev blockno bs y) in
            ground (arith, copies-recycle dev blockno d n bs j, c, same)
        | inr other ↦ ground (arith, copies-recycle dev blockno d n bs j, h d n real, other)
      ]

  copies-let_go :
      (dev blockno i : ℕ) (bs : List (Buf B))
      → copies dev blockno (let_go i bs) ≡ copies dev blockno bs
  unfolding let_go
  copies-let_go dev blockno i bs =
      let same = copies-modify dev blockno drop_ref bs i (λ b. (refl, refl)) in
      elim (Option-cases (get_elem? (modify bs i drop_ref) i)) [
        | inl n ↦ rw (n, let_go) same
        | inr (b, e) ↦ elim (Bool-cases (is_free b)) [
          | inl y ↦
              rw (e, let_go) rw y (copies-to_front dev blockno i (modify bs i drop_ref) ∙ same)
          | inr n ↦ rw (e, let_go) rw n same
        ]
      ]

  brelse_inv :
      (me i : ℕ) (bs : List (Buf B)) {bs' : List (Buf B)}
      → brelse me i bs ≡ some bs'
      → bs' ≡ let_go i (modify bs i unlock)
  unfolding brelse
  brelse_inv me i bs e = elim (Option-cases (get_elem? bs i)) [
    | inl n ↦ absurd (ground arith)
    | inr (b, y) ↦ ground arith
  ]

  copies-take_lock :
      (dev blockno me i : ℕ) (bs : List (Buf B)) {bs' : List (Buf B)}
      → take_lock me i bs ≡ some bs'
      → copies dev blockno bs' ≡ copies dev blockno bs
  copies-take_lock dev blockno me i bs e = elim (Option-cases (get_elem? bs i)) [
    | inl n ↦ absurd (let f = rw (n, take_lock) at e in ground arith)
    | inr (b, y) ↦ elim (Option-cases (acquiresleep me b.lock)) [
      | inl n ↦ absurd (let f = rw (y, n, take_lock) at e in ground arith)
      | inr (lk, z) ↦
          ap (copies dev blockno) (sym (some_inj (rw (y, z, take_lock) at e)))
          ∙ copies-modify dev blockno (λ x. record x { lock = lk }) bs i (λ b. (refl, refl))
    ]
  ]

  Step-IsUnique : {bs cs : List (Buf B)} → Step bs cs → IsUnique bs → IsUnique cs
  unfolding fill bpin bunpin unlock
  Step-IsUnique {bs} {cs} (get dev blockno i bs' lt e) h d n real =
      bget-IsUnique dev blockno i bs bs' e h d n real
  Step-IsUnique {bs} (lock me i bs' e) h d n real =
      omega (arith, copies-take_lock d n me i bs e, h d n real)
  Step-IsUnique {bs} (read disk i) h d n real =
      omega
        (arith, copies-modify d n (fill disk) bs i (λ b. (ground arith, ground arith)), h d n real)
  Step-IsUnique {bs} (write x i) h d n real = omega (
    arith,
    copies-modify d n (λ b. record b { content = x }) bs i (λ b. (refl, refl)),
    h d n real,
  )
  Step-IsUnique {bs} (release me i bs' e) h d n real = rw (brelse_inv me i bs e) (
      omega (
        arith,
        copies-let_go d n i (modify bs i unlock),
        copies-modify d n unlock bs i (λ b. (refl, refl)),
        h d n real,
      ))
  Step-IsUnique {bs} (pin i) h d n real =
      omega (arith, copies-modify d n retain bs i (λ b. (refl, refl)), h d n real)
  Step-IsUnique {bs} (unpin i) h d n real =
      omega (arith, copies-modify d n drop_ref bs i (λ b. (refl, refl)), h d n real)

  copies-binit : (x : B) (k d n : ℕ) → 0 < d → copies d n (binit x k) ≡ 0
  unfolding binit
  copies-binit x zero d n real = refl
  copies-binit x (suc k) d n real = ground (arith, copies-binit x k d n real)

  -- However the operations of the cache follow each other after `binit`, with blocks of devices other
  -- than 0, no block is ever in two buffers.
  pub cached_once :
      (zeros : B) (dev blockno : ℕ) {bs : List (Buf B)}
      → Reach (binit zeros nbuf) bs
      → 0 < dev
      → copies dev blockno bs ≤ 1
  cached_once zeros dev blockno r real = Reach-IsUnique r dev blockno real
    where
      Reach-IsUnique : {bs : List (Buf B)} → Reach (binit zeros nbuf) bs → IsUnique bs
      Reach-IsUnique here d n lt = omega (arith, copies-binit zeros nbuf d n lt)
      Reach-IsUnique (next q s) d n lt = Step-IsUnique s (Reach-IsUnique q) d n lt
