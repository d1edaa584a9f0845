-- ===== src/Fs/Walk/Balance.antt =====
-- `namex` of kernel/fs.c gives back every reference that it takes, but for its result.
use os_design_practice.Prelude.{
  Bool, Bool-cases, List, Option, Option-cases, [], ap, arith, false, get_elem?, if◌then◌else◌, inl,
  inr, length, modify, none, not, refl, some, subst, suc, sym, true, zero, ℕ, ◌&&◌, ◌+◌, ◌-◌, ◌<◌,
  ◌==◌, ◌||◌, ◌∙◌, ◌∷◌, ◌≡◌, ◌≤◌,
}
use os_design_practice.Fs.{Super, Disk}
use os_design_practice.Fs.Inode.{Inode}
use os_design_practice.Fs.Path.{skipelem}
use os_design_practice.Fs.Table.{
  Entry, Outcome, panics, sleeps, done, iget, idup, ilock, iunlock, iunlockput,
}
use os_design_practice.Fs.Table.Held.{refs, get_of_refs}
use os_design_practice.Fs.Table.Taken.{
  taken, done_inj, same_refs, one_less, refs-iget, refs-idup, ilock_ref, iunlock_ref,
  iunlockput_ref,
}
use os_design_practice.Fs.Dir.{t_dir, dirlookup, put_at}
use os_design_practice.Fs.Dir.Taken.{place, refs-dirlookup, refs-put_at}
use os_design_practice.Fs.Walk.{
  World, and_then, on_entry, lock_at, unlock_at, unlockput_at, look_at, Visit, stop, go, stop_at,
  visit, end_walk, walk_from, namex, is_end, starts_at_root,
}

and_then_inv :
    {A B : Type 0} (o : Outcome A) (f : A → Outcome B) {b : B}
    → and_then o f ≡ done b
    → (a : A) × (o ≡ done a) × (f a ≡ done b)
and_then_inv panics f e = absurd (ground arith)
and_then_inv sleeps f e = absurd (ground arith)
and_then_inv (done a) f e = (a, refl, e)

on_entry_inv :
    {A : Type 0} (t : List Entry) (i : ℕ) (f : Entry → Outcome A) {a : A}
    → on_entry t i f ≡ done a
    → (e : Entry) × (get_elem? t i ≡ some e) × (f e ≡ done a)
on_entry_inv t i f e = elim (Option-cases (get_elem? t i)) [
  | inl n ↦ absurd (let q = rw (n, on_entry) at e in ground arith)
  | inr (x, y) ↦ (x, y, rw (y, on_entry) at e)
]

refs-set_ip :
    (t : List Entry) (i j : ℕ) (ip : Inode)
    → refs (modify t i (λ x. record x { ip = ip })) j ≡ refs t j
refs-set_ip [] i j ip = refl
refs-set_ip (x ∷ t) zero zero ip = refl
refs-set_ip (x ∷ t) zero (suc j) ip = refl
refs-set_ip (x ∷ t) (suc i) zero ip = refl
refs-set_ip (x ∷ t) (suc i) (suc j) ip = refs-set_ip t i j ip

module _ (sb : Super) (me : ℕ) where
  refs-lock_at :
      (i : ℕ) (w : World) (j : ℕ) {w' : World}
      → lock_at sb me i w ≡ done w'
      → refs w'.table j ≡ refs w.table j
  unfolding lock_at
  refs-lock_at i w j q =
      let (e, y, p) = on_entry_inv w.table i _ q in
      let (e', l, r) = and_then_inv (ilock sb me w.disk e) _ p in
      ap (λ (x : World). refs x.table j) (sym (done_inj r))
      ∙ same_refs w.table i j (λ x. e') y (ilock_ref sb me w.disk e l)

  refs-unlock_at :
      (i : ℕ) (w : World) (j : ℕ) {w' : World}
      → unlock_at me i w ≡ done w'
      → refs w'.table j ≡ refs w.table j
  unfolding unlock_at
  refs-unlock_at i w j q =
      let (e, y, p) = on_entry_inv w.table i _ q in
      let (e', l, r) = and_then_inv (iunlock me e) _ p in
      ap (λ (x : World). refs x.table j) (sym (done_inj r))
      ∙ same_refs w.table i j (λ x. e') y (iunlock_ref me e l)

  refs-unlockput_at :
      (i : ℕ) (w : World) (j : ℕ) {w' : World}
      → unlockput_at sb me i w ≡ done w'
      → refs w'.table j ≡ refs w.table j - taken (some i) j
  unfolding unlockput_at
  refs-unlockput_at i w j q =
      let (e, y, p) = on_entry_inv w.table i _ q in
      let (x, l, r) = and_then_inv (iunlockput sb me w.disk e) _ p in
      ap (λ (x : World). refs x.table j) (sym (done_inj r))
      ∙ one_less w.table i j (λ z. x.0) y (iunlockput_ref sb me w.disk x.1 e l)

  refs-look_at :
      (name : ℕ → ℕ) (i : ℕ) (w : World) (j : ℕ) {r : Option ℕ × World}
      → look_at sb name i w ≡ done r
      → refs r.1.table j ≡ refs w.table j + taken r.0 j
  unfolding look_at
  refs-look_at name i w j {r} q =
      let (e, y, p) = on_entry_inv w.table i _ q in
      let (x, l, z) = and_then_inv (dirlookup sb name w.table e.ip w.disk) _ p in
      seen x (refs-dirlookup sb name w.table e.ip w.disk j l) (done_inj z)
    where
      seen :
          (x : Option (ℕ × ℕ) × List Entry × Inode × Disk)
          → refs x.1 j ≡ refs w.table j + taken (place x.0) j
          → ◌≡◌ {A = Option ℕ × World}
              (
                elim x.0 [ none ↦ none | some next ↦ some next.0 ],
                record { table = modify x.1 i (λ y. record y { ip = x.2 }); disk = x.3 },
              )
              r
          → refs r.1.table j ≡ refs w.table j + taken r.0 j
      seen (none, t, dp, d) h z =
          subst (λ (u : Option ℕ × World). refs u.1.table j ≡ refs w.table j + taken u.0 j) z
            (refs-set_ip t i j dp ∙ h)
      seen (some pr, t, dp, d) h z =
          subst (λ (u : Option ℕ × World). refs u.1.table j ≡ refs w.table j + taken u.0 j) z
            (refs-set_ip t i j dp ∙ h)

  -- What a round does to the counts, if the walk has a reference to the entry at `i`.
  abbrev AfterVisit : ℕ → World → ℕ → Visit → Type 0
  AfterVisit i w j (stop r w') = refs w'.table j + taken (some i) j ≡ refs w.table j + taken r j
  AfterVisit i w j (go next w') =
      refs w'.table j + taken (some i) j ≡ refs w.table j + taken (some next) j

  stop_at_inv :
      (i : ℕ) (w : World) (j : ℕ) (r : Option ℕ) (o : Outcome World) {v : Visit}
      → ((w' : World) → o ≡ done w' → AfterVisit i w j (stop r w'))
      → stop_at r o ≡ done v
      → AfterVisit i w j v
  stop_at_inv i w j r o h q =
      let (w', l, z) = and_then_inv o _ q in subst (AfterVisit i w j) (done_inj z) (h w' l)

  refs-visit :
      (last : Bool) (name : ℕ → ℕ) (i : ℕ) (w : World) (j : ℕ) {v : Visit}
      → taken (some i) j ≤ refs w.table j
      → visit sb me last name i w ≡ done v
      → AfterVisit i w j v
  unfolding visit
  refs-visit last name i w j {v} own q =
      let (w1, l, p) = and_then_inv (lock_at sb me i w) _ q in
      let (e, y, z) = on_entry_inv w1.table i _ p in locked w1 e (refs-lock_at i w j l) z
    where
      looked :
          (w1 : World)
          → refs w1.table j ≡ refs w.table j
          → (r : Option ℕ × World) → refs r.1.table j ≡ refs w1.table j + taken r.0 j
          → and_then
              (unlockput_at sb me i r.1)
              (λ w2. elim r.0 [ none ↦ done (stop none w2) | some next ↦ done (go next w2) ])
            ≡ done v
          → AfterVisit i w j v
      looked w1 same (none, w2) h z =
          let (w3, l, f) = and_then_inv (unlockput_at sb me i w2) _ z in
          subst (AfterVisit i w j) (done_inj f)
            (omega (arith, refs-unlockput_at i w2 j l, same, h, own))
      looked w1 same (some next, w2) h z =
          let (w3, l, f) = and_then_inv (unlockput_at sb me i w2) _ z in
          subst (AfterVisit i w j) (done_inj f)
            (omega (arith, refs-unlockput_at i w2 j l, same, h, own))

      locked :
          (w1 : World) (e : Entry)
          → refs w1.table j ≡ refs w.table j
          → (if not (e.ip.kind == t_dir) || e.ip.nlink == 0
              then stop_at none (unlockput_at sb me i w1)
              else if last
              then stop_at (some i) (unlock_at me i w1)
              else and_then (look_at sb name i w1) (λ r.
                and_then
                  (unlockput_at sb me i r.1)
                  (λ w2. elim r.0 [ none ↦ done (stop none w2) | some next ↦ done (go next w2) ])))
            ≡ done v
          → AfterVisit i w j v
      locked w1 e same z = elim (Bool-cases (not (e.ip.kind == t_dir) || e.ip.nlink == 0)) [
        | inl a ↦
            stop_at_inv i w j none (unlockput_at sb me i w1)
              (λ w2 l. omega (arith, refs-unlockput_at i w1 j l, same, own)) (rw a at z)
        | inr a ↦ elim (Bool-cases last) [
          | inl b ↦
              stop_at_inv i w j (some i) (unlock_at me i w1)
                (λ w2 l. omega (arith, refs-unlock_at i w1 j l, same)) (rw (a, b) at z)
          | inr b ↦
              let (r, l, f) = and_then_inv (look_at sb name i w1) _ (rw (a, b) at z) in
              looked w1 same r (refs-look_at name i w1 j l) f
        ]
      ]

  -- A walk that has a reference to the entry at `i`, and keeps one to its result at most.
  abbrev AfterWalk : ℕ → World → ℕ → Option ℕ × (ℕ → ℕ) × World → Type 0
  AfterWalk i w j r = refs r.2.table j + taken (some i) j ≡ refs w.table j + taken r.0 j

  refs-end_walk :
      (parent : Bool) (name : ℕ → ℕ) (i : ℕ) (w : World) (j : ℕ) {r : Option ℕ × (ℕ → ℕ) × World}
      → taken (some i) j ≤ refs w.table j
      → end_walk sb me parent name i w ≡ done r
      → AfterWalk i w j r
  refs-end_walk true name i w j own q =
      let (x, l, z) = and_then_inv (put_at sb me i w.table w.disk) _ q in
      subst (AfterWalk i w j) (done_inj z)
        (omega (arith, refs-put_at sb me i w.table w.disk j l, own))
  refs-end_walk false name i w j own q = subst (AfterWalk i w j) (done_inj q) refl

  refs-walk_from :
      (parent : Bool) (fuel : ℕ) (path : List ℕ) (name : ℕ → ℕ) (i : ℕ) (w : World) (j : ℕ)
      {r : Option ℕ × (ℕ → ℕ) × World}
      → taken (some i) j ≤ refs w.table j
      → walk_from sb me parent fuel path name i w ≡ done r
      → AfterWalk i w j r
  unfolding walk_from
  refs-walk_from parent zero path name i w j own q = refs-end_walk parent name i w j own q
  refs-walk_from parent (suc fuel) path name i w j {r} own q =
      elim (Option-cases (skipelem path name)) [
        | inl n ↦ refs-end_walk parent name i w j own (rw (n, walk_from) at q)
        | inr ((rest, name'), y) ↦
            let (v, l, z) =
              and_then_inv (visit sb me (parent && is_end rest) name' i w) _
                (rw (y, walk_from) at q) in
            visited rest name' v (refs-visit (parent && is_end rest) name' i w j own l)
              (λ next w' o p. refs-walk_from parent fuel rest name' next w' j o p) z
      ]
    where
      visited :
          (rest : List ℕ) (name' : ℕ → ℕ) (v : Visit)
          → AfterVisit i w j v
          → ((next : ℕ) (w' : World)
              → taken (some next) j ≤ refs w'.table j
              → walk_from sb me parent fuel rest name' next w' ≡ done r
              → AfterWalk next w' j r)
          → elim v [
            | stop r' w' ↦ done (r', name', w')
            | go next w' ↦ walk_from sb me parent fuel rest name' next w'
          ]
            ≡ done r
          → AfterWalk i w j r
      visited rest name' (stop r' w') a later z = subst (AfterWalk i w j) (done_inj z) a
      visited rest name' (go next w') a later z =
          omega (arith, later next w' (omega (arith, a, own)) z, a)

  -- When `namex` returns, whatever it has met on the way, the references to entries of the table are those
  -- of before, and one more to its result if it has one. The process has a reference to its working
  -- directory.
  pub namex_balanced :
      (cwd : ℕ) (parent : Bool) (path : List ℕ) (name : ℕ → ℕ) (w : World) (j : ℕ)
      {r : Option ℕ × (ℕ → ℕ) × World}
      → 0 < refs w.table cwd
      → namex sb me cwd parent path name w ≡ done r
      → refs r.2.table j ≡ refs w.table j + taken r.0 j
  unfolding namex
  namex_balanced cwd parent path name w j {r} held q = elim (Bool-cases (starts_at_root path)) [
    | inl y ↦ elim (Option-cases (iget 1 1 w.table)) [
      | inl n ↦ absurd (let p : panics ≡ done r = rw (y, n, namex) at q in ground arith)
      | inr ((i, t), g) ↦
          let m = refs-iget 1 1 w.table j g in
          let a =
            refs-walk_from parent (suc (length path)) path name i (record w { table = t }) j
              (omega (arith, m)) (rw (y, g, namex) at q) in
          omega (arith, a, m)
    ]
    | inr y ↦
        let (e, g) = get_of_refs w.table cwd held in
        let m = refs-idup w.table cwd j g in
        let a =
          refs-walk_from parent (suc (length path)) path name cwd
            (record w { table = idup cwd w.table }) j (omega (arith, m)) (rw (y, namex) at q) in
        omega (arith, a, m)
  ]
