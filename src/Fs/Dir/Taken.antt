-- ===== src/Fs/Dir/Taken.antt =====
-- The counts of the table of inodes after a look into a directory; kernel/fs.c.
use os_design_practice.Prelude.{
  Bool-cases, List, Option, Option-cases, arith, get_elem?, inl, inr, modify, none, refl, some,
  subst, ℕ, ◌+◌, ◌-◌, ◌==◌, ◌≡◌,
}
use os_design_practice.Fs.{Super, Disk}
use os_design_practice.Fs.Inode.{Inode}
use os_design_practice.Fs.Table.{Entry, Outcome, panics, sleeps, done, iget, iput}
use os_design_practice.Fs.Table.Held.{refs, iput_lem}
use os_design_practice.Fs.Table.Taken.{taken, done_inj, one_less, refs-iget}
use os_design_practice.Fs.Dir.{look_from, dirlookup, put_at}

abbrev pub place : Option (ℕ × ℕ) → Option ℕ
place none = none
place (some p) = some p.0

pub refs-dirlookup :
    (sb : Super) (name : ℕ → ℕ) (t : List Entry) (dp : Inode) (d : Disk) (j : ℕ)
    {r : Option (ℕ × ℕ) × List Entry × Inode × Disk}
    → dirlookup sb name t dp d ≡ done r
    → refs r.1 j ≡ refs t j + taken (place r.0) j
unfolding dirlookup
refs-dirlookup sb name t dp d j {r} e = elim (Bool-cases (dp.kind == 1)) [
  | inr n ↦ absurd (let q : panics ≡ done r = rw (n, dirlookup) at e in ground arith)
  | inl y ↦ given (look_from sb name dp.size 0 dp d) (rw (y, dirlookup) at e)
]
  where
    given :
        (o : Outcome (Option (ℕ × ℕ) × Inode × Disk))
        → elim o [
          | panics ↦ panics
          | sleeps ↦ sleeps
          | done (none, dp', d') ↦ done (none, t, dp', d')
          | done (some (inum, off), dp', d') ↦ elim (iget dp'.dev inum t) [
            | none ↦ panics
            | some (i, t') ↦ done (some (i, off), t', dp', d')
          ]
        ]
          ≡ done r
        → refs r.1 j ≡ refs t j + taken (place r.0) j
    given panics q = absurd (ground arith)
    given sleeps q = absurd (ground arith)
    given (done (none, dp', d')) q =
        subst
          (λ (x : Option (ℕ × ℕ) × List Entry × Inode × Disk).
            refs x.1 j ≡ refs t j + taken (place x.0) j)
          (done_inj q) (omega arith)
    given (done (some (inum, off), dp', d')) q = elim (Option-cases (iget dp'.dev inum t)) [
      | inl n ↦ absurd (let p : panics ≡ done r = rw n at q in ground arith)
      | inr ((i, t'), g) ↦
          subst
            (λ (x : Option (ℕ × ℕ) × List Entry × Inode × Disk).
              refs x.1 j ≡ refs t j + taken (place x.0) j)
            (done_inj (rw g at q)) (refs-iget dp'.dev inum t j g)
    ]

-- `iput` of the entry at `i`.
pub refs-put_at :
    (sb : Super) (me i : ℕ) (t : List Entry) (d : Disk) (j : ℕ) {r : List Entry × Disk}
    → put_at sb me i t d ≡ done r
    → refs r.0 j ≡ refs t j - taken (some i) j
refs-put_at sb me i t d j {r} q = elim (Option-cases (get_elem? t i)) [
  | inl n ↦ absurd (let p : panics ≡ done r = rw (n, put_at) at q in ground arith)
  | inr (e, y) ↦ given e y (iput sb me d e) refl (rw (y, put_at) at q)
]
  where
    given :
        (e : Entry)
        → get_elem? t i ≡ some e
        → (o : Outcome (Entry × Disk)) → iput sb me d e ≡ o
        → elim o [
          | panics ↦ panics
          | sleeps ↦ sleeps
          | done (e', d') ↦ done (modify t i (λ x. e'), d')
        ]
          ≡ done r
        → refs r.0 j ≡ refs t j - taken (some i) j
    given e y panics z p = absurd (ground arith)
    given e y sleeps z p = absurd (ground arith)
    given e y (done (e', d')) z p =
        subst (λ (x : List Entry × Disk). refs x.0 j ≡ refs t j - taken (some i) j) (done_inj p)
          (one_less t i j (λ x. e') y (iput_lem sb me d d' e e' z).0)
