-- ===== src/Fs/Inode/Trunc.antt =====
-- `itrunc` of kernel/fs.c gives all blocks of a file back, and no other.
use os_design_practice.Prelude.{
  ==_iff, Bool-cases, Option-cases, ap, arith, dec_lt, false, inl, inr, ltb, ne_of_test, none, refl,
  some, some_inj, sym, true, update, ℕ, ◌+◌, ◌-◌, ◌<◌, ◌==◌, ◌∙◌, ◌≡◌, ◌≢◌, ◌≤◌,
}
use os_design_practice.Fs.Inode.Runs.{IsRun, Done, free_run-Done, free_indirect-some}
use os_design_practice.Fs.{Super, Disk, Block, is_free, bfree}
use os_design_practice.Fs.Alloc.{IsSound, Freed, bfree-Freed}
use os_design_practice.Fs.Inode.{
  Inode, word, ndirect, maxfile, free_run, free_indirect, no_direct, itrunc,
}
use os_design_practice.Fs.Inode.Map.{block_of, InUse, IsFile}
use os_design_practice.Fs.Inode.Grows.{Foreign}

pub record Truncated (sb : Super) (ip : Inode) (d : Disk) (ip' : Inode) (d' : Disk) : Type 0 where
  pub sound : IsSound sb d'
  pub empty : (i : ℕ) → i ≤ ndirect → ip'.addrs i ≡ 0
  pub rest : ip' ≡ record ip { addrs = ip'.addrs; size = 0 }
  pub freed :
      (n : ℕ)
      → n < maxfile
      → block_of ip.addrs d n ≢ 0
      → is_free sb d' (block_of ip.addrs d n) ≡ true
  pub freed_indirect : ip.addrs ndirect ≢ 0 → is_free sb d' (ip.addrs ndirect) ≡ true
  pub others : (q : ℕ) → Foreign sb ip.addrs d q → InUse sb d' q × (d' q ≡ d q)

module _ (sb : Super) (ip : Inode) (d : Disk) (h : IsFile sb ip.addrs d) where
  direct_at : (j : ℕ) → j < 12 → block_of ip.addrs d j ≡ ip.addrs j
  direct_at j lt = (let t : ltb j 12 ≡ true = ground (arith, lt) in rw t refl)

  direct-InUse : (j : ℕ) → j < 12 → ip.addrs j ≢ 0 → InUse sb d (ip.addrs j)
  direct-InUse j lt nz =
      let e = direct_at j lt in rw (sym e) (h.owned j (omega (arith, lt)) (λ z. nz (sym e ∙ z)))

  direct-IsRun : IsRun sb ip.addrs d 0 12
  direct-IsRun = record {
    sound = h.sound;
    owned = λ j low high nz. direct-InUse j (omega (arith, high)) nz;
    distinct = λ j m low lt high nz e.
        (let a = direct_at j (omega (arith, lt, high)) in
          let b = direct_at m (omega (arith, high)) in
          absurd (
            omega (
              arith,
              lt,
              h.distinct j m (omega (arith, lt, high)) (omega (arith, high)) (λ z. nz (sym a ∙ z))
                  (a ∙ e ∙ sym b),
            )));
  }

  -- After the direct blocks.
  module _ (d1 : Disk) (x : Done sb ip.addrs d 0 12 d1) (ne : ip.addrs 12 ≢ 0) where
    abbrev ind : ℕ
    ind = ip.addrs 12

    own : InUse sb d ind
    own = h.own_indirect ne

    far_at : (j : ℕ) → block_of ip.addrs d (12 + j) ≡ word (d1 ind) j
    far_at j =
        let t : ltb (12 + j) 12 ≡ false = ground arith in
        let z : (ip.addrs 12 == 0) ≡ false = ground (arith, ne) in
        let s : 12 + j - 12 ≡ j = omega arith in
        rw (t, z, s) (ap (λ (bp : Block). word bp j) (sym (x.kept ind own.low)))

    -- A direct block is no other block of the file.
    direct_apart : (j m : ℕ) → j < 12 → m < 256 → word (d1 ind) m ≢ 0 → ip.addrs j ≢ word (d1 ind) m
    direct_apart j m lj lm nz e =
        let a = direct_at j lj in
        absurd (
          omega (
            arith,
            lj,
            h.distinct (12 + m) j (omega (arith, lm)) (omega (arith, lj))
                (λ z. nz (sym (far_at m) ∙ z)) (far_at m ∙ sym e ∙ sym a),
          ))

    direct_not_ind : (j : ℕ) → j < 12 → ip.addrs j ≢ ind
    direct_not_ind j lj e =
        let a = direct_at j lj in
        h.apart j (omega (arith, lj)) (λ z. ne (sym e ∙ sym a ∙ z)) (a ∙ e)

    far_not_ind : (m : ℕ) → m < 256 → word (d1 ind) m ≢ ind
    far_not_ind m lm e =
        h.apart (12 + m) (omega (arith, lm)) (λ z. ne (sym e ∙ sym (far_at m) ∙ z)) (far_at m ∙ e)

    far-InUse : (m : ℕ) → m < 256 → word (d1 ind) m ≢ 0 → InUse sb d (word (d1 ind) m)
    far-InUse m lm nz =
        rw (sym (far_at m)) (h.owned (12 + m) (omega (arith, lm)) (λ z. nz (sym (far_at m) ∙ z)))

    far-IsRun : IsRun sb (word (d1 ind)) d1 0 256
    far-IsRun = record {
      sound = x.sound;
      owned = λ m low high nz.
          (let u = far-InUse m (omega (arith, high)) nz in
            record {
              low = u.low;
              high = u.high;
              used =
                  x.others (word (d1 ind) m)
                    (λ j l hj. direct_apart j m (omega (arith, hj)) (omega (arith, high)) nz)
                  ∙ u.used;
            });
      distinct = λ j m low lt high nz e. absurd (
          omega (
            arith,
            lt,
            h.distinct (12 + j) (12 + m) (omega (arith, lt, high)) (omega (arith, high))
                (λ z. nz (sym (far_at j) ∙ z)) (far_at j ∙ e ∙ sym (far_at m)),
          ));
    }

    -- After the blocks of the indirect block, and after itself.
    module _ (d2 : Disk) (y : Done sb (word (d1 ind)) d1 0 256 d2) where
      ind-InUse : InUse sb d2 ind
      ind-InUse = record {
        low = own.low;
        high = own.high;
        used =
            y.others ind (λ j l hj e. far_not_ind j (omega (arith, hj)) e)
            ∙ x.others ind (λ j l hj. direct_not_ind j (omega (arith, hj)))
            ∙ own.used;
      }

      far-Truncated :
          (d3 : Disk)
          → Freed sb d2 ind d3
          → Truncated sb ip d (record ip { addrs = update (no_direct ip.addrs) 12 0; size = 0 }) d3
      far-Truncated d3 z = record {
        sound = z.sound;
        empty = λ i le. ground arith;
        rest = refl;
        freed = λ n lt nz. elim (dec_lt n 12) [
          | yes p ↦
              let a = direct_at n p in
              let nz' : ip.addrs n ≢ 0 = λ e. nz (a ∙ e) in
              rw a (
                z.others (ip.addrs n) (λ e. direct_not_ind n p (sym e))
                ∙ y.others (ip.addrs n) (λ j l hj e. apart_from n p nz' j (omega (arith, hj)) e)
                ∙ x.freed n (omega arith) (omega (arith, p)) nz')
          | no p ↦
              let s : n ≡ 12 + (n - 12) = omega (arith, p) in
              let a : block_of ip.addrs d n ≡ word (d1 ind) (n - 12) =
                ap (block_of ip.addrs d) s ∙ far_at (n - 12) in
              let lm : n - 12 < 256 = omega (arith, lt, p) in
              rw a (
                z.others (word (d1 ind) (n - 12)) (λ e. far_not_ind (n - 12) lm (sym e))
                ∙ y.freed (n - 12) (omega arith) (omega (arith, lm)) (λ e. nz (a ∙ e)))
        ];
        freed_indirect = λ nz. z.now_free;
        others = λ q g. (
          record {
            low = g.used.low;
            high = g.used.high;
            used =
                z.others q (λ e. g.no_indirect (sym e))
                ∙ y.others q
                    (λ j l hj e. g.no_block (12 + j) (omega (arith, hj)) (sym e ∙ sym (far_at j)))
                ∙ x.others q (λ j l hj e.
                  g.no_block j (omega (arith, hj)) (sym e ∙ sym (direct_at j (omega (arith, hj)))))
                ∙ g.used.used;
          },
          z.kept q g.used.low ∙ y.kept q g.used.low ∙ x.kept q g.used.low,
        );
      }
        where
          apart_from :
              (n : ℕ) → n < 12 → ip.addrs n ≢ 0 → (j : ℕ) → j < 256 → word (d1 ind) j ≢ ip.addrs n
          apart_from n p nz j lj e = direct_apart n j p lj (λ w. nz (sym e ∙ w)) (sym e)

  near-Truncated :
      (d1 : Disk)
      → Done sb ip.addrs d 0 12 d1
      → ip.addrs 12 ≡ 0
      → Truncated sb ip d (record ip { addrs = no_direct ip.addrs; size = 0 }) d1
  near-Truncated d1 x hole = record {
    sound = x.sound;
    empty = λ i le. elim (dec_lt i 12) [
      | yes p ↦ (let t : ltb i 12 ≡ true = ground (arith, p) in rw t refl)
      | no p ↦
          (let t : ltb i 12 ≡ false = ground (arith, p) in
            rw t (ap ip.addrs (omega (arith, le, p)) ∙ hole))
    ];
    rest = refl;
    freed = λ n lt nz. elim (dec_lt n 12) [
      | yes p ↦
          let a = direct_at n p in
          rw a (x.freed n (omega arith) (omega (arith, p)) (λ e. nz (a ∙ e)))
      | no p ↦ absurd (
          nz (
            let t : ltb n 12 ≡ false = ground (arith, p) in
            let z : (ip.addrs 12 == 0) ≡ true = ground (arith, hole) in rw (t, z) refl))
    ];
    freed_indirect = λ nz. absurd (nz hole);
    others = λ q g. (
      record {
        low = g.used.low;
        high = g.used.high;
        used =
            x.others q (λ j l hj e.
              g.no_block j (omega (arith, hj)) (sym e ∙ sym (direct_at j (omega (arith, hj)))))
            ∙ g.used.used;
      },
      x.kept q g.used.low,
    );
  }

  Outcome : Type 0
  Outcome =
      (ip' : Inode) × (d' : Disk) × (itrunc sb ip d ≡ some (ip', d')) × Truncated sb ip d ip' d'

  module _ (d1 : Disk) (e1 : free_run sb ip.addrs 12 0 d ≡ some d1)
      (x : Done sb ip.addrs d 0 12 d1) where
    near_outcome : (ip.addrs 12 == 0) ≡ true → Outcome
    unfolding Outcome itrunc
    near_outcome z = (
      record ip { addrs = no_direct ip.addrs; size = 0 },
      d1,
      rw (e1, z, itrunc) refl,
      near-Truncated d1 x ((==_iff (ip.addrs 12) 0).0 z),
    )

    module _ (z : (ip.addrs 12 == 0) ≡ false) (d2 : Disk)
        (e2 : free_run sb (word (d1 (ip.addrs 12))) 256 0 d1 ≡ some d2)
        (y : Done sb (word (d1 (ip.addrs 12))) d1 0 256 d2) where
      far_outcome :
          (d3 : Disk) × (bfree sb (ip.addrs 12) d2 ≡ some d3) × Freed sb d2 (ip.addrs 12) d3
          → Outcome
      unfolding Outcome itrunc
      far_outcome (d3, e3, w) = (
        record ip { addrs = update (no_direct ip.addrs) 12 0; size = 0 },
        d3,
        rw (e1, z, free_indirect-some sb (ip.addrs 12) 256 d1 d2 d3 e2 e3, itrunc) refl,
        far-Truncated d1 x (ne_of_test (ip.addrs 12) 0 z) d2 y d3 w,
      )

      last_outcome : Outcome
      last_outcome =
          let u = ind-InUse d1 x (ne_of_test (ip.addrs 12) 0 z) d2 y in
          far_outcome (bfree-Freed sb d2 (ip.addrs 12) y.sound u.low u.high u.used)

  then_far :
      (d1 : Disk)
      → (e1 : free_run sb ip.addrs 12 0 d ≡ some d1) → (x : Done sb ip.addrs d 0 12 d1)
      → (z : (ip.addrs 12 == 0) ≡ false)
      → (d2 : Disk) × (free_run sb (word (d1 (ip.addrs 12))) 256 0 d1 ≡ some d2)
        × Done sb (word (d1 (ip.addrs 12))) d1 0 256 d2
      → Outcome
  then_far d1 e1 x z (d2, e2, y) = last_outcome d1 e1 x z d2 e2 y

  by_direct :
      (d1 : Disk) × (free_run sb ip.addrs 12 0 d ≡ some d1) × Done sb ip.addrs d 0 12 d1 → Outcome
  by_direct (d1, e1, x) = elim (Bool-cases (ip.addrs 12 == 0)) [
    | inl z ↦ near_outcome d1 e1 x z
    | inr z ↦ then_far d1 e1 x z (
        free_run-Done sb (word (d1 (ip.addrs 12))) 256 0 d1
          (far-IsRun d1 x (ne_of_test (ip.addrs 12) 0 z)))
  ]

  -- `itrunc` does not panic. It frees every block of the file, leaves the file with none and with no size,
  -- and neither frees nor changes a block that is in use by others.
  pub itrunc-Truncated :
      (ip' : Inode) × (d' : Disk) × (itrunc sb ip d ≡ some (ip', d')) × Truncated sb ip d ip' d'
  unfolding Outcome
  itrunc-Truncated = by_direct (free_run-Done sb ip.addrs 12 0 d direct-IsRun)

-- `itrunc` leaves alone which inode it is.
pub itrunc_same :
    (sb : Super) (ip : Inode) (d : Disk) {ip' : Inode} {d' : Disk}
    → itrunc sb ip d ≡ some (ip', d')
    → (ip'.dev ≡ ip.dev) × (ip'.inum ≡ ip.inum)
unfolding itrunc
itrunc_same sb ip d {ip'} {d'} e = elim (Option-cases (free_run sb ip.addrs 12 0 d)) [
  | inl z ↦ absurd (let f : none ≡ some (ip', d') = rw (z, itrunc) at e in ground arith)
  | inr (d1, z) ↦ elim (Bool-cases (ip.addrs 12 == 0)) [
    | inl y ↦ from (some_inj (rw (z, y, itrunc) at e))
    | inr y ↦ elim (Option-cases (free_indirect sb (ip.addrs 12) 256 d1)) [
      | inl w ↦ absurd (let f : none ≡ some (ip', d') = rw (z, y, w, itrunc) at e in ground arith)
      | inr (d2, w) ↦ from (some_inj (rw (z, y, w, itrunc) at e))
    ]
  ]
]
  where
    from :
        {x : Inode} {dx : Disk}
        → ◌≡◌ {A = Inode × Disk} (x, dx) (ip', d')
        → (ip'.dev ≡ x.dev) × (ip'.inum ≡ x.inum)
    from p =
        (sym (ap (λ (r : Inode × Disk). r.0.dev) p), sym (ap (λ (r : Inode × Disk). r.0.inum) p))
