-- ===== src/Fs/Inode/Bmap.antt =====
-- `bmap` of kernel/fs.c: the address of a block of a file, which it allocates if need be.
use os_design_practice.Prelude.{
  ==_iff, Bool-cases, ap, arith, false, inl, inr, ltb, ltb→lt, ne_of_test, refl, some, sym, true,
  update, ℕ, ℕ_discrete, ◌+◌, ◌-◌, ◌<◌, ◌==◌, ◌^◌, ◌∙◌, ◌≡◌, ◌≢◌,
}
use os_design_practice.Fs.Inode.Grows.{
  Grows, no_growth, direct-Extends, indirect-Grows, Extends-Grows, indirect-Extends, trans-Grows,
}
use os_design_practice.Fs.{Super, Disk, is_free}
use os_design_practice.Fs.Alloc.{BallocOutcome, out_of_blocks, allocated, balloc-Outcome}
use os_design_practice.Fs.Inode.{
  Inode, word, set_word, maxfile, ndirect, nindirect, fill_slot, fill_word, slot, indirect_slot,
  bmap,
}
use os_design_practice.Fs.Inode.Map.{block_of, IsFile}

-- What `bmap` gives: the address of the block, 0 if there is none and none is free.
pub record Mapped (sb : Super) (ip : Inode) (bn : ℕ) (d : Disk) (a : ℕ) (ip' : Inode) (d' : Disk)
    : Type 0 where
  pub grows : Grows sb ip.addrs d ip'.addrs d'
  pub at : block_of ip'.addrs d' bn ≡ a
  pub rest : ip' ≡ record ip { addrs = ip'.addrs }
  pub full : a ≡ 0 → (n : ℕ) → n < sb.size → is_free sb d' n ≡ false

module _ (sb : Super) (ip : Inode) (d : Disk) (f : IsFile sb ip.addrs d) where
  slot-Mapped :
      (i : ℕ) → i < ndirect → let (a, ip', d') = slot sb ip i d in Mapped sb ip i d a ip' d'
  unfolding slot
  slot-Mapped i lt = elim (Bool-cases (ip.addrs i == 0)) [
    | inr n ↦ rw n (record {
      grows = no_growth sb ip.addrs d f;
      at = ground (arith, lt);
      rest = refl;
      full = λ z. absurd (ne_of_test (ip.addrs i) 0 n z);
    })
    | inl y ↦ rw y (granted y (balloc-Outcome sb d f.sound))
  ]
    where
      granted :
          {r : ℕ × Disk}
          → ip.addrs i == 0 ≡ true
          → BallocOutcome sb d r
          → let (a, ip', d') = fill_slot ip i r in Mapped sb ip i d a ip' d'
      granted y (out_of_blocks none_free) = record {
        grows = no_growth sb ip.addrs d f;
        at = ground (arith, lt, y);
        rest = refl;
        full = λ z. none_free;
      }
      granted y (allocated b d' a) =
          let nz : (b == 0) ≡ false = ground (arith, a.low) in
          rw nz (record {
            grows =
                Extends-Grows sb ip.addrs d f i b (update ip.addrs i b) d' (omega (arith, lt))
                  (direct-Extends sb ip.addrs d f i b d' lt ((==_iff (ip.addrs i) 0).0 y) a);
            at = ground (arith, lt);
            rest = refl;
            full = λ z. absurd (ne_of_test b 0 nz z);
          })

  -- The indirect block is there, or there is no room for it.
  abbrev HasIndirect : ℕ → Inode → Disk → Type 0
  HasIndirect a ip' d' =
      Grows sb ip.addrs d ip'.addrs d'
      × (ip'.addrs ndirect ≡ a)
      × (ip' ≡ record ip { addrs = ip'.addrs })
      × (a ≡ 0 → (n : ℕ) → n < sb.size → is_free sb d' n ≡ false)

  slot-HasIndirect : let (a, ip', d') = slot sb ip ndirect d in HasIndirect a ip' d'
  unfolding slot
  slot-HasIndirect = elim (Bool-cases (ip.addrs 12 == 0)) [
    | inr n ↦
        rw n (no_growth sb ip.addrs d f, refl, refl, λ z. absurd (ne_of_test (ip.addrs 12) 0 n z))
    | inl y ↦ rw y (granted ((==_iff (ip.addrs 12) 0).0 y) (balloc-Outcome sb d f.sound))
  ]
    where
      granted :
          {r : ℕ × Disk}
          → ip.addrs 12 ≡ 0
          → BallocOutcome sb d r
          → let (a, ip', d') = fill_slot ip 12 r in HasIndirect a ip' d'
      granted z (out_of_blocks none_free) = (no_growth sb ip.addrs d f, z, refl, λ e. none_free)
      granted z (allocated b d' a) =
          let nz : (b == 0) ≡ false = ground (arith, a.low) in
          rw nz
            (indirect-Grows sb ip.addrs d f b d' a z, refl, refl, λ e. absurd (ne_of_test b 0 nz e))

  indirect_slot-Mapped :
      (j : ℕ)
      → sb.size < 2 ^ 32
      → j < nindirect
      → ip.addrs ndirect ≢ 0
      → let (a, d') = indirect_slot sb (ip.addrs ndirect) j d in
        Mapped sb ip (ndirect + j) d a ip d'
  unfolding indirect_slot
  indirect_slot-Mapped j small lt ne = elim (Bool-cases (word (d (ip.addrs 12)) j == 0)) [
    | inr n ↦ rw n (record {
      grows = no_growth sb ip.addrs d f;
      at = lookup;
      rest = refl;
      full = λ z. absurd (ne_of_test (word (d (ip.addrs 12)) j) 0 n z);
    })
    | inl y ↦
        rw y (granted ((==_iff (word (d (ip.addrs 12)) j) 0).0 y) (balloc-Outcome sb d f.sound))
  ]
    where
      lookup : block_of ip.addrs d (12 + j) ≡ word (d (ip.addrs 12)) j
      lookup = (let t : (ip.addrs 12 == 0) ≡ false = ground arith in rw t (ground arith))

      granted :
          {r : ℕ × Disk}
          → word (d (ip.addrs 12)) j ≡ 0
          → BallocOutcome sb d r
          → let (a, d') = fill_word (ip.addrs 12) j r in Mapped sb ip (12 + j) d a ip d'
      granted z (out_of_blocks none_free) = record {
        grows = no_growth sb ip.addrs d f;
        at = lookup ∙ z;
        rest = refl;
        full = λ e. none_free;
      }
      granted z (allocated b d' a) =
          let nz : (b == 0) ≡ false = ground (arith, a.low) in
          let x = indirect-Extends sb ip.addrs d f j b d' small lt ne z a in
          rw nz (record {
            grows =
                Extends-Grows sb ip.addrs d f (12 + j) b ip.addrs
                  (update d' (ip.addrs 12) (set_word (d' (ip.addrs 12)) j b)) (omega (arith, lt)) x;
            at = x.there (12 + j) (omega (arith, lt)) ∙ ground arith;
            rest = refl;
            full = λ z. absurd (ne_of_test b 0 nz z);
          })

-- `bmap` of a block within the largest file does not panic. It returns the address of the block, in a
-- file that has got this block (and its indirect block) if need be, but in which no byte has changed; it
-- returns 0 only if no block is free. No other block that is in use is changed.
pub bmap-Mapped :
    (sb : Super) (ip : Inode) (bn : ℕ) (d : Disk)
    → sb.size < 2 ^ 32
    → bn < maxfile
    → IsFile sb ip.addrs d
    → (a : ℕ) × (ip' : Inode) × (d' : Disk) × (bmap sb ip bn d ≡ some (a, ip', d'))
      × Mapped sb ip bn d a ip' d'
unfolding bmap
bmap-Mapped sb ip bn d small lt f = elim (Bool-cases (ltb bn 12)) [
  | inl y ↦
      let r = slot sb ip bn d in
      (r.0, r.1, r.2, rw y refl, slot-Mapped sb ip d f bn (ltb→lt bn 12 y))
  | inr n ↦ far n (slot sb ip 12 d) (slot-HasIndirect sb ip d f) refl
]
  where
    far :
        ltb bn 12 ≡ false
        → (r : ℕ × Inode × Disk) → (let (a, ip', d') = r in HasIndirect sb ip d f a ip' d')
        → slot sb ip 12 d ≡ r
        → (a : ℕ) × (ip' : Inode) × (d' : Disk) × (bmap sb ip bn d ≡ some (a, ip', d'))
          × Mapped sb ip bn d a ip' d'
    far n (ind, ip1, d1) (g, at, rest, full) e =
        let t : ltb (bn - 12) 256 ≡ true = ground (arith, lt, n) in
        elim (Bool-cases (ind == 0)) [
          | inl z ↦ (
            0,
            ip1,
            d1,
            rw (n, t, e, z) refl,
            record {
              grows = g;
              at = (let z' : (ip1.addrs 12 == 0) ≡ true = rw at z in rw (n, z') refl);
              rest = rest;
              full = λ o. full ((==_iff ind 0).0 z);
            },
          )
          | inr z ↦
              let r = indirect_slot sb ind (bn - 12) d1 in
              let m = second at (ne_of_test ind 0 z) g.file in
              (
                r.0,
                ip1,
                r.1,
                rw (n, t, e, z) refl,
                record {
                  grows = trans-Grows sb ip.addrs d g m.grows;
                  at =
                      ap (block_of ip1.addrs r.1)
                        (let s : bn ≡ 12 + (bn - 12) = ground (arith, n) in s)
                      ∙ m.at;
                  rest = rest;
                  full = m.full;
                },
              )
        ]
      where
        second :
            ip1.addrs 12 ≡ ind
            → ind ≢ 0
            → IsFile sb ip1.addrs d1
            → let (a, d') = indirect_slot sb ind (bn - 12) d1 in
              Mapped sb ip1 (12 + (bn - 12)) d1 a ip1 d'
        second at ne g = rw (sym at) (
            indirect_slot-Mapped sb ip1 d1 g (bn - 12) small (omega (arith, lt))
              (λ z. ne (sym at ∙ z)))

-- A block that the file has is found.
pub Mapped-present :
    {sb : Super} {ip ip' : Inode} {d d' : Disk} {a : ℕ} (bn : ℕ)
    → bn < maxfile
    → Mapped sb ip bn d a ip' d'
    → a ≡ 0
    → block_of ip.addrs d bn ≡ 0
Mapped-present {sb} {ip} {ip'} {d} {d'} {a} bn lt g z =
    elim (ℕ_discrete (block_of ip.addrs d bn) 0) [
      | yes e ↦ e
      | no k ↦ absurd (k (sym (g.grows.stable bn lt k) ∙ g.at ∙ z))
    ]
