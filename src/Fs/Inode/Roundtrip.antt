-- ===== src/Fs/Inode/Roundtrip.antt =====
-- Reading what has been written, with `writei` and `readi` of kernel/fs.c.
use os_design_practice.Prelude.{
  Bool-cases, List, Option, [], ap, ap₂, arith, dec_lt, inl, inr, ltb, min, negsuc, pos, some,
  some_inj, subst, true, ℕ, ℤ, ◌*◌, ◌+◌, ◌-◌, ◌<◌, ◌^◌, ◌∙◌, ◌≡◌, ◌≤◌,
}
use os_design_practice.Fs.{Super, Disk, bsize}
use os_design_practice.Fs.Inode.{Inode, User, Progress, maxfile, segment, grow, writei, readi}
use os_design_practice.Fs.Inode.Map.{content, IsFile}
use os_design_practice.Fs.Inode.Piece.{IsUser}
use os_design_practice.Fs.Inode.Write.{
  Wrote, EndsAt, WriteiOutcome, refused, written, writei-Outcome,
}
use os_design_practice.Fs.Inode.Read.{segment_ext, ReadOutcome, delivered, no_copy, readi-Outcome}

module _ (u : User) (mem : ℕ → ℕ) (law : IsUser u mem) (sb : Super) (small : sb.size < 2 ^ 32) where
  -- The state after a complete write.
  record Complete (ip : Inode) (src off n count : ℕ) (d : Disk) (ip' : Inode) (d' : Disk)
      : Type 0 where
    wrote : Wrote sb mem ip.addrs d src off n count ip'.addrs d'
    covers : off + count ≤ ip'.size
    sized : ip'.size ≤ maxfile * bsize

  grow_covers : (ip : Inode) (o : ℕ) → o ≤ (grow ip o).size
  grow_covers ip o = ground arith

  at_grown :
      (ip : Inode) (src off n count : ℕ) (d : Disk) (p : Progress)
      → EndsAt u mem law sb small 0 src off n ip d count p
      → Wrote sb mem ip.addrs d src off n count (grow p.ip (off + count)).addrs p.disk
  at_grown ip src off n count d p w = elim (Bool-cases (ltb p.ip.size (off + count))) [
    | inl y ↦ rw y w.wrote
    | inr k ↦ rw k w.wrote
  ]

  complete :
      (ip : Inode) (src off n : ℕ) (d : Disk) {r : Option (ℤ × Inode × Disk)} {ip' : Inode}
      {d' : Disk}
      → WriteiOutcome u mem law sb small ip src off n d r
      → r ≡ some (pos n, ip', d')
      → Complete ip src off n n d ip' d'
  complete ip src off n d (refused why) e = absurd (ground arith)
  complete ip src off n d {r} {ip'} {d'} (written count p low w new_size sized) e =
      let t : (pos count, grow p.ip (off + count), p.disk) ≡ (pos n, ip', d') = some_inj e in
      let c : count ≡ n = ap (λ (x : ℤ × Inode × Disk). elim x.0 [ pos k ↦ k | negsuc k ↦ 0 ]) t in
      let i : grow p.ip (off + count) ≡ ip' = ap (λ (x : ℤ × Inode × Disk). x.1) t in
      let q : p.disk ≡ d' = ap (λ (x : ℤ × Inode × Disk). x.2) t in
      let first : Complete ip src off n count d (grow p.ip (off + count)) p.disk = record {
        wrote = at_grown ip src off n count d p w;
        covers = grow_covers p.ip (off + count);
        sized = sized;
      } in
      subst (λ k. Complete ip src off n k d ip' d') c
        (subst (λ x. Complete ip src off n count d ip' x) q
          (subst (λ x. Complete ip src off n count d x p.disk) i first))

  -- What `writei` has written as a whole, `readi` of the same place gives back, if every copy to the user
  -- succeeds.
  pub readi-writei :
      (ip : Inode) (src dst off n : ℕ) (d : Disk) {ip' : Inode} {d' : Disk}
      → IsFile sb ip.addrs d
      → ip.size ≤ maxfile * bsize
      → off + n < 2 ^ 32
      → ((a m : ℕ) → u.copyout a m ≡ true)
      → writei u sb ip src off n d ≡ some (pos n, ip', d')
      → (ip2 : Inode) × (d2 : Disk) × (readi u sb ip' dst off n d'
          ≡ some (pos n, segment mem src n, ip2, d2))
  readi-writei ip src dst off n d {ip'} {d'} f sized fits stores e =
      let c =
        complete ip src off n d
          (writei-Outcome u mem law sb small ip src off n d f sized (omega (arith, fits))
            (omega (arith, fits)))
          e in
      let m : min n (ip'.size - off) ≡ n = omega (arith, c.covers) in
      given c (
        rw m at (
          readi-Outcome u sb small ip' dst off n d' c.wrote.file c.sized (omega (arith, c.covers))
            fits))
    where
      given :
          {r : Option (ℤ × List ℕ × Inode × Disk)}
          → Complete ip src off n n d ip' d'
          → ReadOutcome u sb small 0 off n [] ip' d' r
          → (ip2 : Inode) × (d2 : Disk) × (r ≡ some (pos n, segment mem src n, ip2, d2))
      given c (no_copy a m out ip2 d2 bad g rest) = absurd (let s = stores a m in ground arith)
      given c (delivered count ip2 d2 b g rest why) =
          let all : count ≡ n = elim why [
            | inl x ↦ x
            | inr x ↦ elim (dec_lt count n) [
              | yes k ↦ absurd (
                  c.wrote.present (off + count) (omega (arith, c.covers, c.sized, k)) (omega arith)
                    (omega (arith, k)) x)
              | no k ↦ omega (arith, b, k)
            ]
          ] in
          let t : 0 + count ≡ n = omega (arith, all) in
          let bytes : segment (content ip'.addrs d') off count ≡ segment mem src n =
            ap (segment (content ip'.addrs d') off) all
            ∙ segment_ext (content ip'.addrs d') mem off src n (λ i l.
              c.wrote.inside (off + i) (omega (arith, c.covers, c.sized, l)) (omega arith)
                (omega (arith, l))
              ∙ ap mem (omega arith)) in
          (ip2, d2, ap₂ (λ k l. some (pos k, l, ip2, d2)) t bytes)
