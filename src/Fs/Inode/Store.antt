-- ===== src/Fs/Inode/Store.antt =====
-- A write to a block of a file, of kernel/fs.c.
use os_design_practice.Prelude.{
  ==_iff, Bool-cases, ap, arith, false, if◌then◌else◌, inl, inr, ltb, refl, sym, true, update, ℕ,
  ℕ_discrete, ◌%◌, ◌/◌, ◌<◌, ◌==◌, ◌∙◌, ◌≡◌, ◌≢◌,
}
use os_design_practice.Fs.{Super, Disk, Block, bsize, is_free}
use os_design_practice.Fs.Alloc.{data_block}
use os_design_practice.Fs.Inode.{maxfile, ndirect}
use os_design_practice.Fs.Inode.Map.{block_of, content, InUse, IsFile}

module _ (sb : Super) (addrs : ℕ → ℕ) (d : Disk) (n a : ℕ) (bp : Block) (f : IsFile sb addrs d)
    (lt : n < maxfile) (at : block_of addrs d n ≡ a) (ne : a ≢ 0)
    (bytes : (i : ℕ) → bp i < 256) where
  abbrev d' : Disk
  d' = update d a bp

  own : InUse sb d a
  own = rw (sym at) (f.owned n lt (λ z. ne (sym at ∙ z)))

  not_indirect : (a == addrs 12) ≡ false
  not_indirect =
      (let out : a ≢ addrs 12 = λ e. f.apart n lt (λ z. ne (sym at ∙ z)) (at ∙ e) in ground arith)

  stored-bit : (q : ℕ) → q < sb.size → is_free sb d' q ≡ is_free sb d q
  stored-bit q l = data_block sb d a q bp own.low l

  pub stored-used : (q : ℕ) → InUse sb d q → InUse sb d' q
  stored-used q u = record { low = u.low; high = u.high; used = stored-bit q u.high ∙ u.used }

  pub stored-block : (m : ℕ) → block_of addrs d' m ≡ block_of addrs d m
  stored-block m = elim (Bool-cases (ltb m 12)) [
    | inl y ↦ rw y refl
    | inr k ↦ rw k (elim (Bool-cases (addrs 12 == 0)) [
      | inl z ↦ rw z refl
      | inr z ↦ rw z (rw not_indirect refl)
    ])
  ]

  pub stored-IsFile : IsFile sb addrs d'
  stored-IsFile = record {
    sound = record {
      bytes = λ q i. elim (Bool-cases (a == q)) [
        | inl y ↦ rw y (bytes i)
        | inr z ↦ rw z (f.sound.bytes q i)
      ];
      reserved = λ q l k. stored-bit q k ∙ f.sound.reserved q l k;
    };
    owned = λ m l. rw (stored-block m) (λ nz. stored-used (block_of addrs d m) (f.owned m l nz));
    own_indirect = λ nz. stored-used (addrs ndirect) (f.own_indirect nz);
    distinct = λ m k lm lk. rw (stored-block m, stored-block k) (f.distinct m k lm lk);
    apart = λ m l. rw (stored-block m) (f.apart m l);
  }

  -- Only the bytes of this block of the file are new.
  pub stored-content :
      (o : ℕ)
      → o / bsize < maxfile
      → content addrs d' o ≡ (if n == o / bsize then bp (o % bsize) else content addrs d o)
  stored-content o l = rw (stored-block (o / bsize)) (elim (ℕ_discrete n (o / bsize)) [
    | yes e ↦
        let here : block_of addrs d (o / bsize) ≡ a = ap (block_of addrs d) (sym e) ∙ at in
        let t : (n == o / bsize) ≡ true = ground (arith, e) in
        let nz : (a == 0) ≡ false = ground (arith, ne) in
        let self : (a == a) ≡ true = ground arith in rw (here, t, nz, self) refl
    | no k ↦
        let t : (n == o / bsize) ≡ false = ground (arith, k) in
        rw t (elim (Bool-cases (block_of addrs d (o / bsize) == 0)) [
          | inl z ↦ rw z refl
          | inr z ↦ rw z (
              let away : (a == block_of addrs d (o / bsize)) ≡ false = differ (o / bsize) l k in
              rw away refl)
        ])
  ])
    where
      differ : (m : ℕ) → m < maxfile → n ≢ m → (a == block_of addrs d m) ≡ false
      differ m lm k = elim (Bool-cases (a == block_of addrs d m)) [
        | inr z ↦ z
        | inl y ↦ absurd (
            k (
              f.distinct n m lt lm (λ z. ne (sym at ∙ z))
                (at ∙ (==_iff a (block_of addrs d m)).0 y)))
      ]
