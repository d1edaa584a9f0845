-- ===== src/Fs/Inode/Grows.antt =====
-- How a file grows by a block, and what that leaves alone; kernel/fs.c.
use os_design_practice.Prelude.{
  Bool-cases, ap, arith, false, if◌then◌else◌, inl, inr, ltb, ne_of_test, refl, sym, true, update,
  ℕ, ℕ_discrete, ◌%◌, ◌+◌, ◌-◌, ◌/◌, ◌<◌, ◌==◌, ◌^◌, ◌∙◌, ◌≡◌, ◌≢◌, ◌⊎◌,
}
use os_design_practice.Fs.{Super, Disk, Block, bsize, is_free}
use os_design_practice.Fs.Alloc.{Allocated, data_block}
use os_design_practice.Fs.Inode.{word, set_word, maxfile, ndirect, nindirect}
use os_design_practice.Fs.Inode.Words.{word-set_word, set_word-IsByte}
use os_design_practice.Fs.Inode.Map.{
  block_of, content, InUse, IsFile, Extends, Extends-IsFile, Extends-content,
}

-- What a step on the way to a block may change: the file may get blocks, but no byte of it changes, nor
-- any other block that is in use.
pub record Grows (sb : Super) (addrs : ℕ → ℕ) (d : Disk) (addrs' : ℕ → ℕ) (d' : Disk) : Type 0 where
  pub file : IsFile sb addrs' d'
  pub same : (o : ℕ) → o / bsize < maxfile → content addrs' d' o ≡ content addrs d o
  pub frame : (q : ℕ) → InUse sb d q → q ≢ addrs ndirect → d' q ≡ d q
  pub used : (q : ℕ) → InUse sb d q → InUse sb d' q
  pub indirect : addrs ndirect ≢ 0 → addrs' ndirect ≡ addrs ndirect
  pub new_indirect : addrs ndirect ≡ 0 → addrs' ndirect ≢ 0 → is_free sb d (addrs' ndirect) ≡ true
  pub blocks :
      (n : ℕ)
      → n < maxfile
      → block_of addrs' d' n ≢ 0
      → (block_of addrs' d' n ≡ block_of addrs d n) ⊎ (is_free sb d (block_of addrs' d' n) ≡ true)
  pub stable :
      (n : ℕ) → n < maxfile → block_of addrs d n ≢ 0 → block_of addrs' d' n ≡ block_of addrs d n

pub no_growth :
    (sb : Super) (addrs : ℕ → ℕ) (d : Disk) → IsFile sb addrs d → Grows sb addrs d addrs d
no_growth sb addrs d f = record {
  file = f;
  same = λ o lt. refl;
  frame = λ q u ne. refl;
  used = λ q u. u;
  indirect = λ ne. refl;
  new_indirect = λ z nz. absurd (nz z);
  blocks = λ n lt ne. inl refl;
  stable = λ n lt ne. refl;
}

module _ (sb : Super) (addrs : ℕ → ℕ) (d : Disk) (f : IsFile sb addrs d) where
  pub fresh-InUse : (b : ℕ) (d' : Disk) → Allocated sb d b d' → InUse sb d' b
  fresh-InUse b d' a = record { low = a.low; high = a.high; used = a.now_used }

  pub Allocated-ne : (b : ℕ) (d' : Disk) → Allocated sb d b d' → (q : ℕ) → InUse sb d q → b ≢ q
  Allocated-ne b d' a q u e =
      absurd (let v : is_free sb d b ≡ false = rw e u.used in let w = a.was_free in ground arith)

  pub still_used :
      (b : ℕ) (d' : Disk) → Allocated sb d b d' → (q : ℕ) → InUse sb d q → InUse sb d' q
  still_used b d' a q u = record {
    low = u.low;
    high = u.high;
    used = a.others q u.high (Allocated-ne b d' a q u) ∙ u.used;
  }

  pub kept_used : (b : ℕ) (d' : Disk) → Allocated sb d b d' → (q : ℕ) → InUse sb d q → d' q ≡ d q
  kept_used b d' a q u = a.kept q u.low (λ e. Allocated-ne b d' a q u (sym e))

  -- A direct block.
  pub direct-Extends :
      (i b : ℕ) (d' : Disk)
      → i < ndirect
      → addrs i ≡ 0
      → Allocated sb d b d'
      → Extends sb addrs d i b (update addrs i b) d'
  direct-Extends i b d' lt hole a = record {
    hole = ground (arith, lt, hole);
    there = λ n ln. there n;
    indirect = ground (arith, lt);
    fresh = fresh-InUse b d' a;
    was_free = a.was_free;
    still_used = λ n ln u. elim (ℕ_discrete b n) [
      | yes e ↦ rw (sym e) a.now_used
      | no k ↦ a.others n ln k ∙ u
    ];
    cleared = a.cleared;
    kept = λ q l ne out. a.kept q l ne;
    sound = a.sound;
  }
    where
      same_indirect : addrs 12 ≢ 0 → d' (addrs 12) ≡ d (addrs 12)
      same_indirect ne = kept_used b d' a (addrs 12) (f.own_indirect ne)

      there :
          (n : ℕ) → block_of (update addrs i b) d' n ≡ (if i == n then b else block_of addrs d n)
      there n = elim (Bool-cases (ltb n 12)) [
        | inl y ↦ rw y refl
        | inr k ↦
            let away : (i == n) ≡ false = ground (arith, lt, k) in
            let out : (i == 12) ≡ false = ground (arith, lt) in
            rw (k, away, out)
              (elim (Bool-cases (addrs 12 == 0)) [
                | inl z ↦ rw z refl
                | inr z ↦ rw z (
                    ap (λ (bp : Block). word bp (n - 12))
                      (same_indirect (ne_of_test (addrs 12) 0 z)))
              ])
      ]

  -- The indirect block itself.
  module _ (b : ℕ) (d' : Disk) (a : Allocated sb d b d') (hole : addrs ndirect ≡ 0) where
    pub same_block : (n : ℕ) → block_of (update addrs ndirect b) d' n ≡ block_of addrs d n
    unfolding word
    same_block n = elim (Bool-cases (ltb n 12)) [
      | inl y ↦ rw y (let out : (12 == n) ≡ false = ground (arith, y) in rw out refl)
      | inr k ↦
          rw (k, hole)
            (elim (Bool-cases (b == 0)) [ inl z ↦ rw z refl | inr z ↦ rw z (rw a.cleared refl) ])
    ]

    pub indirect-IsFile : IsFile sb (update addrs ndirect b) d'
    indirect-IsFile = record {
      sound = a.sound;
      owned = λ n lt.
          rw (same_block n) (λ ne. still_used b d' a (block_of addrs d n) (f.owned n lt ne));
      own_indirect = λ ne. fresh-InUse b d' a;
      distinct = λ n m ln lm. rw (same_block n, same_block m) (f.distinct n m ln lm);
      apart = λ n lt.
          rw (same_block n)
            (λ ne e. Allocated-ne b d' a (block_of addrs d n) (f.owned n lt ne) (sym e));
    }

    pub indirect-Grows : Grows sb addrs d (update addrs ndirect b) d'
    indirect-Grows = record {
      file = indirect-IsFile;
      same = λ o lt.
          rw (same_block (o / bsize)) (elim (Bool-cases (block_of addrs d (o / bsize) == 0)) [
            | inl y ↦ rw y refl
            | inr n ↦ rw n (
                ap (λ (bp : Block). bp (o % bsize))
                  (kept_used b d' a (block_of addrs d (o / bsize))
                    (f.owned (o / bsize) lt (ne_of_test (block_of addrs d (o / bsize)) 0 n))))
          ]);
      frame = λ q u ne. kept_used b d' a q u;
      used = still_used b d' a;
      indirect = λ ne. absurd (ne hole);
      new_indirect = λ z nz. a.was_free;
      blocks = λ n lt ne. inl (same_block n);
      stable = λ n lt ne. same_block n;
    }

  pub Extends-Grows :
      (i b : ℕ) (addrs' : ℕ → ℕ) (d' : Disk)
      → i < maxfile
      → Extends sb addrs d i b addrs' d'
      → Grows sb addrs d addrs' d'
  Extends-Grows i b addrs' d' lt x = record {
    file = Extends-IsFile sb addrs d i b addrs' d' f x lt;
    same = Extends-content sb addrs d i b addrs' d' f x;
    frame = λ q u ne.
        x.kept q u.low
          (λ e. absurd (
            let v : is_free sb d b ≡ false = rw (sym e) u.used in
            let w = x.was_free in ground arith))
          ne;
    used = λ q u. record { low = u.low; high = u.high; used = x.still_used q u.high u.used };
    indirect = λ ne. x.indirect;
    new_indirect = λ z nz. absurd (nz (x.indirect ∙ z));
    blocks = λ n ln ne. elim (ℕ_discrete i n) [
      | yes e ↦
          inr (let s : block_of addrs' d' n ≡ b = x.there n ln ∙ ground arith in rw s x.was_free)
      | no k ↦ inl (x.there n ln ∙ ground arith)
    ];
    stable = λ n ln ne. elim (ℕ_discrete i n) [
      | yes e ↦ absurd (ne (ap (block_of addrs d) (sym e) ∙ x.hole))
      | no k ↦ x.there n ln ∙ ground arith
    ];
  }

  -- A block that the indirect block points to.
  pub indirect-Extends :
      (j b : ℕ) (d' : Disk)
      → sb.size < 2 ^ 32
      → j < nindirect
      → addrs ndirect ≢ 0
      → word (d (addrs ndirect)) j ≡ 0
      → Allocated sb d b d'
      → Extends sb addrs d
          (ndirect + j)
          b
          addrs
          (update d' (addrs ndirect) (set_word (d' (addrs ndirect)) j b))
  indirect-Extends j b d' small lt ne hole a = record {
    hole = rw (test_ne ne) (ground (arith, hole));
    there = λ n ln. there n;
    indirect = refl;
    fresh = record { low = a.low; high = a.high; used = bit b a.high ∙ a.now_used };
    was_free = a.was_free;
    still_used = λ n ln u.
        bit n ln
        ∙ elim (ℕ_discrete b n) [ yes e ↦ rw (sym e) a.now_used | no k ↦ a.others n ln k ∙ u ];
    cleared =
        (let out : addrs 12 ≢ b = λ e. Allocated-ne b d' a (addrs 12) own (sym e) in
          let c = a.cleared in ground arith);
    kept = λ q l nb out. (let k = a.kept q l nb in ground arith);
    sound = record {
      bytes = λ q o. written q o;
      reserved = λ n l k. bit n k ∙ a.sound.reserved n l k;
    };
  }
    where
      own : InUse sb d (addrs 12)
      own = f.own_indirect ne

      test_ne : addrs 12 ≢ 0 → (addrs 12 == 0) ≡ false
      test_ne k = ground arith

      bit :
          (n : ℕ)
          → n < sb.size
          → is_free sb (update d' (addrs 12) (set_word (d' (addrs 12)) j b)) n ≡ is_free sb d' n
      bit n l = data_block sb d' (addrs 12) n (set_word (d' (addrs 12)) j b) own.low l

      written : (q o : ℕ) → update d' (addrs 12) (set_word (d' (addrs 12)) j b) q o < 256
      written q o = elim (Bool-cases (addrs 12 == q)) [
        | inl y ↦ rw y (set_word-IsByte (d' (addrs 12)) j b o (a.sound.bytes (addrs 12)))
        | inr k ↦ rw k (a.sound.bytes q o)
      ]

      words :
          (k : ℕ)
          → word (set_word (d' (addrs 12)) j b) k ≡ (if j == k then b else word (d (addrs 12)) k)
      words k =
          word-set_word (d' (addrs 12)) j b k (omega (arith, a.high, small))
          ∙ ap (λ (bp : Block). if j == k then b else word bp k) (kept_used b d' a (addrs 12) own)

      there :
          (n : ℕ)
          → block_of addrs (update d' (addrs 12) (set_word (d' (addrs 12)) j b)) n
            ≡ (if 12 + j == n then b else block_of addrs d n)
      there n = elim (Bool-cases (ltb n 12)) [
        | inl y ↦ rw y (let out : (12 + j == n) ≡ false = ground (arith, y) in rw out refl)
        | inr k ↦
            let at : (12 + j == n) ≡ (j == n - 12) = ground (arith, k) in
            let self : (addrs 12 == addrs 12) ≡ true = ground arith in
            rw (k, test_ne ne, at, self) (words (n - 12))
      ]

pub InUse-pos : (sb : Super) (d : Disk) (q : ℕ) → InUse sb d q → 0 < q
InUse-pos sb d q u = omega (arith, u.low)

-- A block is not both free and in use.
pub ne_of_free : (sb : Super) (d : Disk) (p q : ℕ) → is_free sb d p ≡ true → InUse sb d q → q ≢ p
ne_of_free sb d p q y u e =
    absurd (let v : is_free sb d p ≡ false = rw (sym e) u.used in ground arith)

pub trans-Grows :
    (sb : Super) (addrs : ℕ → ℕ) (d : Disk) {addrs1 addrs2 : ℕ → ℕ} {d1 d2 : Disk}
    → Grows sb addrs d addrs1 d1
    → Grows sb addrs1 d1 addrs2 d2
    → Grows sb addrs d addrs2 d2
trans-Grows sb addrs d {addrs1} {addrs2} {d1} {d2} g h = record {
  file = h.file;
  same = λ o lt. h.same o lt ∙ g.same o lt;
  frame = λ q u ne. h.frame q (g.used q u) (away q u ne) ∙ g.frame q u ne;
  used = λ q u. h.used q (g.used q u);
  indirect = λ ne. h.indirect (λ z. ne (sym (g.indirect ne) ∙ z)) ∙ g.indirect ne;
  new_indirect = λ z nz. elim (ℕ_discrete (addrs1 12) 0) [
    | no k ↦ (let s = h.indirect k in rw s (g.new_indirect z k))
    | yes k ↦ was_free (addrs2 12) (h.new_indirect k nz) (h.file.own_indirect nz)
  ];
  blocks = λ n lt ne. elim (h.blocks n lt ne) [
    | inr y ↦ inr (was_free (block_of addrs2 d2 n) y (h.file.owned n lt ne))
    | inl e ↦ elim (g.blocks n lt (λ z. ne (e ∙ z))) [ inl k ↦ inl (e ∙ k) | inr y ↦ inr (rw e y) ]
  ];
  stable = λ n lt ne. h.stable n lt (λ z. ne (sym (g.stable n lt ne) ∙ z)) ∙ g.stable n lt ne;
}
  where
    away : (q : ℕ) → InUse sb d q → q ≢ addrs 12 → q ≢ addrs1 12
    away q u ne = elim (ℕ_discrete (addrs 12) 0) [
      | no k ↦ (λ e. ne (e ∙ g.indirect k))
      | yes k ↦ elim (ℕ_discrete (addrs1 12) 0) [
        | yes m ↦ (λ e. absurd (omega (arith, InUse-pos sb d q u, e, m)))
        | no m ↦ ne_of_free sb d (addrs1 12) q (g.new_indirect k m) u
      ]
    ]

    was_free : (q : ℕ) → is_free sb d1 q ≡ true → InUse sb d2 q → is_free sb d q ≡ true
    was_free q y u = elim (Bool-cases (is_free sb d q)) [
      | inl t ↦ t
      | inr t ↦
          absurd (
            ne_of_free sb d1 q q y (g.used q (record { low = u.low; high = u.high; used = t }))
              refl)
    ]

-- A block in use that is not of this file.
pub record Foreign (sb : Super) (addrs : ℕ → ℕ) (d : Disk) (q : ℕ) : Type 0 where
  pub used : InUse sb d q
  pub no_indirect : q ≢ addrs ndirect
  pub no_block : (n : ℕ) → n < maxfile → q ≢ block_of addrs d n

pub Grows-Foreign :
    (sb : Super) (addrs : ℕ → ℕ) (d : Disk) {addrs' : ℕ → ℕ} {d' : Disk} (q : ℕ)
    → Grows sb addrs d addrs' d'
    → Foreign sb addrs d q
    → Foreign sb addrs' d' q × (d' q ≡ d q)
Grows-Foreign sb addrs d {addrs'} {d'} q g x = (
  record {
    used = g.used q x.used;
    no_indirect = elim (ℕ_discrete (addrs 12) 0) [
      | no k ↦ (λ e. x.no_indirect (e ∙ g.indirect k))
      | yes k ↦ elim (ℕ_discrete (addrs' 12) 0) [
        | yes m ↦ (λ e. absurd (omega (arith, InUse-pos sb d q x.used, e, m)))
        | no m ↦ ne_of_free sb d (addrs' 12) q (g.new_indirect k m) x.used
      ]
    ];
    no_block = λ n lt e. elim (ℕ_discrete (block_of addrs' d' n) 0) [
      | yes z ↦ absurd (omega (arith, InUse-pos sb d q x.used, e, z))
      | no nz ↦ elim (g.blocks n lt nz) [
        | inl s ↦ x.no_block n lt (e ∙ s)
        | inr y ↦ ne_of_free sb d (block_of addrs' d' n) q y x.used e
      ]
    ];
  },
  g.frame q x.used x.no_indirect,
)
