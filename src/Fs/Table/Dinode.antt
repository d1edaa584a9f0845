-- ===== src/Fs/Table/Dinode.antt =====
-- The inode that `iupdate` of kernel/fs.c writes is the one that `ilock` reads.
use os_design_practice.Prelude.{
  ==_iff, Bool-cases, ap, arith, dec_lt, false, if◌then◌else◌, inl, inr, ltb, refl, suc, sym, true,
  zero, ℕ, ℕ_discrete, ◌%◌, ◌*◌, ◌+◌, ◌/◌, ◌<◌, ◌==◌, ◌^◌, ◌∙◌, ◌≡◌, ◌≢◌, ◌≤◌, ◌⊎◌,
}
use os_design_practice.Fs.{Super, Disk, Block}
use os_design_practice.Fs.Inode.{Inode, word, set_word}
use os_design_practice.Fs.Inode.Words.{word-set_word, set_word_elsewhere, word_ext}
use os_design_practice.Fs.Table.{
  ipb, iblock, short_at, set_short, load_dinode, set_words, store_dinode, iupdate,
}

short_bytes :
    (bp : Block) (i v j : ℕ)
    → (set_short bp i v (2 * j) ≡ (if i == j then v % 256 else bp (2 * j)))
      × (set_short bp i v (2 * j + 1) ≡ (if i == j then v / 256 % 256 else bp (2 * j + 1)))
unfolding set_short
short_bytes bp i v j = (ground arith, ground arith)

pub short_at-set_short :
    (bp : Block) (i v j : ℕ)
    → v < 2 ^ 16
    → short_at (set_short bp i v) j ≡ (if i == j then v else short_at bp j)
unfolding short_at
short_at-set_short bp i v j lt =
    let (a, b) = short_bytes bp i v j in
    elim (Bool-cases (i == j)) [
      | inl y ↦ rw (a, b) rw y (omega (arith, lt))
      | inr n ↦ rw (a, b) rw n refl
    ]

set_short_elsewhere :
    (bp : Block) (i v j : ℕ) → j < 2 * i ⊎ 2 * i + 2 ≤ j → set_short bp i v j ≡ bp j
unfolding set_short
set_short_elsewhere bp i v j out = ground (arith, out)

set_words_elsewhere :
    (bp : Block) (i : ℕ) (f : ℕ → ℕ) (n j : ℕ)
    → j < 4 * i ⊎ 4 * (i + n) ≤ j
    → set_words bp i f n j ≡ bp j
unfolding set_words
set_words_elsewhere bp i f zero j out = refl
set_words_elsewhere bp i f (suc n) j out =
    set_word_elsewhere (set_words bp i f n) (i + n) (f n) j (ground (arith, out))
    ∙ set_words_elsewhere bp i f n j (ground (arith, out))

word-set_words :
    (bp : Block) (i : ℕ) (f : ℕ → ℕ) (n k : ℕ)
    → ((j : ℕ) → j < n → f j < 2 ^ 32)
    → k < n
    → word (set_words bp i f n) (i + k) ≡ f k
unfolding set_words
word-set_words bp i f zero k h lt = absurd (omega arith)
word-set_words bp i f (suc n) k h lt = elim (ℕ_discrete n k) [
  | yes e ↦
      let t : (i + n == i + k) ≡ true = ground (arith, e) in
      word-set_word (set_words bp i f n) (i + n) (f n) (i + k) (h n (omega arith)) ∙ rw t (ap f e)
  | no ne ↦
      let t : (i + n == i + k) ≡ false = ground (arith, ne) in
      word-set_word (set_words bp i f n) (i + n) (f n) (i + k) (h n (omega arith))
      ∙ rw t (word-set_words bp i f n k (λ j l. h j (omega (arith, l))) (omega (arith, lt, ne)))
]

short_ext :
    (bp bq : Block) (i : ℕ)
    → bp (2 * i) ≡ bq (2 * i)
    → bp (2 * i + 1) ≡ bq (2 * i + 1)
    → short_at bp i ≡ short_at bq i
unfolding short_at
short_ext bp bq i a b = rw (a, b) refl

-- What the fields of an inode on the disk can hold.
pub record IsStorable (ip : Inode) : Type 0 where
  pub kind : ip.kind < 2 ^ 16
  pub major : ip.major < 2 ^ 16
  pub minor : ip.minor < 2 ^ 16
  pub nlink : ip.nlink < 2 ^ 16
  pub size : ip.size < 2 ^ 32
  pub addrs : (k : ℕ) → k < 13 → ip.addrs k < 2 ^ 32

-- The same content, with the same 13 addresses.
pub record Agrees (ip q : Inode) : Type 0 where
  pub kind : q.kind ≡ ip.kind
  pub major : q.major ≡ ip.major
  pub minor : q.minor ≡ ip.minor
  pub nlink : q.nlink ≡ ip.nlink
  pub size : q.size ≡ ip.size
  pub addrs : (k : ℕ) → k < 13 → q.addrs k ≡ ip.addrs k

module _ (bp : Block) (s : ℕ) (ip : Inode) where
  abbrev b1 : Block
  b1 = set_short bp (32 * s) ip.kind

  abbrev b2 : Block
  b2 = set_short b1 (32 * s + 1) ip.major

  abbrev b3 : Block
  b3 = set_short b2 (32 * s + 2) ip.minor

  abbrev b4 : Block
  b4 = set_short b3 (32 * s + 3) ip.nlink

  abbrev b5 : Block
  b5 = set_word b4 (16 * s + 2) ip.size

  stored : store_dinode bp s ip ≡ set_words b5 (16 * s + 3) ip.addrs 13
  unfolding store_dinode
  stored = refl

  -- No byte of another inode changes.
  pub store_dinode_elsewhere :
      (j : ℕ) → j < 64 * s ⊎ 64 * s + 64 ≤ j → store_dinode bp s ip j ≡ bp j
  store_dinode_elsewhere j out =
      ap (λ (b : Block). b j) stored
      ∙ set_words_elsewhere b5 (16 * s + 3) ip.addrs 13 j (ground (arith, out))
      ∙ set_word_elsewhere b4 (16 * s + 2) ip.size j (ground (arith, out))
      ∙ set_short_elsewhere b3 (32 * s + 3) ip.nlink j (ground (arith, out))
      ∙ set_short_elsewhere b2 (32 * s + 2) ip.minor j (ground (arith, out))
      ∙ set_short_elsewhere b1 (32 * s + 1) ip.major j (ground (arith, out))
      ∙ set_short_elsewhere bp (32 * s) ip.kind j (ground (arith, out))

  -- The bytes of the shorts are those of `b4`.
  short-stored : (i : ℕ) → i < 32 * s + 4 → short_at (store_dinode bp s ip) i ≡ short_at b4 i
  short-stored i lt =
      short_ext (store_dinode bp s ip) b4 i (byte (2 * i) (omega (arith, lt)))
        (byte (2 * i + 1) (omega (arith, lt)))
    where
      byte : (j : ℕ) → j < 64 * s + 8 → store_dinode bp s ip j ≡ b4 j
      byte j l =
          ap (λ (b : Block). b j) stored
          ∙ set_words_elsewhere b5 (16 * s + 3) ip.addrs 13 j (inl (omega (arith, l)))
          ∙ set_word_elsewhere b4 (16 * s + 2) ip.size j (inl (omega (arith, l)))

  module _ (h : IsStorable ip) where
    pub stored_kind : short_at (store_dinode bp s ip) (32 * s) ≡ ip.kind
    stored_kind =
        short-stored (32 * s) (omega arith)
        ∙ short_at-set_short b3 (32 * s + 3) ip.nlink (32 * s) h.nlink
        ∙ ground (
          arith,
          short_at-set_short b2 (32 * s + 2) ip.minor (32 * s) h.minor,
          short_at-set_short b1 (32 * s + 1) ip.major (32 * s) h.major,
          short_at-set_short bp (32 * s) ip.kind (32 * s) h.kind,
        )

    stored_major : short_at (store_dinode bp s ip) (32 * s + 1) ≡ ip.major
    stored_major =
        short-stored (32 * s + 1) (omega arith)
        ∙ short_at-set_short b3 (32 * s + 3) ip.nlink (32 * s + 1) h.nlink
        ∙ ground (
          arith,
          short_at-set_short b2 (32 * s + 2) ip.minor (32 * s + 1) h.minor,
          short_at-set_short b1 (32 * s + 1) ip.major (32 * s + 1) h.major,
        )

    stored_minor : short_at (store_dinode bp s ip) (32 * s + 2) ≡ ip.minor
    stored_minor =
        short-stored (32 * s + 2) (omega arith)
        ∙ short_at-set_short b3 (32 * s + 3) ip.nlink (32 * s + 2) h.nlink
        ∙ ground (arith, short_at-set_short b2 (32 * s + 2) ip.minor (32 * s + 2) h.minor)

    stored_nlink : short_at (store_dinode bp s ip) (32 * s + 3) ≡ ip.nlink
    stored_nlink =
        short-stored (32 * s + 3) (omega arith)
        ∙ ground (arith, short_at-set_short b3 (32 * s + 3) ip.nlink (32 * s + 3) h.nlink)

    stored_size : word (store_dinode bp s ip) (16 * s + 2) ≡ ip.size
    stored_size =
        word_ext (store_dinode bp s ip) b5 (16 * s + 2) (λ k l.
          ap (λ (b : Block). b (4 * (16 * s + 2) + k)) stored
          ∙ set_words_elsewhere b5 (16 * s + 3) ip.addrs 13 (4 * (16 * s + 2) + k)
              (inl (omega (arith, l))))
        ∙ word-set_word b4 (16 * s + 2) ip.size (16 * s + 2) h.size
        ∙ ground arith

    pub load-store : (q : Inode) → Agrees ip (load_dinode (store_dinode bp s ip) s q)
    unfolding load_dinode
    load-store q = record {
      kind = stored_kind;
      major = stored_major;
      minor = stored_minor;
      nlink = stored_nlink;
      size = stored_size;
      addrs = λ k lt.
          (let t : ltb k 13 ≡ true = ground (arith, lt) in
            rw t (
              ap (λ (b : Block). word b (16 * s + 3 + k)) stored
              ∙ word-set_words b5 (16 * s + 3) ip.addrs 13 k h.addrs lt));
    }

-- Two blocks with the same bytes in a place give the same inode.
load_ext :
    (bp bq : Block) (s : ℕ) (q : Inode)
    → ((j : ℕ) → 64 * s ≤ j → j < 64 * s + 64 → bp j ≡ bq j)
    → Agrees (load_dinode bp s q) (load_dinode bq s q)
unfolding load_dinode
load_ext bp bq s q h = record {
  kind =
      sym (same 0 (omega arith) ∙ ap (short_at bq) (omega arith)) ∙ ap (short_at bp) (omega arith);
  major = sym (same 1 (omega arith));
  minor = sym (same 2 (omega arith));
  nlink = sym (same 3 (omega arith));
  size = sym (same_word 2 (omega arith));
  addrs = λ k lt.
      (let t : ltb k 13 ≡ true = ground (arith, lt) in
        rw t (
          ap (word bq) (omega arith)
          ∙ sym (same_word (3 + k) (omega (arith, lt)))
          ∙ ap (word bp) (omega arith)));
}
  where
    same : (k : ℕ) → k < 32 → short_at bp (32 * s + k) ≡ short_at bq (32 * s + k)
    same k lt =
        short_ext bp bq (32 * s + k) (h (2 * (32 * s + k)) (omega arith) (omega (arith, lt)))
          (h (2 * (32 * s + k) + 1) (omega arith) (omega (arith, lt)))

    same_word : (k : ℕ) → k < 16 → word bp (16 * s + k) ≡ word bq (16 * s + k)
    same_word k lt =
        word_ext bp bq (16 * s + k)
          (λ j l. h (4 * (16 * s + k) + j) (omega arith) (omega (arith, lt, l)))

-- An inode read from the disk as `ilock` does.
abbrev pub on_disk : Super → Disk → Inode → Inode
on_disk sb d q = load_dinode (d (iblock q.inum sb)) (q.inum % ipb) q

-- What `iupdate` writes, `ilock` reads again, if the values are in range of their fields; any other inode
-- reads as before, though it may lie in the same block.
pub iupdate-on_disk :
    (sb : Super) (d : Disk) (ip q : Inode)
    → IsStorable ip
    → (q.inum ≡ ip.inum → Agrees ip (on_disk sb (iupdate sb ip d) q))
      × (q.inum ≢ ip.inum → Agrees (on_disk sb d q) (on_disk sb (iupdate sb ip d) q))
unfolding iupdate
iupdate-on_disk sb d ip q h = (
  same,
  λ ne.
      load_ext (d (iblock q.inum sb)) (iupdate sb ip d (iblock q.inum sb)) (q.inum % ipb) q
        (other ne),
)
  where
    same_at :
        (n : ℕ) → n ≡ ip.inum → Agrees ip (load_dinode (iupdate sb ip d (iblock n sb)) (n % ipb) q)
    same_at n e =
        let t : (iblock ip.inum sb == iblock ip.inum sb) ≡ true = ground arith in
        rw e rw t (load-store (d (iblock ip.inum sb)) (ip.inum % ipb) ip h q)

    same : q.inum ≡ ip.inum → Agrees ip (on_disk sb (iupdate sb ip d) q)
    same e = same_at q.inum e

    other :
        q.inum ≢ ip.inum
        → (j : ℕ) → 64 * (q.inum % ipb) ≤ j
        → j < 64 * (q.inum % ipb) + 64
        → d (iblock q.inum sb) j ≡ iupdate sb ip d (iblock q.inum sb) j
    other ne j low high = elim (Bool-cases (iblock ip.inum sb == iblock q.inum sb)) [
      | inr n ↦ rw n refl
      | inl y ↦
          let e : iblock ip.inum sb ≡ iblock q.inum sb =
            (==_iff (iblock ip.inum sb) (iblock q.inum sb)).0 y in
          rw y (
            sym (
              store_dinode_elsewhere (d (iblock ip.inum sb)) (ip.inum % ipb) ip j
                (apart ne e j low high)
              ∙ ap (λ b. d b j) e))
    ]
      where
        apart :
            q.inum ≢ ip.inum
            → iblock ip.inum sb ≡ iblock q.inum sb
            → (j : ℕ) → 64 * (q.inum % ipb) ≤ j
            → j < 64 * (q.inum % ipb) + 64
            → j < 64 * (ip.inum % ipb) ⊎ 64 * (ip.inum % ipb) + 64 ≤ j
        apart ne e j low high = elim (dec_lt j (64 * (ip.inum % ipb))) [
          | yes p ↦ inl p
          | no p ↦ inr (omega (arith, ne, e, low, high, p))
        ]
