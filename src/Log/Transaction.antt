-- ===== src/Log/Transaction.antt =====
-- A transaction of the log of kernel/log.c, from the writes of the file system to the disk: all of
-- its writes survive a crash, or none.
use os_design_practice.Prelude.{
  ==_iff, Bool-cases, List, Option, Option-cases, [], ap, arith, false, inl, inr, length, none,
  refl, some, some_inj, subst, sym, take, update, ℕ, ◌<◌, ◌==◌, ◌||◌, ◌∙◌, ◌∷◌, ◌≡◌, ◌≤◌,
}
use os_design_practice.Log.{Log, Disk, absorb, log_write, commit, run, recover_from_log}
use os_design_practice.Log.Crash.{elem, committed, commit_is_atomic}

elem-absorb : (a b : ℕ) (bs : List ℕ) → elem a (absorb b bs) ≡ (b == a || elem a bs)
unfolding absorb
elem-absorb a b [] = refl
elem-absorb a b (x ∷ xs) = elim (Bool-cases (x == b)) [
  | inl y ↦ rw y (let e : x ≡ b = (==_iff x b).0 y in rw e (ground arith))
  | inr n ↦ rw n (ground (arith, elem-absorb a b xs))
]

log_write_blocks :
    (b : ℕ) (l : Log) {l' : Log} → log_write b l ≡ some l' → l'.blocks ≡ absorb b l.blocks
unfolding log_write
log_write_blocks b l e = ground arith

module _ {B : Type 0} where
  -- `modify b->data[]; log_write(b)`, on the log and the buffer cache; `none` is a panic.
  unfoldable pub log_block : ℕ × B → Log × (ℕ → B) → Option (Log × (ℕ → B))
  log_block (b, x) (l, cache) = elim (log_write b l) [
    | none ↦ none
    | some l' ↦ some (l', update cache b x)
  ]

  unfoldable pub log_blocks : List (ℕ × B) → Log × (ℕ → B) → Option (Log × (ℕ → B))
  log_blocks [] s = some s
  log_blocks (w ∷ ws) s = elim (log_block w s) [ none ↦ none | some s' ↦ log_blocks ws s' ]

  -- What the writes make of the blocks, one after the other.
  abbrev pub apply_writes : List (ℕ × B) → (ℕ → B) → ℕ → B
  apply_writes [] home = home
  apply_writes ((b, x) ∷ ws) home = apply_writes ws (update home b x)

  -- The header names every block whose cached content differs from its home.
  abbrev Covers : (ℕ → B) → List ℕ → (ℕ → B) → Type 0
  Covers home bs cache = (a : ℕ) → elem a bs ≡ false → cache a ≡ home a

  -- A write that succeeds adds its block to the header.
  log_block_inv :
      (w : ℕ × B) (s s' : Log × (ℕ → B))
      → log_block w s ≡ some s'
      → (s'.0.blocks ≡ absorb w.0 s.0.blocks) × (s'.1 ≡ update s.1 w.0 w.1)
  unfolding log_block
  log_block_inv (b, x) (l, cache) s' e = elim (Option-cases (log_write b l)) [
    | inl n ↦ absurd (ground arith)
    | inr (m, y) ↦
        let e' : some (m, update cache b x) ≡ some s' = rw (y, log_block) at e in
        let p : (m, update cache b x) ≡ s' = some_inj e' in
        (
          ap (λ (r : Log × (ℕ → B)). r.0.blocks) (sym p) ∙ log_write_blocks b l y,
          ap (λ (r : Log × (ℕ → B)). r.1) (sym p),
        )
  ]

  Covers-update :
      (home : ℕ → B) (b : ℕ) (x : B) (bs : List ℕ) (cache : ℕ → B)
      → Covers home bs cache
      → Covers home (absorb b bs) (update cache b x)
  Covers-update home b x bs cache h a n =
      let both : (b == a || elem a bs) ≡ false = sym (elem-absorb a b bs) ∙ n in
      elim (Bool-cases (b == a)) [
        | inl y ↦ absurd (ground arith)
        | inr ne ↦ rw ne (h a (ground arith))
      ]

  -- After the writes the cache is what they make of it, and the header covers the changes.
  log_blocks-lem :
      (ws : List (ℕ × B)) (home : ℕ → B) (s s' : Log × (ℕ → B))
      → log_blocks ws s ≡ some s'
      → Covers home s.0.blocks s.1
      → (s'.1 ≡ apply_writes ws s.1) × Covers home s'.0.blocks s'.1
  unfolding log_blocks
  log_blocks-lem [] home s s' e c =
      let p : s ≡ s' = some_inj e in
      (
        ap (λ (r : Log × (ℕ → B)). r.1) (sym p),
        subst (λ (r : Log × (ℕ → B)). Covers home r.0.blocks r.1) p c,
      )
  log_blocks-lem ((b, x) ∷ ws) home s s' e c = elim (Option-cases (log_block (b, x) s)) [
    | inl n ↦ absurd (let e' : none ≡ some s' = rw (n, log_blocks) at e in cc)
    | inr (m, y) ↦
        let i = log_block_inv (b, x) s m y in
        let c' : Covers home m.0.blocks m.1 =
          rw (i.0, i.1) (Covers-update home b x s.0.blocks s.1 c) in
        let r = log_blocks-lem ws home m s' (rw (y, log_blocks) at e) c' in
        (r.0 ∙ ap (apply_writes ws) i.1, r.1)
  ]

  -- The writes of a transaction that begins with an empty log and a cache that agrees with the disk,
  -- each through `log_write`, are applied to the disk as a whole or not at all, wherever a crash cuts
  -- the commit and whatever the cache holds after it. The header is the point of commit: up to it
  -- none is applied, after it all are, in order, the last write of a block winning.
  pub transaction_is_atomic :
      (other : ℕ → B) (ws : List (ℕ × B)) (l : Log) (d : Disk B) (s : Log × (ℕ → B)) (k : ℕ)
      → d.header ≡ []
      → l.blocks ≡ []
      → log_blocks ws (l, d.home) ≡ some s
      → let after = (recover_from_log other (run s.1 (take k (commit s.0.blocks)) d)).home in
        (k ≤ length s.0.blocks → (a : ℕ) → after a ≡ d.home a)
        × (length s.0.blocks < k → (a : ℕ) → after a ≡ apply_writes ws d.home a)
  transaction_is_atomic other ws l d s k clean empty e =
      let r = log_blocks-lem ws d.home (l, d.home) s e (λ a n. refl) in
      let c = commit_is_atomic s.1 other s.0.blocks k d clean in (c.0, λ lt a. c.1 lt a ∙ whole r a)
    where
      whole :
          (s.1 ≡ apply_writes ws d.home) × Covers d.home s.0.blocks s.1
          → (a : ℕ) → committed s.1 s.0.blocks d.home a ≡ apply_writes ws d.home a
      whole (same, c) a = elim (Bool-cases (elem a s.0.blocks)) [
        | inl y ↦ rw y (ap (λ f. f a) same)
        | inr n ↦ rw n (sym (c a n) ∙ ap (λ f. f a) same)
      ]
