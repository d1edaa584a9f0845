-- ===== src/Buffer/Recycle.antt =====
-- Which buffer `bget` of kernel/bio.c gives.
use os_design_practice.Prelude.{
  ==_iff, Bool, List, Option, Option-cases, [], arith, false, first_index, first_index-found,
  first_index-none, get_elem?, get_elem?-modify_ne, get_elem?-modify_self, inl, inr, length,
  length-modify, modify, ne_of_test, none, refl, some, some_inj, suc, sym, true, zero, ℕ, ◌%◌, ◌+◌,
  ◌<◌, ◌^◌, ◌∷◌, ◌≡◌, ◌≢◌,
}
use os_design_practice.Buffer.{Buf, last_index, holds, is_free, retain, recycle, bget}

module _ {A : Type 0} where
  last_index-none_inv :
      (test : A → Bool) (x : A) (xs : List A)
      → last_index test (x ∷ xs) ≡ none
      → (test x ≡ false) × (last_index test xs ≡ none)
  unfolding last_index
  last_index-none_inv test x xs e = elim (Option-cases (last_index test xs)) [
    | inr (j, m) ↦ absurd (ground arith)
    | inl m ↦ (ground arith, m)
  ]

  pub last_index-none :
      (test : A → Bool) (xs : List A) (i : ℕ) {x : A}
      → last_index test xs ≡ none
      → get_elem? xs i ≡ some x
      → test x ≡ false
  unfolding last_index
  last_index-none test [] i e g = absurd (ground arith)
  last_index-none test (x ∷ xs) zero e g = rw (sym (some_inj g)) (last_index-none_inv test x xs e).0
  last_index-none test (x ∷ xs) (suc i) e g =
      last_index-none test xs i (last_index-none_inv test x xs e).1 g

  -- The element passes the test, and none behind it does.
  pub record Last (test : A → Bool) (xs : List A) (i : ℕ) (x : A) : Type 0 where
    pub found : get_elem? xs i ≡ some x
    pub passes : test x ≡ true
    pub behind : (j : ℕ) (y : A) → i < j → get_elem? xs j ≡ some y → test y ≡ false

  pub last_index-Last :
      (test : A → Bool) (xs : List A) (i : ℕ)
      → last_index test xs ≡ some i
      → (x : A) × Last test xs i x
  unfolding last_index
  last_index-Last test [] i e = absurd (ground arith)
  last_index-Last test (x ∷ xs) i e = elim (Option-cases (last_index test xs)) [
    | inl m ↦
        let s : i ≡ 0 = ground arith in
        (
          x,
          record {
            found = rw s refl;
            passes = ground arith;
            behind = λ j y lt g. none_behind m j y (omega arith) g;
          },
        )
    | inr (j, m) ↦
        let (z, l) = last_index-Last test xs j m in
        let s : i ≡ suc j = ground arith in
        (
          z,
          record {
            found = rw s l.found;
            passes = l.passes;
            behind = λ k y lt g. later j l.behind k y (omega arith) g;
          },
        )
  ]
    where
      none_behind :
          last_index test xs ≡ none
          → (j : ℕ) (y : A) → 0 < j
          → get_elem? (x ∷ xs) j ≡ some y
          → test y ≡ false
      none_behind m zero y lt g = absurd (omega arith)
      none_behind m (suc j) y lt g = last_index-none test xs j m g

      later :
          (j : ℕ)
          → ((k : ℕ) (y : A) → j < k → get_elem? xs k ≡ some y → test y ≡ false)
          → (k : ℕ) (y : A) → suc j < k
          → get_elem? (x ∷ xs) k ≡ some y
          → test y ≡ false
      later j h zero y lt g = absurd (omega arith)
      later j h (suc k) y lt g = h k y (omega arith) g

module _ {B : Type 0} where
  abbrev pub IsNowhere : ℕ → ℕ → List (Buf B) → Type 0
  IsNowhere dev blockno bs =
      (j : ℕ) (b : Buf B) → get_elem? bs j ≡ some b → holds dev blockno b ≡ false

  -- The buffer at `i` is now `b'`, and no other changes.
  pub record Changed (bs : List (Buf B)) (i : ℕ) (b' : Buf B) (bs' : List (Buf B)) : Type 0 where
    pub here : get_elem? bs' i ≡ some b'
    pub others : (j : ℕ) → i ≢ j → get_elem? bs' j ≡ get_elem? bs j
    pub size : length bs' ≡ length bs

  modify-Changed :
      (bs : List (Buf B)) (i : ℕ) (f : Buf B → Buf B) {b : Buf B}
      → get_elem? bs i ≡ some b
      → Changed bs i (f b) (modify bs i f)
  modify-Changed bs i f e = record {
    here = get_elem?-modify_self bs i f e;
    others = λ j ne. get_elem?-modify_ne bs i j f ne;
    size = length-modify bs i f;
  }

  pub data BgetOutcome (dev blockno : ℕ) (bs : List (Buf B))
      : Option (ℕ × List (Buf B)) → Type 0 where
    hit :
        (i : ℕ) (b : Buf B) (bs' : List (Buf B))
        → get_elem? bs i ≡ some b
        → b.dev ≡ dev
        → b.blockno ≡ blockno
        → Changed bs i (record b { refcnt = (b.refcnt + 1) % 2 ^ 32 }) bs'
        → BgetOutcome dev blockno bs (some (i, bs'))
    recycled :
        (i : ℕ) (b : Buf B) (bs' : List (Buf B))
        → IsNowhere dev blockno bs
        → Last is_free bs i b
        → Changed bs i (record b { dev = dev; blockno = blockno; valid = false; refcnt = 1 }) bs'
        → BgetOutcome dev blockno bs (some (i, bs'))
    panics :
        IsNowhere dev blockno bs
        → ((j : ℕ) (b : Buf B) → get_elem? bs j ≡ some b → b.refcnt ≢ 0)
        → BgetOutcome dev blockno bs none

  -- `bget` gives a buffer that holds the block, with one reference more, if there is one. If not, it
  -- gives the least recently used buffer without references, which it claims for the block with one
  -- reference and no content; and it panics only if every buffer has references. No other buffer
  -- changes, and the order stays.
  pub bget-Outcome :
      (dev blockno : ℕ) (bs : List (Buf B)) → BgetOutcome dev blockno bs (bget dev blockno bs)
  unfolding bget
  bget-Outcome dev blockno bs = elim (Option-cases (first_index (holds dev blockno) bs)) [
    | inr (i, y) ↦
        let (b, g, t) = first_index-found (holds dev blockno) bs y in
        rw (y, bget)
          (hit i b (modify bs i retain) g ((==_iff b.dev dev).0 (ground (arith, t)))
            ((==_iff b.blockno blockno).0 (ground (arith, t))) (modify-Changed bs i retain g))
    | inl y ↦
        let nowhere : IsNowhere dev blockno bs =
          λ j b g. first_index-none (holds dev blockno) bs j y g in
        elim (Option-cases (last_index is_free bs)) [
          | inr (i, z) ↦
              (let (b, l) = last_index-Last is_free bs i z in
                rw (y, z, bget)
                  (recycled i b (modify bs i (recycle dev blockno)) nowhere l
                    (modify-Changed bs i (recycle dev blockno) l.found)))
          | inl z ↦
              rw (y, z, bget)
                (panics nowhere
                  (λ j b g. (let f = last_index-none is_free bs j z g in ne_of_test b.refcnt 0 f)))
        ]
  ]
