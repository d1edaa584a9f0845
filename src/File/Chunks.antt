-- ===== src/File/Chunks.antt =====
-- The loop of `filewrite` of kernel/file.c.
use os_design_practice.Prelude.{
  Bool-cases, arith, false, inl, inr, leb, refl, some, subst, suc, true, zero, ℕ, ℤ, ◌+◌, ◌-◌, ◌/◌,
  ◌<◌, ◌≡◌, ◌≤◌,
}
use os_design_practice.File.{File, Layers, advance, bsize, max_chunk, is_count, chunk, write_chunks}

-- The blocks that `n` bytes from an offset touch.
abbrev pub blocks_touched : ℕ → ℕ → ℕ
blocks_touched off n = (off + n - 1) / bsize - off / bsize + 1

module _ (L : Layers) where
  open L use {State, writei}

  -- A run of calls of `writei`, each with the bytes that follow those of the last one, at most four
  -- blocks of them. It ends when all bytes are written, or with the first call that is short.
  pub data Written (addr n : ℕ) : ℕ → File → State → ℕ → File → State → Type 0 where
    complete : {f : File} {s : State} → Written addr n n f s n f s
    short :
        {i : ℕ} {f : File} {s : State} (m : ℕ) (r : ℤ) (s' : State)
        → 0 < m
        → i + m ≤ n
        → blocks_touched f.off m ≤ 4
        → writei f.ip (addr + i) f.off m s ≡ (r, s')
        → is_count r m ≡ false
        → Written addr n i f s i (advance r f) s'
    more :
        {i j : ℕ} {f g : File} {s t : State} (m : ℕ) (r : ℤ) (s' : State)
        → 0 < m
        → i + m ≤ n
        → blocks_touched f.off m ≤ 4
        → writei f.ip (addr + i) f.off m s ≡ (r, s')
        → is_count r m ≡ true
        → Written addr n (i + m) (advance r f) s' j g t
        → Written addr n i f s j g t

  few_blocks : (off m : ℕ) → 0 < m → m ≤ max_chunk → blocks_touched off m ≤ 4
  few_blocks off m lt le = omega arith

  -- From any byte `i ≤ n` and with fuel for the bytes left, the loop ends, and it has been a run of
  -- such calls.
  pub write_chunks-Written :
      (fuel addr n i : ℕ) (f : File) (s : State)
      → i ≤ n
      → n ≤ i + fuel
      → (j : ℕ) × (g : File) × (t : State) × (write_chunks L fuel addr n i f s ≡ some (j, g, t))
        × Written addr n i f s j g t
  unfolding write_chunks
  write_chunks-Written zero addr n i f s le enough =
      let e : n ≡ i = omega arith in
      (i, f, s, ground arith, subst (λ k. Written addr n k f s k f s) e complete)
  write_chunks-Written (suc fuel) addr n i f s le enough = elim (Bool-cases (leb n i)) [
    | inl y ↦
        let e : n ≡ i = ground arith in
        (i, f, s, ground arith, subst (λ k. Written addr n k f s k f s) e complete)
    | inr not_yet ↦
        let some_left : i < n = ground arith in
        let m = chunk n i in
        let real : 0 < m = ground arith in
        let fits : i + m ≤ n = ground arith in
        let small : m ≤ max_chunk = ground arith in
        let (r, s') = writei f.ip (addr + i) f.off m s in
        elim (Bool-cases (is_count r m)) [
          | inr n ↦ (
            i,
            advance r f,
            s',
            ground arith,
            short m r s' real fits (few_blocks f.off m real small) refl n,
          )
          | inl y ↦
              let (j, g, t, e, w) =
                write_chunks-Written fuel addr n (i + m) (advance r f) s' fits (omega arith) in
              (
                j,
                g,
                t,
                ground arith,
                more m r s' real fits (few_blocks f.off m real small) refl y w,
              )
        ]
  ]
