-- ===== src/Fs/Inode/Read.antt =====
-- `readi` of kernel/fs.c: what a read gives.
use os_design_practice.Prelude.{
  ==_iff, Bool-cases, List, Option, [], ap, append-nil, append_assoc, ap₂, arith, dec_lt, false,
  get_or, inl, inr, ltb, min, minus_one, ne_of_test, pos, refl, some, subst, suc, sym, zero, ℕ,
  ℕ_discrete, ℤ, ◌%◌, ◌*◌, ◌++◌, ◌+◌, ◌-◌, ◌/◌, ◌<◌, ◌==◌, ◌^◌, ◌||◌, ◌∙◌, ◌∷◌, ◌≡◌, ◌≢◌, ◌≤◌, ◌⊎◌,
}
use os_design_practice.Fs.{Super, Disk, bsize}
use os_design_practice.Fs.Inode.{Inode, User, maxfile, piece, segment, read_from, readi}
use os_design_practice.Fs.Inode.Map.{block_of, content, IsFile}
use os_design_practice.Fs.Inode.Grows.{Grows, no_growth, trans-Grows}
use os_design_practice.Fs.Inode.Bmap.{Mapped, Mapped-present, bmap-Mapped}

segment-add : (f : ℕ → ℕ) (o m k : ℕ) → segment f o (m + k) ≡ segment f o m ++ segment f (o + m) k
unfolding segment
segment-add f o zero k =
    (let e : o ≡ o + 0 = omega arith in
      rw (sym e) (let z : k ≡ 0 + k = omega arith in rw (sym z) refl))
segment-add f o (suc m) k =
    let e : suc m + k ≡ suc (m + k) = omega arith in
    let s : o + suc m ≡ o + 1 + m = omega arith in
    rw (e, s) (ap (λ l. f o ∷ l) (segment-add f (o + 1) m k))

-- Two maps that agree on a range have the same bytes there.
pub segment_ext :
    (f g : ℕ → ℕ) (o p m : ℕ)
    → ((i : ℕ) → i < m → f (o + i) ≡ g (p + i))
    → segment f o m ≡ segment g p m
unfolding segment
segment_ext f g o p zero h = refl
segment_ext f g o p (suc m) h =
    ap₂ (λ x l. x ∷ l) (ap f (omega arith) ∙ h 0 (omega arith) ∙ ap g (omega arith))
      (segment_ext f g (o + 1) (p + 1) m
        (λ i lt. ap f (omega arith) ∙ h (i + 1) (omega arith) ∙ ap g (omega arith)))

pub get_or-segment : (f : ℕ → ℕ) (o m i : ℕ) → i < m → get_or (segment f o m) i 0 ≡ f (o + i)
unfolding segment
get_or-segment f o zero i lt = absurd (omega arith)
get_or-segment f o (suc m) zero lt = ap f (omega arith)
get_or-segment f o (suc m) (suc i) lt =
    get_or-segment f (o + 1) m i (omega (arith, lt)) ∙ ap f (omega arith)

-- A piece of a block is a piece of the file.
piece-content :
    {sb : Super} {ip ip' : Inode} {d d' : Disk} {a : ℕ} (off m : ℕ)
    → off % bsize + m ≤ bsize
    → off / bsize < maxfile
    → Mapped sb ip (off / bsize) d a ip' d'
    → a ≢ 0
    → segment (d' a) (off % bsize) m ≡ segment (content ip.addrs d) off m
piece-content {sb} {ip} {ip'} {d} {d'} {a} off m fits lt g ne =
    segment_ext (d' a) (content ip.addrs d) (off % bsize) off m (λ i l. byte i l)
  where
    byte : (i : ℕ) → i < m → d' a (off % bsize + i) ≡ content ip.addrs d (off + i)
    byte i l =
        let q : (off + i) / bsize ≡ off / bsize = omega arith in
        let r : (off + i) % bsize ≡ off % bsize + i = omega arith in
        let here : block_of ip'.addrs d' ((off + i) / bsize) ≡ a =
          ap (block_of ip'.addrs d') q ∙ g.at in
        let nz : (a == 0) ≡ false = ground (arith, ne) in
        let c : content ip'.addrs d' (off + i) ≡ d' a (off % bsize + i) =
          rw (here, nz) (ap (d' a) r) in
        sym c ∙ g.grows.same (off + i) (omega (arith, lt, q))

module _ (u : User) (sb : Super) (small : sb.size < 2 ^ 32) where
  -- What a read of `left` bytes at `off` gives.
  pub data ReadOutcome (tot off left : ℕ) (out : List ℕ) (ip : Inode) (d : Disk)
      : Option (ℤ × List ℕ × Inode × Disk) → Type 0 where
    delivered :
        (count : ℕ) (ip' : Inode) (d' : Disk)
        → count ≤ left
        → Grows sb ip.addrs d ip'.addrs d'
        → ip' ≡ record ip { addrs = ip'.addrs }
        → (count ≡ left) ⊎ (block_of ip.addrs d ((off + count) / bsize) ≡ 0)
        → ReadOutcome tot off left out ip d
            (some (pos (tot + count), out ++ segment (content ip.addrs d) off count, ip', d'))
    no_copy :
        (dst m : ℕ) (some_out : List ℕ) (ip' : Inode) (d' : Disk)
        → u.copyout dst m ≡ false
        → Grows sb ip.addrs d ip'.addrs d'
        → ip' ≡ record ip { addrs = ip'.addrs }
        → ReadOutcome tot off left out ip d (some (minus_one, some_out, ip', d'))

  -- The first piece, and what is read behind it.
  then_rest :
      {ip ip' : Inode} {d d' : Disk} {a : ℕ} (tot off left m : ℕ) (out : List ℕ)
      {r : Option (ℤ × List ℕ × Inode × Disk)}
      → m ≤ left
      → off + left ≤ maxfile * bsize
      → off % bsize + m ≤ bsize
      → off / bsize < maxfile
      → Mapped sb ip (off / bsize) d a ip' d'
      → a ≢ 0
      → ReadOutcome (tot + m) (off + m) (left - m) (out ++ segment (d' a) (off % bsize) m) ip' d' r
      → ReadOutcome tot off left out ip d r
  then_rest {ip} {ip'} {d} {d'} {a} tot off left m out le room fits lt g ne
        (delivered count ip2 d2 b h rest why) =
      let whole : (out ++ segment (d' a) (off % bsize) m)
            ++ segment (content ip'.addrs d') (off + m) count
          ≡ out ++ segment (content ip.addrs d) off (m + count) =
        append_assoc out (segment (d' a) (off % bsize) m)
          (segment (content ip'.addrs d') (off + m) count)
        ∙ ap (λ l. out ++ l)
            (ap₂ (λ x y. x ++ y) (piece-content off m fits lt g ne)
                (segment_ext (content ip'.addrs d') (content ip.addrs d) (off + m) (off + m) count
                  (λ i l. g.grows.same (off + m + i) (omega (arith, room, le, b, l))))
              ∙ sym (segment-add (content ip.addrs d) off m count)) in
      let t : tot + m + count ≡ tot + (m + count) = omega arith in
      rw (whole, t)
        (delivered (m + count) ip2 d2 (omega (arith, b, le)) (trans-Grows sb ip.addrs d g.grows h)
          (rest ∙ ap (λ (x : Inode). record x { addrs = ip2.addrs }) g.rest)
          (elim why [
            | inl e ↦ inl (omega (arith, e, le))
            | inr e ↦ elim (dec_lt count (left - m)) [
              | yes k ↦ inr (hole count k e)
              | no k ↦ inl (omega (arith, b, le))
            ]
          ]))
    where
      hole :
          (count : ℕ)
          → count < left - m
          → block_of ip'.addrs d' ((off + m + count) / bsize) ≡ 0
          → block_of ip.addrs d ((off + (m + count)) / bsize) ≡ 0
      hole count k e =
          let s : off + m + count ≡ off + (m + count) = omega arith in
          let e' : block_of ip'.addrs d' ((off + (m + count)) / bsize) ≡ 0 =
            ap (λ x. block_of ip'.addrs d' (x / bsize)) (sym s) ∙ e in
          elim (ℕ_discrete (block_of ip.addrs d ((off + (m + count)) / bsize)) 0) [
            | yes z ↦ z
            | no nz ↦ absurd (
                nz (
                  sym (g.grows.stable ((off + (m + count)) / bsize) (omega (arith, room, le, k)) nz)
                  ∙ e'))
          ]
  then_rest {ip} tot off left m out le room fits lt g ne (no_copy dst k bytes ip2 d2 bad h rest) =
      no_copy dst k bytes ip2 d2 bad (trans-Grows sb ip.addrs _ g.grows h)
        (rest ∙ ap (λ (x : Inode). record x { addrs = ip2.addrs }) g.rest)

  -- A read that stores nothing more.
  ends :
      {ip ip' : Inode} {d d' : Disk} (tot off left : ℕ) (out : List ℕ)
      → Grows sb ip.addrs d ip'.addrs d'
      → ip' ≡ record ip { addrs = ip'.addrs }
      → (0 ≡ left) ⊎ (block_of ip.addrs d (off / bsize) ≡ 0)
      → ReadOutcome tot off left out ip d (some (pos tot, out, ip', d'))
  unfolding segment
  ends {ip} {ip'} {d} {d'} tot off left out g rest why =
      let t : tot + 0 ≡ tot = omega arith in
      subst (λ k. ReadOutcome tot off left out ip d (some (pos k, out, ip', d'))) t
        (subst (λ l. ReadOutcome tot off left out ip d (some (pos (tot + 0), l, ip', d')))
          (append-nil out)
          (delivered 0 ip' d' (omega arith) g rest (elim why [
            | inl e ↦ inl e
            | inr e ↦ inr (ap (λ k. block_of ip.addrs d (k / bsize)) (omega arith) ∙ e)
          ])))

  read_from-Outcome :
      (fuel tot dst off left : ℕ) (out : List ℕ) (ip : Inode) (d : Disk)
      → left ≤ fuel
      → off + left ≤ maxfile * bsize
      → IsFile sb ip.addrs d
      → ReadOutcome tot off left out ip d (read_from u sb fuel tot dst off left out ip d)
  unfolding read_from
  read_from-Outcome zero tot dst off left out ip d le room f =
      ends tot off left out (no_growth sb ip.addrs d f) refl (inl (omega arith))
  read_from-Outcome (suc fuel) tot dst off left out ip d le room f = elim (Bool-cases (left == 0)) [
    | inl y ↦ rw y (ends tot off left out (no_growth sb ip.addrs d f) refl (inl (ground arith)))
    | inr n ↦
        let more : 0 < left = ground (arith, n) in
        let lt : off / bsize < maxfile = omega (arith, room, more) in
        let m = piece left off in
        let (a, ip', d', e, g) = bmap-Mapped sb ip (off / bsize) d small lt f in
        rw n rw e (elim (Bool-cases (a == 0)) [
          | inl z ↦ rw z (
              ends tot off left out g.grows g.rest
                (inr (Mapped-present (off / bsize) lt g ((==_iff a 0).0 z))))
          | inr z ↦ elim (Bool-cases (u.copyout dst m)) [
            | inr k ↦ rw (z, k) (no_copy dst m out ip' d' k g.grows g.rest)
            | inl k ↦
                rw (z, k)
                  (then_rest tot off left m out (omega arith) room (omega arith) lt g
                    (ne_of_test a 0 z)
                    (read_from-Outcome fuel (tot + m) (dst + m) (off + m) (left - m)
                      (out ++ segment (d' a) (off % bsize) m) ip' d' (omega (arith, le, more))
                      (omega (arith, room)) g.grows.file))
          ]
        ])
  ]

  -- `readi` from within the file reads up to its end: it returns the bytes of the file, fewer only where the
  -- file has no block, or -1 if a copy fails. It never panics, and changes no byte of the file, though it
  -- may allocate a block.
  pub readi-Outcome :
      (ip : Inode) (dst off n : ℕ) (d : Disk)
      → IsFile sb ip.addrs d
      → ip.size ≤ maxfile * bsize
      → off ≤ ip.size
      → off + n < 2 ^ 32
      → ReadOutcome 0 off (min n (ip.size - off)) [] ip d (readi u sb ip dst off n d)
  unfolding readi
  readi-Outcome ip dst off n d f sized low small_n =
      let same : (off + n) % 2 ^ 32 ≡ off + n = omega arith in
      let t : (ltb ip.size off || ltb (off + n) off) ≡ false = ground (arith, low) in
      rw same rw t (elim (Bool-cases (ltb ip.size (off + n))) [
        | inl y ↦
            let m : min n (ip.size - off) ≡ ip.size - off = ground (arith, y) in
            rw (y, m)
              (read_from-Outcome (ip.size - off) 0 dst off (ip.size - off) [] ip d (omega arith)
                (omega (arith, sized, low)) f)
        | inr k ↦
            let m : min n (ip.size - off) ≡ n = ground (arith, k) in
            rw (k, m)
              (read_from-Outcome n 0 dst off n [] ip d (omega arith) (ground (arith, k, sized)) f)
      ])
