-- ===== src/Fs/Inode/Write.antt =====
-- `writei` of kernel/fs.c: what a write makes of a file.
use os_design_practice.Prelude.{
  ==_iff, Bool-cases, Option, ap, arith, dec_lt, false, if◌then◌else◌, inl, inr, ltb, ltb→lt,
  minus_one, ne_of_test, pos, refl, some, subst, suc, sym, true, update, zero, ℕ, ℤ, ◌%◌, ◌*◌, ◌+◌,
  ◌-◌, ◌/◌, ◌<◌, ◌==◌, ◌^◌, ◌||◌, ◌∙◌, ◌≡◌, ◌≢◌, ◌≤◌, ◌⊎◌,
}
use os_design_practice.Fs.Inode.Piece.{
  IsUser, bp, piece-IsFile, piece_present, piece_stable, piece_outside, piece_inside, piece-Foreign,
}
use os_design_practice.Fs.{Super, Disk, Block, bsize, is_free}
use os_design_practice.Fs.Inode.{Inode, User, Progress, maxfile, piece, write_from, writei, grow}
use os_design_practice.Fs.Inode.Map.{block_of, content, IsFile}
use os_design_practice.Fs.Inode.Grows.{Grows, no_growth, Foreign, Grows-Foreign}
use os_design_practice.Fs.Inode.Bmap.{Mapped, bmap-Mapped}

-- What a write of `left` bytes at `off` may have done, `count` of them for sure.
pub record Wrote (sb : Super) (mem : ℕ → ℕ) (addrs : ℕ → ℕ) (d : Disk) (src off left count : ℕ)
    (addrs' : ℕ → ℕ) (d' : Disk) : Type 0 where
  pub file : IsFile sb addrs' d'
  pub bound : count ≤ left
  pub outside :
      (o : ℕ)
      → o / bsize < maxfile
      → o < off ⊎ off + left ≤ o
      → content addrs' d' o ≡ content addrs d o
  pub inside :
      (o : ℕ)
      → o / bsize < maxfile
      → off ≤ o
      → o < off + count
      → content addrs' d' o ≡ mem (src + (o - off))
  pub present :
      (o : ℕ) → o / bsize < maxfile → off ≤ o → o < off + count → block_of addrs' d' (o / bsize) ≢ 0
  pub stable : (k : ℕ) → k < maxfile → block_of addrs d k ≢ 0 → block_of addrs' d' k ≢ 0
  pub others : (q : ℕ) → Foreign sb addrs d q → Foreign sb addrs' d' q × (d' q ≡ d q)

-- A write that did nothing but to look for a block.
looked :
    (sb : Super) (mem : ℕ → ℕ) (addrs : ℕ → ℕ) (d : Disk) (src off left : ℕ) {addrs' : ℕ → ℕ}
    {d' : Disk}
    → Grows sb addrs d addrs' d'
    → Wrote sb mem addrs d src off left 0 addrs' d'
looked sb mem addrs d src off left g = record {
  file = g.file;
  bound = omega arith;
  outside = λ o lt out. g.same o lt;
  inside = λ o lt low high. absurd (omega arith);
  present = λ o lt low high. absurd (omega arith);
  stable = λ k lt ne z. ne (sym (g.stable k lt ne) ∙ z);
  others = λ q x. Grows-Foreign sb addrs d q g x;
}

module _ (u : User) (mem : ℕ → ℕ) (law : IsUser u mem) (sb : Super) (small : sb.size < 2 ^ 32) where
  -- The first piece, and what is written behind it.
  then_rest :
      {ip ip' : Inode} {addrs2 : ℕ → ℕ} {d d' d2 : Disk} {a : ℕ} (src off left m count : ℕ)
      → m ≤ left
      → off % bsize + m ≤ bsize
      → off / bsize < maxfile
      → Mapped sb ip (off / bsize) d a ip' d'
      → a ≢ 0
      → (u.copyin (d' a) (off % bsize) src m).0 ≡ true
      → Wrote sb mem ip'.addrs
          (update d' a (u.copyin (d' a) (off % bsize) src m).1)
          (src + m)
          (off + m)
          (left - m)
          count
          addrs2
          d2
      → Wrote sb mem ip.addrs d src off left (m + count) addrs2 d2
  then_rest {ip} {ip'} {addrs2} {d} {d'} {d2} {a} src off left m count le fits lt f ne ok w =
      record {
        file = w.file;
        bound = omega (arith, w.bound, le);
        outside = λ o l out.
            w.outside o l (elim out [ inl p ↦ inl (omega arith) | inr p ↦ inr (omega (arith, le)) ])
            ∙ piece_outside u mem law sb ip d src off m a ip' d' fits lt f ne o l
                (elim out [ inl p ↦ inl p | inr p ↦ inr (omega (arith, le)) ]);
        inside = λ o l low high. elim (dec_lt o (off + m)) [
          | yes p ↦
              w.outside o l (inl p)
              ∙ piece_inside u mem law sb ip d src off m a ip' d' fits lt f ne o l ok low p
          | no p ↦ w.inside o l (omega arith) (omega arith) ∙ ap mem (omega arith)
        ];
        present = λ o l low high. elim (dec_lt o (off + m)) [
          | yes p ↦
              (let e : o / bsize ≡ off / bsize = omega (arith, fits) in
                w.stable (o / bsize) l (λ z.
                  piece_present u mem law sb ip d src off m a ip' d' fits lt f ne (
                    ap (block_of ip'.addrs (update d' a (u.copyin (d' a) (off % bsize) src m).1))
                      (sym e)
                    ∙ z)))
          | no p ↦ w.present o l (omega arith) (omega arith)
        ];
        stable = λ k l nz.
            w.stable k l (piece_stable u mem law sb ip d src off m a ip' d' fits lt f ne k l nz);
        others = λ q x.
            (let (y, e) = piece-Foreign u mem law sb ip d src off m a ip' d' fits lt f ne q x in
              let (z, e') = w.others q y in (z, e' ∙ e));
      }

  -- A piece whose copy fails.
  cut_short :
      {ip ip' : Inode} {d d' : Disk} {a : ℕ} (src off left m : ℕ)
      → m ≤ left
      → off % bsize + m ≤ bsize
      → off / bsize < maxfile
      → Mapped sb ip (off / bsize) d a ip' d'
      → a ≢ 0
      → Wrote sb mem ip.addrs d src off left 0 ip'.addrs
          (update d' a (u.copyin (d' a) (off % bsize) src m).1)
  cut_short {ip} {ip'} {d} {d'} {a} src off left m le fits lt f ne = record {
    file = piece-IsFile u mem law sb ip d src off m a ip' d' fits lt f ne;
    bound = omega arith;
    outside = λ o l out.
        piece_outside u mem law sb ip d src off m a ip' d' fits lt f ne o l
          (elim out [ inl p ↦ inl p | inr p ↦ inr (omega (arith, le)) ]);
    inside = λ o l low high. absurd (omega arith);
    present = λ o l low high. absurd (omega arith);
    stable = piece_stable u mem law sb ip d src off m a ip' d' fits lt f ne;
    others = piece-Foreign u mem law sb ip d src off m a ip' d' fits lt f ne;
  }

  -- Why a write is short.
  pub data Short (d : Disk) : Type 0 where
    no_blocks : ((n : ℕ) → n < sb.size → is_free sb d n ≡ false) → Short d
    no_copy : (bp : Block) (o src m : ℕ) → (u.copyin bp o src m).0 ≡ false → Short d

  -- The loop ends, without a panic, and has written so many of the bytes.
  pub record EndsAt (tot src off left : ℕ) (ip : Inode) (d : Disk) (count : ℕ) (p : Progress)
      : Type 0 where
    pub total : p.tot ≡ tot + count
    pub rest : p.ip ≡ record ip { addrs = p.ip.addrs }
    pub reason : (count ≡ left) ⊎ Short p.disk
    pub wrote : Wrote sb mem ip.addrs d src off left count p.ip.addrs p.disk

  abbrev Ends : ℕ → ℕ → ℕ → ℕ → Inode → Disk → Option Progress → Type 0
  Ends tot src off left ip d r =
      (p : Progress) × (count : ℕ) × (r ≡ some p) × EndsAt tot src off left ip d count p

  nothing_left :
      (tot src off : ℕ) (ip : Inode) (d : Disk)
      → IsFile sb ip.addrs d
      → EndsAt tot src off 0 ip d 0 (record { tot = tot; ip = ip; disk = d })
  nothing_left tot src off ip d f = record {
    total = omega arith;
    rest = refl;
    reason = inl refl;
    wrote = looked sb mem ip.addrs d src off 0 (no_growth sb ip.addrs d f);
  }

  -- One round with a block: `rest` is what the recursive call comes to.
  round-Ends :
      (tot src off left : ℕ) (ip : Inode) (d : Disk) (a : ℕ) (ip' : Inode) (d' : Disk)
      (r : Option Progress)
      → 0 < left
      → off + left ≤ maxfile * bsize
      → Mapped sb ip (off / bsize) d a ip' d'
      → (let m = piece left off in
          let bp = (u.copyin (d' a) (off % bsize) src m).1 in
          a ≢ 0 → Ends (tot + m) (src + m) (off + m) (left - m) ip' (update d' a bp) r)
      → Ends tot src off left ip d (
          if a == 0
          then some (record { tot = tot; ip = ip'; disk = d' })
          else (let (ok, bp) = u.copyin (d' a) (off % bsize) src (piece left off) in
              elim ok [
                | false ↦ some (record { tot = tot; ip = ip'; disk = update d' a bp })
                | true ↦ r
              ]))
  round-Ends tot src off left ip d a ip' d' r more room g ih = elim (Bool-cases (a == 0)) [
    | inl z ↦ (
      record { tot = tot; ip = ip'; disk = d' },
      0,
      rw z refl,
      record {
        total = omega arith;
        rest = g.rest;
        reason = inr (no_blocks (g.full ((==_iff a 0).0 z)));
        wrote = looked sb mem ip.addrs d src off left g.grows;
      },
    )
    | inr z ↦
        let m = piece left off in
        let ne : a ≢ 0 = ne_of_test a 0 z in
        let le : m ≤ left = omega arith in
        let fits : off % bsize + m ≤ bsize = omega arith in
        let lt : off / bsize < maxfile = omega (arith, room, more) in
        let bp = (u.copyin (d' a) (off % bsize) src m).1 in
        elim (Bool-cases (u.copyin (d' a) (off % bsize) src m).0) [
          | inr k ↦ (
            record { tot = tot; ip = ip'; disk = update d' a bp },
            0,
            rw (z, k) refl,
            record {
              total = omega arith;
              rest = g.rest;
              reason = inr (no_copy (d' a) (off % bsize) src m k);
              wrote = cut_short src off left m le fits lt g ne;
            },
          )
          | inl k ↦
              let (p, count, e, w) = ih ne in
              (
                p,
                m + count,
                rw (z, k) e,
                record {
                  total = omega (arith, w.total);
                  rest = w.rest ∙ ap (λ (x : Inode). record x { addrs = p.ip.addrs }) g.rest;
                  reason = elim w.reason [ inl x ↦ inl (omega (arith, x)) | inr x ↦ inr x ];
                  wrote = then_rest src off left m count le fits lt g ne k w.wrote;
                },
              )
        ]
  ]

  write_from-Ends :
      (fuel tot src off left : ℕ) (ip : Inode) (d : Disk)
      → left ≤ fuel
      → off + left ≤ maxfile * bsize
      → IsFile sb ip.addrs d
      → Ends tot src off left ip d (write_from u sb fuel tot src off left ip d)
  unfolding write_from
  write_from-Ends zero tot src off left ip d le room f =
      let e : 0 ≡ left = omega arith in
      (
        record { tot = tot; ip = ip; disk = d },
        0,
        refl,
        subst (λ k. EndsAt tot src off k ip d 0 (record { tot = tot; ip = ip; disk = d })) e
            (nothing_left tot src off ip d f),
      )
  write_from-Ends (suc fuel) tot src off left ip d le room f = elim (Bool-cases (left == 0)) [
    | inl y ↦
        let e : 0 ≡ left = ground arith in
        (
          record { tot = tot; ip = ip; disk = d },
          0,
          rw y refl,
          subst (λ k. EndsAt tot src off k ip d 0 (record { tot = tot; ip = ip; disk = d })) e
              (nothing_left tot src off ip d f),
        )
    | inr n ↦
        let more : 0 < left = ground (arith, n) in
        let (a, ip', d', e, g) =
          bmap-Mapped sb ip (off / bsize) d small (omega (arith, room, more)) f in
        let m = piece left off in
        rw n rw e (
          round-Ends tot src off left ip d a ip' d'
            (write_from u sb fuel (tot + m) (src + m) (off + m) (left - m) ip'
              (update d' a (u.copyin (d' a) (off % bsize) src m).1))
            more room g
            (λ ne.
              write_from-Ends fuel (tot + m) (src + m) (off + m) (left - m) ip'
                (update d' a (u.copyin (d' a) (off % bsize) src m).1) (omega (arith, le, more))
                (omega (arith, room))
                (piece-IsFile u mem law sb ip d src off m a ip' d' (omega arith)
                  (omega (arith, room, more)) g ne)))
  ]

  -- The inode `ip'` is `ip` with these addresses, and with the size that a write that ended at `last` gives.
  pub record Resized (ip : Inode) (addrs : ℕ → ℕ) (last : ℕ) (ip' : Inode) : Type 0 where
    pub rest : ip' ≡ record ip { addrs = addrs; size = ip'.size }
    pub within : last ≤ ip.size → ip'.size ≡ ip.size
    pub beyond : ip.size < last → ip'.size ≡ last

  grow-Resized :
      (ip q : Inode) (last : ℕ)
      → q ≡ record ip { addrs = q.addrs }
      → Resized ip q.addrs last (grow q last)
  grow-Resized ip q last e =
      let s : q.size ≡ ip.size = ap (λ (x : Inode). x.size) e in
      elim (Bool-cases (ltb q.size last)) [
        | inl y ↦ rw y (record {
          rest = ap (λ (x : Inode). record x { size = last }) e;
          within = λ le. absurd (ground (arith, y, s, le));
          beyond = λ lt. refl;
        })
        | inr n ↦ rw n (record {
          rest = e ∙ ap (λ k. record ip { addrs = q.addrs; size = k }) (sym s);
          within = λ le. s;
          beyond = λ lt. absurd (ground (arith, n, s, lt));
        })
      ]

  -- `-1` and no change, or a write of so many bytes.
  pub data WriteiOutcome (ip : Inode) (src off n : ℕ) (d : Disk)
      : Option (ℤ × Inode × Disk) → Type 0 where
    refused :
        ip.size < off ⊎ maxfile * bsize < off + n
        → WriteiOutcome ip src off n d (some (minus_one, ip, d))
    written :
        (count : ℕ) (p : Progress)
        → off ≤ ip.size
        → EndsAt 0 src off n ip d count p
        → Resized ip p.ip.addrs (off + count) (grow p.ip (off + count))
        → (grow p.ip (off + count)).size ≤ maxfile * bsize
        → WriteiOutcome ip src off n d (some (pos count, grow p.ip (off + count), p.disk))

  -- `writei` never panics. It returns -1 and changes nothing if it would begin behind the end of the file,
  -- or end behind the largest file. If not, it returns how many bytes of the user are in the file, at their
  -- offsets: `n`, unless no block is free or a copy fails. The bytes of the file before `off` and
  -- from `off + n` on stay, and so does every block that is in use by others. The size is where the
  -- write ended if that is behind the old end, and stays if not.
  pub writei-Outcome :
      (ip : Inode) (src off n : ℕ) (d : Disk)
      → IsFile sb ip.addrs d
      → ip.size ≤ maxfile * bsize
      → off < 2 ^ 32
      → n < 2 ^ 32
      → WriteiOutcome ip src off n d (writei u sb ip src off n d)
  unfolding writei
  writei-Outcome ip src off n d f sized lo ln =
      elim (Bool-cases (ltb ip.size off || ltb ((off + n) % 2 ^ 32) off)) [
        | inl y ↦ rw y (refused (early y))
        | inr fine ↦ elim (Bool-cases (ltb (maxfile * bsize) ((off + n) % 2 ^ 32))) [
          | inl y ↦ rw (fine, y) (refused (inr (ground (arith, y, fine, lo, ln))))
          | inr k ↦
              let (p, count, e, w) =
                write_from-Ends n 0 src off n ip d (omega arith) (ground (arith, fine, k, lo, ln))
                  f in
              let t : p.tot ≡ count = w.total ∙ omega arith in
              rw (fine, k, e, t)
                (written count p (ground (arith, fine)) w
                  (grow-Resized ip p.ip (off + count) w.rest)
                  (fits p count w.wrote.bound fine k (w.rest)))
        ]
      ]
    where
      early :
          (ltb ip.size off || ltb ((off + n) % 2 ^ 32) off) ≡ true
          → ip.size < off ⊎ maxfile * bsize < off + n
      early y = elim (Bool-cases (ltb ip.size off)) [
        | inl t ↦ inl (ltb→lt ip.size off t)
        | inr t ↦ inr (ground (arith, y, t, lo, ln))
      ]

      fits :
          (p : Progress) (count : ℕ)
          → count ≤ n
          → (ltb ip.size off || ltb ((off + n) % 2 ^ 32) off) ≡ false
          → ltb (maxfile * bsize) ((off + n) % 2 ^ 32) ≡ false
          → p.ip ≡ record ip { addrs = p.ip.addrs }
          → (grow p.ip (off + count)).size ≤ maxfile * bsize
      fits p count b fine k e =
          let s : p.ip.size ≡ ip.size = ap (λ (x : Inode). x.size) e in
          ground (arith, fine, k, lo, ln, s, b, sized)
