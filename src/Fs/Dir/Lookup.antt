-- ===== src/Fs/Dir/Lookup.antt =====
-- `dirlookup` of kernel/fs.c finds the first entry with the name.
mod Tests
use os_design_practice.Prelude.{
  Bool-cases, List, Option, Option-cases, [], ap, arith, dec_lt, inl, inr, ltb, ltb→lt, min, none,
  refl, some, subst, suc, sym, true, zero, ℕ, ℤ, ◌%◌, ◌*◌, ◌+◌, ◌-◌, ◌/◌, ◌<◌, ◌==◌, ◌^◌, ◌∙◌, ◌≡◌,
  ◌≢◌, ◌≤◌,
}
use os_design_practice.Fs.{Super, Disk, bsize}
use os_design_practice.Fs.Inode.{Inode, User, segment, maxfile, readi}
use os_design_practice.Fs.Inode.Map.{block_of, content, IsFile}
use os_design_practice.Fs.Inode.Grows.{Grows, no_growth, trans-Grows}
use os_design_practice.Fs.Inode.Read.{ReadOutcome, delivered, no_copy, readi-Outcome}
use os_design_practice.Fs.Table.{Entry, Outcome, panics, sleeps, done, iget}
use os_design_practice.Fs.Dir.{
  Dirent, t_dir, dirent_size, namecmp, kernel, to_dirent, check_read, read_dirent, look_from,
  dirlookup,
}
use os_design_practice.Fs.Dir.Entries.{
  entry_at, matches, Found, absent, first_entry, dirent_lem, onward,
}

-- A directory: of whole entries, and without holes.
pub record IsDir (sb : Super) (dp : Inode) (d : Disk) : Type 0 where
  pub file : IsFile sb dp.addrs d
  pub sized : dp.size ≤ maxfile * bsize
  pub whole : dp.size % dirent_size ≡ 0
  pub present : (o : ℕ) → o < dp.size → block_of dp.addrs d (o / bsize) ≢ 0

-- The directory as it was: a look at it changes none of its bytes.
pub record Looked (sb : Super) (dp : Inode) (d : Disk) (dp' : Inode) (d' : Disk) : Type 0 where
  pub grows : Grows sb dp.addrs d dp'.addrs d'
  pub rest : dp' ≡ record dp { addrs = dp'.addrs }

no_look : (sb : Super) (dp : Inode) (d : Disk) → IsFile sb dp.addrs d → Looked sb dp d dp d
no_look sb dp d f = record { grows = no_growth sb dp.addrs d f; rest = refl }

trans-Looked :
    {sb : Super} {dp dp1 dp2 : Inode} {d d1 d2 : Disk}
    → Looked sb dp d dp1 d1
    → Looked sb dp1 d1 dp2 d2
    → Looked sb dp d dp2 d2
trans-Looked {sb} {dp} {dp1} {dp2} {d} x y = record {
  grows = trans-Grows sb dp.addrs d x.grows y.grows;
  rest = y.rest ∙ ap (λ (q : Inode). record q { addrs = dp2.addrs }) x.rest;
}

size-Looked :
    {sb : Super} {dp dp' : Inode} {d d' : Disk} → Looked sb dp d dp' d' → dp'.size ≡ dp.size
size-Looked x = ap (λ (q : Inode). q.size) x.rest

Looked-IsDir :
    {sb : Super} {dp dp' : Inode} {d d' : Disk}
    → IsDir sb dp d
    → Looked sb dp d dp' d'
    → IsDir sb dp' d'
Looked-IsDir {sb} {dp} {dp'} {d} {d'} h x =
    let s = size-Looked x in
    record {
      file = x.grows.file;
      sized = omega (arith, s, h.sized);
      whole = ap (λ n. n % 16) s ∙ h.whole;
      present = λ o lt z. h.present o (omega (arith, lt, s)) (
          sym (
            x.grows.stable (o / bsize) (omega (arith, lt, s, h.sized))
              (h.present o (omega (arith, lt, s))))
          ∙ z);
    }

module _ (sb : Super) (small : sb.size < 2 ^ 32) where
  -- An entry of the directory is read, whatever the disk looks like besides.
  read_dirent_lem :
      (dp : Inode) (off : ℕ) (d : Disk)
      → IsDir sb dp d
      → off % dirent_size ≡ 0
      → off < dp.size
      → (dp' : Inode) × (d' : Disk) × (read_dirent sb dp off d
          ≡ done (to_dirent (segment (content dp.addrs d) off 16), dp', d'))
        × Looked sb dp d dp' d'
  unfolding read_dirent
  read_dirent_lem dp off d h al lt =
      let m : min 16 (dp.size - off) ≡ 16 = omega (arith, h.whole, al, lt) in
      given (
        rw m at (
          readi-Outcome (kernel (λ a. 0)) sb small dp 0 off 16 d h.file h.sized (omega (arith, lt))
            (omega (arith, lt, h.sized))))
    where
      given :
          {r : Option (ℤ × List ℕ × Inode × Disk)}
          → ReadOutcome (kernel (λ a. 0)) sb small 0 off 16 [] dp d r
          → (dp' : Inode) × (d' : Disk) × (check_read r
              ≡ done (to_dirent (segment (content dp.addrs d) off 16), dp', d'))
            × Looked sb dp d dp' d'
      given (no_copy a n out dp' d' bad g rest) = absurd (ground (arith, bad))
      given (delivered count dp' d' le g rest why) =
          let all : count ≡ 16 = elim why [
            | inl e ↦ e
            | inr z ↦ elim (dec_lt count 16) [
              | yes k ↦ absurd (h.present (off + count) (omega (arith, k, m16)) z)
              | no k ↦ omega (arith, le, k)
            ]
          ] in
          let t : (0 + count == 16) ≡ true = ground (arith, all) in
          (
            dp',
            d',
            rw t (ap (λ n. done (to_dirent (segment (content dp.addrs d) off n), dp', d')) all),
            record { grows = g; rest = rest },
          )
        where
          m16 : off + 16 ≤ dp.size
          m16 = omega (arith, h.whole, al, lt)

  look_from-Found :
      (name c : ℕ → ℕ) (fuel off : ℕ) (dp : Inode) (d : Disk)
      → IsDir sb dp d
      → ((o : ℕ) → o < dp.size → content dp.addrs d o ≡ c o)
      → off % dirent_size ≡ 0
      → dp.size - off ≤ fuel
      → (r : Option (ℕ × ℕ)) × (dp' : Inode) × (d' : Disk) × (look_from sb name fuel off dp d
          ≡ done (r, dp', d'))
        × Found name c dp.size off r
        × Looked sb dp d dp' d'
  unfolding look_from
  look_from-Found name c zero off dp d h same al le = (
    none,
    dp,
    d,
    refl,
    absent (λ o low high a. absurd (omega (arith, low, high, le))),
    no_look sb dp d h.file,
  )
  look_from-Found name c (suc fuel) off dp d h same al le = elim (Bool-cases (ltb off dp.size)) [
    | inr n ↦ (
      none,
      dp,
      d,
      rw n refl,
      absent (λ o low high a. absurd (ground (arith, low, high, n))),
      no_look sb dp d h.file,
    )
    | inl y ↦
        let lt : off < dp.size = ltb→lt off dp.size y in
        given y (read_dirent_lem dp off d h al lt) (λ dp' d' x.
          look_from-Found name c fuel (off + 16) dp' d' (Looked-IsDir h x)
            (λ o l.
              x.grows.same o (omega (arith, l, size-Looked x, h.sized))
              ∙ same o (omega (arith, l, size-Looked x)))
            (omega (arith, al)) (omega (arith, le, size-Looked x, lt)))
  ]
    where
      Result : Type 0
      Result =
          (r : Option (ℕ × ℕ)) × (dp' : Inode) × (d' : Disk) × (look_from sb name (suc fuel) off dp
              d
            ≡ done (r, dp', d'))
          × Found name c dp.size off r
          × Looked sb dp d dp' d'

      given :
          ltb off dp.size ≡ true
          → (dp1 : Inode) × (d1 : Disk) × (read_dirent sb dp off d
              ≡ done (to_dirent (segment (content dp.addrs d) off 16), dp1, d1))
            × Looked sb dp d dp1 d1
          → ((dp1 : Inode) (d1 : Disk)
              → Looked sb dp d dp1 d1
              → (r : Option (ℕ × ℕ)) × (dp' : Inode) × (d' : Disk) × (look_from sb name fuel
                    (off + 16)
                    dp1
                    d1
                  ≡ done (r, dp', d'))
                × Found name c dp1.size (off + 16) r
                × Looked sb dp1 d1 dp' d')
          → Result
      given y (dp1, d1, e, x) later =
          let lt : off < dp.size = ltb→lt off dp.size y in
          let room : off + 16 ≤ dp.size = omega (arith, h.whole, al, lt) in
          let w : (off + 16) % 2 ^ 32 ≡ off + 16 = omega (arith, room, h.sized) in
          let (i, s) =
            dirent_lem name c (content dp.addrs d) off
              (λ k l. same (off + k) (omega (arith, l, room))) in
          let (r, dp2, d2, e2, f, x2) = later dp1 d1 x in
          elim (Bool-cases ((entry_at c off).inum == 0)) [
            | inl z ↦ (
              r,
              dp2,
              d2,
              rw (y, e, i, z, w, look_from) e2,
              onward (rw z refl) al (subst (λ n. Found name c n (off + 16) r) (size-Looked x) f),
              trans-Looked x x2,
            )
            | inr z ↦ elim (Bool-cases (namecmp name (entry_at c off).name)) [
              | inr q ↦ (
                r,
                dp2,
                d2,
                rw (y, e, i, z, s, q, w, look_from) e2,
                onward (rw (z, q) refl) al
                    (subst (λ n. Found name c n (off + 16) r) (size-Looked x) f),
                trans-Looked x x2,
              )
              | inl q ↦ (
                some ((entry_at c off).inum, off),
                dp1,
                d1,
                rw (y, e, i, z, s, q, look_from) refl,
                first_entry off (omega arith) lt al (rw (z, q) refl)
                    (λ p l k b. absurd (omega (arith, l, k))),
                x,
              )
            ]
          ]

  -- What `dirlookup` comes to.
  pub data Answer (name : ℕ → ℕ) (t : List Entry) (dp : Inode) (d : Disk)
      : Outcome (Option (ℕ × ℕ) × List Entry × Inode × Disk) → Type 0 where
    no_entry :
        (dp' : Inode) (d' : Disk)
        → Found name (content dp.addrs d) dp.size 0 none
        → Looked sb dp d dp' d'
        → Answer name t dp d (done (none, t, dp', d'))
    got_entry :
        (i inum off : ℕ) (t' : List Entry) (dp' : Inode) (d' : Disk)
        → Found name (content dp.addrs d) dp.size 0 (some (inum, off))
        → iget dp.dev inum t ≡ some (i, t')
        → Looked sb dp d dp' d'
        → Answer name t dp d (done (some (i, off), t', dp', d'))
    table_full :
        (inum off : ℕ)
        → Found name (content dp.addrs d) dp.size 0 (some (inum, off))
        → iget dp.dev inum t ≡ none
        → Answer name t dp d panics

  -- `dirlookup` in a directory of whole entries, without holes: it finds the first entry in use with the
  -- name, and gives the place of this inode in the table, and of the entry; or there is no such entry. It
  -- panics only if the table is full, and changes no byte of the directory.
  pub dirlookup-Answer :
      (name : ℕ → ℕ) (t : List Entry) (dp : Inode) (d : Disk)
      → IsDir sb dp d
      → dp.kind ≡ t_dir
      → Answer name t dp d (dirlookup sb name t dp d)
  unfolding dirlookup
  dirlookup-Answer name t dp d h k =
      let y : (dp.kind == t_dir) ≡ true = ground (arith, k) in
      given y (
        look_from-Found name (content dp.addrs d) dp.size 0 dp d h (λ o l. refl) refl (omega arith))
    where
      given :
          (dp.kind == t_dir) ≡ true
          → (r : Option (ℕ × ℕ)) × (dp' : Inode) × (d' : Disk) × (look_from sb name dp.size 0 dp d
              ≡ done (r, dp', d'))
            × Found name (content dp.addrs d) dp.size 0 r
            × Looked sb dp d dp' d'
          → Answer name t dp d (dirlookup sb name t dp d)
      given y (none, dp', d', e, f, x) = rw (y, e, dirlookup) (no_entry dp' d' f x)
      given y (some (inum, off), dp', d', e, f, x) =
          let v : dp'.dev ≡ dp.dev = ap (λ (q : Inode). q.dev) x.rest in
          elim (Option-cases (iget dp.dev inum t)) [
            | inl g ↦ rw (y, e, v, g, dirlookup) (table_full inum off f g)
            | inr ((i, t'), g) ↦ rw (y, e, v, g, dirlookup) (got_entry i inum off t' dp' d' f g x)
          ]
