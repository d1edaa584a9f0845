-- ===== src/Fs/Dir/Entries.antt =====
-- The entries of a directory of kernel/fs.c, as the bytes of it.
use os_design_practice.Prelude.{
  Bool, Option, ap, arith, false, get_or, none, not, refl, some, subst, suc, true, zero, ℕ,
  ℕ_discrete, ◌%◌, ◌&&◌, ◌*◌, ◌+◌, ◌<◌, ◌==◌, ◌∙◌, ◌≡◌, ◌≤◌,
}
use os_design_practice.Fs.Inode.{segment}
use os_design_practice.Fs.Inode.Read.{get_or-segment}
use os_design_practice.Fs.Path.{dirsiz}
use os_design_practice.Fs.Dir.{Dirent, dirent_size, same_from, namecmp, to_dirent}

-- The entry at an offset of the bytes of a directory.
abbrev pub entry_at : (ℕ → ℕ) → ℕ → Dirent
entry_at c off = record { inum = c off + 256 * c (off + 1); name = λ i. c (off + 2 + i) }

-- The entry is in use, and has the name.
abbrev pub matches : (ℕ → ℕ) → (ℕ → ℕ) → ℕ → Bool
matches name c off = not ((entry_at c off).inum == 0) && namecmp name (entry_at c off).name

same_ext :
    (s t t' : ℕ → ℕ) (i k : ℕ)
    → ((j : ℕ) → j < i + k → t j ≡ t' j)
    → same_from s t i k ≡ same_from s t' i k
unfolding same_from
same_ext s t t' i zero h = refl
same_ext s t t' i (suc k) h =
    rw (h i (omega arith), same_ext s t t' (i + 1) k (λ j l. h j (omega (arith, l)))) refl

namecmp_ext : (s t t' : ℕ → ℕ) → ((j : ℕ) → j < dirsiz → t j ≡ t' j) → namecmp s t ≡ namecmp s t'
unfolding namecmp
namecmp_ext s t t' h = same_ext s t t' 0 dirsiz (λ j l. h j (omega (arith, l)))

-- What a search from `off` on gives: the first entry in use that has the name.
pub data Found (name c : ℕ → ℕ) (size off : ℕ) : Option (ℕ × ℕ) → Type 0 where
  absent :
      ((o : ℕ) → off ≤ o → o < size → o % dirent_size ≡ 0 → matches name c o ≡ false)
      → Found name c size off none
  first_entry :
      (o : ℕ)
      → off ≤ o
      → o < size
      → o % dirent_size ≡ 0
      → matches name c o ≡ true
      → ((p : ℕ) → off ≤ p → p < o → p % dirent_size ≡ 0 → matches name c p ≡ false)
      → Found name c size off (some ((entry_at c o).inum, o))

pub dirent_lem :
    (name c f : ℕ → ℕ) (off : ℕ)
    → ((i : ℕ) → i < 16 → f (off + i) ≡ c (off + i))
    → ((to_dirent (segment f off 16)).inum ≡ (entry_at c off).inum)
      × (namecmp name (to_dirent (segment f off 16)).name ≡ namecmp name (entry_at c off).name)
dirent_lem name c f off h =
    let a : get_or (segment f off 16) 0 0 ≡ c off =
      get_or-segment f off 16 0 (omega arith) ∙ h 0 (omega arith) ∙ ap c (omega arith) in
    let b : get_or (segment f off 16) 1 0 ≡ c (off + 1) =
      get_or-segment f off 16 1 (omega arith) ∙ h 1 (omega arith) in
    (
      omega (arith, a, b),
      namecmp_ext name (to_dirent (segment f off 16)).name (entry_at c off).name (λ j l.
          get_or-segment f off 16 (2 + j) (omega (arith, l))
          ∙ h (2 + j) (omega (arith, l))
          ∙ ap c (omega arith)),
    )

-- Nothing was found at `off`.
pub onward :
    {name c : ℕ → ℕ} {size off : ℕ} {r : Option (ℕ × ℕ)}
    → matches name c off ≡ false
    → off % dirent_size ≡ 0
    → Found name c size (off + 16) r
    → Found name c size off r
onward {name} {c} {size} {off} m al (absent h) = absent (λ o low high a. elim (ℕ_discrete off o) [
  | yes e ↦ subst (λ p. matches name c p ≡ false) e m
  | no n ↦ h o (omega (arith, low, n, a, al)) high a
])
onward {name} {c} {size} {off} m al (first_entry o low high a y h) =
    first_entry o (omega (arith, low)) high a y (λ p l k b. elim (ℕ_discrete off p) [
      | yes e ↦ subst (λ q. matches name c q ≡ false) e m
      | no n ↦ h p (omega (arith, l, n, b, al)) k b
    ])
