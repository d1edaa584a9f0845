-- ===== src/Fs/Inode/Words.antt =====
-- The words of a block, as bytes.
use os_design_practice.Prelude.{
  Bool-cases, ap, arith, if◌then◌else◌, inl, inr, refl, ℕ, ◌%◌, ◌*◌, ◌+◌, ◌/◌, ◌<◌, ◌==◌, ◌^◌, ◌∙◌,
  ◌≡◌, ◌≤◌, ◌⊎◌,
}
use os_design_practice.Fs.{Block}
use os_design_practice.Fs.Inode.{word, set_word}

-- The four bytes of a word, after a write of a word.
set_word_bytes :
    (bp : Block) (i v j : ℕ)
    → (set_word bp i v (4 * j) ≡ (if i == j then v % 256 else bp (4 * j)))
      × (set_word bp i v (4 * j + 1) ≡ (if i == j then v / 256 % 256 else bp (4 * j + 1)))
      × (set_word bp i v (4 * j + 2) ≡ (if i == j then v / 65536 % 256 else bp (4 * j + 2)))
      × (set_word bp i v (4 * j + 3) ≡ (if i == j then v / 16777216 % 256 else bp (4 * j + 3)))
unfolding set_word
set_word_bytes bp i v j = (ground arith, ground arith, ground arith, ground arith)

-- A word that is written is read again, and the others stay.
pub word-set_word :
    (bp : Block) (i v j : ℕ)
    → v < 2 ^ 32
    → word (set_word bp i v) j ≡ (if i == j then v else word bp j)
unfolding word
word-set_word bp i v j lt =
    let (a, b, c, d) = set_word_bytes bp i v j in
    elim (Bool-cases (i == j)) [
      | inl y ↦ rw (a, b, c, d) rw y (omega (arith, lt))
      | inr n ↦ rw (a, b, c, d) rw n refl
    ]

pub set_word-IsByte : (bp : Block) (i v q : ℕ) → ((j : ℕ) → bp j < 256) → set_word bp i v q < 256
unfolding set_word
set_word-IsByte bp i v q h = ground (arith, h q)

pub set_word_elsewhere :
    (bp : Block) (i v j : ℕ) → j < 4 * i ⊎ 4 * i + 4 ≤ j → set_word bp i v j ≡ bp j
unfolding set_word
set_word_elsewhere bp i v j out = ground (arith, out)

pub word_ext :
    (bp bq : Block) (i : ℕ)
    → ((k : ℕ) → k < 4 → bp (4 * i + k) ≡ bq (4 * i + k))
    → word bp i ≡ word bq i
unfolding word
word_ext bp bq i h =
    let a : bp (4 * i) ≡ bq (4 * i) =
      ap bp (omega arith) ∙ h 0 (omega arith) ∙ ap bq (omega arith) in
    rw (a, h 1 (omega arith), h 2 (omega arith), h 3 (omega arith)) refl
