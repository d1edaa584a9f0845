-- ===== src/Fs/Path/Elements/Tests.antt =====
-- Paths that `skipelem` of kernel/fs.c takes apart.
use os_design_practice.Prelude.{List, [], arith, map, refl, take, ℕ, ◌∷◌, ◌≡◌}
use os_design_practice.Fs.Path.{slash, dirsiz}
use os_design_practice.Fs.Path.Elements.{
  IsText, empty, more, elements, pieces, not_empty, elements-pieces,
}

-- "//a//bb/"
abbrev path : List ℕ
path = slash ∷ slash ∷ 97 ∷ slash ∷ slash ∷ 98 ∷ 98 ∷ slash ∷ []

path-IsText : IsText path
path-IsText = more (omega arith) (
    more (omega arith) (
      more (omega arith) (
        more (omega arith) (
          more (omega arith)
            (more (omega arith) (more (omega arith) (more (omega arith) empty)))))))

parts : not_empty (pieces path) ≡ (97 ∷ []) ∷ (98 ∷ 98 ∷ []) ∷ []
unfolding not_empty pieces
parts = refl

elements-pieces_example : elements 9 path (λ i. 0) ≡ map (take dirsiz) (not_empty (pieces path))
elements-pieces_example = elements-pieces 9 path (λ i. 0) path-IsText (omega arith)
