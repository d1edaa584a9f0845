-- ===== src/Fs/Walk/Fuel.antt =====
-- The length of the path is fuel enough for the loop of `namex` of kernel/fs.c.
use os_design_practice.Prelude.{
  Bool, List, Option, arith, length, none, refl, some, suc, zero, ℕ, ◌&&◌, ◌<◌, ◌≡◌,
}
use os_design_practice.Fs.{Super}
use os_design_practice.Fs.Path.{skipelem}
use os_design_practice.Fs.Path.Elements.{IsText, Skipped, named, skipelem-Skipped}
use os_design_practice.Fs.Table.{Outcome, panics, sleeps, done}
use os_design_practice.Fs.Walk.{
  World, and_then, Visit, stop, go, visit, end_walk, is_end, walk_from,
}

-- With more fuel than the path has bytes, the loop ends by itself: any more gives the same.
pub walk_from_fuel :
    (sb : Super) (me : ℕ) (parent : Bool) (fuel more_fuel : ℕ) (path : List ℕ) (name : ℕ → ℕ)
    (i : ℕ) (w : World)
    → IsText path
    → length path < fuel
    → length path < more_fuel
    → walk_from sb me parent fuel path name i w ≡ walk_from sb me parent more_fuel path name i w
unfolding walk_from
walk_from_fuel sb me parent zero more_fuel path name i w h lt lt' = absurd (omega arith)
walk_from_fuel sb me parent (suc fuel) zero path name i w h lt lt' = absurd (omega arith)
walk_from_fuel sb me parent (suc fuel) (suc more_fuel) path name i w h lt lt' =
    given (skipelem path name) (skipelem-Skipped path name h) (λ rest name' next w' t l.
      walk_from_fuel sb me parent fuel more_fuel rest name' next w' t (omega (arith, lt, l))
        (omega (arith, lt', l)))
  where
    rounds : ℕ → Option (List ℕ × (ℕ → ℕ)) → Outcome (Option ℕ × (ℕ → ℕ) × World)
    rounds n none = end_walk sb me parent name i w
    rounds n (some (rest, name')) = and_then (visit sb me (parent && is_end rest) name' i w) (λ v.
        elim v [
          | stop r w' ↦ done (r, name', w')
          | go next w' ↦ walk_from sb me parent n rest name' next w'
        ])

    given :
        (r : Option (List ℕ × (ℕ → ℕ)))
        → Skipped path r
        → ((rest : List ℕ) (name' : ℕ → ℕ) (next : ℕ) (w' : World)
            → IsText rest
            → length rest < length path
            → walk_from sb me parent fuel rest name' next w'
              ≡ walk_from sb me parent more_fuel rest name' next w')
        → rounds fuel r ≡ rounds more_fuel r
    given none s later = refl
    given (some (rest, name')) (named t _ _ e u l x) later =
        ends (visit sb me (parent && is_end rest) name' i w)
          (λ next w'. later rest name' next w' x l)
      where
        ends :
            (o : Outcome Visit)
            → ((next : ℕ) (w' : World)
                → walk_from sb me parent fuel rest name' next w'
                  ≡ walk_from sb me parent more_fuel rest name' next w')
            → and_then {B = Option ℕ × (ℕ → ℕ) × World} o (λ v. elim v [
              | stop r w' ↦ done (r, name', w')
              | go next w' ↦ walk_from sb me parent fuel rest name' next w'
            ])
              ≡ and_then {B = Option ℕ × (ℕ → ℕ) × World} o (λ v. elim v [
                | stop r w' ↦ done (r, name', w')
                | go next w' ↦ walk_from sb me parent more_fuel rest name' next w'
              ])
        ends panics same = refl
        ends sleeps same = refl
        ends (done (stop r w')) same = refl
        ends (done (go next w')) same = same next w'
