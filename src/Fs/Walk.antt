-- ===== src/Fs/Walk.antt =====
-- The walk along a path, of kernel/fs.c: `namex`, `namei` and `nameiparent`.
--
-- A pointer to an inode is a place in the table. The walk runs on the length of the path as fuel; each round
-- of the loop takes a byte at least.
pub mod Balance
pub mod Fuel
mod Tests
use os_design_practice.Prelude.{
  Bool, List, Option, [], false, get_elem?, if◌then◌else◌, length, modify, none, not, some, suc,
  true, zero, ℕ, ◌&&◌, ◌==◌, ◌||◌, ◌∷◌,
}
use os_design_practice.Fs.{Super, Disk}
use os_design_practice.Fs.Inode.{Inode}
use os_design_practice.Fs.Path.{slash, skipelem}
use os_design_practice.Fs.Table.{
  Entry, Outcome, panics, sleeps, done, iget, idup, ilock, iunlock, iunlockput,
}
use os_design_practice.Fs.Dir.{t_dir, dirlookup, put_at}

pub record World : Type 0 where
  pub table : List Entry
  pub disk : Disk

-- One operation, and then the next, unless it panics or sleeps.
abbrev pub and_then : {A B : Type 0} → Outcome A → (A → Outcome B) → Outcome B
and_then panics f = panics
and_then sleeps f = sleeps
and_then (done a) f = f a

-- An operation on the entry at `i`.
abbrev pub on_entry : List Entry → ℕ → {A : Type 0} → (Entry → Outcome A) → Outcome A
on_entry t i f = elim (get_elem? t i) [ none ↦ panics | some e ↦ f e ]

pub lock_at : Super → ℕ → ℕ → World → Outcome World
lock_at sb me i w = on_entry w.table i (λ e.
    and_then (ilock sb me w.disk e) (λ e'. done (record w { table = modify w.table i (λ x. e') })))

pub unlock_at : ℕ → ℕ → World → Outcome World
unlock_at me i w =
    on_entry w.table i
      (λ e. and_then (iunlock me e) (λ e'. done (record w { table = modify w.table i (λ x. e') })))

pub unlockput_at : Super → ℕ → ℕ → World → Outcome World
unlockput_at sb me i w = on_entry w.table i (λ e.
    and_then (iunlockput sb me w.disk e)
      (λ r. done (record { table = modify w.table i (λ x. r.0); disk = r.1 })))

-- `dirlookup` in the directory at `i`.
pub look_at : Super → (ℕ → ℕ) → ℕ → World → Outcome (Option ℕ × World)
look_at sb name i w = on_entry w.table i (λ e.
    and_then (dirlookup sb name w.table e.ip w.disk) (λ r. done (
      elim r.0 [ none ↦ none | some next ↦ some next.0 ],
      record { table = modify r.1 i (λ x. record x { ip = r.2 }); disk = r.3 },
    )))

-- How a round of the loop ends: with the result of `namex`, or at the next inode.
pub data Visit : Type 0 where
  stop : Option ℕ → World → Visit
  go : ℕ → World → Visit

abbrev pub stop_at : Option ℕ → Outcome World → Outcome Visit
stop_at r o = and_then o (λ w. done (stop r w))

abbrev pub is_end : List ℕ → Bool
is_end [] = true
is_end (c ∷ cs) = false

-- The body of the loop, with the directory at `i`, from `ilock` on; `last` is `nameiparent && *path == '\0'`.
pub visit : Super → ℕ → Bool → (ℕ → ℕ) → ℕ → World → Outcome Visit
unfolding lock_at unlock_at unlockput_at look_at
visit sb me last name i w = and_then (lock_at sb me i w) (λ w1. on_entry w1.table i (λ e.
    if not (e.ip.kind == t_dir) || e.ip.nlink == 0
    then stop_at none (unlockput_at sb me i w1)
    else if last
    then stop_at (some i) (unlock_at me i w1)
    else and_then (look_at sb name i w1) (λ r.
      and_then (unlockput_at sb me i r.1)
        (λ w2. elim r.0 [ none ↦ done (stop none w2) | some next ↦ done (go next w2) ]))))

-- `if(nameiparent){ iput(ip); return 0; } return ip;`
abbrev pub end_walk : Super → ℕ → Bool → (ℕ → ℕ) → ℕ → World → Outcome (Option ℕ × (ℕ → ℕ) × World)
end_walk sb me parent name i w =
    if parent
    then and_then (put_at sb me i w.table w.disk)
        (λ r. done (none, name, record { table = r.0; disk = r.1 }))
    else done (some i, name, w)

pub walk_from :
    Super → ℕ → Bool → ℕ → List ℕ → (ℕ → ℕ) → ℕ → World → Outcome (Option ℕ × (ℕ → ℕ) × World)
unfolding visit
walk_from sb me parent zero path name i w = end_walk sb me parent name i w
walk_from sb me parent (suc fuel) path name i w = elim (skipelem path name) [
  | none ↦ end_walk sb me parent name i w
  | some (rest, name') ↦ and_then (visit sb me (parent && is_end rest) name' i w) (λ v. elim v [
    | stop r w' ↦ done (r, name', w')
    | go next w' ↦ walk_from sb me parent fuel rest name' next w'
  ])
]

abbrev pub starts_at_root : List ℕ → Bool
starts_at_root [] = false
starts_at_root (c ∷ cs) = c == slash

-- `ROOTDEV` and `ROOTINO` are 1. `cwd` is the working directory of the process.
pub namex : Super → ℕ → ℕ → Bool → List ℕ → (ℕ → ℕ) → World → Outcome (Option ℕ × (ℕ → ℕ) × World)
unfolding walk_from
namex sb me cwd parent path name w =
    if starts_at_root path
    then elim (iget 1 1 w.table) [
      | none ↦ panics
      | some (i, t) ↦
          walk_from sb me parent (suc (length path)) path name i (record w { table = t })
    ]
    else walk_from sb me parent (suc (length path)) path name cwd
        (record w { table = idup cwd w.table })

-- The name in which they begin is not initialised.
pub namei : Super → ℕ → ℕ → List ℕ → (ℕ → ℕ) → World → Outcome (Option ℕ × (ℕ → ℕ) × World)
unfolding namex
namei sb me cwd path name w = namex sb me cwd false path name w

pub nameiparent : Super → ℕ → ℕ → List ℕ → (ℕ → ℕ) → World → Outcome (Option ℕ × (ℕ → ℕ) × World)
unfolding namex
nameiparent sb me cwd path name w = namex sb me cwd true path name w
