-- ===== src/Caster/Audit/Rotation.antt =====
-- The rotation moves every file one place on, and loses only the last backup.
use babilcors.Prelude.{
  ℕ, zero, suc, ◌-◌, ◌<◌, ◌≡◌, ◌∙◌, none, ◌==◌, leb, if◌then◌else◌, arith, Option-cases,
}
use babilcors.Caster.Audit.{Files, replace, remove_file, move_backups, rotate}

-- What a file is moved onto, and what it leaves.
replace-at :
    (src dst j : ℕ) (files : Files)
    → files dst ≡ none
    → replace src dst files j ≡ (if j == dst then files src else if j == src then none else files j)
unfolding replace
replace-at src dst j files e = ground (arith, e, Option-cases (files src))

move_backups-at :
    (n j : ℕ) (files : Files)
    → files (suc n) ≡ none
    → move_backups n files j ≡ (
        if j == 0
        then files 0
        else if j == 1
        then none
        else if leb j (suc n)
        then files (j - 1)
        else files j)
unfolding move_backups
move_backups-at zero j files e = ground (arith, e)
move_backups-at (suc n) j files e =
    let moved = replace (suc n) (suc (suc n)) files in
    let gone : moved (suc n) ≡ none =
      replace-at (suc n) (suc (suc n)) (suc n) files e ∙ ground arith in
    move_backups-at n j moved gone
    ∙ ground (
      arith,
      e,
      replace-at (suc n) (suc (suc n)) 0 files e,
      replace-at (suc n) (suc (suc n)) (j - 1) files e,
      replace-at (suc n) (suc (suc n)) j files e,
    )

-- A rotation with some backups empties the log and moves each file one place on, up to the last
-- backup, which goes; no other file changes.
pub rotate-moves :
    (backups j : ℕ) (files : Files)
    → 0 < backups
    → rotate backups files j
      ≡ (if j == 0 then none else if leb j backups then files (j - 1) else files j)
unfolding rotate remove_file
rotate-moves backups j files h =
    let n = backups - 1 in
    let left = remove_file backups files in
    let gone : left (suc n) ≡ none = ground (arith, h) in
    let free : move_backups n left 1 ≡ none = move_backups-at n 1 left gone ∙ ground arith in
    ground (
      arith,
      h,
      replace-at 0 1 j (move_backups n left) free,
      move_backups-at n j left gone,
      move_backups-at n 0 left gone,
    )
