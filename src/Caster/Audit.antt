-- ===== src/Caster/Audit.antt =====
-- The audit log of src/caster.py: `_audit_add` writes a line to a file and rotates the file when
-- it is too large. The file is number 0, and its backup `.i` is number `i`; a file is a list of
-- bytes. A file operation that fails leaves the files as they are; here none fails.
pub mod Rotation
mod Tests
use babilcors.Prelude.{
  ℕ, zero, suc, ◌+◌, ◌-◌, ◌≡◌, Bool, true, false, Option, none, some, List, [], ◌∷◌, ◌++◌, ◌==◌,
  ltb, length, drop, if◌then◌else◌, or_else,
}

abbrev pub Files : Type 0
Files = ℕ → Option (List ℕ)

-- `os.replace(src, dst)`, if `src` exists.
unfoldable pub replace : ℕ → ℕ → Files → Files
replace src dst files j = elim (files src) [
  | none ↦ files j
  | some c ↦ if j == dst then some c else if j == src then none else files j
]

-- `os.remove`, if the file exists.
unfoldable pub remove_file : ℕ → Files → Files
remove_file i files j = if j == i then none else files j

-- `for i in range(backups - 1, 0, -1)`, from `n` down to 1.
unfoldable pub move_backups : ℕ → Files → Files
move_backups zero files = files
move_backups (suc i) files = move_backups i (replace (suc i) (suc (suc i)) files)

unfoldable pub rotate : ℕ → Files → Files
rotate backups files =
    if ltb 0 backups
    then replace 0 1 (move_backups (backups - 1) (remove_file backups files))
    else files

unfoldable pub append_line : List ℕ → Files → Files
append_line line files j = if j == 0 then some (or_else (files 0) [] ++ line) else files j

unfoldable pub size_of_log : Files → ℕ
size_of_log files = length (or_else (files 0) [])

-- The writing of a line, and the rotation.
unfoldable pub write_audit : ℕ → ℕ → List ℕ → Files → Files
write_audit max_bytes backups line files =
    let written = append_line line files in
    if ltb max_bytes (size_of_log written) then rotate backups written else written

-- `deque(maxlen=n)`: an item is put at the end, and the first goes if there are too many.
unfoldable pub append_bounded {ℓ} : {A : Type ℓ} → ℕ → A → List A → List A
append_bounded n x xs = let all = xs ++ x ∷ [] in drop (length all - n) all
