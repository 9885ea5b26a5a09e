-- ===== src/Caster/Audit/Tests.antt =====
-- The rotation at concrete files.
use babilcors.Prelude.{◌≡◌, none, some, [], ◌∷◌, leb, if◌then◌else◌, arith}
use babilcors.Caster.Audit.{Files, rotate}
use babilcors.Caster.Audit.Rotation.{rotate-moves}

-- A log and two backups.
abbrev files : Files
files j = if leb j 2 then some (j ∷ []) else none

rotate-moves_case : rotate 2 files 2 ≡ some (1 ∷ [])
rotate-moves_case = rotate-moves 2 2 files (omega arith)
