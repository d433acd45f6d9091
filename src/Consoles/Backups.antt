-- ===== src/Consoles/Backups.antt =====
-- The order of the backups in platform/3ds/source/backup_list.c.
pub mod Order
use dae_moon.Prelude.{ℕ, Bool, true, false, not, List, [], ◌∷◌, Bytes, if◌then◌else◌}
use dae_moon.Manifest.Check.{has_date}
use dae_moon.Archive.{path_before}

-- daemoon_3ds_backup_row_t
pub record BackupRow : Type 0 where
  pub name : Bytes
  pub size : ℕ
  pub created_at : Bytes
  pub device_label : Bytes
  pub sha256 : Bytes
  pub readable : Bool
  pub is_current : Bool

unfoldable pub differs : Bool → Bool → Bool
differs true b = not b
differs false b = b

-- `worse` of the inner loop: whether the row has to stand behind the other. path_before compares two
-- strings as strcmp does.
unfoldable pub is_worse : BackupRow → BackupRow → Bool
unfolding differs has_date path_before
is_worse prev key =
    if differs prev.readable key.readable
    then not prev.readable
    else if differs (has_date prev.created_at) (has_date key.created_at)
    then not (has_date prev.created_at)
    else path_before prev.created_at key.created_at

-- The inner loop, over the rows before the key's place, the nearest first.
unfoldable pub insert_row : BackupRow → List BackupRow → List BackupRow
unfolding is_worse
insert_row key [] = key ∷ []
insert_row key (prev ∷ rows) =
    let rest = insert_row key rows in if is_worse prev key then prev ∷ rest else key ∷ prev ∷ rows

-- The outer loop, over the rows that are left, with those before them from the last to the first; the
-- result is from the last to the first too.
unfoldable pub sort_walk : List BackupRow → List BackupRow → List BackupRow
unfolding insert_row
sort_walk before [] = before
sort_walk before (key ∷ rows) = sort_walk (insert_row key before) rows

unfoldable pub reversed_onto : List BackupRow → List BackupRow → List BackupRow
reversed_onto [] rows = rows
reversed_onto (row ∷ before) rows = reversed_onto before (row ∷ rows)

-- sort_rows
unfoldable pub sort_rows : List BackupRow → List BackupRow
unfolding sort_walk reversed_onto
sort_rows rows = reversed_onto (sort_walk [] rows) []
