-- ===== src/Disk/Names.antt =====
-- The names of volumes: `genUniqueString` of disk.go, `lvname` and `genLVName` of lvm.go.
pub mod Fresh
use image_builder.Prelude.{
  ℕ, zero, suc, ◌+◌, String, Bool, not, List, [], ◌∷◌, str_eq, if◌then◌else◌,
}
use image_builder.Prelude.Result.{Result, ok, err}
use image_builder.Text.{trim_left_slash, replace_slash, concat, two_digits, contains}
use image_builder.Disk.Errors.{Error, name_collision}
use image_builder.Disk.Entities.{LogicalVolumes, no_volumes, volume}

unfoldable pub numbered : String → ℕ → String
unfolding two_digits
numbered base i = concat base (two_digits i)

-- The loop from `i` on, with the number of rounds that are left.
unfoldable pub try_numbers : String → List String → ℕ → ℕ → Result Error String
unfolding numbered contains
try_numbers base existing i zero = err name_collision
try_numbers base existing i (suc left) =
    let rest = try_numbers base existing (i + 1) left in
    if not (contains existing (numbered base i)) then ok (numbered base i) else rest

unfoldable pub gen_unique_string : String → List String → Result Error String
unfolding try_numbers
gen_unique_string base existing =
    if not (contains existing base) then ok base else try_numbers base existing 0 100

unfoldable pub lvname : String → String
unfolding trim_left_slash replace_slash
lvname path =
    if str_eq path "/" then "rootlv" else concat (replace_slash (trim_left_slash path)) "lv"

unfoldable pub volume_names : LogicalVolumes → List String
volume_names no_volumes = []
volume_names (volume name size p lvs) = name ∷ volume_names lvs

unfoldable pub gen_lv_name : LogicalVolumes → String → Result Error String
unfolding gen_unique_string lvname volume_names
gen_lv_name lvs base = gen_unique_string (lvname base) (volume_names lvs)
