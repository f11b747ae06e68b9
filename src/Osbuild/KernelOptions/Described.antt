-- ===== src/Osbuild/KernelOptions/Described.antt =====
-- The options of `GenImageKernelOptions` without the flip of "ro".
use Prim.Native.Char.{Char, code}
use Prim.Native.String.append
use mathlib.Core.List.{append_assoc}
use image_builder.Prelude.{
  ℕ, String, ◌≡◌, refl, ap, Option, none, some, List, [], ◌∷◌, ◌++◌, str_eq, eq_iff, arith, All,
  Bool-cases, inl, inr, if◌then◌else◌,
}
use image_builder.Prelude.Result.{Result, ok, err, panic, ◌>>=◌, IfOk, IfOk-bind, IfOk-total}
use image_builder.Text.{concat}
use image_builder.Disk.Entities.{PartitionTable}
use image_builder.Disk.Paths.{Mountable, find_mountable}
use image_builder.Disk.Walks.{for_each_entity, of_mountable}
use image_builder.Osbuild.Mounts.{get_fs_type}
use image_builder.Osbuild.Fstab.{FstabOptions, get_fs_spec_uuid}
use image_builder.Osbuild.KernelOptions.{
  MountConfiguration, KernelOptionsError, root_not_defined, is_units, is_fstab, options_or_panic,
  usr_options, flip_ro, units_options, all_entity_options, root_options, gen_image_kernel_options,
}

-- The mount flags of the root, for mount units.
unfoldable pub root_flags : Mountable → MountConfiguration → Result KernelOptionsError (List String)
root_flags root config =
    if is_units config
    then (options_or_panic root >>= λ options. ok (
        if str_eq options.mnt_ops "defaults" then [] else concat "rootflags=" options.mnt_ops ∷ []))
    else ok []

-- The options one after the other: those for "/usr", the flags of the root, and those of the entities.
unfoldable pub described_root :
    PartitionTable
    → MountConfiguration
    → Option Mountable
    → Result KernelOptionsError (String × List String)
unfolding root_flags
described_root pt config none = err root_not_defined
described_root pt config (some root) = usr_options (find_mountable pt "/usr") config >>= λ usr.
    root_flags root config >>= λ flags. ok (
      get_fs_spec_uuid (of_mountable root),
      usr ++ (flags ++ all_entity_options config (for_each_entity pt)),
    )

unfoldable pub described_options :
    PartitionTable → MountConfiguration → Result KernelOptionsError (String × List String)
unfolding described_root
described_options pt config = described_root pt config (find_mountable pt "/")

abbrev answer : String → List String → Result KernelOptionsError (String × List String)
answer uuid options = ok (uuid, options)

abbrev first_code : String → ℕ
first_code String.[] = 0
first_code (String.◌∷◌ c s) = code c

-- No option of the list is "ro".
abbrev HasNoRo : List String → Type 0
HasNoRo options = All (λ option. first_code option ≡ b'm') options

flip_ro-HasNoRo : (options : List String) → HasNoRo options → flip_ro options ≡ options
unfolding flip_ro
flip_ro-HasNoRo [] h = refl
flip_ro-HasNoRo (option ∷ options) h = elim (Bool-cases (str_eq option "ro")) [
  | inl ro ↦ absurd (omega (arith, h.0, ap first_code ((eq_iff option "ro").0 ro)))
  | inr other ↦ rw other (ap (◌∷◌ option) (flip_ro-HasNoRo options h.1))
]

first_code-concat : (c : Char) (s t : String) → first_code (concat (String.◌∷◌ c s) t) ≡ code c
first_code-concat c s t = ap first_code (append.cons c s t)

usr_options-HasNoRo :
    (usr : Option Mountable) (config : MountConfiguration) → IfOk HasNoRo (usr_options usr config)
unfolding usr_options
usr_options-HasNoRo none config = tt
usr_options-HasNoRo (some usr) config = elim (Bool-cases (is_fstab config)) [
  | inl fstab ↦ rw fstab tt
  | inr other ↦ rw other (
      IfOk-bind (λ options. Unit {0}) HasNoRo (options_or_panic usr) _
        (IfOk-total (λ options. Unit {0}) (options_or_panic usr) (λ options. tt))
        (λ options h. (
          first_code-concat "m" "ount.usr=UUID=" (get_fs_spec_uuid (of_mountable usr)),
          (
            first_code-concat "m" "ount.usrfstype=" (get_fs_type usr),
            (first_code-concat "m" "ount.usrflags=" options.mnt_ops, tt),
          ),
        )))
]

bind-eq :
    {A B : Type 0} (P : A → Type 0) (m : Result KernelOptionsError A)
    (f g : A → Result KernelOptionsError B)
    → IfOk P m
    → ((a : A) → P a → f a ≡ g a)
    → (m >>= f) ≡ (m >>= g)
bind-eq P (ok a) f g h k = k a h
bind-eq P (err e) f g h k = refl
bind-eq P panic f g h k = refl

with_flags :
    (uuid : String) (cmdline others : List String) (r : Result KernelOptionsError FstabOptions)
    → flip_ro cmdline ≡ cmdline
    → ((r >>= λ options. ok (
          if str_eq options.mnt_ops "defaults"
          then flip_ro cmdline
          else flip_ro cmdline ++ concat "rootflags=" options.mnt_ops ∷ []))
        >>= λ cmdline'. answer uuid (cmdline' ++ others))
      ≡ ((r >>= λ options. ok (
            if str_eq options.mnt_ops "defaults"
            then []
            else concat "rootflags=" options.mnt_ops ∷ []))
          >>= λ flags. answer uuid (cmdline ++ (flags ++ others)))
with_flags uuid cmdline others (err e) h = refl
with_flags uuid cmdline others panic h = refl
with_flags uuid cmdline others (ok options) h =
    elim (Bool-cases (str_eq options.mnt_ops "defaults")) [
      | inl defaults ↦ rw (h, defaults) refl
      | inr flags ↦
          rw (h, flags)
            (ap (answer uuid)
              (append_assoc cmdline (concat "rootflags=" options.mnt_ops ∷ []) others))
    ]

units_options-eq :
    (root : Mountable) (config : MountConfiguration) (uuid : String) (cmdline others : List String)
    → flip_ro cmdline ≡ cmdline
    → (units_options root config cmdline >>= λ cmdline'. answer uuid (cmdline' ++ others))
      ≡ (root_flags root config >>= λ flags. answer uuid (cmdline ++ (flags ++ others)))
unfolding units_options root_flags
units_options-eq root config uuid cmdline others h = elim (Bool-cases (is_units config)) [
  | inl units ↦ rw units (with_flags uuid cmdline others (options_or_panic root) h)
  | inr other ↦ rw other refl
]

root_options-eq :
    (pt : PartitionTable) (config : MountConfiguration) (root : Option Mountable)
    → root_options pt config root ≡ described_root pt config root
unfolding root_options described_root
root_options-eq pt config none = refl
root_options-eq pt config (some root) =
    bind-eq HasNoRo (usr_options (find_mountable pt "/usr") config) _ _
      (usr_options-HasNoRo (find_mountable pt "/usr") config)
      (λ cmdline h.
        units_options-eq root config (get_fs_spec_uuid (of_mountable root)) cmdline
          (all_entity_options config (for_each_entity pt)) (flip_ro-HasNoRo cmdline h))

-- The flip of "ro" changes nothing, so that the options are the parts one after the other.
pub gen_image_kernel_options-described_options :
    (pt : PartitionTable) (config : MountConfiguration)
    → gen_image_kernel_options pt config ≡ described_options pt config
unfolding gen_image_kernel_options described_options
gen_image_kernel_options-described_options pt config =
    root_options-eq pt config (find_mountable pt "/")
