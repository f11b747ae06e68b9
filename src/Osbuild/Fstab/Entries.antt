-- ===== src/Osbuild/Fstab/Entries.antt =====
-- The entries of `NewFSTabStageOptions`.

use mathlib.Core.List.{Perm}
use mathlib.Core.Path.{ap₂}
use Prim.Native.String.append
use image_builder.Text.Decimal.{digit_char}
use image_builder.Text.Decimal.RoundTrip.{format-digit, code-digit_char}
use image_builder.Prelude.{
  ℕ, ◌<◌, String, ◌≡◌, refl, sym, ap, ◌∙◌, Bool, true, false, not, ◌&&◌, ◌||◌, List, [], ◌∷◌, map,
  str_eq, arith, ltb, ◌==◌, All, Bool-cases, inl, inr, ◌⊎◌, if◌then◌else◌,
}
use image_builder.Prelude.Result.{Result, ok, err, ◌>>=◌}
use image_builder.Text.{concat}
use image_builder.Sorting.{
  less, less_asymm, sort_by, IsOrdered, sort_by-perm, sort_by-IsOrdered, sort_by-All,
}
use image_builder.Disk.Entities.{PartitionTable}
use image_builder.Disk.Paths.{of_filesystem, of_subvolume}
use image_builder.Disk.Walks.{FstabEntity, of_mountable, of_swap, for_each_fstab_entity}
use image_builder.Osbuild.Fstab.{
  FstabOptions, FstabError, subvolume_unnamed, named_options, subvolume_options, get_fstab_options,
  FstabEntry, fstab_entry, fstab_entries, fstab_key, by_key, new_fstab_stage_options,
}

-- A subvolume has a name.
abbrev pub is_named : FstabEntity → Bool
is_named (of_mountable (of_filesystem fs)) = true
is_named (of_mountable (of_subvolume sv)) = not (str_eq sv.name "")
is_named (of_swap s) = true

abbrev pub all_named : List FstabEntity → Bool
all_named [] = true
all_named (entity ∷ entities) = is_named entity && all_named entities

-- The mount options of a subvolume, written out.
abbrev pub subvolume_line : (compress : String) (read_only : Bool) → String → String
subvolume_line compress read_only named =
    let compressed =
      if str_eq compress "" then named else concat named (concat ",compress=" compress) in
    if read_only then concat compressed ",ro" else compressed

-- The line of /etc/fstab for an entity, written out.
abbrev pub line_for : FstabEntity → FstabEntry
line_for (of_mountable (of_filesystem fs)) = record {
  uuid = fs.uuid;
  vfs_type = fs.type;
  path = fs.mountpoint;
  options = fs.fstab_options;
  freq = fs.fstab_freq;
  passno = fs.fstab_pass_no;
}
line_for (of_mountable (of_subvolume sv)) = record {
  uuid = sv.uuid;
  vfs_type = "btrfs";
  path = sv.mountpoint;
  options = subvolume_line sv.compress sv.read_only (concat "subvol=" sv.name);
  freq = 0;
  passno = 0;
}
line_for (of_swap s) = record {
  uuid = s.uuid;
  vfs_type = "swap";
  path = "none";
  options = s.fstab_options;
  freq = 0;
  passno = 0;
}

-- The pass number has one digit, as that of fsck has: it is 0, 1 or 2.
abbrev pub HasDigit : FstabEntity → Type 0
HasDigit entity = (line_for entity).passno < 10

-- A line comes before another by its pass number, and by its file where these are the same.
abbrev pub comes_before : FstabEntry → FstabEntry → Bool
comes_before a b = ltb a.passno b.passno || ((a.passno == b.passno) && less a.path b.path)

abbrev answer {ℓ} : {A : Type ℓ} → A → Result FstabError A
answer a = ok a

get_fstab_options-ok :
    (entity : FstabEntity)
    → is_named entity ≡ true
    → (options : FstabOptions) × (get_fstab_options entity ≡ ok options)
unfolding get_fstab_options
get_fstab_options-ok (of_mountable (of_filesystem fs)) h = (_, refl)
get_fstab_options-ok (of_mountable (of_subvolume sv)) h = elim (Bool-cases (str_eq sv.name "")) [
  | inl unnamed ↦ absurd (ground arith)
  | inr named ↦ (named_options sv, rw (subvolume_options, named) refl)
]
get_fstab_options-ok (of_swap s) h = (_, refl)

get_fstab_options-err :
    (entity : FstabEntity)
    → is_named entity ≡ false
    → get_fstab_options entity ≡ err subvolume_unnamed
unfolding get_fstab_options
get_fstab_options-err (of_mountable (of_filesystem fs)) h = cc
get_fstab_options-err (of_mountable (of_subvolume sv)) h = elim (Bool-cases (str_eq sv.name "")) [
  | inl unnamed ↦ rw (subvolume_options, unnamed) refl
  | inr named ↦ absurd (ground arith)
]
get_fstab_options-err (of_swap s) h = cc

fstab_entry-ok :
    (entity : FstabEntity)
    → is_named entity ≡ true
    → (get_fstab_options entity >>= λ options. ok (fstab_entry entity options))
      ≡ ok (line_for entity)
unfolding get_fstab_options fstab_entry
fstab_entry-ok (of_mountable (of_filesystem fs)) h = refl
fstab_entry-ok (of_mountable (of_subvolume sv)) h = elim (Bool-cases (str_eq sv.name "")) [
  | inl unnamed ↦ absurd (ground arith)
  | inr named ↦ rw (subvolume_options, named) refl
]
fstab_entry-ok (of_swap s) h = refl

fstab_entries-ok :
    (entities : List FstabEntity)
    → all_named entities ≡ true
    → fstab_entries entities ≡ ok (map line_for entities)
unfolding fstab_entries
fstab_entries-ok [] h = refl
fstab_entries-ok (entity ∷ entities) h =
    let (options, here) = get_fstab_options-ok entity (ground arith) in
    let line =
      ap (λ r. r >>= λ options. answer (fstab_entry entity options)) (sym here)
      ∙ fstab_entry-ok entity (ground arith) in
    rw (here, fstab_entries-ok entities (ground arith))
      (ap (λ r. r >>= λ entry. answer (entry ∷ map line_for entities)) line)

fstab_entries-err :
    (entities : List FstabEntity)
    → all_named entities ≡ false
    → fstab_entries entities ≡ err subvolume_unnamed
unfolding fstab_entries
fstab_entries-err [] h = cc
fstab_entries-err (entity ∷ entities) h = elim (Bool-cases (is_named entity)) [
  | inl named ↦
      let (options, here) = get_fstab_options-ok entity named in
      rw here (rw (fstab_entries-err entities (ground arith)) refl)
  | inr unnamed ↦ rw (get_fstab_options-err entity unnamed) refl
]

fstab_key-digit :
    (entry : FstabEntry)
    → entry.passno < 10
    → fstab_key entry ≡ String.◌∷◌ (digit_char entry.passno) entry.path
unfolding fstab_key
fstab_key-digit entry h =
    ap (λ s. concat s entry.path) (format-digit entry.passno h)
    ∙ append.cons (digit_char entry.passno) "" entry.path
    ∙ ap (String.◌∷◌ (digit_char entry.passno)) (append.nil entry.path)

less-digit :
    (m n : ℕ) (s t : String)
    → m < 10
    → n < 10
    → less (String.◌∷◌ (digit_char m) s) (String.◌∷◌ (digit_char n) t)
      ≡ (ltb m n || ((m == n) && less s t))
unfolding less
less-digit m n s t hm hn = rw (code-digit_char m hm, code-digit_char n hn) (ground arith)

-- For pass numbers of one digit the keys are in the order of the numbers.
by_key-eq : (a b : FstabEntry) → a.passno < 10 → b.passno < 10 → by_key a b ≡ comes_before a b
by_key-eq a b ha hb =
    ap₂ less (fstab_key-digit a ha) (fstab_key-digit b hb)
    ∙ less-digit a.passno b.passno a.path b.path ha hb

by_key-IsOrdered :
    (entries : List FstabEntry)
    → All (λ (entry : FstabEntry). entry.passno < 10) entries
    → IsOrdered by_key entries
    → IsOrdered comes_before entries
by_key-IsOrdered [] small h = tt
by_key-IsOrdered (a ∷ []) small h = tt
by_key-IsOrdered (a ∷ b ∷ entries) small h =
    (sym (by_key-eq b a small.1.0 small.0) ∙ h.0, by_key-IsOrdered (b ∷ entries) small.1 h.1)

lines-All :
    (entities : List FstabEntity)
    → All HasDigit entities
    → All (λ (entry : FstabEntry). entry.passno < 10) (map line_for entities)
lines-All [] h = tt
lines-All (entity ∷ entities) h = (h.0, lines-All entities h.1)

-- Where the pass numbers have one digit, `NewFSTabStageOptions` returns exactly one line for each
-- filesystem, subvolume and swap area of the table, with the UUID, type, file, options and numbers of
-- the entity, in the order of the pass numbers and, for the same number, of the files, if all subvolumes
-- have names; if one has none, it returns the error that says so.
pub new_fstab_stage_options_lem :
    (pt : PartitionTable)
    → All HasDigit (for_each_fstab_entity pt)
    → ((all_named (for_each_fstab_entity pt) ≡ true)
        × (entries : List FstabEntry) × (new_fstab_stage_options pt ≡ ok entries)
        × IsOrdered comes_before entries
        × Perm entries (map line_for (for_each_fstab_entity pt)))
      ⊎ ((all_named (for_each_fstab_entity pt) ≡ false)
          × (new_fstab_stage_options pt ≡ err subvolume_unnamed))
unfolding new_fstab_stage_options
new_fstab_stage_options_lem pt small =
    let lines = map line_for (for_each_fstab_entity pt) in
    elim (Bool-cases (all_named (for_each_fstab_entity pt))) [
      | inl named ↦ inl (
        named,
        sort_by by_key lines,
        rw (fstab_entries-ok (for_each_fstab_entity pt) named) refl,
        by_key-IsOrdered (sort_by by_key lines)
            (sort_by-All by_key _ lines (lines-All (for_each_fstab_entity pt) small))
            (sort_by-IsOrdered by_key (λ a b. less_asymm (fstab_key a) (fstab_key b)) lines),
        sort_by-perm by_key lines,
      )
      | inr unnamed ↦ inr (unnamed, rw (fstab_entries-err (for_each_fstab_entity pt) unnamed) refl)
    ]
