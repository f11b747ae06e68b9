-- ===== src/Disk/Create/Contains.antt =====
-- A new volume adds its mountpoint to the tree, and keeps all others.
use mathlib.Core.Option
use image_builder.Prelude.{
  ℕ, String, ◌≡◌, refl, ap, ◌∙◌, sym, Bool, true, false, ◌||◌, Option, none, some, List, [], ◌∷◌,
  ◌++◌, str_eq, ◌==◌, length, Bool-cases, inl, inr, if◌then◌else◌,
}
use image_builder.Prelude.Result.{Result, ◌>>=◌, IfOk, IfOk-bind, IfOk-map, IfOk-total}
use image_builder.Disk.Errors.{Error}
use image_builder.Disk.Align.{align_extent}
use image_builder.Disk.Entities.{
  BtrfsSubvolume, Btrfs, Payload, filesystem, LogicalVolumes, no_volumes, volume, Partition,
  PartitionTable,
}
use image_builder.Disk.Paths.{
  EntityPath, through, is_some, is_some-first_path, is_some-through, path_subvolumes, path_payload,
  path_volumes, path_partitions,
}
use image_builder.Disk.Create.{
  new_filesystem, append_volume, volume_name, create_logical_volume, create_mountpoint_volume,
  create_mountpoint_subvolume, max_partitions, create_mountpoint,
}

pub or_assoc : (a b c : Bool) → ((a || b) || c) ≡ (a || (b || c))
or_assoc true b c = refl
or_assoc false b c = refl

pub or_false : (a : Bool) → (a || false) ≡ a
or_false true = refl
or_false false = refl

pub or_swap : (a b c : Bool) → ((a || c) || b) ≡ ((a || b) || c)
or_swap true b c = refl
or_swap false true true = refl
or_swap false true false = refl
or_swap false false c = or_false c

-- Whether a mountpoint is in a payload, or in a slice of children.
abbrev pub in_payload : Payload → String → Bool
in_payload p target = is_some (path_payload p target)

abbrev pub in_volumes : LogicalVolumes → String → Bool
in_volumes lvs target = is_some (path_volumes lvs target)

abbrev pub in_subvolumes : List BtrfsSubvolume → String → Bool
in_subvolumes svs target = is_some (path_subvolumes svs target)

abbrev pub in_partitions : List Partition → String → Bool
in_partitions parts target = is_some (path_partitions parts target)

pub in_volumes-cons :
    (n : String) (s : ℕ) (p : Payload) (lvs : LogicalVolumes) (target : String)
    → in_volumes (volume n s p lvs) target ≡ (in_payload p target || in_volumes lvs target)
unfolding path_payload
in_volumes-cons n s p lvs target =
    is_some-first_path (through (path_payload p target)) (path_volumes lvs target)
    ∙ ap (λ (b : Bool). b || in_volumes lvs target) (is_some-through (path_payload p target))

pub in_partitions-cons :
    (part : Partition) (parts : List Partition) (target : String)
    → in_partitions (part ∷ parts) target
      ≡ (in_payload part.payload target || in_partitions parts target)
unfolding path_partitions
in_partitions-cons part parts target =
    is_some-first_path (through (path_payload part.payload target)) (path_partitions parts target)
    ∙ ap (λ (b : Bool). b || in_partitions parts target)
        (is_some-through (path_payload part.payload target))

pub in_partitions-snoc :
    (parts : List Partition) (part : Partition) (target : String)
    → in_partitions (parts ++ part ∷ []) target
      ≡ (in_partitions parts target || in_payload part.payload target)
in_partitions-snoc [] part target =
    in_partitions-cons part [] target
    ∙ (unfold path_partitions in or_false (in_payload part.payload target))
in_partitions-snoc (x ∷ parts) part target =
    in_partitions-cons x (parts ++ part ∷ []) target
    ∙ ap (λ (b : Bool). in_payload x.payload target || b) (in_partitions-snoc parts part target)
    ∙ sym (
        or_assoc (in_payload x.payload target) (in_partitions parts target)
          (in_payload part.payload target))
    ∙ ap (λ (b : Bool). b || in_payload part.payload target)
        (sym (in_partitions-cons x parts target))

-- `after` has the mountpoints of `before` and one more.
abbrev pub Adds : String → (String → Bool) → (String → Bool) → Type 0
Adds mountpoint before after =
    (target : String) → after target ≡ (before target || str_eq target mountpoint)

is_some-if : (b : Bool) → is_some {A = EntityPath} (if b then some [] else none) ≡ b
is_some-if true = refl
is_some-if false = refl

pub in_payload-new :
    (fs_type mountpoint target : String)
    → in_payload (filesystem (new_filesystem fs_type mountpoint)) target ≡ str_eq target mountpoint
unfolding path_payload
in_payload-new fs_type mountpoint target = is_some-if (str_eq target mountpoint)

in_volumes-append :
    (lvs : LogicalVolumes) (n : String) (s : ℕ) (p : Payload) (target : String)
    → in_volumes (append_volume lvs n s p) target ≡ (in_volumes lvs target || in_payload p target)
unfolding append_volume
in_volumes-append no_volumes n s p target =
    in_volumes-cons n s p no_volumes target
    ∙ (unfold path_payload in or_false (in_payload p target))
in_volumes-append (volume n' s' p' lvs) n s p target =
    in_volumes-cons n' s' p' (append_volume lvs n s p) target
    ∙ ap (λ (b : Bool). in_payload p' target || b) (in_volumes-append lvs n s p target)
    ∙ sym (or_assoc (in_payload p' target) (in_volumes lvs target) (in_payload p target))
    ∙ ap (λ (b : Bool). b || in_payload p target) (sym (in_volumes-cons n' s' p' lvs target))

in_subvolumes-append :
    (svs : List BtrfsSubvolume) (sv : BtrfsSubvolume) (target : String)
    → in_subvolumes (svs ++ sv ∷ []) target
      ≡ (in_subvolumes svs target || str_eq target sv.mountpoint)
unfolding path_subvolumes
in_subvolumes-append [] sv target =
    is_some-first_path (if str_eq target sv.mountpoint then some [] else none) none
    ∙ or_false _
    ∙ is_some-if (str_eq target sv.mountpoint)
in_subvolumes-append (x ∷ svs) sv target =
    let here : Option EntityPath = if str_eq target x.mountpoint then some [] else none in
    is_some-first_path here (path_subvolumes (svs ++ sv ∷ []) target)
    ∙ ap (λ (b : Bool). is_some here || b) (in_subvolumes-append svs sv target)
    ∙ sym (or_assoc (is_some here) (in_subvolumes svs target) (str_eq target sv.mountpoint))
    ∙ ap (λ (b : Bool). b || str_eq target sv.mountpoint)
        (sym (is_some-first_path here (path_subvolumes svs target)))

create_logical_volume-adds :
    (lvs : LogicalVolumes) (name : String) (size : ℕ) (p : Payload)
    → IfOk
        (λ lvs'.
          (target : String)
          → in_volumes lvs' target ≡ (in_volumes lvs target || in_payload p target))
        (create_logical_volume lvs name size p)
unfolding create_logical_volume
create_logical_volume-adds lvs name size p =
    IfOk-bind (λ _. Unit {0}) _ (volume_name lvs name p) _
      (IfOk-total (λ _. Unit {0}) (volume_name lvs name p) (λ _. tt))
      (λ name' _ target. in_volumes-append lvs name' (align_extent size) p target)

pub create_mountpoint_volume-Adds :
    (lvs : LogicalVolumes) (mountpoint fs_type : String) (size : ℕ)
    → IfOk
        (λ lvs'. Adds mountpoint (in_volumes lvs) (in_volumes lvs'))
        (create_mountpoint_volume lvs mountpoint fs_type size)
unfolding create_mountpoint_volume
create_mountpoint_volume-Adds lvs mountpoint fs_type size =
    elim (Bool-cases (str_eq fs_type "btrfs")) [
      | inl refused ↦ rw refused tt
      | inr fine ↦ rw fine (
          IfOk-map
            (λ lvs'.
              (target : String)
              → in_volumes lvs' target ≡ (
                  in_volumes lvs target
                  || in_payload (filesystem (new_filesystem fs_type mountpoint)) target))
            (λ lvs'. Adds mountpoint (in_volumes lvs) (in_volumes lvs'))
            (create_logical_volume lvs "" size (filesystem (new_filesystem fs_type mountpoint)))
            (create_logical_volume-adds lvs "" size
              (filesystem (new_filesystem fs_type mountpoint)))
            (λ lvs' h target.
              h target
              ∙ ap (λ (b : Bool). in_volumes lvs target || b)
                  (in_payload-new fs_type mountpoint target)))
    ]

pub create_mountpoint_subvolume-Adds :
    (b : Btrfs) (mountpoint fs_type : String) (size : ℕ)
    → IfOk
        (λ (b' : Btrfs). Adds mountpoint (in_subvolumes b.subvolumes) (in_subvolumes b'.subvolumes))
        (create_mountpoint_subvolume b mountpoint fs_type size)
unfolding create_mountpoint_subvolume
create_mountpoint_subvolume-Adds b mountpoint fs_type size =
    elim (Bool-cases (str_eq fs_type "btrfs")) [
      | inl fine ↦ rw fine (in_subvolumes-append b.subvolumes _)
      | inr refused ↦ rw refused tt
    ]

pub create_mountpoint-Adds :
    (pt : PartitionTable) (mountpoint fs_type : String) (size : ℕ)
    → IfOk
        (λ (pt' : PartitionTable).
          Adds mountpoint (in_partitions pt.partitions) (in_partitions pt'.partitions))
        (create_mountpoint pt mountpoint fs_type size)
unfolding create_mountpoint
create_mountpoint-Adds pt mountpoint fs_type size =
    elim (Bool-cases (length pt.partitions == max_partitions pt)) [
      | inl full ↦ rw full tt
      | inr room ↦ rw room (λ target.
          in_partitions-snoc pt.partitions _ target
          ∙ ap (λ (b : Bool). in_partitions pt.partitions target || b)
              (in_payload-new fs_type mountpoint target))
    ]

-- The same of an optional result.
abbrev pub IfSome {ℓ κ} : {A : Type ℓ} → (A → Type κ) → Option (Result Error A) → Type κ
IfSome P none = Unit
IfSome P (some r) = IfOk P r

pub IfSome-map {ℓ κ μ ν} :
    {A : Type ℓ} {B : Type κ} (P : A → Type μ) (Q : B → Type ν) (f : A → Result Error B)
    (o : Option (Result Error A))
    → IfSome P o
    → ((a : A) → P a → IfOk Q (f a))
    → IfSome Q (Option.map (λ r. r >>= f) o)
IfSome-map P Q f none h k = tt
IfSome-map P Q f (some r) h k = IfOk-bind P Q r f h k

-- A sibling that is the same before and after does not matter.
pub Adds-beside :
    (mountpoint : String) (other before after before' after' : String → Bool)
    → ((target : String) → before' target ≡ (before target || other target))
    → ((target : String) → after' target ≡ (after target || other target))
    → Adds mountpoint before after
    → Adds mountpoint before' after'
Adds-beside mountpoint other before after before' after' h k a target =
    k target
    ∙ ap (λ (b : Bool). b || other target) (a target)
    ∙ or_swap (before target) (other target) (str_eq target mountpoint)
    ∙ ap (λ (b : Bool). b || str_eq target mountpoint) (sym (h target))

pub Adds-behind :
    (mountpoint : String) (other before after before' after' : String → Bool)
    → ((target : String) → before' target ≡ (other target || before target))
    → ((target : String) → after' target ≡ (other target || after target))
    → Adds mountpoint before after
    → Adds mountpoint before' after'
Adds-behind mountpoint other before after before' after' h k a target =
    k target
    ∙ ap (λ (b : Bool). other target || b) (a target)
    ∙ sym (or_assoc (other target) (before target) (str_eq target mountpoint))
    ∙ ap (λ (b : Bool). b || str_eq target mountpoint) (sym (h target))
