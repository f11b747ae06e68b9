-- ===== src/Osbuild/Tests/Ranges.antt =====
-- One order in which a map can be ranged over: that of the association list.
use image_builder.Prelude.{
  String, ◌≡◌, sym, ◌∙◌, false, some, [], ◌∷◌, str_eq, eq_iff, arith, inl, inr, Bool-cases,
}
use image_builder.Dictionary.{false-apart, lookup, delete}
use image_builder.Osbuild.Devices.{Device, Devices}
use image_builder.Osbuild.Mounts.Merged.{HasEntry}
use image_builder.Osbuild.Mounts.Mounted.{RangesOver}

-- The first entry of each key.
unfoldable pub in_order : Devices → Devices
unfolding delete
in_order [] = []
in_order ((name, device) ∷ ds) = (name, device) ∷ delete name (in_order ds)

kept : (k n name : String) → str_eq k name ≡ false → n ≡ name → str_eq n k ≡ false
kept k n name other same = elim (Bool-cases (str_eq n k)) [
  | inl equal ↦
      absurd (false-apart (sym other ∙ (eq_iff k name).1 (sym ((eq_iff n k).0 equal) ∙ same)))
  | inr apart ↦ apart
]

delete-HasEntry :
    (k name : String) (device : Device) (ds : Devices)
    → str_eq k name ≡ false
    → HasEntry name device ds
    → HasEntry name device (delete k ds)
unfolding delete
delete-HasEntry k name device [] other h = absurd h
delete-HasEntry k name device ((n, d) ∷ ds) other (inl (same, at)) =
    rw (kept k n name other same) (inl (same, at))
delete-HasEntry k name device ((n, d) ∷ ds) other (inr h) = elim (Bool-cases (str_eq n k)) [
  | inl gone ↦ rw gone (delete-HasEntry k name device ds other h)
  | inr stays ↦ rw stays (inr (delete-HasEntry k name device ds other h))
]

differs_at : (k n name : String) → str_eq n k ≡ false → n ≡ name → str_eq k name ≡ false
differs_at k n name other same = elim (Bool-cases (str_eq k name)) [
  | inl equal ↦
      absurd (false-apart (sym other ∙ (eq_iff n k).1 (same ∙ sym ((eq_iff k name).0 equal))))
  | inr apart ↦ apart
]

HasEntry-delete :
    (k name : String) (device : Device) (ds : Devices)
    → HasEntry name device (delete k ds)
    → (str_eq k name ≡ false) × HasEntry name device ds
unfolding delete
HasEntry-delete k name device [] h = absurd h
HasEntry-delete k name device ((n, d) ∷ ds) h = elim (Bool-cases (str_eq n k)) [
  | inl gone ↦
      let (other, there) = HasEntry-delete k name device ds (rw gone at h) in (other, inr there)
  | inr stays ↦ elim (rw stays at h) [
    | inl (same, at) ↦ (differs_at k n name stays same, inl (same, at))
    | inr later ↦ let (other, there) = HasEntry-delete k name device ds later in (other, inr there)
  ]
]

some-injective : {a b : Device} → some a ≡ some b → a ≡ b
some-injective h = cc

in_order-each :
    (ds : Devices) (name : String) (device : Device)
    → lookup name ds ≡ some device
    → HasEntry name device (in_order ds)
unfolding in_order lookup
in_order-each [] name device h = cc
in_order-each ((n, d) ∷ ds) name device h = elim (Bool-cases (str_eq n name)) [
  | inl same ↦ inl ((eq_iff n name).0 same, some-injective (rw same at h))
  | inr other ↦ inr (
      delete-HasEntry n name device (in_order ds) other
        (in_order-each ds name device (rw other at h)))
]

in_order-only :
    (ds : Devices) (name : String) (device : Device)
    → HasEntry name device (in_order ds)
    → lookup name ds ≡ some device
unfolding in_order lookup
in_order-only [] name device h = absurd h
in_order-only ((n, d) ∷ ds) name device (inl (same, at)) = ground (arith, eq_iff n name, same, at)
in_order-only ((n, d) ∷ ds) name device (inr h) =
    let (other, there) = HasEntry-delete n name device (in_order ds) h in
    rw other (in_order-only ds name device there)

pub in_order-RangesOver : RangesOver in_order
in_order-RangesOver = record { each = in_order-each; only = in_order-only }
