-- ===== src/Osbuild/Mounts/Merged.antt =====
-- The loop of `GenMountsDevicesFromPT` that adds the devices of one mountable to those before.
use image_builder.Prelude.{
  ℕ, String, ◌≡◌, refl, sym, ap, ◌∙◌, ◌⊎◌, Bool, true, false, not, Option, none, some, [], ◌∷◌,
  str_eq, eq_iff, arith, Bool-cases, inl, inr,
}
use image_builder.Prelude.Result.{IfOk, IfOk-map}
use image_builder.Dictionary.{lookup, insert, lookup-insert}
use image_builder.Osbuild.Devices.{Device, unset, loopback, luks2, lvm2_lv, Devices}
use image_builder.Osbuild.Mounts.{same_option, same_flag, same_device, conflicts, add_devices}

same_option-eq : (a b : Option ℕ) → same_option a b ≡ true → a ≡ b
unfolding same_option
same_option-eq none none h = refl
same_option-eq none (some b) h = cc
same_option-eq (some a) none h = cc
same_option-eq (some a) (some b) h = ground arith

same_flag-eq : (a b : Bool) → same_flag a b ≡ true → a ≡ b
unfolding same_flag
same_flag-eq true b h = sym h
same_flag-eq false true h = cc
same_flag-eq false false h = refl

pub same_device-eq : (a b : Device) → same_device a b ≡ true → a ≡ b
unfolding same_device
same_device-eq (loopback o) (loopback o') h = ground (
  arith,
  eq_iff o.filename o'.filename,
  same_option-eq o.sector_size o'.sector_size,
  same_flag-eq o.lock o'.lock,
)
same_device-eq (luks2 p s) (luks2 p' s') h = ground (arith, eq_iff p p', eq_iff s s')
same_device-eq (lvm2_lv p s) (lvm2_lv p' s') h = ground (arith, eq_iff p p', eq_iff s s')
same_device-eq unset unset h = refl
same_device-eq unset (loopback o) h = cc
same_device-eq unset (luks2 p s) h = cc
same_device-eq unset (lvm2_lv p s) h = cc
same_device-eq (loopback o) unset h = cc
same_device-eq (luks2 p s) unset h = cc
same_device-eq (lvm2_lv p s) unset h = cc
same_device-eq (loopback o) (luks2 p s) h = cc
same_device-eq (loopback o) (lvm2_lv p s) h = cc
same_device-eq (luks2 p s) (loopback o) h = cc
same_device-eq (luks2 p s) (lvm2_lv p' s') h = cc
same_device-eq (lvm2_lv p s) (loopback o) h = cc
same_device-eq (lvm2_lv p s) (luks2 p' s') h = cc

not-false : (b : Bool) → not b ≡ false → b ≡ true
not-false true h = refl
not-false false h = cc

conflicts-same : (d device : Device) → conflicts (some d) device ≡ false → d ≡ device
unfolding conflicts
conflicts-same d device h = same_device-eq d device (not-false (same_device d device) h)

some-injective : {a b : Device} → some a ≡ some b → a ≡ b
some-injective h = cc

-- One of the entries is the given one.
abbrev pub HasEntry : String → Device → Devices → Type 0
HasEntry name device [] = ⊥
HasEntry name device ((n, d) ∷ entries) = ((n ≡ name) × (d ≡ device)) ⊎ HasEntry name device entries

-- The devices hold those before and the entries, and no others.
pub record IsMerged (ds entries ds' : Devices) : Type 0 where
  pub keeps :
      (name : String) (device : Device)
      → lookup name ds ≡ some device
      → lookup name ds' ≡ some device
  pub has :
      (name : String) (device : Device)
      → HasEntry name device entries
      → lookup name ds' ≡ some device
  pub only :
      (name : String) (device : Device)
      → lookup name ds' ≡ some device
      → (lookup name ds ≡ some device) ⊎ HasEntry name device entries

-- An entry whose name is new, or that of the same device.
insert-IsMerged :
    (name : String) (device : Device) (ds : Devices)
    → ((d : Device) → lookup name ds ≡ some d → d ≡ device)
    → IsMerged ds ((name, device) ∷ []) (insert name device ds)
insert-IsMerged name device ds same = record {
  keeps = λ k d at. elim (Bool-cases (str_eq name k)) [
    | inl e ↦
        lookup-insert name k device ds
        ∙ rw e (ap some (sym (same d (ap (λ n. lookup n ds) ((eq_iff name k).0 e) ∙ at))))
    | inr e ↦ lookup-insert name k device ds ∙ rw e at
  ];
  has = λ k d entry. elim entry [
    | inl here ↦ lookup-insert name k device ds ∙ rw ((eq_iff name k).1 here.0) (ap some here.1)
    | inr none_left ↦ absurd none_left
  ];
  only = λ k d at. elim (Bool-cases (str_eq name k)) [
    | inl e ↦ inr (
        inl (
          (eq_iff name k).0 e,
          some-injective (sym (lookup-insert name k device ds ∙ rw e refl) ∙ at),
        ))
    | inr e ↦ inl (sym (lookup-insert name k device ds ∙ rw e refl) ∙ at)
  ];
}

IsMerged-trans :
    (name : String) (device : Device) (ds ds' ds'' entries : Devices)
    → IsMerged ds ((name, device) ∷ []) ds'
    → IsMerged ds' entries ds''
    → IsMerged ds ((name, device) ∷ entries) ds''
IsMerged-trans name device ds ds' ds'' entries m m' = record {
  keeps = λ k d at. m'.keeps k d (m.keeps k d at);
  has = λ k d entry. elim entry [
    | inl here ↦ m'.keeps k d (m.has k d (inl here))
    | inr later ↦ m'.has k d later
  ];
  only = λ k d at. elim (m'.only k d at) [
    | inl before ↦ elim (m.only k d before) [
      | inl old ↦ inl old
      | inr (inl here) ↦ inr (inl here)
      | inr (inr none_left) ↦ absurd none_left
    ]
    | inr later ↦ inr (inr later)
  ];
}

pub add_devices-IsMerged :
    (ds entries : Devices) → IfOk (IsMerged ds entries) (add_devices ds entries)
unfolding add_devices
add_devices-IsMerged ds [] = record {
  keeps = λ k d at. at;
  has = λ k d entry. absurd entry;
  only = λ k d at. inl at;
}
add_devices-IsMerged ds ((name, device) ∷ entries) =
    elim (Bool-cases (conflicts (lookup name ds) device)) [
      | inl other ↦ rw other tt
      | inr agreed ↦ rw agreed (
          IfOk-map (IsMerged (insert name device ds) entries)
            (IsMerged ds ((name, device) ∷ entries)) (add_devices (insert name device ds) entries)
            (add_devices-IsMerged (insert name device ds) entries)
            (λ ds'. IsMerged-trans name device ds (insert name device ds) ds' entries (
              insert-IsMerged name device ds (λ d at.
                conflicts-same d device (ap (λ o. conflicts o device) (sym at) ∙ agreed)))))
    ]
