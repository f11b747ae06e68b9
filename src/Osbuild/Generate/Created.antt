-- ===== src/Osbuild/Generate/Created.antt =====
-- The order of the stages of `GenDeviceCreationStages`.
use image_builder.Prelude.{
  String, ◌≡◌, refl, sym, ap, ◌∙◌, Bool, true, false, Option, none, some, List, [], ◌∷◌, ◌++◌, All,
  All-mono, drop_last, inl, inr, ◌⊎◌,
}
use mathlib.Core.Path.{subst}
use mathlib.Core.List.{append_assoc}
use image_builder.Prelude.Result.{
  ok, panic, ◌>>=◌, IfOk, IfOk-bind, IfOk-map, IfOk-self, IfOk-total,
}
use image_builder.Disk.Entities.{Payload, volume_group, luks, PartitionTable}
use image_builder.Disk.Walks.{
  Entity, of_table, of_partition, of_payload, of_volume, of_btrfs_subvolume, Visit, for_each_entity,
}
use image_builder.Disk.Walks.Order.{HasVisited, for_each_entity-order}
use image_builder.Osbuild.Stages.{
  StageOptions, luks2_format, lvm2_create, Stage, checked, new_luks2_create_stage,
  new_lvm2_create_stage,
}
use image_builder.Osbuild.Generate.Decided.{all_created, Decides, gather-Decides}
use image_builder.Osbuild.Generate.{
  stage_devices, stage_volumes, clevis_stages, gather, creation_stages, gen_device_creation_stages,
}

-- The options of the stage that creates a container, if it is one that has to be created.
abbrev pub creation_options : Entity → Option StageOptions
creation_options (of_payload (luks header p)) = some (
    luks2_format (record {
      passphrase = header.passphrase;
      uuid = header.uuid;
      cipher = header.cipher;
      label = header.label;
      subsystem = header.subsystem;
      sector_size = header.sector_size;
      pbkdf_method = "argon2id";
      pbkdf = header.pbkdf;
    }))
creation_options (of_payload (volume_group name d lvs)) = some (lvm2_create (stage_volumes lvs))
creation_options _ = none

abbrev pub HasStage : StageOptions → List Stage → Type 0
HasStage options [] = ⊥
HasStage options (stage ∷ stages) = (stage.options ≡ options) ⊎ HasStage options stages

abbrev HasOptional : Option StageOptions → List Stage → Type 0
HasOptional none stages = Unit
HasOptional (some options) stages = HasStage options stages

-- The stages have the one that creates the entity, if it is a LUKS container or a volume group.
abbrev pub IsCreated : List Stage → Entity → Type 0
IsCreated stages entity = HasOptional (creation_options entity) stages

HasOptional-left :
    (o : Option StageOptions) (xs ys : List Stage) → HasOptional o xs → HasOptional o (xs ++ ys)
HasOptional-left none xs ys h = tt
HasOptional-left (some o) (x ∷ xs) ys (inl here) = inl here
HasOptional-left (some o) (x ∷ xs) ys (inr there) = inr (HasOptional-left (some o) xs ys there)
HasOptional-left (some o) [] ys h = absurd h

HasOptional-right :
    (o : Option StageOptions) (xs ys : List Stage) → HasOptional o ys → HasOptional o (xs ++ ys)
HasOptional-right none xs ys h = tt
HasOptional-right (some o) [] ys h = h
HasOptional-right (some o) (x ∷ xs) ys h = inr (HasOptional-right (some o) xs ys h)

module _ (E : Type 0) (filename : String) where
  -- A checked stage is the stage itself.
  checked-IsCreated :
      (b : Bool) (stage : Stage) (others : List Stage) (options : StageOptions)
      → stage.options ≡ options
      → IfOk (HasStage options) (checked {E = E} b stage >>= λ stage. ok (stage ∷ others))
  checked-IsCreated true stage others options h = inl h
  checked-IsCreated false stage others options h = tt

  payload-IsCreated :
      (p : Payload) (path : List Entity)
      → IfOk
          (λ stages. IsCreated stages (of_payload p))
          (creation_stages {E = E} filename (of_payload p, path))
  unfolding creation_stages new_luks2_create_stage new_lvm2_create_stage
  payload-IsCreated (luks header p) path =
      IfOk-bind (λ devices. Unit {0}) _ (stage_devices filename (drop_last path)) _
        (IfOk-total _ (stage_devices filename (drop_last path)) (λ devices. tt))
        (λ devices h. checked-IsCreated _ _ (clevis_stages header devices) _ refl)
  payload-IsCreated (volume_group name d lvs) path =
      IfOk-bind (λ devices. Unit {0}) _ (stage_devices filename (drop_last path)) _
        (IfOk-total _ (stage_devices filename (drop_last path)) (λ devices. tt))
        (λ devices h. checked-IsCreated _ _ [] _ refl)
  payload-IsCreated _ path = tt

  creation_stages-IsCreated :
      (visit : Visit Entity)
      → IfOk (λ stages. IsCreated stages visit.0) (creation_stages {E = E} filename visit)
  unfolding creation_stages
  creation_stages-IsCreated (of_payload p, path) = payload-IsCreated p path
  creation_stages-IsCreated (of_table pt, path) = tt
  creation_stages-IsCreated (of_partition part, path) = tt
  creation_stages-IsCreated (of_volume name size p, path) = tt
  creation_stages-IsCreated (of_btrfs_subvolume sv, path) = tt

  gather-IsCreated :
      (visits : List (Visit Entity)) (entity : Entity)
      → HasVisited entity visits
      → IfOk (λ done. IsCreated done entity) (gather {E = E} (creation_stages filename) visits)
  unfolding gather
  gather-IsCreated [] entity h = absurd h
  gather-IsCreated (visit ∷ visits) entity (inl same) =
      IfOk-bind (λ stages. IsCreated stages entity) _ (creation_stages filename visit) _
        (subst (λ e. IfOk (λ stages. IsCreated stages e) (creation_stages {E = E} filename visit))
          same (creation_stages-IsCreated visit))
        (λ stages h.
          IfOk-bind (λ others. Unit {0}) _ (gather (creation_stages filename) visits) _
            (IfOk-total _ (gather (creation_stages filename) visits) (λ others. tt))
            (λ others k. HasOptional-left (creation_options entity) stages others h))
  gather-IsCreated (visit ∷ visits) entity (inr later) =
      IfOk-bind (λ stages. Unit {0}) _ (creation_stages filename visit) _
        (IfOk-total _ (creation_stages filename visit) (λ stages. tt))
        (λ stages h.
          IfOk-bind (λ others. IsCreated others entity) _ (gather (creation_stages filename) visits)
            _ (gather-IsCreated visits entity later)
            (λ others k. HasOptional-right (creation_options entity) stages others k))

  -- What is gathered is what the callback made of the visits up to some point, and of the others.
  abbrev pub IsSplit : (before after : List (Visit Entity)) → List Stage → Type 0
  IsSplit before after stages =
      (done rest : List Stage) × (stages ≡ done ++ rest)
      × (gather {E = E} (creation_stages filename) before ≡ ok done)
      × (gather {E = E} (creation_stages filename) after ≡ ok rest)

  gather-IsSplit :
      (before after : List (Visit Entity))
      → IfOk (IsSplit before after) (gather {E = E} (creation_stages filename) (before ++ after))
  unfolding gather
  gather-IsSplit [] after =
      IfOk-map _ _ (gather (creation_stages filename) after)
        (IfOk-self (λ rest. Unit {0}) (gather (creation_stages filename) after)
          (IfOk-total _ (gather (creation_stages filename) after) (λ rest. tt)))
        (λ rest gathered. ([], rest, refl, refl, gathered.0))
  gather-IsSplit (visit ∷ before) after =
      IfOk-bind (λ own. (creation_stages filename visit ≡ ok own) × Unit {0}) _
        (creation_stages filename visit) _
        (IfOk-self (λ own. Unit {0}) (creation_stages filename visit)
          (IfOk-total _ (creation_stages filename visit) (λ own. tt)))
        (λ own made.
          IfOk-bind (IsSplit before after) _ (gather (creation_stages filename) (before ++ after)) _
            (gather-IsSplit before after)
            (λ others split.
              let (done, rest, joined, first, last) = split in
              (
                own ++ done,
                rest,
                ap (λ xs. own ++ xs) joined ∙ sym (append_assoc own done rest),
                rw (made.0, first) refl,
                last,
              )))

  -- The stages done before an entity, and those from it on.
  abbrev pub IsPrepared : (before after : List (Visit Entity)) → Visit Entity → List Stage → Type 0
  IsPrepared before after visit stages =
      (done rest : List Stage) × (stages ≡ done ++ rest)
      × (gather {E = E} (creation_stages filename) before ≡ ok done)
      × (gather {E = E} (creation_stages filename) (visit ∷ after) ≡ ok rest)
      × All (IsCreated done) (drop_last visit.1)

  prepared :
      (pt : PartitionTable) (before after : List (Visit Entity)) (visit : Visit Entity)
      (stages : List Stage)
      → for_each_entity pt ≡ before ++ visit ∷ after
      → gather {E = E} (creation_stages filename) (for_each_entity pt) ≡ ok stages
      → IsPrepared before after visit stages
  prepared pt before after visit stages split gathered =
      let (done, rest, joined, first, last) =
        subst (IfOk (IsSplit before (visit ∷ after)))
          (sym (ap (gather (creation_stages filename)) split) ∙ gathered)
          (gather-IsSplit before (visit ∷ after)) in
      (
        done,
        rest,
        joined,
        first,
        last,
        All-mono _ _ (drop_last visit.1)
            (λ entity there.
              subst (IfOk (λ stages. IsCreated stages entity)) first
                (gather-IsCreated before entity there))
            (for_each_entity-order pt before after visit split),
      )

  returned_or_panics :
      (pt : PartitionTable) (before after : List (Visit Entity)) (visit : Visit Entity) (b : Bool)
      → for_each_entity pt ≡ before ++ visit ∷ after
      → all_created (for_each_entity pt) ≡ b
      → Decides E b (gather (creation_stages filename) (for_each_entity pt))
      → ((all_created (for_each_entity pt) ≡ true)
          × (stages : List Stage) × (gen_device_creation_stages {E = E} pt filename ≡ ok stages)
          × IsPrepared before after visit stages)
        ⊎ ((all_created (for_each_entity pt) ≡ false)
            × (gen_device_creation_stages {E = E} pt filename ≡ panic))
  unfolding gen_device_creation_stages
  returned_or_panics pt before after visit true split test (stages, gathered) =
      inl (test, stages, gathered, prepared pt before after visit stages split gathered)
  returned_or_panics pt before after visit false split test fails = inr (test, fails)

  -- `GenDeviceCreationStages` returns stages where, for each LUKS container and volume group of the
  -- table, the devices above it have names and its options are valid, and panics otherwise. The stages
  -- are, for each entity of the table, those made of the entities before it in the walk, followed by
  -- those made of it and the ones behind it. The former have, for each LUKS container and volume group
  -- above the entity on its path, the stage that creates it.
  pub gen_device_creation_stages-IsPrepared :
      (pt : PartitionTable) (before after : List (Visit Entity)) (visit : Visit Entity)
      → for_each_entity pt ≡ before ++ visit ∷ after
      → ((all_created (for_each_entity pt) ≡ true)
          × (stages : List Stage) × (gen_device_creation_stages {E = E} pt filename ≡ ok stages)
          × IsPrepared before after visit stages)
        ⊎ ((all_created (for_each_entity pt) ≡ false)
            × (gen_device_creation_stages {E = E} pt filename ≡ panic))
  gen_device_creation_stages-IsPrepared pt before after visit split =
      returned_or_panics pt before after visit (all_created (for_each_entity pt)) split refl
        (gather-Decides E filename (for_each_entity pt))
