-- ===== src/Disk/Walks/Order.antt =====
-- `ForEachEntity` calls back for an entity when it has done so for all that is above it.
use image_builder.Prelude.{
  ◌≡◌, refl, sym, List, [], ◌∷◌, ◌++◌, map, All, All-append, All-mono, drop_last, drop_last-append,
  inl, inr, ◌⊎◌,
}
use mathlib.Core.Path.{subst}
use image_builder.Disk.Entities.{
  BtrfsSubvolume, Payload, no_payload, filesystem, swap, raw, btrfs, volume_group, luks,
  LogicalVolumes, no_volumes, volume, Partition, PartitionTable,
}
use image_builder.Disk.Walks.{
  Entity, of_table, of_partition, of_volume, of_btrfs_subvolume, Visit, visit_subvolume,
  visits_payload, visits_volumes, visits_partitions, for_each_entity,
}

-- The entity is one of the visited ones.
abbrev pub HasVisited : Entity → List (Visit Entity) → Type 0
HasVisited entity [] = ⊥
HasVisited entity (visit ∷ visits) = (visit.0 ≡ entity) ⊎ HasVisited entity visits

abbrev AreVisited : List (Visit Entity) → List Entity → Type 0
AreVisited seen entities = All (λ entity. HasVisited entity seen) entities

-- Each visit comes behind those of the entities above it.
abbrev IsTopDown : List (Visit Entity) → List (Visit Entity) → Type 0
IsTopDown seen [] = Unit
IsTopDown seen (visit ∷ visits) =
    AreVisited seen (drop_last visit.1) × IsTopDown (visit ∷ seen) visits

-- What is seen in one order is seen in another.
abbrev Sees : List (Visit Entity) → List (Visit Entity) → Type 0
Sees seen seen' = (entity : Entity) → HasVisited entity seen → HasVisited entity seen'

AreVisited-mono :
    (seen seen' : List (Visit Entity)) (entities : List Entity)
    → Sees seen seen'
    → AreVisited seen entities
    → AreVisited seen' entities
AreVisited-mono seen seen' entities more h = All-mono _ _ entities more h

Sees-cons :
    (seen seen' : List (Visit Entity)) (visit : Visit Entity)
    → Sees seen seen'
    → Sees (visit ∷ seen) (visit ∷ seen')
Sees-cons seen seen' visit more entity (inl here) = inl here
Sees-cons seen seen' visit more entity (inr there) = inr (more entity there)

IsTopDown-mono :
    (seen seen' visits : List (Visit Entity))
    → Sees seen seen'
    → IsTopDown seen visits
    → IsTopDown seen' visits
IsTopDown-mono seen seen' [] more h = tt
IsTopDown-mono seen seen' (visit ∷ visits) more h = (
  AreVisited-mono seen seen' (drop_last visit.1) more h.0,
  IsTopDown-mono (visit ∷ seen) (visit ∷ seen') visits (Sees-cons seen seen' visit more) h.1,
)

IsTopDown-append :
    (seen xs ys : List (Visit Entity))
    → IsTopDown seen xs
    → IsTopDown seen ys
    → IsTopDown seen (xs ++ ys)
IsTopDown-append seen [] ys h k = k
IsTopDown-append seen (x ∷ xs) ys h k = (
  h.0,
  IsTopDown-append (x ∷ seen) xs ys h.1
      (IsTopDown-mono seen (x ∷ seen) ys (λ e there. inr there) k),
)

-- An entity with the path behind those above, and what is visited below it.
visit-IsTopDown :
    (seen : List (Visit Entity)) (above : List Entity) (entity : Entity)
    (below : List (Visit Entity))
    → AreVisited seen above
    → (AreVisited ((entity, above ++ entity ∷ []) ∷ seen) (above ++ entity ∷ [])
        → IsTopDown ((entity, above ++ entity ∷ []) ∷ seen) below)
    → IsTopDown seen ((entity, above ++ entity ∷ []) ∷ below)
visit-IsTopDown seen above entity below h rest = (
  subst (AreVisited seen) (sym (drop_last-append above entity)) h,
  rest (
      All-append (λ e. HasVisited e ((entity, above ++ entity ∷ []) ∷ seen)) above (entity ∷ [])
        (AreVisited-mono seen ((entity, above ++ entity ∷ []) ∷ seen) above (λ e there. inr there)
          h)
        (inl refl, tt)),
)

subvolumes-IsTopDown :
    (seen : List (Visit Entity)) (above : List Entity) (svs : List BtrfsSubvolume)
    → AreVisited seen above
    → IsTopDown seen (map (visit_subvolume above) svs)
subvolumes-IsTopDown seen above [] h = tt
subvolumes-IsTopDown seen above (sv ∷ svs) h =
    visit-IsTopDown seen above (of_btrfs_subvolume sv) _ h
      (λ k. IsTopDown-mono seen _ _ (λ e there. inr there) (subvolumes-IsTopDown seen above svs h))

mutual
  unfolding visits_payload

  payload-IsTopDown :
      (seen : List (Visit Entity)) (above : List Entity) (p : Payload)
      → AreVisited seen above
      → IsTopDown seen (visits_payload above p)
  payload-IsTopDown seen above no_payload h = tt
  payload-IsTopDown seen above (filesystem fs) h = visit-IsTopDown seen above _ [] h (λ k. tt)
  payload-IsTopDown seen above (swap s) h = visit-IsTopDown seen above _ [] h (λ k. tt)
  payload-IsTopDown seen above (raw r) h = visit-IsTopDown seen above _ [] h (λ k. tt)
  payload-IsTopDown seen above (btrfs b) h =
      visit-IsTopDown seen above _ _ h (λ k. subvolumes-IsTopDown _ _ b.subvolumes k)
  payload-IsTopDown seen above (volume_group n d lvs) h =
      visit-IsTopDown seen above _ _ h (λ k. volumes-IsTopDown _ _ lvs k)
  payload-IsTopDown seen above (luks header p) h =
      visit-IsTopDown seen above _ _ h (λ k. payload-IsTopDown _ _ p k)

  volumes-IsTopDown :
      (seen : List (Visit Entity)) (above : List Entity) (lvs : LogicalVolumes)
      → AreVisited seen above
      → IsTopDown seen (visits_volumes above lvs)
  volumes-IsTopDown seen above no_volumes h = tt
  volumes-IsTopDown seen above (volume n size p lvs) h =
      IsTopDown-append seen (_ ∷ visits_payload _ p) (visits_volumes above lvs)
        (visit-IsTopDown seen above (of_volume n size p) _ h (λ k. payload-IsTopDown _ _ p k))
        (volumes-IsTopDown seen above lvs h)

partitions-IsTopDown :
    (seen : List (Visit Entity)) (above : List Entity) (parts : List Partition)
    → AreVisited seen above
    → IsTopDown seen (visits_partitions above parts)
unfolding visits_partitions
partitions-IsTopDown seen above [] h = tt
partitions-IsTopDown seen above (part ∷ parts) h =
    IsTopDown-append seen (_ ∷ visits_payload _ part.payload) (visits_partitions above parts)
      (visit-IsTopDown seen above (of_partition part) _ h
        (λ k. payload-IsTopDown _ _ part.payload k))
      (partitions-IsTopDown seen above parts h)

for_each_entity-IsTopDown : (pt : PartitionTable) → IsTopDown [] (for_each_entity pt)
unfolding for_each_entity
for_each_entity-IsTopDown pt = visit-IsTopDown [] [] (of_table pt) _ tt (λ k.
    partitions-IsTopDown ((of_table pt, of_table pt ∷ []) ∷ []) (of_table pt ∷ []) pt.partitions k)

seen_first :
    (first : Visit Entity) (seen before : List (Visit Entity)) (entity : Entity)
    → HasVisited entity (first ∷ seen) ⊎ HasVisited entity before
    → HasVisited entity seen ⊎ HasVisited entity (first ∷ before)
seen_first first seen before entity (inl (inl here)) = inr (inl here)
seen_first first seen before entity (inl (inr there)) = inl there
seen_first first seen before entity (inr later) = inr (inr later)

-- The entities above a visited one are among those that are seen or visited before it.
above-AreVisited :
    (seen before after : List (Visit Entity)) (visit : Visit Entity)
    → IsTopDown seen (before ++ visit ∷ after)
    → All (λ entity. HasVisited entity seen ⊎ HasVisited entity before) (drop_last visit.1)
above-AreVisited seen [] after visit h = All-mono _ _ (drop_last visit.1) (λ e there. inl there) h.0
above-AreVisited seen (first ∷ before) after visit h =
    All-mono _ _ (drop_last visit.1) (λ e there. seen_first first seen before e there)
      (above-AreVisited (first ∷ seen) before after visit h.1)

-- What is above an entity on its path is visited before it.
pub for_each_entity-order :
    (pt : PartitionTable) (before after : List (Visit Entity)) (visit : Visit Entity)
    → for_each_entity pt ≡ before ++ visit ∷ after
    → All (λ entity. HasVisited entity before) (drop_last visit.1)
for_each_entity-order pt before after visit split =
    All-mono _ _ (drop_last visit.1)
      (λ e there. elim there [ inl none ↦ absurd none | inr before ↦ before ])
      (above-AreVisited [] before after visit
        (subst (IsTopDown []) split (for_each_entity-IsTopDown pt)))
