-- ===== src/Disk/Layout/Sorting.antt =====
-- `sortPartitions` gives a sorted permutation, and moves a late partition to the end.
use mathlib.Core.List.Perm
use mathlib.Core.List.{Perm}
use image_builder.Prelude.{
  ℕ, ◌≤◌, ◌<◌, ◌≡◌, refl, List, [], ◌∷◌, ◌++◌, arith, ltb, All, Bool-cases, inl, inr,
}
use image_builder.Disk.Entities.{Partition}
use image_builder.Disk.Layout.{insert_by_start, sort_partitions}

-- Starts never go down.
abbrev pub IsSorted : ℕ → List Partition → Type 0
IsSorted low [] = Unit
IsSorted low (part ∷ parts) = (low ≤ part.start) × IsSorted part.start parts

insert-IsSorted :
    (part : Partition) (parts : List Partition) (low : ℕ)
    → low ≤ part.start
    → IsSorted low parts
    → IsSorted low (insert_by_start part parts)
unfolding insert_by_start
insert-IsSorted part [] low h s = (h, tt)
insert-IsSorted part (other ∷ others) low h s = elim (Bool-cases (ltb other.start part.start)) [
  | inl before ↦ rw before (s.0, insert-IsSorted part others other.start (ground arith) s.1)
  | inr after ↦ rw after (h, (ground arith, s.1))
]

sort-IsSorted : (parts : List Partition) → IsSorted 0 (sort_partitions parts)
unfolding sort_partitions
sort-IsSorted [] = tt
sort-IsSorted (part ∷ parts) =
    insert-IsSorted part (sort_partitions parts) 0 (omega arith) (sort-IsSorted parts)

insert-perm :
    (part : Partition) (parts : List Partition) → Perm (insert_by_start part parts) (part ∷ parts)
unfolding insert_by_start
insert-perm part [] = Perm.refl (part ∷ [])
insert-perm part (other ∷ others) = elim (Bool-cases (ltb other.start part.start)) [
  | inl before ↦
      rw before
        (Perm.trans (Perm.cons other (insert-perm part others)) (Perm.swap part other others))
  | inr after ↦ rw after (Perm.refl (part ∷ other ∷ others))
]

sort-perm : (parts : List Partition) → Perm (sort_partitions parts) parts
unfolding sort_partitions
sort-perm [] = Perm.refl []
sort-perm (part ∷ parts) =
    Perm.trans (insert-perm part (sort_partitions parts)) (Perm.cons part (sort-perm parts))

-- `sortPartitions` reorders the partitions by their start: no start is below the one before it, and
-- the partitions are the given ones, each as often as it was given.
pub sort_partitions_lem :
    (parts : List Partition)
    → IsSorted 0 (sort_partitions parts) × Perm (sort_partitions parts) parts
sort_partitions_lem parts = (sort-IsSorted parts, sort-perm parts)

insert_first :
    (part : Partition) (parts : List Partition)
    → IsSorted part.start parts
    → insert_by_start part parts ≡ part ∷ parts
unfolding insert_by_start
insert_first part [] h = refl
insert_first part (other ∷ others) h = ground arith

insert_last :
    (part : Partition) (parts : List Partition)
    → All (λ p. p.start < part.start) parts
    → insert_by_start part parts ≡ parts ++ part ∷ []
unfolding insert_by_start
insert_last part [] h = refl
insert_last part (other ∷ others) h = ground (arith, insert_last part others h.1)

sort_sorted :
    (low : ℕ) (parts : List Partition) → IsSorted low parts → sort_partitions parts ≡ parts
unfolding sort_partitions
sort_sorted low [] h = refl
sort_sorted low (part ∷ parts) h =
    rw (sort_sorted part.start parts h.1) (insert_first part parts h.1)

IsSorted-prefix : (low : ℕ) (xs ys : List Partition) → IsSorted low (xs ++ ys) → IsSorted low xs
IsSorted-prefix low [] ys h = tt
IsSorted-prefix low (x ∷ xs) ys h = (h.0, IsSorted-prefix x.start xs ys h.1)

-- A partition that starts behind all others goes to the end, where the others are in order.
pub sort_last :
    (low : ℕ) (xs : List Partition) (part : Partition) (ys : List Partition)
    → IsSorted low (xs ++ ys ++ part ∷ [])
    → All (λ p. p.start < part.start) ys
    → sort_partitions (xs ++ part ∷ ys) ≡ xs ++ ys ++ part ∷ []
unfolding sort_partitions
sort_last low [] part ys h k =
    rw (sort_sorted low ys (IsSorted-prefix low ys (part ∷ []) h)) (insert_last part ys k)
sort_last low (x ∷ xs) part ys h k =
    rw (sort_last x.start xs part ys h.1 k) (insert_first x (xs ++ ys ++ part ∷ []) h.1)
