-- ===== src/Disk/Layout/Contiguous.antt =====
-- Contiguous partitions, and the partitions that the loop of `relayout` places.
use image_builder.Prelude.{
  ℕ, suc, ◌+◌, ◌%◌, ◌≤◌, ◌<◌, ◌≡◌, ap, refl, List, [], ◌∷◌, ◌++◌, arith, length, All,
}
use image_builder.Word.{u64_mod, add64, add64-eq}
use image_builder.Disk.Align.{grain_size}
use image_builder.Disk.Entities.{Partition, PartitionTable}
use image_builder.Disk.Sizes.Totals.{need}
use image_builder.Disk.Layout.{place}
use image_builder.Disk.Layout.Sorting.{IsSorted}
use image_builder.Disk.Layout.Placing.{claims, place-IsPlaced, lay, lay_end}

-- Each partition begins where the one before it ends; the first at `start`, the last ends at `end`.
abbrev pub Contiguous : ℕ → List Partition → ℕ → Type 0
Contiguous start [] end = start ≡ end
Contiguous start (part ∷ parts) end =
    (part.start ≡ start) × Contiguous (part.start + part.size) parts end

pub Contiguous-append :
    (start middle end : ℕ) (xs ys : List Partition)
    → Contiguous start xs middle
    → Contiguous middle ys end
    → Contiguous start (xs ++ ys) end
Contiguous-append start middle end [] ys h k = rw h k
Contiguous-append start middle end (x ∷ xs) ys h k =
    (h.0, Contiguous-append (x.start + x.size) middle end xs ys h.1 k)

pub Contiguous-le :
    (start end : ℕ) (parts : List Partition) → Contiguous start parts end → start ≤ end
Contiguous-le start end [] h = omega arith
Contiguous-le start end (part ∷ parts) h =
    omega (arith, h.0, Contiguous-le (part.start + part.size) end parts h.1)

pub Contiguous-IsSorted :
    (low start : ℕ) (parts : List Partition) (last : Partition)
    → low ≤ start
    → Contiguous start parts last.start
    → IsSorted low (parts ++ last ∷ [])
Contiguous-IsSorted low start [] last h c = (omega (arith, c), tt)
Contiguous-IsSorted low start (part ∷ parts) last h c = (
  omega (arith, c.0),
  Contiguous-IsSorted part.start (part.start + part.size) parts last (omega arith) c.1,
)

pub Contiguous-before :
    (start end : ℕ) (parts : List Partition)
    → All (λ part. 0 < part.size) parts
    → Contiguous start parts end
    → All (λ part. part.start < end) parts
Contiguous-before start end [] h c = tt
Contiguous-before start end (part ∷ parts) h c = (
  omega (arith, h.0, Contiguous-le (part.start + part.size) end parts c.1),
  Contiguous-before (part.start + part.size) end parts h.1 c.1,
)

-- What `lay` makes of a slice of partitions.
pub record IsLaid (pt : PartitionTable) (start : ℕ) (parts : List Partition) : Type 0 where
  pub contiguous : Contiguous start (lay pt start parts) (lay_end pt start parts)
  pub bounded : lay_end pt start parts ≤ start + claims pt parts
  pub length_kept : length (lay pt start parts) ≡ length parts
  pub aligned : All (λ part. part.size % grain_size pt ≡ 0) (lay pt start parts)
  pub roomy : All (λ part. need part.payload ≤ part.size) (lay pt start parts)
  pub positive :
      All (λ part. 0 < part.size) parts → All (λ part. 0 < part.size) (lay pt start parts)

pub lay-IsLaid :
    (pt : PartitionTable) (start : ℕ) (parts : List Partition)
    → start + claims pt parts < u64_mod
    → IsLaid pt start parts
unfolding lay lay_end
lay-IsLaid pt start [] h = record {
  contiguous = refl;
  bounded = omega arith;
  length_kept = refl;
  aligned = tt;
  roomy = tt;
  positive = λ p. tt;
}
lay-IsLaid pt start (part ∷ parts) h =
    let placed = place pt start part in
    let p = place-IsPlaced pt start part (omega arith) in
    let next : add64 start placed.size ≡ start + placed.size =
      add64-eq start placed.size (omega (arith, p.bounded)) in
    let l = lay-IsLaid pt (add64 start placed.size) parts (omega (arith, next, p.bounded)) in
    record {
      contiguous = (p.starts, rw (p.starts, ← next) l.contiguous);
      bounded = omega (arith, next, p.bounded, l.bounded);
      length_kept = ap suc l.length_kept;
      aligned = (p.aligned, l.aligned);
      roomy = (rw p.payload p.roomy, l.roomy);
      positive = λ h. (omega (arith, h.0, p.kept), l.positive h.1);
    }
