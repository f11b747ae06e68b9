-- ===== src/Disk/Layout/Disjoint.antt =====
-- What `relayout` makes of a table with one root partition.
use image_builder.Prelude.{
  ℕ, ◌+◌, ◌%◌, ◌≤◌, ◌<◌, ◌≡◌, ◌∙◌, ap, refl, true, none, some, List, [], ◌∷◌, ◌++◌, arith, length,
  All, All-append, get_elem?, modify,
}
use image_builder.Prelude.Result.{ok}
use image_builder.Word.{u64_mod}
use image_builder.Disk.Align.{grain_size}
use image_builder.Disk.Entities.{Payload, Partition, PartitionTable}
use image_builder.Disk.Paths.{is_some, through, path_payload}
use image_builder.Disk.Sizes.Totals.{need}
use image_builder.Disk.Layout.{
  grow_root_to_fill_disk, reserved_size, first_start, contains_root, place, place_others,
  root_index, sort_partitions, table_size, root_size, relayout, relayout_from, lay_root,
}
use image_builder.Disk.Layout.Sorting.{sort_last}
use image_builder.Disk.Layout.Contiguous.{
  Contiguous, Contiguous-append, Contiguous-IsSorted, Contiguous-before, lay-IsLaid,
}
use image_builder.Disk.Layout.RootSize.{table_size-IsTableSize, root_size-IsRootSize}
use image_builder.Disk.Layout.Placing.{
  claim, claims, place-IsPlaced, lay, lay_end, NoRoot, place_others-eq,
}

root_index-none : (ys : List Partition) → NoRoot ys → root_index ys ≡ none
unfolding root_index
root_index-none [] h = refl
root_index-none (y ∷ ys) h = rw (root_index-none ys h.1, h.0) refl

root_index-eq :
    (xs : List Partition) (root : Partition) (ys : List Partition)
    → NoRoot xs
    → contains_root root ≡ true
    → NoRoot ys
    → root_index (xs ++ root ∷ ys) ≡ some (length xs)
unfolding root_index
root_index-eq [] root ys hx hr hy = rw (root_index-none ys hy, hr) refl
root_index-eq (x ∷ xs) root ys hx hr hy = rw (root_index-eq xs root ys hx.1 hr hy) refl

get_elem?-middle :
    (n : ℕ) (xs : List Partition) (root : Partition) (ys : List Partition)
    → length xs ≡ n
    → get_elem? (xs ++ root ∷ ys) n ≡ some root
get_elem?-middle n [] root ys h = rw (← h) refl
get_elem?-middle n (x ∷ xs) root ys h = rw (← h) (get_elem?-middle (length xs) xs root ys refl)

modify-middle :
    (n : ℕ) (xs : List Partition) (root : Partition) (ys : List Partition)
    (f : Partition → Partition)
    → length xs ≡ n
    → modify (xs ++ root ∷ ys) n f ≡ xs ++ f root ∷ ys
modify-middle n [] root ys f h = rw (← h) refl
modify-middle n (x ∷ xs) root ys f h =
    rw (← h) (ap (λ (l : List Partition). x ∷ l) (modify-middle (length xs) xs root ys f refl))

-- A table that `relayout` can lay out to `size` with no sum that wraps around: it has one root
-- partition, and what stands behind it is not empty.
pub record IsLayoutable (pt : PartitionTable) (size : ℕ) : Type 0 where
  pub before : List Partition
  pub root : Partition
  pub behind : List Partition
  pub partitions : pt.partitions ≡ before ++ root ∷ behind
  pub no_root_before : NoRoot before
  pub has_root : contains_root root ≡ true
  pub no_root_behind : NoRoot behind
  pub positive : All (λ part. 0 < part.size) behind
  pub room :
      first_start pt
        + claims pt before
        + claims pt behind
        + claim pt root
        + reserved_size pt
        + grain_size pt
      < u64_mod
  pub requested : size + grain_size pt < u64_mod
  pub present : pt.size < u64_mod

-- The result of `relayout`: the partitions fill the disk from the first start on with no gap and
-- no overlap, the root partition last and what is reserved behind it.
pub record IsLaidOut (pt : PartitionTable) (size : ℕ) (after : PartitionTable) : Type 0 where
  pub others : List Partition
  pub root : Partition
  pub partitions : after.partitions ≡ others ++ root ∷ []
  pub contiguous : Contiguous (first_start pt) others root.start
  pub aligned : All (λ part. part.size % grain_size pt ≡ 0) others
  pub roomy : All (λ part. need part.payload ≤ part.size) (others ++ root ∷ [])
  pub inside : root.start + root.size + reserved_size pt ≤ after.size
  pub grown :
      grow_root_to_fill_disk pt ≡ true → root.start + root.size + reserved_size pt ≡ after.size
  pub requested : size ≤ after.size
  pub present : pt.size ≤ after.size
  pub has_root : contains_root root ≡ true

contains_root-eq : (a b : Partition) → a.payload ≡ b.payload → contains_root a ≡ contains_root b
unfolding contains_root
contains_root-eq a b e = ap (λ (p : Payload). is_some (through (path_payload p "/"))) e

relayout-eq :
    (pt : PartitionTable) (size : ℕ) (parts : List Partition) (start idx : ℕ) (part : Partition)
    → place_others pt (first_start pt) pt.partitions ≡ (parts, start)
    → root_index pt.partitions ≡ some idx
    → get_elem? parts idx ≡ some part
    → (let root = place pt start part in
        let table = table_size pt size root in
        let grown = record root { size = root_size pt table root } in
        relayout pt size
        ≡ ok (
          record pt { size = table; partitions = sort_partitions (modify parts idx (λ _. grown)) },
          start,
        ))
unfolding relayout
relayout-eq pt size parts start idx part h k l =
    rw (h, k) (unfold relayout_from lay_root in rw l refl)

-- A table with one root partition, where every partition behind the root has a size above 0 and nothing
-- wraps around, is laid out: from the first start on
-- the partitions follow one another with no gap and no overlap, each but the root a multiple of the
-- grain and each large enough for its contents, the root partition last; behind it stays what is
-- reserved, exactly that where the root is to fill the disk, and the table is at least as large as
-- asked for and as before.
pub relayout-IsLaidOut :
    (pt : PartitionTable) (size : ℕ)
    → IsLayoutable pt size
    → (after : PartitionTable) × (start : ℕ) × (relayout pt size ≡ ok (after, start))
      × IsLaidOut pt size after
relayout-IsLaidOut pt size l =
    let first = first_start pt in
    let xs = lay-IsLaid pt first l.before (omega (arith, l.room)) in
    let middle = lay_end pt first l.before in
    let ys = lay-IsLaid pt middle l.behind (omega (arith, l.room, xs.bounded)) in
    let start = lay_end pt middle l.behind in
    let root = place pt start l.root in
    let r = place-IsPlaced pt start l.root (omega (arith, l.room)) in
    let parts = lay pt first l.before ++ l.root ∷ lay pt middle l.behind in
    let table = table_size pt size root in
    let t =
      table_size-IsTableSize pt size root
        (omega (arith, l.room, xs.bounded, ys.bounded, r.starts, r.bounded)) l.requested
        l.present in
    let s = root_size-IsRootSize pt table root t.inside t.fits in
    let grown : Partition = record root { size = root_size pt table root } in
    let fits : need root.payload ≤ root.size = rw r.payload r.roomy in
    let others = lay pt first l.before ++ lay pt middle l.behind in
    let contiguous : Contiguous first others grown.start = rw r.starts (
      Contiguous-append first middle start (lay pt first l.before) (lay pt middle l.behind)
        xs.contiguous ys.contiguous) in
    let sorted : sort_partitions (modify parts (length l.before) (λ _. grown))
        ≡ others ++ grown ∷ [] =
      ap sort_partitions (
        modify-middle (length l.before) (lay pt first l.before) l.root (lay pt middle l.behind)
          (λ _. grown) xs.length_kept)
      ∙ sort_last 0 (lay pt first l.before) grown (lay pt middle l.behind)
          (Contiguous-IsSorted 0 first others grown (omega arith) contiguous)
          (rw r.starts (
            Contiguous-before middle start (lay pt middle l.behind) (ys.positive l.positive)
              ys.contiguous)) in
    (
      record pt {
        size = table;
        partitions = sort_partitions (modify parts (length l.before) (λ _. grown));
      },
      start,
      relayout-eq pt size parts start (length l.before) l.root
          (ap (place_others pt first) l.partitions
            ∙ place_others-eq pt first l.before l.root l.behind l.no_root_before l.has_root
                l.no_root_behind)
          (ap root_index l.partitions
            ∙ root_index-eq l.before l.root l.behind l.no_root_before l.has_root l.no_root_behind)
          (get_elem?-middle (length l.before) (lay pt first l.before) l.root
            (lay pt middle l.behind) xs.length_kept),
      record {
        others = others;
        root = grown;
        partitions = sorted;
        contiguous = contiguous;
        aligned =
            All-append _ (lay pt first l.before) (lay pt middle l.behind) xs.aligned ys.aligned;
        roomy =
            All-append _ others (grown ∷ [])
              (All-append _ (lay pt first l.before) (lay pt middle l.behind) xs.roomy ys.roomy)
              (omega (arith, fits, s.kept), tt);
        inside = s.inside;
        grown = s.grown;
        requested = t.requested;
        present = t.present;
        has_root = contains_root-eq grown l.root r.payload ∙ l.has_root;
      },
    )
