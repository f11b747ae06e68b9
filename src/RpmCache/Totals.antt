-- ===== src/RpmCache/Totals.antt =====
-- The sizes that the repository cache adds up in `updateInfo`.
use image_builder.Prelude.{
  ℕ, ◌+◌, ◌≤◌, ◌<◌, String, ◌≡◌, refl, sym, ap, ◌∙◌, Bool, false, ◌||◌, Option, none, some, List,
  [], ◌∷◌, ◌++◌, str_eq, eq_iff, arith, Bool-cases, Option-cases, inl, inr,
}
use image_builder.Text.{slice_to, contains}
use image_builder.Text.Filepath.{join_paths}
use image_builder.Word.{add64, u64_mod, add64-eq}
use image_builder.Dictionary.{lookup, insert, IsDistinct, lookup-insert, insert-IsDistinct}
use image_builder.Sorting.{insert_sorted, sort_by, IsOrdered, sort_by-IsOrdered}
use image_builder.RpmCache.{
  PathInfo, RpmCache, CacheEntry, CacheDir, Collected, or_no_info, with_id, added_to, collect_sized,
  collect_named, collect_entry, collect_entries, collect_dirs, nothing_collected, is_older,
  update_info,
}

-- The bytes of all the repositories.
unfoldable pub total : List (String × PathInfo) → ℕ
total [] = 0
total ((id, info) ∷ repos) = info.size + total repos

-- Every repository is in the list.
abbrev pub AreListed : List String → List (String × PathInfo) → Type 0
AreListed ids repos = (id : String) → contains ids id ≡ false → lookup id repos ≡ none

-- The size of the cache is what its repositories have together, each of them is there once, and the list
-- by recency has them all.
abbrev pub IsSound : RpmCache → Type 0
IsSound r =
    (total r.repo_elements ≡ r.size)
    × (r.size < u64_mod)
    × IsDistinct r.repo_elements
    × AreListed r.repo_recency r.repo_elements

abbrev bytes_or_0 : Option ℕ → ℕ
bytes_or_0 none = 0
bytes_or_0 (some size) = size

-- The bytes of the entries whose size is known.
abbrev pub entry_bytes : List CacheEntry → ℕ
entry_bytes [] = 0
entry_bytes (entry ∷ entries) = bytes_or_0 entry.dir_size + entry_bytes entries

abbrev pub dir_bytes : List CacheDir → ℕ
dir_bytes [] = 0
dir_bytes (dir ∷ dirs) = entry_bytes dir.entries + dir_bytes dirs

pub total-none : (repos : List (String × PathInfo)) → AreListed [] repos → total repos ≡ 0
unfolding total lookup contains
total-none [] h = refl
total-none ((id, info) ∷ repos) h = ground (arith, h id refl, eq_iff id id)

total-insert :
    (id : String) (info : PathInfo) (repos : List (String × PathInfo))
    → total (insert id info repos) + (or_no_info (lookup id repos)).size ≡ total repos + info.size
unfolding total insert lookup
total-insert id info [] = omega arith
total-insert id info ((id', info') ∷ repos) = elim (Bool-cases (str_eq id' id)) [
  | inl same ↦ rw same (omega arith)
  | inr other ↦ rw other (omega (arith, total-insert id info repos))
]

size-le-total :
    (id : String) (repos : List (String × PathInfo))
    → (or_no_info (lookup id repos)).size ≤ total repos
unfolding total lookup
size-le-total id [] = omega arith
size-le-total id ((id', info') ∷ repos) = elim (Bool-cases (str_eq id' id)) [
  | inl same ↦ rw same (omega arith)
  | inr other ↦ rw other (omega (arith, size-le-total id repos))
]

contains-append :
    (ids : List String) (id id' : String)
    → contains (ids ++ id ∷ []) id' ≡ contains ids id' || str_eq id id'
unfolding contains
contains-append [] id id' = ground arith
contains-append (x ∷ ids) id id' = ground (arith, contains-append ids id id')

contains-insert_sorted :
    (before : String → String → Bool) (id : String) (ids : List String) (id' : String)
    → contains (insert_sorted before id ids) id' ≡ str_eq id id' || contains ids id'
unfolding insert_sorted contains
contains-insert_sorted before id [] id' = refl
contains-insert_sorted before id (x ∷ ids) id' =
    ground (arith, contains-insert_sorted before id ids id')

contains-sort_by :
    (before : String → String → Bool) (ids : List String) (id : String)
    → contains (sort_by before ids) id ≡ contains ids id
unfolding sort_by contains
contains-sort_by before [] id = refl
contains-sort_by before (x ∷ ids) id =
    contains-insert_sorted before x (sort_by before ids) id
    ∙ ap (λ b. str_eq x id || b) (contains-sort_by before ids id)

-- What holds while the entries are read, with the bytes that are left to read.
abbrev IsCollected : ℕ → Collected → Type 0
IsCollected left c =
    (total c.repos ≡ c.total)
    × (c.total + left < u64_mod)
    × IsDistinct c.repos
    × AreListed c.repo_ids c.repos

with_id-AreListed :
    (id : String) (ids : List String) (repos : List (String × PathInfo))
    → AreListed ids repos
    → AreListed (with_id (lookup id repos) id ids) repos
unfolding with_id
with_id-AreListed id ids repos h id' out = elim (Option-cases (lookup id repos)) [
  | inl new ↦ h id' (ground (arith, contains-append ids id id', new, out))
  | inr (info, old) ↦ h id' (ground (arith, old, out))
]

collect_sum :
    (id path : String) (mtime size : ℕ) (c : Collected)
    → total c.repos ≡ c.total
    → add64 (or_no_info (lookup id c.repos)).size size
      ≡ (or_no_info (lookup id c.repos)).size + size
    → add64 c.total size ≡ c.total + size
    → total (insert id (added_to (or_no_info (lookup id c.repos)) path size mtime) c.repos)
      ≡ add64 c.total size
unfolding added_to
collect_sum id path mtime size c sum grown all = omega (
  arith,
  sum,
  grown,
  all,
  total-insert id (added_to (or_no_info (lookup id c.repos)) path size mtime) c.repos,
)

insert-AreListed :
    (id : String) (info : PathInfo) (ids : List String) (repos : List (String × PathInfo))
    → AreListed ids repos
    → AreListed (with_id (lookup id repos) id ids) (insert id info repos)
unfolding with_id
insert-AreListed id info ids repos h id' out = elim (Option-cases (lookup id repos)) [
  | inl new ↦
      ground (arith, lookup-insert id id' info repos, contains-append ids id id', h id', new, out)
  | inr (info', old) ↦
      ground (arith, lookup-insert id id' info repos, h id', eq_iff id id', old, out)
]

collect_sized-IsCollected :
    (id path : String) (mtime : ℕ) (size : Option ℕ) (left : ℕ) (c : Collected)
    → IsCollected (bytes_or_0 size + left) c
    → IsCollected left (collect_sized id path mtime size c)
unfolding collect_sized
collect_sized-IsCollected id path mtime none left c (sum, below, distinct, listed) =
    (sum, omega (arith, below), distinct, with_id-AreListed id c.repo_ids c.repos listed)
collect_sized-IsCollected id path mtime (some size) left c (sum, below, distinct, listed) =
    let old = or_no_info (lookup id c.repos) in
    let grown = add64-eq old.size size (omega (arith, sum, below, size-le-total id c.repos)) in
    let all = add64-eq c.total size (omega (arith, below)) in
    (
      collect_sum id path mtime size c sum grown all,
      omega (arith, below, all),
      insert-IsDistinct id _ c.repos distinct,
      insert-AreListed id _ c.repo_ids c.repos listed,
    )

skipped-IsCollected :
    (skipped left : ℕ) (c : Collected) → IsCollected (skipped + left) c → IsCollected left c
skipped-IsCollected skipped left c (sum, below, distinct, listed) =
    (sum, omega (arith, below), distinct, listed)

collect_entry-IsCollected :
    (dir : String) (entry : CacheEntry) (left : ℕ) (c : Collected)
    → IsCollected (bytes_or_0 entry.dir_size + left) c
    → IsCollected left (collect_entry dir entry c)
unfolding collect_entry collect_named
collect_entry-IsCollected dir entry left c h = elim (Option-cases entry.mtime) [
  | inl unknown ↦ rw unknown (skipped-IsCollected _ left c h)
  | inr (mtime, known) ↦ elim (Option-cases (slice_to 64 entry.name)) [
    | inl short ↦ rw known (rw short (skipped-IsCollected _ left c h))
    | inr (id, long) ↦ rw known (
        rw long
          (collect_sized-IsCollected id (join_paths dir entry.name) mtime entry.dir_size left c h))
  ]
]

collect_entries-IsCollected :
    (dir : String) (entries : List CacheEntry) (left : ℕ) (c : Collected)
    → IsCollected (entry_bytes entries + left) c
    → IsCollected left (collect_entries dir entries c)
unfolding collect_entries
collect_entries-IsCollected dir [] left c h = skipped-IsCollected 0 left c h
collect_entries-IsCollected dir (entry ∷ entries) left c h =
    collect_entries-IsCollected dir entries left (collect_entry dir entry c) (
      collect_entry-IsCollected dir entry (entry_bytes entries + left) c
        (h.0, omega (arith, h), h.2, h.3))

collect_dirs-IsCollected :
    (root : String) (dirs : List CacheDir) (c : Collected)
    → IsCollected (dir_bytes dirs) c
    → IsCollected 0 (collect_dirs root dirs c)
unfolding collect_dirs
collect_dirs-IsCollected root [] c h = h
collect_dirs-IsCollected root (dir ∷ dirs) c h =
    collect_dirs-IsCollected root dirs (collect_entries (join_paths root dir.name) dir.entries c)
      (collect_entries-IsCollected (join_paths root dir.name) dir.entries (dir_bytes dirs) c h)

-- After `updateInfo` of a file system with fewer than 2^64 bytes in the cache, the size of the cache is
-- what its repositories have together, each of them is there once, and the list by recency has them all,
-- in the order of their times, whatever was in the cache.
pub update_info-IsSound :
    (dirs : List CacheDir) (r : RpmCache)
    → dir_bytes dirs < u64_mod
    → IsSound (update_info dirs r)
      × IsOrdered (is_older (update_info dirs r).repo_elements) (update_info dirs r).repo_recency
unfolding update_info total
update_info-IsSound dirs r below =
    let c = collect_dirs r.root dirs nothing_collected in
    let (sum, bound, distinct, listed) =
      collect_dirs-IsCollected r.root dirs nothing_collected
        (refl, omega (arith, below), tt, λ id out. refl) in
    (
      (
        sum,
        omega (arith, bound),
        distinct,
        λ id out. listed id (sym (contains-sort_by (is_older c.repos) c.repo_ids id) ∙ out),
      ),
      sort_by-IsOrdered (is_older c.repos) (λ a b older. ground (arith, older)) c.repo_ids,
    )
