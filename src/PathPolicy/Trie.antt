-- ===== src/PathPolicy/Trie.antt =====
-- pkg/pathpolicy/path_trie.go: the trie of paths.
use image_builder.Prelude.{
  ℕ, String, Bool, true, false, ◌&&◌, Option, none, some, List, [], ◌∷◌, ◌==◌, ltb, length, str_eq,
  if◌then◌else◌,
}
use image_builder.Prelude.Result.{Result, ok, panic, ◌>>=◌}
use image_builder.Sorting.{less}
use image_builder.Text.{trim_left_slash, trim_right_slash}
use image_builder.Text.Filepath.{split_slash}

-- `pathTrieSplitPath`
unfoldable pub path_trie_split_path : String → List String
unfolding trim_left_slash trim_right_slash split_slash
path_trie_split_path path =
    let path = trim_right_slash (trim_left_slash path) in
    if str_eq path "" then [] else split_slash path

mutual
  -- `pathTrie`: the name, the paths and the payload.
  pub data PathTrie {ℓ} (T : Type ℓ) : Type ℓ where
    trie : List String → PathTries T → T → PathTrie T

  -- `[]*pathTrie`
  pub data PathTries {ℓ} (T : Type ℓ) : Type ℓ where
    no_tries : PathTries T
    tries : PathTrie T → PathTries T → PathTries T

-- The elements are the first ones of the path.
unfoldable pub all_equal : (name path : List String) → Bool
all_equal [] path = true
all_equal (n ∷ name) [] = false
all_equal (n ∷ name) (p ∷ path) = str_eq p n && all_equal name path

-- `match`
unfoldable pub matches : (name path : List String) → Bool
unfolding all_equal
matches name path = if ltb (length path) (length name) then false else all_equal name path

-- `path[prefix:]`
unfoldable pub drop {ℓ} : {A : Type ℓ} → ℕ → List A → List A
drop ℕ.zero path = path
drop (ℕ.suc n) [] = []
drop (ℕ.suc n) (p ∷ path) = drop n path

abbrev pub name_of {ℓ} : {T : Type ℓ} → PathTrie T → List String
name_of (trie name paths payload) = name

abbrev pub payload_of {ℓ} : {T : Type ℓ} → PathTrie T → T
payload_of (trie name paths payload) = payload

-- What is found: the code's pointer to a node is the node and the trie with that node replaced.
pub record Found {ℓ} (T : Type ℓ) (Whole : Type ℓ) : Type ℓ where
  pub node : PathTrie T
  pub left : List String
  pub replace : PathTrie T → Whole

module _ {ℓ} {T : Type ℓ} where
  -- What is found among the subpaths of a node, or the node itself.
  abbrev pub or_here :
      List String
      → PathTries T
      → T
      → List String
      → Option (Found T (PathTries T))
      → Found T (PathTrie T)
  or_here name paths payload path none = record {
    node = trie name paths payload;
    left = path;
    replace = λ node. node;
  }
  or_here name paths payload path (some found) = record {
    node = found.node;
    left = found.left;
    replace = λ node. trie name (found.replace node) payload;
  }

  abbrev pub in_first : PathTries T → Found T (PathTrie T) → Found T (PathTries T)
  in_first others found = record {
    node = found.node;
    left = found.left;
    replace = λ node. tries (found.replace node) others;
  }

  abbrev pub in_others :
      PathTrie T → Option (Found T (PathTries T)) → Option (Found T (PathTries T))
  in_others first none = none
  in_others first (some found) = some (record {
    node = found.node;
    left = found.left;
    replace = λ node. tries first (found.replace node);
  })

  abbrev pub here : PathTrie T → List String → Found T (PathTrie T)
  here node left = record { node = node; left = left; replace = λ node. node }

module _ {ℓ κ} {T : Type ℓ} {E : Type κ} where
  -- `get`, and its search among the subpaths
  unfoldable mutual
    unfolding matches drop

    pub get : PathTrie T → List String → Result E (Found T (PathTrie T))
    get (trie name paths payload) [] = panic
    get (trie name paths payload) (p ∷ path) =
        get_among paths (p ∷ path) >>= λ found. ok (or_here name paths payload (p ∷ path) found)

    pub get_among : PathTries T → List String → Result E (Option (Found T (PathTries T)))
    get_among no_tries path = ok none
    get_among (tries first others) path = elim (matches (name_of first) path) [
      | true ↦ elim (length path == length (name_of first)) [
        | true ↦ ok (some (in_first others (here first [])))
        | false ↦ get first (drop (length (name_of first)) path) >>= λ found.
            ok (some (in_first others found))
      ]
      | false ↦ get_among others path >>= λ found. ok (in_others first found)
    ]

  unfoldable pub get_unless_root : PathTrie T → List String → Result E (Found T (PathTrie T))
  unfolding get
  get_unless_root root [] = ok (here root [])
  get_unless_root root (p ∷ path) = get root (p ∷ path)

  -- `Lookup`
  unfoldable pub lookup : PathTrie T → String → Result E (Found T (PathTrie T))
  unfolding get_unless_root path_trie_split_path
  lookup (trie [] paths payload) path =
      get_unless_root (trie [] paths payload) (path_trie_split_path path)
  lookup (trie (n ∷ name) paths payload) path = panic

module _ {ℓ} {T : Type ℓ} where
  unfoldable pub append : PathTries T → PathTrie T → PathTries T
  append no_tries node = tries node no_tries
  append (tries first others) node = tries first (append others node)

  -- `add` to the node, and the payload set on the new node
  unfoldable pub add_entry : PathTrie T → List String → T → PathTrie T
  unfolding append
  add_entry (trie name paths payload) [] new = trie name paths new
  add_entry (trie name paths payload) (p ∷ left) new =
      trie name (append paths (trie (p ∷ left) no_tries new)) payload

  unfoldable pub insert_by_key : String × T → List (String × T) → List (String × T)
  unfolding less
  insert_by_key entry [] = entry ∷ []
  insert_by_key entry (other ∷ others) =
      let rest = insert_by_key entry others in
      if less other.0 entry.0 then other ∷ rest else entry ∷ other ∷ others

  -- `slices.Sorted(maps.Keys(entries))`, with the values
  unfoldable pub sort_entries : List (String × T) → List (String × T)
  unfolding insert_by_key
  sort_entries [] = []
  sort_entries (entry ∷ entries) = insert_by_key entry (sort_entries entries)

module _ {ℓ κ} {T : Type ℓ} {E : Type κ} where
  unfoldable pub add_all : PathTrie T → List (String × T) → Result E (PathTrie T)
  unfolding lookup add_entry
  add_all root [] = ok root
  add_all root ((key, value) ∷ entries) = lookup root key >>= λ (found : Found T (PathTrie T)).
      add_all (found.replace (add_entry found.node found.left value)) entries

  -- `newPathTrieFromMap`, with the zero value of the payloads
  unfoldable pub new_path_trie_from_map : T → List (String × T) → Result E (PathTrie T)
  unfolding add_all sort_entries
  new_path_trie_from_map zero_value entries =
      add_all (trie [] no_tries zero_value) (sort_entries entries)
