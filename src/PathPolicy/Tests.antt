-- ===== src/PathPolicy/Tests.antt =====
-- The policies at concrete paths.
use image_builder.Prelude.{String, ◌≡◌, true, false, List, [], ◌∷◌}
use image_builder.Prelude.Result.{ok}
use image_builder.PathPolicy.{PathPolicy, PolicyError, no_policy, new_path_policies, check_path}
use image_builder.PathPolicy.Trie.{
  PathTrie, Found, payload_of, lookup, new_path_trie_from_map, path_trie_split_path, sort_entries,
}
use image_builder.PathPolicy.Checked.{
  longest, check_path-IsVerdict, IsVerdict, lookup-new_path_trie_from_map,
}

-- Nothing but "/var", whose subdirectory "/var/lock" is denied.
abbrev entries : List (String × PathPolicy)
entries =
    ("/var/lock", record { deny = true; exact = false })
    ∷ ("/", record { deny = true; exact = false })
    ∷ ("/var", record { deny = false; exact = false })
    ∷ []

check_path-IsVerdict_example :
    (policies : PathTrie PathPolicy) × (new_path_policies entries ≡ ok policies)
    × IsVerdict "/var/lib"
        (longest
          (sort_entries entries)
          (no_policy, path_trie_split_path "/var/lib")
          (path_trie_split_path "/var/lib"))
        (check_path policies "/var/lib")
check_path-IsVerdict_example = check_path-IsVerdict entries "/var/lib"

lookup-new_path_trie_from_map_example :
    (t : PathTrie PathPolicy) × (f : Found PathPolicy (PathTrie PathPolicy))
    × (new_path_trie_from_map {E = PolicyError} no_policy entries ≡ ok t)
    × (lookup {E = PolicyError} t "/var/lock" ≡ ok f)
    × ((payload_of f.node, f.left)
        ≡ longest
            (sort_entries entries)
            (no_policy, path_trie_split_path "/var/lock")
            (path_trie_split_path "/var/lock"))
lookup-new_path_trie_from_map_example = lookup-new_path_trie_from_map no_policy entries "/var/lock"
