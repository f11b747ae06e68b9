-- ===== src/PathPolicy.antt =====
-- pkg/pathpolicy/path_policy.go: the policies for the mountpoints and files of an image.
pub mod Trie
pub mod Strip
pub mod Best
pub mod Lookup
pub mod LongestMatch
pub mod Checked
pub mod Tests
use image_builder.Prelude.{
  String, Bool, true, false, not, ◌&&◌, ◌||◌, List, [], ◌∷◌, str_eq, if◌then◌else◌,
}
use image_builder.Prelude.Result.{Result, ok, err, ◌>>=◌}
use image_builder.Text.Filepath.{starts_with_slash, clean}
use Trie.{PathTrie, new_path_trie_from_map, lookup, payload_of}

pub record PathPolicy : Type 0 where
  pub deny : Bool
  pub exact : Bool

pub data PolicyError : Type 0 where
  not_absolute : String → PolicyError
  not_canonical : String → PolicyError
  not_allowed : String → PolicyError

-- The zero value, of a node without an entry.
abbrev pub no_policy : PathPolicy
no_policy = record { deny = false; exact = false }

-- `NewPathPolicies`. The type of the errors is free, since it returns none.
unfoldable pub new_path_policies :
    List (String × PathPolicy) → Result PolicyError (PathTrie PathPolicy)
new_path_policies entries = new_path_trie_from_map no_policy entries

abbrev pub nothing_left : List String → Bool
nothing_left [] = true
nothing_left (x ∷ xs) = false

-- What the policy of the node that is found says of a path of which `left` is not matched.
unfoldable pub decide : String → PathPolicy → List String → Result PolicyError (Unit {0})
decide path policy left =
    if policy.deny || (policy.exact && not (nothing_left left))
    then err (not_allowed path)
    else ok tt

-- `Check`
unfoldable pub check_path : PathTrie PathPolicy → String → Result PolicyError (Unit {0})
unfolding clean decide
check_path policies path =
    if str_eq path "" || not (starts_with_slash path)
    then err (not_absolute path)
    else if not (str_eq path (clean path))
    then err (not_canonical path)
    else lookup policies path >>= λ found. decide path (payload_of found.node) found.left
