-- ===== src/Text/Filepath.antt =====
-- `filepath.Clean` and `filepath.Dir` of Go on Unix, as the program calls them.
use Prim.Native.Char.{code}
use image_builder.Prelude.{
  String, Bool, true, false, not, ◌&&◌, ◌||◌, List, [], ◌∷◌, ◌==◌, str_eq, if◌then◌else◌,
}
use image_builder.Text.{concat}

-- The text between the slashes.
unfoldable pub split_slash : String → List String
split_slash String.[] = "" ∷ []
split_slash (String.◌∷◌ c s) =
    let parts = split_slash s in
    if code c == b'/'
    then "" ∷ parts
    else elim parts [ [] ↦ [] | part ∷ others ↦ String.◌∷◌ c part ∷ others ]

unfoldable pub starts_with_slash : String → Bool
starts_with_slash String.[] = false
starts_with_slash (String.◌∷◌ c s) = code c == b'/'

-- One element on the stack of those before it, the last on top. A ".." takes off the element above it;
-- it stays where a relative path begins with it, and is dropped at the root.
unfoldable pub clean_element : Bool → List String → String → List String
clean_element rooted stack element =
    if str_eq element "" || str_eq element "."
    then stack
    else if str_eq element ".."
    then elim stack [
      | [] ↦ if rooted then [] else ".." ∷ []
      | top ∷ below ↦ if not rooted && str_eq top ".." then ".." ∷ top ∷ below else below
    ]
    else element ∷ stack

unfoldable pub clean_elements : Bool → List String → List String → List String
unfolding clean_element
clean_elements rooted stack [] = stack
clean_elements rooted stack (element ∷ elements) =
    clean_elements rooted (clean_element rooted stack element) elements

unfoldable pub join_stack : List String → String → String
join_stack [] after = after
join_stack (top ∷ below) after = join_stack below (concat top (concat "/" after))

-- The clean path with these elements.
unfoldable pub clean_text : Bool → List String → String
unfolding join_stack
clean_text true [] = "/"
clean_text false [] = "."
clean_text true (top ∷ below) = concat "/" (join_stack below top)
clean_text false (top ∷ below) = join_stack below top

unfoldable pub without_last : List String → List String
without_last [] = []
without_last (a ∷ []) = []
without_last (a ∷ b ∷ rest) = a ∷ without_last (b ∷ rest)

-- The elements of `filepath.Dir(path)`, the clean path before the last slash.
unfoldable pub dir_elements : String → List String
unfolding split_slash clean_elements without_last starts_with_slash
dir_elements path = clean_elements (starts_with_slash path) [] (without_last (split_slash path))

-- `path.Clean` and `filepath.Clean`
unfoldable pub clean : String → String
unfolding split_slash starts_with_slash clean_elements clean_text
clean path =
    clean_text (starts_with_slash path)
      (clean_elements (starts_with_slash path) [] (split_slash path))

-- `filepath.Join` of two elements, of which empty ones are left out
unfoldable pub join_paths : String → String → String
unfolding clean
join_paths a b =
    if str_eq a ""
    then (if str_eq b "" then "" else clean b)
    else if str_eq b ""
    then clean a
    else clean (concat a (concat "/" b))
