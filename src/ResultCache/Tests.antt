-- ===== src/ResultCache/Tests.antt =====
-- A run of the cache of solver results.
use image_builder.Prelude.{String, ◌≡◌, refl, none, some, List, [], ◌∷◌, arith}
use image_builder.ResultCache.{get}
use image_builder.ResultCache.History.{Call, storing, cleaning, run, latest, get-run}

-- The last call first: "a" is stored at 0 and at 50, and the cache is cleaned at 70.
abbrev calls : List (Call String)
calls = cleaning 70 ∷ storing 50 "a" "new" ∷ storing 20 "b" "other" ∷ storing 0 "a" "old" ∷ []

gotten : get 80 (run 60 calls) "a" ≡ some "new"
unfolding get run
gotten = refl

expired : get 80 (run 60 calls) "b" ≡ none
unfolding get run
expired = refl

get-run_example : get 80 (run 60 calls) "a" ≡ latest 60 80 calls "a"
get-run_example =
    get-run 60 80 calls "a" (omega arith, (omega arith, (omega arith, (omega arith, tt))))
