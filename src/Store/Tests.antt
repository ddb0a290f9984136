-- ===== src/Store/Tests.antt =====
-- An instance of the theorem on artifact keys.
use dexpi_datalog.Prelude.{String, ◌≡◌, ◌≢◌, refl, some, List, [], ◌∷◌, ◌++◌}
use dexpi_datalog.Store.Key.{validate_key, split_slash}
use dexpi_datalog.Store.Key.Contained.{walk, validate_key-contained}

abbrev parts : List String
parts = "session-1" ∷ "a" ∷ "b.json" ∷ []

accepted : validate_key "session-1/./a//b.json" ≡ some parts
unfolding validate_key
accepted = refl

validate_key-contained_example :
    (parts ≢ []) × (walk ("srv" ∷ []) (split_slash "session-1/./a//b.json") ≡ ("srv" ∷ []) ++ parts)
validate_key-contained_example =
    validate_key-contained "session-1/./a//b.json" ("srv" ∷ []) parts accepted
