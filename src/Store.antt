-- ===== src/Store.antt =====
-- workflow/artifact_store.py: the `ArtifactStore` protocol as an interface.
pub mod Key
pub mod Local
mod Tests
use dexpi_datalog.Store.Key.{validate_key, path_parts, is_some}
use dexpi_datalog.Prelude.{String, ◌≡◌, Bool, true, false, Option, none, some, if◌then◌else◌}

-- What the callers rely on: reads and writes of whole artifacts by key, in a store that holds
-- documents of one type. `read` is `none` for a key that is absent (`ArtifactNotFound`) or refused
-- (`InvalidArtifactKey`), `write` is `none` where it raises `InvalidArtifactKey`, and `same` says
-- when two accepted keys name one artifact. Every store validates its keys, and keys that name one
-- artifact have the same segments.
pub record ArtifactStore (D : Type 0) : Type 1 where
  pub State : Type 0
  pub accepts : String → Bool
  pub same : String → String → Bool
  pub read : State → String → Option D
  pub write : State → String → D → Option State
  pub write_refused : (s : State) (k : String) (d : D) → accepts k ≡ false → write s k d ≡ none
  pub write_accepted :
      (s : State) (k : String) (d : D) → accepts k ≡ true → (t : State) × (write s k d ≡ some t)
  pub read_refused : (s : State) (k : String) → accepts k ≡ false → read s k ≡ none
  pub read-write :
      (s t : State) (k j : String) (d : D)
      → write s k d ≡ some t
      → read t j ≡ (if same k j then some d else read s j)
  pub same_refl : (k : String) → accepts k ≡ true → same k k ≡ true
  pub read_same : (s : State) (k j : String) → same k j ≡ true → read s k ≡ read s j
  pub accepts_valid : (k : String) → accepts k ≡ is_some (validate_key k)
  pub same_parts : (k j : String) → same k j ≡ true → path_parts k ≡ path_parts j
