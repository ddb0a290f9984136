-- ===== src/Store/Local.antt =====
-- `LocalArtifactStore` of workflow/artifact_store.py: a key maps to the file at its parts.
use dexpi_datalog.Prelude.{
  String, ◌≡◌, refl, sym, ◌∙◌, Bool, true, false, Option, none, some, List, [], arith, ◌==◌,
  list_eq, list_beq_iff, string_eq, ==_refl, if◌then◌else◌,
}
use dexpi_datalog.Prelude.Dict
use dexpi_datalog.Prelude.Dict.{Dict, get-put}
use dexpi_datalog.Store.Key.{validate_key, is_some, path_parts}
use dexpi_datalog.Store.Key.Beside.{valid_parts}
use dexpi_datalog.Store.{ArtifactStore}

-- The files under the root, by their path.
abbrev pub Files : Type 0 → Type 0
Files D = Dict (List String) D

abbrev pub same_place : Option (List String) → Option (List String) → Bool
same_place (some p) (some q) = p == q
same_place _ _ = false

pub place_refl : (p : Option (List String)) → is_some p ≡ true → same_place p p ≡ true
place_refl none h = cc
place_refl (some p) h = ==_refl p

module _ {D : Type 0} where
  read_at : Files D → Option (List String) → Option D
  read_at s none = none
  read_at s (some path) = Dict.get path s

  write_at : Files D → Option (List String) → D → Option (Files D)
  write_at s none d = none
  write_at s (some path) d = some (Dict.put path d s)

  -- `read_text`, with both failures as `none`
  unfoldable pub read : Files D → String → Option D
  unfolding read_at validate_key Dict.get
  read s key = read_at s (validate_key key)

  -- `write_text`
  unfoldable pub write : Files D → String → D → Option (Files D)
  unfolding write_at validate_key Dict.put
  write s key d = write_at s (validate_key key) d

  refused :
      (s : Files D) (p : Option (List String)) (d : D) → is_some p ≡ false → write_at s p d ≡ none
  unfolding write_at
  refused s none d h = refl
  refused s (some p) d h = cc

  accepted :
      (s : Files D) (p : Option (List String)) (d : D)
      → is_some p ≡ true
      → (t : Files D) × (write_at s p d ≡ some t)
  unfolding write_at
  accepted s none d h = cc
  accepted s (some p) d h = (Dict.put p d s, refl)

  unread : (s : Files D) (p : Option (List String)) → is_some p ≡ false → read_at s p ≡ none
  unfolding read_at
  unread s none h = refl
  unread s (some p) h = cc

  read_after :
      (s t : Files D) (p q : Option (List String)) (d : D)
      → write_at s p d ≡ some t
      → read_at t q ≡ (if same_place p q then some d else read_at s q)
  unfolding write_at read_at
  read_after s t none q d h = cc
  read_after s t (some p) none d h = refl
  read_after s t (some p) (some q) d h = ground (arith, get-put p q d s)

  read_place :
      (s : Files D) (p q : Option (List String)) → same_place p q ≡ true → read_at s p ≡ read_at s q
  unfolding read_at
  read_place s none q h = cc
  read_place s (some p) none h = cc
  read_place s (some p) (some q) h = ground (arith, list_beq_iff p q)

module _ {D : Type 0} where
  pub write-refused :
      (s : Files D) (k : String) (d : D) → is_some (validate_key k) ≡ false → write s k d ≡ none
  unfolding write
  write-refused s k d = refused s (validate_key k) d

  pub write-accepted :
      (s : Files D) (k : String) (d : D)
      → is_some (validate_key k) ≡ true
      → (t : Files D) × (write s k d ≡ some t)
  unfolding write
  write-accepted s k d = accepted s (validate_key k) d

  pub read-refused : (s : Files D) (k : String) → is_some (validate_key k) ≡ false → read s k ≡ none
  unfolding read
  read-refused s k = unread s (validate_key k)

  pub read-write :
      (s t : Files D) (k j : String) (d : D)
      → write s k d ≡ some t
      → read t j ≡ (if same_place (validate_key k) (validate_key j) then some d else read s j)
  unfolding read write
  read-write s t k j d = read_after s t (validate_key k) (validate_key j) d

  pub read-same_place :
      (s : Files D) (k j : String)
      → same_place (validate_key k) (validate_key j) ≡ true
      → read s k ≡ read s j
  unfolding read
  read-same_place s k j = read_place s (validate_key k) (validate_key j)

place_parts :
    (k j : String) (p q : Option (List String))
    → validate_key k ≡ p
    → validate_key j ≡ q
    → same_place p q ≡ true
    → path_parts k ≡ path_parts j
place_parts k j none q e f h = cc
place_parts k j (some p) none e f h = cc
place_parts k j (some p) (some q) e f h =
    sym (valid_parts k p e) ∙ (list_beq_iff p q).0 h ∙ valid_parts j q f

pub same_place-parts :
    (k j : String)
    → same_place (validate_key k) (validate_key j) ≡ true
    → path_parts k ≡ path_parts j
same_place-parts k j = place_parts k j _ _ refl refl

-- The local store keeps what the interface promises.
abbrev pub local_store : (D : Type 0) → ArtifactStore D
local_store D = record {
  State = Files D;
  accepts = λ k. is_some (validate_key k);
  same = λ k j. same_place (validate_key k) (validate_key j);
  read = read;
  write = write;
  write_refused = write-refused;
  write_accepted = write-accepted;
  read_refused = read-refused;
  read-write = read-write;
  same_refl = λ k. place_refl (validate_key k);
  read_same = read-same_place;
  accepts_valid = λ k. refl;
  same_parts = same_place-parts;
}

read_nowhere : {D : Type 0} (p : Option (List String)) → read_at {D = D} [] p ≡ none
unfolding read_at Dict.get
read_nowhere none = refl
read_nowhere (some p) = refl

-- An empty workspace holds nothing.
pub read-nil : {D : Type 0} (k : String) → read {D = D} [] k ≡ none
unfolding read
read-nil k = read_nowhere (validate_key k)
