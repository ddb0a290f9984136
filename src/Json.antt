-- ===== src/Json.antt =====
-- The JSON values that the program reads, writes and passes on as `dict[str, object]`.
-- Numbers are integers; the code never computes with a float inside these values.
use dexpi_datalog.Prelude.{
  ℕ, String, Bool, true, false, not, Option, none, some, List, [], ◌∷◌, ◌==◌, string_eq, nat_eq,
  if◌then◌else◌,
}

-- `negsuc n` is -(n + 1).
pub data ℤ : Type 0 where
  pos : ℕ → ℤ
  negsuc : ℕ → ℤ

mutual
  pub data Json : Type 0 where
    null : Json
    bool : Bool → Json
    int : ℤ → Json
    str : String → Json
    arr : Items → Json
    obj : Fields → Json

  pub data Items : Type 0 where
    nil : Items
    cons : Json → Items → Items

  pub data Fields : Type 0 where
    end : Fields
    field : String → Json → Fields → Fields

-- d.get(k)
unfoldable pub get : String → Fields → Option Json
get k end = none
get k (field j v d) = if j == k then some v else get k d

-- d.get(k, v)
unfoldable pub get_or : String → Json → Fields → Json
unfolding get
get_or k v d = elim (get k d) [ some w ↦ w | none ↦ v ]

-- bool(v)
abbrev pub truthy : Json → Bool
truthy null = false
truthy (bool b) = b
truthy (int (pos n)) = not (n == 0)
truthy (int (negsuc n)) = true
truthy (str s) = not (s == "")
truthy (arr nil) = false
truthy (arr (cons x xs)) = true
truthy (obj end) = false
truthy (obj (field k v d)) = true

-- bool(d.get(k))
abbrev pub truthy_or_none : Option Json → Bool
truthy_or_none none = false
truthy_or_none (some v) = truthy v

-- {k: v}
abbrev pub single : String → Json → Json
single k v = obj (field k v end)

abbrev pub to_items : List Json → Items
to_items [] = nil
to_items (x ∷ xs) = cons x (to_items xs)
