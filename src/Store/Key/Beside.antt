-- ===== src/Store/Key/Beside.antt =====
-- The segments of a key that is put together from others.
use Prim.Native.Char.{Char, code}
use mathlib.Core.Path.{subst}
use text.Mathlib.TextEquality.{eq_iff}
use text.Mathlib.TextLemmas.{cons-append, nil-append, append_assoc}
use dexpi_datalog.Prelude.{
  String, ◌≡◌, refl, ap, ◌∙◌, inl, inr, Bool, true, false, not, ◌&&◌, ◌||◌, some, none, List, [],
  ◌∷◌, ◌++◌, arith, ◌==◌, string_eq, contains, keep, nat_beq, if◌then◌else◌, Bool-cases, List-cases,
  ◌+◌, ◌≤◌,
}
use dexpi_datalog.Prelude.Text.{◌⊕◌, len, is_blank, starts_with}
use dexpi_datalog.Store.Key.{split_slash, path_parts, validate_key, push, non_empty, is_some}

-- No character is a slash.
unfoldable pub is_flat : String → Bool
is_flat String.[] = true
is_flat (String.◌∷◌ c s) = not (nat_beq (code c) b'/') && is_flat s

split_slash_flat : (s : String) → is_flat s ≡ true → split_slash s ≡ s ∷ []
unfolding split_slash is_flat push
split_slash_flat String.[] h = refl
split_slash_flat (String.◌∷◌ c s) h = ground (arith, split_slash_flat s)

one_append : (c : Char) (x : String) → String.◌∷◌ c String.[] ⊕ x ≡ String.◌∷◌ c x
one_append c x = cons-append c String.[] x ∙ ap (String.◌∷◌ c) (nil-append x)

-- What `split_slash` gives is not empty.
IsFull : List String → Type 0
IsFull ps = (p : String) × (rest : List String) × (ps ≡ p ∷ rest)

split_slash-IsFull : (s : String) → IsFull (split_slash s)
unfolding split_slash push IsFull
split_slash-IsFull String.[] = (_, _, refl)
split_slash-IsFull (String.◌∷◌ c s) =
    let (p, ps, e) = split_slash-IsFull s in
    elim (Bool-cases (nat_beq (code c) b'/')) [
      | inl y ↦ (String.[], split_slash s, rw (y, split_slash))
      | inr n ↦ (String.◌∷◌ c p, ps, rw (n, e, split_slash))
    ]

push-append : (c : Char) (ps qs : List String) → IsFull ps → push c (ps ++ qs) ≡ push c ps ++ qs
unfolding push IsFull
push-append c [] qs (p, rest, e) = cc
push-append c (q ∷ ps) qs h = refl

split_slash-append : (x y : String) → split_slash (x ⊕ ("/" ⊕ y)) ≡ split_slash x ++ split_slash y
unfolding split_slash
split_slash-append String.[] y = ap split_slash (nil-append ("/" ⊕ y) ∙ one_append "/" y)
split_slash-append (String.◌∷◌ c s) y =
    ap split_slash (cons-append c s ("/" ⊕ y)) ∙ elim (Bool-cases (nat_beq (code c) b'/')) [
      | inl h ↦ rw (h, split_slash-append s y)
      | inr n ↦
          rw (n, split_slash-append s y)
            (push-append c (split_slash s) (split_slash y) (split_slash-IsFull s))
    ]

keep-append : (p : String → Bool) (xs ys : List String) → keep p (xs ++ ys) ≡ keep p xs ++ keep p ys
keep-append p [] ys = refl
keep-append p (x ∷ xs) ys = ground (arith, keep-append p xs ys)

pub path_parts-append : (x y : String) → path_parts (x ⊕ ("/" ⊕ y)) ≡ path_parts x ++ path_parts y
unfolding path_parts
path_parts-append x y =
    ap (keep (λ p. not (p == "") && not (p == "."))) (split_slash-append x y)
    ∙ keep-append (λ p. not (p == "") && not (p == ".")) (split_slash x) (split_slash y)

pub turns_prefix : (y : String) → "/turns/" ⊕ y ≡ "/" ⊕ ("turns" ⊕ ("/" ⊕ y))
turns_prefix y = append_assoc "/turns" "/" y ∙ append_assoc "/" "turns" ("/" ⊕ y)

pub is_flat-append : (x y : String) → is_flat (x ⊕ y) ≡ (is_flat x && is_flat y)
unfolding is_flat
is_flat-append String.[] y = ap is_flat (nil-append y)
is_flat-append (String.◌∷◌ c s) y =
    ap is_flat (cons-append c s y) ∙ ground (arith, is_flat-append s y)

pub len-append : (x y : String) → len (x ⊕ y) ≡ len x + len y
len-append String.[] y = omega (arith, ap len (nil-append y))
len-append (String.◌∷◌ c s) y = ap len (cons-append c s y) ∙ omega (arith, len-append s y)

-- A name of two characters or more, without a slash, is one segment.
pub path_parts_flat : (y : String) → is_flat y ≡ true → 2 ≤ len y → path_parts y ≡ y ∷ []
unfolding path_parts
path_parts_flat y h k = elim (Bool-cases (y == "")) [
  | inl e ↦ absurd (omega (arith, subst (λ s. 2 ≤ len s) ((eq_iff y "").0 e) k))
  | inr n ↦ elim (Bool-cases (y == ".")) [
    | inl e ↦ absurd (omega (arith, subst (λ s. 2 ≤ len s) ((eq_iff y ".").0 e) k))
    | inr m ↦ rw (split_slash_flat y h, n, m)
  ]
]

pub contains-append :
    (xs ys : List String) (a : String) → contains (xs ++ ys) a ≡ (contains xs a || contains ys a)
contains-append [] ys a = refl
contains-append (x ∷ xs) ys a = ground (arith, contains-append xs ys a)

is_blank-slash : (x y : String) → is_blank (x ⊕ ("/" ⊕ y)) ≡ false
unfolding is_blank
is_blank-slash String.[] y = ap is_blank (nil-append ("/" ⊕ y) ∙ one_append "/" y)
is_blank-slash (String.◌∷◌ c s) y =
    ap is_blank (cons-append c s ("/" ⊕ y)) ∙ ground (arith, is_blank-slash s y)

pub last_of : List String → String
last_of [] = ""
last_of (x ∷ []) = x
last_of (x ∷ y ∷ xs) = last_of (y ∷ xs)

pub last_of-snoc : (xs : List String) (y : String) → last_of (xs ++ y ∷ []) ≡ y
unfolding last_of
last_of-snoc [] y = refl
last_of-snoc (x ∷ []) y = refl
last_of-snoc (x ∷ z ∷ xs) y = last_of-snoc (z ∷ xs) y

non_empty-valid :
    (xs : List String) (y : String) (ys : List String) → is_some (non_empty (xs ++ y ∷ ys)) ≡ true
unfolding non_empty
non_empty-valid [] y ys = refl
non_empty-valid (x ∷ xs) y ys = refl

-- The key of a directory, a slash and a name: it is refused for its first character, or for `..`.
validate_key-slash :
    (x y : String)
    → validate_key (x ⊕ ("/" ⊕ y)) ≡ (
        if starts_with (x ⊕ ("/" ⊕ y)) "/" || starts_with (x ⊕ ("/" ⊕ y)) "\\"
        then none
        else if contains (path_parts x) ".." || contains (path_parts y) ".."
        then none
        else non_empty (path_parts x ++ path_parts y))
unfolding validate_key
validate_key-slash x y =
    rw (
      is_blank-slash x y,
      path_parts-append x y,
      contains-append (path_parts x) (path_parts y) "..",
    )

starts_with-nil : (s : String) → starts_with s "" ≡ true
unfolding starts_with
starts_with-nil s = refl

-- The first character is that of `x`, or the slash.
same_start :
    (x y z : String) (d : Char)
    → starts_with (x ⊕ ("/" ⊕ y)) (String.◌∷◌ d String.[])
      ≡ starts_with (x ⊕ ("/" ⊕ z)) (String.◌∷◌ d String.[])
unfolding starts_with
same_start String.[] y z d =
    rw (nil-append ("/" ⊕ y), nil-append ("/" ⊕ z), one_append "/" y, one_append "/" z)
same_start (String.◌∷◌ c s) y z d = rw (cons-append c s ("/" ⊕ y), cons-append c s ("/" ⊕ z))

validate_cases :
    (a b c : Bool) (xs ys zs : List String) (z : String)
    → is_some (if a then none else if b || c then none else non_empty ys) ≡ true
    → is_some (if a then none else if b || false then none else non_empty (xs ++ z ∷ zs)) ≡ true
validate_cases a b c xs ys zs z h = ground (arith, non_empty-valid xs z zs)

-- Where a key of a directory is accepted, so is every other one whose rest has no `..`.
pub beside_accepted :
    (x y z w : String) (rest : List String)
    → is_some (validate_key (x ⊕ ("/" ⊕ y))) ≡ true
    → path_parts z ≡ w ∷ rest
    → contains (path_parts z) ".." ≡ false
    → is_some (validate_key (x ⊕ ("/" ⊕ z))) ≡ true
beside_accepted x y z w rest h e clean =
    let was = rw (validate_key-slash x y) at h in
    rw (validate_key-slash x z, clean, e, same_start x z y "/", same_start x z y "\\")
      (validate_cases _ _ _ (path_parts x) _ rest w was)

-- A key that is accepted leads to its segments.
pub valid_parts : (k : String) (p : List String) → validate_key k ≡ some p → p ≡ path_parts k
unfolding validate_key non_empty
valid_parts k p h = elim (List-cases (path_parts k)) [
  | inl e ↦ ground arith
  | inr (x, xs, e) ↦ ground arith
]
