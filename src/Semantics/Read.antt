-- ===== src/Semantics/Read.antt =====
-- A reader of the symbols that semantics/derive_graph_semantics.py writes: a backslash stands
-- before a character that is meant as it is, and a bare quote ends the symbol.
use Prim.Native.Char.{Char, code}
use text.Mathlib.TextEquality.{Char-path}
use text.Mathlib.TextLemmas.{cons-append, nil-append, append_assoc}
use dexpi_datalog.Prelude.{
  ℕ, zero, suc, String, ◌≡◌, refl, sym, ap, ◌∙◌, inl, inr, Bool, true, false, Option, none, some,
  List, [], ◌∷◌, map, nat_beq, nat_beq_iff, length, Bool-cases, if◌then◌else◌,
}
use dexpi_datalog.Prelude.Text.{◌⊕◌, join, len}
use dexpi_datalog.Semantics.{quote, backslash, replace, souffle_symbol, render_fact}

abbrev push : Char → Option (String × String) → Option (String × String)
push c none = none
push c (some (s, rest)) = some (String.◌∷◌ c s, rest)

-- The rest of a symbol, and what follows it; `escaped` after a backslash.
unfoldable read_from : Bool → String → Option (String × String)
read_from escaped String.[] = none
read_from true (String.◌∷◌ c s) = push c (read_from false s)
read_from false (String.◌∷◌ c s) =
    let plain = read_from false s in
    let next = read_from true s in
    if nat_beq (code c) quote
    then some (String.[], s)
    else if nat_beq (code c) backslash
    then next
    else push c plain

abbrev escape : String → String
escape v = replace quote "\\\"" (replace backslash "\\\\" v)

one_append : (c : Char) (x : String) → String.◌∷◌ c String.[] ⊕ x ≡ String.◌∷◌ c x
one_append c x = cons-append c String.[] x ∙ ap (String.◌∷◌ c) (nil-append x)

two_append :
    (c d : Char) (s x : String)
    → String.◌∷◌ c (String.◌∷◌ d s) ⊕ x ≡ String.◌∷◌ c (String.◌∷◌ d (s ⊕ x))
two_append c d s x = cons-append c (String.◌∷◌ d s) x ∙ ap (String.◌∷◌ c) (cons-append d s x)

pair_append :
    (c d : Char) (x : String)
    → String.◌∷◌ c (String.◌∷◌ d String.[]) ⊕ x ≡ String.◌∷◌ c (String.◌∷◌ d x)
pair_append c d x =
    two_append c d String.[] x ∙ ap (λ s. String.◌∷◌ c (String.◌∷◌ d s)) (nil-append x)

escape-backslash :
    (c : Char) (v : String)
    → nat_beq (code c) backslash ≡ true
    → escape (String.◌∷◌ c v) ≡ String.◌∷◌ "\\" (String.◌∷◌ "\\" (escape v))
unfolding replace
escape-backslash c v y =
    rw y (ap (replace quote "\\\"") (pair_append "\\" "\\" (replace backslash "\\\\" v)))

escape-quote :
    (c : Char) (v : String)
    → nat_beq (code c) backslash ≡ false
    → nat_beq (code c) quote ≡ true
    → escape (String.◌∷◌ c v) ≡ String.◌∷◌ "\\" (String.◌∷◌ "\"" (escape v))
unfolding replace
escape-quote c v n y = rw (n, replace) (rw y (pair_append "\\" "\"" (escape v)))

escape_plain :
    (c : Char) (v : String)
    → nat_beq (code c) backslash ≡ false
    → nat_beq (code c) quote ≡ false
    → escape (String.◌∷◌ c v) ≡ String.◌∷◌ c (escape v)
unfolding replace
escape_plain c v n m = rw (n, replace) (rw m)

abbrev ReadsBack : String → String → Type 0
ReadsBack v rest = read_from false (escape v ⊕ ("\"" ⊕ rest)) ≡ some (v, rest)

-- A character that was written as an escape of d, which it is.
read_pair :
    (c d : Char) (v rest : String)
    → code c ≡ code d
    → escape (String.◌∷◌ c v) ≡ String.◌∷◌ "\\" (String.◌∷◌ d (escape v))
    → ReadsBack v rest
    → ReadsBack (String.◌∷◌ c v) rest
unfolding read_from
read_pair c d v rest at e h =
    let tail = "\"" ⊕ rest in
    ap (λ s. read_from false (s ⊕ tail)) e
    ∙ ap (read_from false) (two_append "\\" d (escape v) tail)
    ∙ ap (push d) h
    ∙ ap (λ k. some (String.◌∷◌ k v, rest)) (sym (Char-path c d at))

read_escaped : (v rest : String) → ReadsBack v rest
unfolding read_from replace
read_escaped String.[] rest = ap (read_from false) (nil-append ("\"" ⊕ rest) ∙ one_append "\"" rest)
read_escaped (String.◌∷◌ c v) rest = elim (Bool-cases (nat_beq (code c) backslash)) [
  | inl y ↦
      read_pair c "\\" v rest ((nat_beq_iff (code c) backslash).0 y) (escape-backslash c v y)
        (read_escaped v rest)
  | inr n ↦ elim (Bool-cases (nat_beq (code c) quote)) [
    | inl y ↦
        read_pair c "\"" v rest ((nat_beq_iff (code c) quote).0 y) (escape-quote c v n y)
          (read_escaped v rest)
    | inr m ↦
        let tail = "\"" ⊕ rest in
        ap (λ s. read_from false (s ⊕ tail)) (escape_plain c v n m)
        ∙ ap (read_from false) (cons-append c (escape v) tail)
        ∙ rw (n, m, read_from) (ap (push c) (read_escaped v rest))
  ]
]

-- The symbol at the front of a text, and what follows it.
unfoldable read_symbol : String → Option (String × String)
unfolding read_from
read_symbol String.[] = none
read_symbol (String.◌∷◌ c s) =
    let inner = read_from false s in if nat_beq (code c) quote then inner else none

read_symbol_back : (v rest : String) → read_symbol (souffle_symbol v ⊕ rest) ≡ some (v, rest)
unfolding read_symbol souffle_symbol
read_symbol_back v rest =
    let inner = escape v ⊕ "\"" in
    ap read_symbol (
      ap (λ s. s ⊕ rest) (one_append "\"" inner)
      ∙ cons-append "\"" inner rest
      ∙ ap (String.◌∷◌ "\"") (append_assoc (escape v) "\"" rest))
    ∙ read_escaped v rest

-- s[n:]
unfoldable skip : ℕ → String → String
skip zero s = s
skip (suc n) String.[] = String.[]
skip (suc n) (String.◌∷◌ c s) = skip n s

abbrev with_argument : String → Option (List String) → Option (List String)
with_argument v none = none
with_argument v (some vs) = some (v ∷ vs)

-- n symbols, each with two characters after it: ", " or ")."
unfoldable read_arguments : ℕ → String → Option (List String)
unfolding read_symbol skip
read_arguments zero s = some []
read_arguments (suc n) s = elim (read_symbol s) [
  | none ↦ none
  | some (v, rest) ↦ with_argument v (read_arguments n (skip 2 rest))
]

-- The arguments of a line, whose predicate and number of arguments are known.
unfoldable pub read_fact : String → ℕ → String → Option (List String)
unfolding read_arguments skip
read_fact predicate n line = read_arguments n (skip (suc (len predicate)) line)

skip_past : (p : String) (c : Char) (s : String) → skip (suc (len p)) (p ⊕ String.◌∷◌ c s) ≡ s
unfolding skip
skip_past String.[] c s = ap (skip 1) (nil-append (String.◌∷◌ c s))
skip_past (String.◌∷◌ d p) c s =
    ap (skip (suc (suc (len p)))) (cons-append d p (String.◌∷◌ c s)) ∙ skip_past p c s

abbrev after_symbol : ℕ → Option (String × String) → Option (List String)
after_symbol n none = none
after_symbol n (some (v, rest)) = with_argument v (read_arguments n (skip 2 rest))

read_arguments_step :
    (n : ℕ) (v : String) (c d : Char) (x s : String)
    → s ≡ souffle_symbol v ⊕ String.◌∷◌ c (String.◌∷◌ d x)
    → read_arguments (suc n) s ≡ with_argument v (read_arguments n x)
unfolding read_arguments skip
read_arguments_step n v c d x s e =
    ap (read_arguments (suc n)) e
    ∙ ap (after_symbol n) (read_symbol_back v (String.◌∷◌ c (String.◌∷◌ d x)))

read_arguments_back :
    (args : List String)
    → read_arguments (length args) (join ", " (map souffle_symbol args) ⊕ ").") ≡ some args
unfolding read_arguments join
read_arguments_back [] = refl
read_arguments_back (v ∷ []) = read_arguments_step zero v ")" "." String.[] _ refl
read_arguments_back (v ∷ w ∷ args) =
    let rest = join ", " (map souffle_symbol (w ∷ args)) in
    read_arguments_step (length (w ∷ args)) v "," " " (rest ⊕ ").") _ (
      append_assoc (souffle_symbol v) (", " ⊕ rest) ")."
      ∙ ap (λ s. souffle_symbol v ⊕ s)
          (append_assoc ", " rest ")." ∙ pair_append "," " " (rest ⊕ ").")))
    ∙ ap (with_argument v) (read_arguments_back (w ∷ args))

-- Every fact reads back: a line that was written for a predicate and arguments, quotes and
-- backslashes in them included, gives the arguments to a reader that takes the character after a
-- backslash as it is and ends a symbol at a bare quote.
pub read_fact-render_fact :
    (predicate : String) (arguments : List String)
    → read_fact predicate (length arguments) (render_fact predicate arguments) ≡ some arguments
unfolding read_fact render_fact skip
read_fact-render_fact predicate arguments =
    let n = length arguments in
    let body = join ", " (map souffle_symbol arguments) ⊕ ")." in
    ap (λ s. read_arguments n (skip (suc (len predicate)) (predicate ⊕ s))) (one_append "(" body)
    ∙ ap (read_arguments n) (skip_past predicate "(" body)
    ∙ read_arguments_back arguments
