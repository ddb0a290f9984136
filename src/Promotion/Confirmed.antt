-- ===== src/Promotion/Confirmed.antt =====
-- verification/promote_advisory.py: a confirmed rule in the markdown of a pack.
use dexpi_datalog.Prelude.{String, Option, none, some, [], ◌∷◌, string_eq}
use dexpi_datalog.Prelude.Text.{◌⊕◌, strip, rstrip, join}
use dexpi_datalog.Json
use dexpi_datalog.Json.{ℤ, Json, str, obj, Fields}
use dexpi_datalog.Promotion.Version.{bump_frontmatter_version}

-- restatement.get("plain_language_meaning", ""), stripped, of a dict
unfoldable pub meaning_of : (Json → String) → Json → String
unfolding strip Json.get_or
meaning_of to_str (obj restatement) =
    strip (to_str (Json.get_or "plain_language_meaning" (str "") restatement))
meaning_of to_str _ = ""

-- the text of a confirmed rule
abbrev pub rule_markdown : String → String → String → String → String
unfolding join
rule_markdown title rule_id meaning fence = join "\n" (
    ("## " ⊕ (title ⊕ (" {#" ⊕ (rule_id ⊕ "}"))))
    ∷ ""
    ∷ meaning
    ∷ ""
    ∷ "<!-- rule_trust: author_confirmed -->"
    ∷ ""
    ∷ "```souffle-datalog"
    ∷ fence
    ∷ "```"
    ∷ ""
    ∷ [])

-- draft["executable_logic"]["content"]
abbrev pub content_of : Option Json → Option Json
unfolding Json.get
content_of (some (obj logic)) = Json.get "content" logic
content_of _ = none

abbrev pub rendered :
    (Json → String) → Option Json → Option Json → Option Json → Option Json → Option String
unfolding rstrip
rendered to_str (some title) (some rule_id) (some restatement) (some content) = some (
    rule_markdown (to_str title) (to_str rule_id) (meaning_of to_str restatement)
      (rstrip (to_str content)))
rendered to_str _ _ _ _ = none

-- `render_confirmed_rule_markdown`; `none` is the exception for a draft without one of its parts
unfoldable pub render_confirmed_rule_markdown : (Json → String) → Fields → Option String
unfolding Json.get
render_confirmed_rule_markdown to_str rule =
    rendered to_str (Json.get "title" rule) (Json.get "rule_id" rule) (Json.get "restatement" rule)
      (content_of (Json.get "executable_logic" rule))

-- `append_confirmed_rule_to_pack_markdown`
unfoldable pub append_confirmed_rule_to_pack_markdown :
    (String → Option ℤ) → (ℤ → String) → (Json → String) → String → Fields → Option String
unfolding rstrip
append_confirmed_rule_to_pack_markdown to_int show to_str markdown rule =
    elim (render_confirmed_rule_markdown to_str rule) [
      | none ↦ none
      | some block ↦ some (
          bump_frontmatter_version to_int show (rstrip markdown ⊕ ("\n\n" ⊕ (rstrip block ⊕ "\n"))))
    ]
