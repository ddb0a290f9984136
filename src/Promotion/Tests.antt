-- ===== src/Promotion/Tests.antt =====
-- A pack whose version is counted up, and an instance of the theorem.
use dexpi_datalog.Prelude.{
  String, ◌≡◌, refl, Option, none, some, List, [], ◌∷◌, ◌==◌, string_eq, nat_eq, if◌then◌else◌,
  true,
}
use dexpi_datalog.Prelude.Text.{strip, rstrip, join}
use dexpi_datalog.Json
use dexpi_datalog.Json.{ℤ, pos, negsuc, Json, null, str, obj, Fields, end, field, arr, cons, nil}
use dexpi_datalog.Promotion.{propose_advisory_promotion, propose_from, unknown_section}
use dexpi_datalog.Promotion.Version.{bump_frontmatter_version, bump_lines}
use dexpi_datalog.Promotion.Confirmed.{append_confirmed_rule_to_pack_markdown}
use dexpi_datalog.Promotion.Revised.{IsRevisedText, bump_frontmatter_version-IsRevisedText}

abbrev to_int : String → Option ℤ
to_int s = if s == "4" then some (pos 4) else none

abbrev show : ℤ → String
show (pos n) = if n == 5 then "5" else "2"
show z = "0"

abbrev pack : List String
pack = "---" ∷ "pack_id: p" ∷ "version: 4" ∷ "---" ∷ "version: of the body" ∷ []

abbrev pack_text : String
pack_text = "---\npack_id: p\nversion: 4\n---\n\n## Rules\n"

bump_frontmatter_version-IsRevisedText_example :
    IsRevisedText to_int show pack_text (bump_frontmatter_version to_int show pack_text)
bump_frontmatter_version-IsRevisedText_example =
    bump_frontmatter_version-IsRevisedText to_int show pack_text

bump_runs :
    bump_lines to_int show pack
    ≡ some ("---" ∷ "pack_id: p" ∷ "version: 5" ∷ "---" ∷ "version: of the body" ∷ [])
unfolding bump_lines
bump_runs = refl

abbrev to_str : Json → String
to_str (str s) = s
to_str v = "None"

abbrev confirmed : Fields
confirmed = field "title" (str "Pump") (
    field "rule_id" (str "pump") (
      field "restatement" (obj (field "plain_language_meaning" (str " One pump. ") end))
        (field "executable_logic" (obj (field "content" (str "p(x).\n") end)) end)))

append_runs :
    append_confirmed_rule_to_pack_markdown to_int show to_str "---\nversion: x\n---\n" confirmed
    ≡ some
        "---\nversion: 2\n---\n\n## Pump {#pump}\n\nOne pump.\n\n<!-- rule_trust: author_confirmed -->\n\n```souffle-datalog\np(x).\n```\n"
unfolding append_confirmed_rule_to_pack_markdown
    dexpi_datalog.Promotion.Confirmed.render_confirmed_rule_markdown
    dexpi_datalog.Promotion.Confirmed.meaning_of
    dexpi_datalog.Promotion.Version.bump_frontmatter_version Json.get Json.get_or join strip rstrip
append_runs = refl

propose_runs :
    propose_advisory_promotion to_str
      (λ s. s)
      (λ s. true)
      (λ s. true)
      (λ s. s)
      (field "advisory_guidance" (arr (cons (obj (field "title" (str "a") end)) nil)) end)
      "b"
    ≡ unknown_section "b"
unfolding propose_advisory_promotion propose_from Json.get
propose_runs = refl
