-- ===== src/Comments.antt =====
-- `without_datalog_comments` of qa/structured_intent.py, read character by character: the modes
-- stand for the flags and for the places that the loop's jumps lead over.
pub mod Clean
mod Tests
use Prim.Native.Char.{Char, code}
use dexpi_datalog.Prelude.{ℕ, String, Bool, true, false, ◌&&◌, ◌||◌, nat_beq, if◌then◌else◌}
use dexpi_datalog.Prelude.Text.{◌⊕◌, occurs}

pub data Mode : Type 0 where
  code_text in_string escaped line_comment block_comment opening_block closing_block : Mode

abbrev pub slash : ℕ
slash = 47

abbrev pub star : ℕ
star = 42

abbrev pub quote : ℕ
quote = 34

abbrev pub backslash : ℕ
backslash = 92

abbrev pub newline : ℕ
newline = 10

abbrev pub is : ℕ → Char → Bool
is n c = nat_beq (code c) n

-- the first character of the text is n
abbrev pub next_is : ℕ → String → Bool
next_is n String.[] = false
next_is n (String.◌∷◌ c s) = is n c

-- A block comment that does not close ends the text, and its line breaks are dropped with it.
unfoldable pub clean : Mode → String → String
unfolding occurs
clean m String.[] = String.[]
clean in_string (String.◌∷◌ c s) = String.◌∷◌ c (
    if is backslash c
    then clean escaped s
    else if is quote c
    then clean code_text s
    else clean in_string s)
clean escaped (String.◌∷◌ c s) = String.◌∷◌ c (clean in_string s)
clean line_comment (String.◌∷◌ c s) =
    if is newline c then String.◌∷◌ c (clean code_text s) else clean line_comment s
clean opening_block (String.◌∷◌ c s) = clean block_comment s
clean closing_block (String.◌∷◌ c s) = clean code_text s
clean block_comment (String.◌∷◌ c s) =
    if is star c && next_is slash s
    then clean closing_block s
    else if is newline c && occurs "*/" s
    then String.◌∷◌ c (clean block_comment s)
    else clean block_comment s
clean code_text (String.◌∷◌ c s) =
    if is quote c
    then String.◌∷◌ c (clean in_string s)
    else if is slash c && next_is slash s
    then clean line_comment s
    else if is slash c && next_is star s
    then clean opening_block s
    else String.◌∷◌ c (clean code_text s)

unfoldable pub without_datalog_comments : String → String
unfolding clean
without_datalog_comments = clean code_text
