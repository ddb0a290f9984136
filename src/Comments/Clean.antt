-- ===== src/Comments/Clean.antt =====
-- A cleaned program has no comment left.
use Prim.Native.Char.{Char}
use dexpi_datalog.Prelude.{ℕ, String, ◌≡◌, refl, ap, inl, inr, true, false, ◌&&◌, Bool-cases, arith}
use dexpi_datalog.Prelude.Text.{occurs}
use dexpi_datalog.Comments.{
  Mode, code_text, in_string, escaped, line_comment, block_comment, opening_block, closing_block,
  slash, star, quote, backslash, newline, is, next_is, clean, without_datalog_comments,
}

-- the mode in which the output of a mode is read again
abbrev after : Mode → Mode
after in_string = in_string
after escaped = escaped
after _ = code_text

-- In code, a character that is no slash comes out first.
next-clean :
    (x : ℕ) (s : String)
    → next_is slash s ≡ false
    → next_is x s ≡ false
    → next_is x (clean code_text s) ≡ false
unfolding clean
next-clean x String.[] h k = refl
next-clean x (String.◌∷◌ c s) h k = elim (Bool-cases (is quote c)) [
  | inl q ↦ rw q k
  | inr q ↦ rw (q, h) k
]

newline-plain : (c : Char) → is newline c ≡ true → (is quote c ≡ false) × (is slash c ≡ false)
newline-plain c h = ground arith

-- A character of code that starts no comment starts none before the cleaned rest either.
no_opener :
    (x : ℕ) (c : Char) (s : String)
    → (is slash c && next_is slash s) ≡ false
    → (is slash c && next_is x s) ≡ false
    → (is slash c && next_is x (clean code_text s)) ≡ false
no_opener x c s h k = elim (Bool-cases (is slash c)) [
  | inr n ↦ rw n
  | inl y ↦ rw y (next-clean x s (rw y at h) (rw y at k))
]

clean-clean : (m : Mode) (s : String) → clean (after m) (clean m s) ≡ clean m s
unfolding clean
clean-clean m String.[] = refl
clean-clean in_string (String.◌∷◌ c s) = elim (Bool-cases (is backslash c)) [
  | inl b ↦ rw b (ap (String.◌∷◌ c) (clean-clean escaped s))
  | inr b ↦ elim (Bool-cases (is quote c)) [
    | inl q ↦ rw (b, q) (ap (String.◌∷◌ c) (clean-clean code_text s))
    | inr q ↦ rw (b, q) (ap (String.◌∷◌ c) (clean-clean in_string s))
  ]
]
clean-clean escaped (String.◌∷◌ c s) = ap (String.◌∷◌ c) (clean-clean in_string s)
clean-clean line_comment (String.◌∷◌ c s) = elim (Bool-cases (is newline c)) [
  | inl n ↦
      let (q, l) = newline-plain c n in
      rw n (rw (q, l) (ap (String.◌∷◌ c) (clean-clean code_text s)))
  | inr n ↦ rw n (clean-clean line_comment s)
]
clean-clean opening_block (String.◌∷◌ c s) = clean-clean block_comment s
clean-clean closing_block (String.◌∷◌ c s) = clean-clean code_text s
clean-clean block_comment (String.◌∷◌ c s) = elim (Bool-cases (is star c && next_is slash s)) [
  | inl e ↦ rw e (clean-clean closing_block s)
  | inr e ↦ elim (Bool-cases (is newline c)) [
    | inr n ↦ rw (e, n) (clean-clean block_comment s)
    | inl n ↦ elim (Bool-cases (occurs "*/" s)) [
      | inr o ↦ rw (e, n, o) (clean-clean block_comment s)
      | inl o ↦
          let (q, l) = newline-plain c n in
          rw (e, n, o) (rw (q, l) (ap (String.◌∷◌ c) (clean-clean block_comment s)))
    ]
  ]
]
clean-clean code_text (String.◌∷◌ c s) = elim (Bool-cases (is quote c)) [
  | inl q ↦ rw q (rw q (ap (String.◌∷◌ c) (clean-clean in_string s)))
  | inr q ↦ elim (Bool-cases (is slash c && next_is slash s)) [
    | inl e ↦ rw (q, e) (clean-clean line_comment s)
    | inr e ↦ elim (Bool-cases (is slash c && next_is star s)) [
      | inl f ↦ rw (q, e, f) (clean-clean opening_block s)
      | inr f ↦
          rw (q, e, f)
            (rw (q, no_opener slash c s e e, no_opener star c s e f)
              (ap (String.◌∷◌ c) (clean-clean code_text s)))
    ]
  ]
]

-- Removing the comments of a program a second time changes nothing: no removal puts together a
-- comment that another would find.
pub without_datalog_comments_idem :
    (program : String)
    → without_datalog_comments (without_datalog_comments program) ≡ without_datalog_comments program
unfolding without_datalog_comments
without_datalog_comments_idem program = clean-clean code_text program
