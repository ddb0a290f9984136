-- ===== src/Findings/Accounted.antt =====
-- No finding is lost: each one remains or has a record that a waiver justifies.
use mathlib.Core.List.{append_assoc, append-nil}
use dexpi_datalog.Prelude.{
  ◌+◌, ◌≡◌, refl, sym, ◌∙◌, ◌⊎◌, inl, inr, Bool, true, false, not, ◌||◌, none, some, List, [], ◌∷◌,
  ◌++◌, arith, string_eq, keep, length, length-append, In, In-append_left, In-append_right,
  In-append_cases, Bool-cases,
}
use dexpi_datalog.Findings.Suppress.{
  Finding, Waiver, SuppressionRecord, SuppressionResult, is_rule, affects, covers, match_waiver,
  record_of, sift, apply_suppressions,
}

-- some waiver covers the finding
abbrev pub is_covered : List Waiver → Finding → Bool
is_covered [] f = false
is_covered (w ∷ ws) f = covers w f || is_covered ws f

abbrev pub IsMatch : Finding → List Waiver → Waiver → Type 0
IsMatch f ws w = In w ws × (covers w f ≡ true)

match-is_covered :
    (f : Finding) (ws : List Waiver)
    → ((is_covered ws f ≡ false) × (match_waiver f ws ≡ none))
      ⊎ ((is_covered ws f ≡ true) × (w : Waiver) × (match_waiver f ws ≡ some w) × IsMatch f ws w)
unfolding match_waiver
match-is_covered f [] = inl (refl, refl)
match-is_covered f (w ∷ ws) = elim (Bool-cases (is_rule w.rule_id f.rule_id)) [
  | inr n ↦ rw n (later (match-is_covered f ws))
  | inl y ↦ elim (Bool-cases (affects w.affected_object_id f.affected_object_ids)) [
    | inr n ↦ rw (y, n) (later (match-is_covered f ws))
    | inl z ↦
        let c : covers w f ≡ true = rw (y, z) in rw (y, z) (inr (refl, w, refl, (inl refl, c)))
  ]
]
  where
    later :
        ((is_covered ws f ≡ false) × (match_waiver f ws ≡ none))
          ⊎ ((is_covered ws f ≡ true)
              × (v : Waiver) × (match_waiver f ws ≡ some v)
              × IsMatch f ws v)
        → ((is_covered ws f ≡ false) × (match_waiver f ws ≡ none))
          ⊎ ((is_covered ws f ≡ true)
              × (v : Waiver) × (match_waiver f ws ≡ some v)
              × IsMatch f (w ∷ ws) v)
    later (inl p) = inl p
    later (inr (c, v, e, k)) = inr (c, v, e, (inr k.0, k.1))

abbrev pub uncovered : List Waiver → List Finding → List Finding
uncovered ws = keep (λ f. not (is_covered ws f))

-- What a record says is so: a waiver of the list covers a finding of the list.
pub record IsJustified (fs : List Finding) (ws : List Waiver) (r : SuppressionRecord) : Type 0 where
  pub finding : Finding
  pub waiver : Waiver
  pub found : In finding fs
  pub matching : IsMatch finding ws waiver
  pub same : r ≡ record_of waiver finding

module _ (ws : List Waiver) where
  sift-uncovered :
      (fs rem : List Finding) (recs : List SuppressionRecord)
      → (sift ws fs rem recs).0 ≡ rem ++ uncovered ws fs
  unfolding sift
  sift-uncovered [] rem recs = sym (append-nil rem)
  sift-uncovered (f ∷ fs) rem recs = elim (match-is_covered f ws) [
    | inl (c, e) ↦
        rw (e, sift)
          (rw c
            (sift-uncovered fs (rem ++ f ∷ []) recs ∙ append_assoc rem (f ∷ []) (uncovered ws fs)))
    | inr (c, w, e, _) ↦ rw (e, sift) (rw c (sift-uncovered fs rem (recs ++ record_of w f ∷ [])))
  ]

  sift-length :
      (fs rem : List Finding) (recs : List SuppressionRecord)
      → length (sift ws fs rem recs).0 + length (sift ws fs rem recs).1
        ≡ length rem + length recs + length fs
  unfolding sift
  sift-length [] rem recs = omega arith
  sift-length (f ∷ fs) rem recs = elim (match-is_covered f ws) [
    | inl (c, e) ↦
        rw (e, sift)
          (omega (arith, sift-length fs (rem ++ f ∷ []) recs, length-append rem (f ∷ [])))
    | inr (c, w, e, _) ↦
        rw (e, sift)
          (omega (
            arith,
            sift-length fs rem (recs ++ record_of w f ∷ []),
            length-append recs (record_of w f ∷ []),
          ))
  ]

  sift_keeps :
      (fs rem : List Finding) (recs : List SuppressionRecord) (r : SuppressionRecord)
      → In r recs
      → In r (sift ws fs rem recs).1
  unfolding sift
  sift_keeps [] rem recs r m = m
  sift_keeps (f ∷ fs) rem recs r m = elim (match-is_covered f ws) [
    | inl (c, e) ↦ rw (e, sift) (sift_keeps fs (rem ++ f ∷ []) recs r m)
    | inr (c, w, e, _) ↦
        rw (e, sift)
          (sift_keeps fs rem (recs ++ record_of w f ∷ []) r
            (In-append_left r recs (record_of w f ∷ []) m))
  ]

  sift_records :
      (fs rem : List Finding) (recs : List SuppressionRecord) (f : Finding)
      → In f fs
      → is_covered ws f ≡ true
      → (w : Waiver) × IsMatch f ws w × In (record_of w f) (sift ws fs rem recs).1
  unfolding sift
  sift_records [] rem recs f m c = absurd m
  sift_records (g ∷ fs) rem recs f m c = elim (match-is_covered g ws) [
    | inl (d, e) ↦ elim m [
      | inl at ↦ cc (rw at at c, d)
      | inr later ↦ rw (e, sift) (sift_records fs (rem ++ g ∷ []) recs f later c)
    ]
    | inr (d, w, e, k) ↦ elim m [
      | inl at ↦
          rw (e, sift)
            (rw at (
              w,
              k,
              sift_keeps fs rem (recs ++ record_of w g ∷ []) (record_of w g)
                  (In-append_right (record_of w g) recs (record_of w g ∷ []) (inl refl)),
            ))
      | inr later ↦ rw (e, sift) (sift_records fs rem (recs ++ record_of w g ∷ []) f later c)
    ]
  ]

  IsJustified-later :
      (f : Finding) (fs : List Finding) (r : SuppressionRecord)
      → IsJustified fs ws r
      → IsJustified (f ∷ fs) ws r
  IsJustified-later f fs r j = record {
    finding = j.finding;
    waiver = j.waiver;
    found = inr j.found;
    matching = j.matching;
    same = j.same;
  }

  sift-IsJustified :
      (fs rem : List Finding) (recs : List SuppressionRecord) (r : SuppressionRecord)
      → In r (sift ws fs rem recs).1
      → In r recs ⊎ IsJustified fs ws r
  unfolding sift
  sift-IsJustified [] rem recs r m = inl m
  sift-IsJustified (f ∷ fs) rem recs r m = elim (match-is_covered f ws) [
    | inl (c, e) ↦ elim (sift-IsJustified fs (rem ++ f ∷ []) recs r (rw (e, sift) at m)) [
      | inl old ↦ inl old
      | inr j ↦ inr (IsJustified-later f fs r j)
    ]
    | inr (c, w, e, k) ↦
        elim (sift-IsJustified fs rem (recs ++ record_of w f ∷ []) r (rw (e, sift) at m)) [
          | inr j ↦ inr (IsJustified-later f fs r j)
          | inl old ↦ elim (In-append_cases r recs (record_of w f ∷ []) old) [
            | inl older ↦ inl older
            | inr (inl at) ↦
                inr (record { finding = f; waiver = w; found = inl refl; matching = k; same = at })
            | inr (inr no') ↦ absurd no'
          ]
        ]
  ]

-- What became of the findings of one run.
pub record IsAccount (fs : List Finding) (ws : List Waiver) (result : SuppressionResult)
    : Type 0 where
  pub raw : result.raw_findings ≡ fs
  pub remaining : result.suppressed_findings ≡ uncovered ws fs
  pub none_lost : length result.suppressed_findings + length result.suppression_records ≡ length fs
  pub recorded :
      (f : Finding)
      → In f fs
      → is_covered ws f ≡ true
      → (w : Waiver) × IsMatch f ws w × In (record_of w f) result.suppression_records
  pub justified : (r : SuppressionRecord) → In r result.suppression_records → IsJustified fs ws r

-- The findings that remain are, in order, those that no waiver covers; every other one has a
-- record with a waiver that covers it; every record is of such a waiver and finding; and there are
-- as many remaining findings and records together as findings.
pub apply_suppressions-IsAccount :
    (fs : List Finding) (ws : List Waiver) → IsAccount fs ws (apply_suppressions fs ws)
unfolding apply_suppressions
apply_suppressions-IsAccount fs ws = record {
  raw = refl;
  remaining = sift-uncovered ws fs [] [];
  none_lost = omega (arith, sift-length ws fs [] []);
  recorded = sift_records ws fs [] [];
  justified = λ r m. elim (sift-IsJustified ws fs [] [] r m) [ inl no' ↦ absurd no' | inr j ↦ j ];
}
