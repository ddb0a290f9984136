-- ===== src/Gate/Compared.antt =====
-- The gate of qa/faithfulness_gate.py with the comparison of qa/structured_intent.py.
use mathlib.Core.Path.{subst}
use dexpi_datalog.Prelude.{String, ◌≡◌, refl, sym, ap, ◌↔◌, true, Option, none, some}
use dexpi_datalog.Json.{Json, str, arr, obj, Items, nil, Fields}
use dexpi_datalog.Gate.Layers.{value_at, is_nil, has_status, both}
use dexpi_datalog.Gate.Evaluate.{evaluate_layered_faithfulness_gate}
use dexpi_datalog.Gate.Status.{is_passing, IsReplayed}
use dexpi_datalog.Gate.Passes.{evaluate_passes_iff}
use dexpi_datalog.Intent.{normalize_structured_intent}
use dexpi_datalog.Intent.Compare.{compare_structured_intents}
use dexpi_datalog.Intent.Compare.Equal.{compare_structured_intents_iff}

abbrev Result : Type 0
Result = Option Fields × Items

-- A comparison that raised gives no intent: with a normalized request it does not raise.
abbrev pub result_of : Option (Option Fields × Items) → Option Fields × Items
result_of (some r) = r
result_of none = (none, nil)

result_of-some :
    (o : Option Result) (n : Fields) → result_of o ≡ (some n, nil) → o ≡ some (some n, nil)
result_of-some (some r) n h = ap some h
result_of-some none n h = no_intent (ap (λ (r : Result). r.0) h)
  where
    no_intent : {X : Type 0} {n : Fields} → ◌≡◌ {A = Option Fields} none (some n) → X
    no_intent h = cc

some_injective : {d e : Fields} → some d ≡ some e → d ≡ e
some_injective h = cc

module _ (repr : String → String) (repr_json : Json → String) where
  abbrev pub compare : Fields → Json → Option Fields × Items
  compare requested encoded =
      result_of (compare_structured_intents repr repr_json requested encoded)

  -- The layers pass, and the review means the requested intent.
  pub record IsMeant (mechanical : Fields) (requested : Fields) (encoded : Option Fields)
      (diagnostics : Items) (counterfactual : Option Fields) (review : Fields) : Type 0 where
    pub safe : has_status "safe_to_confirm" mechanical ≡ true
    pub bound : both (some requested) encoded ≡ true
    pub undisputed : is_nil diagnostics ≡ true
    pub replayed : IsReplayed counterfactual
    pub claimed : value_at "status" review ≡ str "faithful"
    pub unqualified : value_at "diagnostics" review ≡ arr nil
    pub meant :
        normalize_structured_intent repr (value_at "back_translated_intent" review)
        ≡ (some requested, nil)

  -- With a normalized request and a model review, the gate passes exactly where the deterministic
  -- layers do, and the review claims faithfulness without a diagnostic and translates the program
  -- back into an intent that normalizes to the requested one.
  pub reviewed_gate_passes_iff :
      (value : Json) (requested : Fields)
      → normalize_structured_intent repr value ≡ (some requested, nil)
      → (mechanical : Fields) (encoded : Option Fields) (diagnostics : Items)
        (counterfactual : Option Fields) (review : Fields)
      → (is_passing (
            evaluate_layered_faithfulness_gate compare mechanical
              (some requested)
              encoded
              diagnostics
              counterfactual
              (obj review))
          ≡ true)
        ↔ IsMeant mechanical requested encoded diagnostics counterfactual review
  reviewed_gate_passes_iff value requested h m e ds c review =
      let gate = evaluate_passes_iff compare m (some requested) e ds c (obj review) in
      let back = value_at "back_translated_intent" review in
      let same =
        λ (n : Fields). compare_structured_intents_iff repr repr_json value requested back n h in
      (
        λ k.
            let d = gate.0 k in
            let r = d.unopposed in
            let at : requested ≡ r.intent = some_injective r.asked in
            let equal : compare requested back ≡ (some r.normalized, nil) =
              subst (λ x. compare x back ≡ (some r.normalized, nil)) (sym at) r.equal in
            record {
              safe = d.safe;
              bound = d.bound;
              undisputed = d.undisputed;
              replayed = d.replayed;
              claimed = r.claimed;
              unqualified = r.unqualified;
              meant = ((same r.normalized).0 (result_of-some _ r.normalized equal)).0;
            },
        λ k. gate.1 (record {
          safe = k.safe;
          bound = k.bound;
          undisputed = k.undisputed;
          replayed = k.replayed;
          unopposed = record {
            intent = requested;
            asked = refl;
            claimed = k.claimed;
            unqualified = k.unqualified;
            normalized = requested;
            equal = ap result_of ((same requested).1 (k.meant, refl));
          };
        }),
      )
