-- ===== src/Gate/Passes.antt =====
-- What it takes to pass the gate.
use dexpi_datalog.Prelude.{◌≡◌, sym, ◌∙◌, ◌↔◌, Bool, true, ◌&&◌, Option, arith, string_eq}
use dexpi_datalog.Json.{Json, null, Items, Fields}
use dexpi_datalog.Gate.Layers.{
  is_nil, has_status, both, mechanical_layer, semantic_layer, counterfactual_layer,
}
use dexpi_datalog.Gate.Review.{model_review_layer}
use dexpi_datalog.Gate.Evaluate.{evaluate_layered_faithfulness_gate}
use dexpi_datalog.Gate.Status.{
  tested, is_passing, accepted, IsReplayed, mechanical-status, semantic-status,
  counterfactual-status, gate-status,
}
use dexpi_datalog.Gate.Confirming.{IsUnopposed, review-status}

module _ (cmp : Fields → Json → Option Fields × Items) where
  and_parts :
      (p q r s t : Bool)
      → ((p && (q && r) && s && t) ≡ true)
        ↔ ((p ≡ true) × (q ≡ true) × (r ≡ true) × (s ≡ true) × (t ≡ true))
  and_parts p q r s t = ground arith

  -- What the gate demands: a mechanically safe program, structured intents on both sides without a
  -- semantic diagnostic, a replay that passed, and no opposition from a model review.
  pub record IsCleared (mechanical : Fields) (requested encoded : Option Fields)
      (diagnostics : Items) (counterfactual : Option Fields) (review : Json) : Type 0 where
    pub safe : has_status "safe_to_confirm" mechanical ≡ true
    pub bound : both requested encoded ≡ true
    pub undisputed : is_nil diagnostics ≡ true
    pub replayed : IsReplayed counterfactual
    pub unopposed : IsUnopposed cmp requested review

  evaluate-status :
      (mechanical : Fields) (requested encoded : Option Fields) (diagnostics : Items)
      (counterfactual : Option Fields) (review : Json)
      → is_passing (
          evaluate_layered_faithfulness_gate cmp mechanical requested encoded diagnostics
            counterfactual review)
        ≡ (has_status "safe_to_confirm" mechanical
            && (both requested encoded && is_nil diagnostics)
            && is_passing (counterfactual_layer counterfactual)
            && tested accepted (model_review_layer cmp requested review))
  unfolding evaluate_layered_faithfulness_gate
  evaluate-status m r e ds c review =
      gate-status cmp (mechanical_layer m) (semantic_layer r e ds) (counterfactual_layer c)
        (model_review_layer cmp r review)
      ∙ rw (mechanical-status m, semantic-status r e ds)

  -- The gate passes exactly where every deterministic layer does and a model review, if there is
  -- one, confirms the request: it claims faithfulness, has no diagnostic, and its back-translation
  -- compares equal to the requested intent.
  pub evaluate_passes_iff :
      (mechanical : Fields) (requested encoded : Option Fields) (diagnostics : Items)
      (counterfactual : Option Fields) (review : Json)
      → (is_passing (
            evaluate_layered_faithfulness_gate cmp mechanical requested encoded diagnostics
              counterfactual review)
          ≡ true)
        ↔ IsCleared mechanical requested encoded diagnostics counterfactual review
  evaluate_passes_iff m r e ds c review =
      let split =
        and_parts (has_status "safe_to_confirm" m) (both r e) (is_nil ds)
          (is_passing (counterfactual_layer c))
          (tested accepted (model_review_layer cmp r review)) in
      let status = evaluate-status m r e ds c review in
      (
        λ h.
            let (a, b, d, f, g) = split.0 (sym status ∙ h) in
            record {
              safe = a;
              bound = b;
              undisputed = d;
              replayed = (counterfactual-status c).0 f;
              unopposed = (review-status cmp r review).0 g;
            },
        λ k.
            status
            ∙ split.1 (
              k.safe,
              k.bound,
              k.undisputed,
              (counterfactual-status c).1 k.replayed,
              (review-status cmp r review).1 k.unopposed,
            ),
      )

  -- A model review can only veto: what passes with some review passes without one.
  pub review_only_vetoes :
      (mechanical : Fields) (requested encoded : Option Fields) (diagnostics : Items)
      (counterfactual : Option Fields) (review : Json)
      → is_passing (
          evaluate_layered_faithfulness_gate cmp mechanical requested encoded diagnostics
            counterfactual review)
        ≡ true
      → is_passing (
          evaluate_layered_faithfulness_gate cmp mechanical requested encoded diagnostics
            counterfactual null)
        ≡ true
  review_only_vetoes m r e ds c review h =
      let k = (evaluate_passes_iff m r e ds c review).0 h in
      (evaluate_passes_iff m r e ds c null).1 (record {
        safe = k.safe;
        bound = k.bound;
        undisputed = k.undisputed;
        replayed = k.replayed;
        unopposed = tt;
      })
