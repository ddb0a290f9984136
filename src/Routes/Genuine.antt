-- ===== src/Routes/Genuine.antt =====
-- Whatever requests, outcomes and resumed artifacts an authority has seen, the receipt that it
-- holds to be active is its own and fits the request.
use dexpi_datalog.Prelude.{
  String, ◌≡◌, refl, inl, inr, Option, none, some, ◌==◌, string_eq, Bool-cases, Option-cases,
}
use dexpi_datalog.Prelude.Dict
use dexpi_datalog.Prelude.Dict.{Dict, get-put}
use dexpi_datalog.Json.{Fields}
use dexpi_datalog.Routes.Defs.{RouteContext, context_beq_iff, RouteReceipt, Library, context_eq}
use dexpi_datalog.Routes.Authority.{
  Authority, new_authority, begin_request, record_backend_outcome, current_only, active_receipt,
  active_structured_intent, validates,
}
use dexpi_datalog.Routes.Sound.{
  IsGenuine, IsSound, new-IsSound, begin-IsSound, record-IsSound, active-IsSound,
}

module _ (lib : Library) where
  current-IsGenuine :
      (a : Authority) (c : RouteContext) (id : String) (o : Option (RouteReceipt × RouteContext))
      (r : RouteReceipt)
      → IsSound lib a
      → Dict.get id a.receipts ≡ o
      → (current_only lib a c o).1 ≡ some r
      → IsGenuine lib r c
  current-IsGenuine a c id none r v e h = cc
  current-IsGenuine a c id (some (q, d)) r v e h = elim (Bool-cases (d == c)) [
    | inl same ↦
        let at : q ≡ r = some_injective q r (rw same at h) in
        rw (← at, ← (context_beq_iff d c).0 same) (v.genuine id q d e)
    | inr other ↦ cc (rw other at h)
  ]
    where
      some_injective : (q r : RouteReceipt) → some q ≡ some r → q ≡ r
      some_injective q r h = cc

  held-IsGenuine :
      (a : Authority) (r : RouteReceipt)
      → IsSound lib a
      → (active_receipt lib a).1 ≡ some r
      → (c : RouteContext) × (a.context ≡ some c) × IsGenuine lib r c
  unfolding active_receipt
  held-IsGenuine a r v h = elim (Option-cases a.active_receipt_id) [
    | inl e ↦ cc (rw (e, active_receipt) at h)
    | inr (id, e) ↦ elim (Option-cases a.context) [
      | inl k ↦ cc (rw (e, k, active_receipt) at h)
      | inr (c, k) ↦ (
        c,
        k,
        current-IsGenuine a c id (Dict.get id a.receipts) r v refl (rw (e, k, active_receipt) at h),
      )
    ]
  ]

  -- One call of a method. A resumed artifact is whatever the client sends.
  pub data Step (a b : Authority) : Type 0 where
    begins :
        (intent snapshot catalog policy : String) (resume : Option Fields)
        → b ≡ (begin_request lib a intent snapshot catalog policy resume).0
        → Step a b
    records :
        (token outcome : String) (structured : Option Fields)
        → b ≡ (record_backend_outcome lib a token outcome structured).0
        → Step a b
    reads : b ≡ (active_receipt lib a).0 → Step a b
    reads_intent : b ≡ (active_structured_intent lib a).0 → Step a b
    validating : (id : String) → b ≡ (validates lib a id).0 → Step a b

  pub data Reach (a : Authority) : Authority → Type 0 where
    here : Reach a a
    next : {b c : Authority} → Reach a b → Step b c → Reach a c

  reads-same :
      (a : Authority)
      → ((active_structured_intent lib a).0 ≡ (active_receipt lib a).0)
        × ((id : String) → (validates lib a id).0 ≡ (active_receipt lib a).0)
  unfolding active_structured_intent validates
  reads-same a = elim (Option-cases (active_receipt lib a).1) [
    | inl e ↦ (rw (e, active_structured_intent), λ id. rw (e, validates))
    | inr (r, e) ↦ (rw (e, active_structured_intent), λ id. rw (e, validates))
  ]

  Step-IsSound : {a b : Authority} → IsSound lib a → Step a b → IsSound lib b
  Step-IsSound {a} v (begins intent snapshot catalog policy resume e) =
      rw e (begin-IsSound lib a intent snapshot catalog policy resume v)
  Step-IsSound {a} v (records token outcome structured e) =
      rw e (record-IsSound lib a token outcome structured v)
  Step-IsSound {a} v (reads e) = rw e (active-IsSound lib a v)
  Step-IsSound {a} v (reads_intent e) = rw (e, (reads-same a).0) (active-IsSound lib a v)
  Step-IsSound {a} v (validating id e) = rw (e, (reads-same a).1 id) (active-IsSound lib a v)

  Reach-IsSound : {a b : Authority} → IsSound lib a → Reach a b → IsSound lib b
  Reach-IsSound v here = v
  Reach-IsSound v (next r st) = Step-IsSound (Reach-IsSound v r) st

  -- From a new authority, after any calls, with any resumed artifacts: a receipt that it returns as
  -- active carries the authority's own signature of its fields, has an outcome that earns a
  -- receipt, and was made for the intent, source snapshot, template catalog and policy of the
  -- request that is current.
  pub active_receipt-IsGenuine :
      {a : Authority} (r : RouteReceipt)
      → Reach new_authority a
      → (active_receipt lib a).1 ≡ some r
      → (c : RouteContext) × (a.context ≡ some c) × IsGenuine lib r c
  active_receipt-IsGenuine {a} r path h =
      held-IsGenuine a r (Reach-IsSound (new-IsSound lib) path) h
