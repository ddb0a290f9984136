-- ===== src/Turn/Again.antt =====
-- What a repeated request and a running tool loop see of a turn, after whatever came between.
use mathlib.Core.Path.{subst}
use text.Mathlib.TextEquality.{eq_iff}
use dexpi_datalog.Prelude.{
  String, ◌≡◌, refl, ap, ◌∙◌, inl, inr, true, ◌||◌, some, arith, Option-cases, Bool-cases, ◌==◌,
  string_eq, if◌then◌else◌, ==_refl,
}
use dexpi_datalog.Json.{single, str}
use dexpi_datalog.Turn.Defs.{
  canceled, cancellation, Turn, turn, Attempt, Result, ok, err, request_conflict, append, turn_key,
  is_active, is_paused, Backend, compute_turn_id,
}
use dexpi_datalog.Turn.Invariant.{Continues}
use dexpi_datalog.Turn.Lifecycle.{
  get, save, begin, start, cancel, reuse, new_turn, steering_directive, stop, as_turn,
}
use dexpi_datalog.Turn.Sound.{Holds, own_key, IsSound}
use dexpi_datalog.Turn.Sections.{get-Holds, begin-IsSafe, cancel-IsSafe, found-state}
use dexpi_datalog.Turn.Steps.{Reach, Reach-IsSafe}
use dexpi_datalog.Turn.Final.Canceled.{canceled_is_final}

module _ (b : Backend) where
  open b use {store}

  pub Holds-get :
      (s : store.State) (sid tid : String) (t : Turn)
      → Holds b s (turn_key sid tid) t
      → get b s sid tid ≡ some t
  unfolding get
  Holds-get s sid tid t p = ap as_turn p

  write-accepts :
      (s u : store.State) (k : String) (t : Turn)
      → store.write s k (turn t) ≡ some u
      → store.accepts k ≡ true
  write-accepts s u k t e = elim (Bool-cases (store.accepts k)) [
    | inl fine ↦ fine
    | inr bad ↦ cc (store.write_refused s k (turn t) bad)
  ]

  ok_injective : (t t' : Turn) → Result.ok t ≡ ok t' → t ≡ t'
  ok_injective t t' e = cc

  -- A save that returns a turn has written it at its own key.
  save-eq-ok :
      (s u : store.State) (t t' : Turn)
      → save b s t ≡ (u, ok t')
      → (t ≡ t') × Holds b u (own_key b t) t
  unfolding save
  save-eq-ok s u t t' h = elim (Option-cases (store.write s (own_key b t) (turn t))) [
    | inl e ↦ cc (ap (λ (r : store.State × Result Turn). r.1) (rw (e, save) at h))
    | inr (w, e) ↦
        let h' : (w, ok t) ≡ (u, ok t') = rw (e, save) at h in
        let at : w ≡ u = ap (λ (r : store.State × Result Turn). r.0) h' in
        (
          ok_injective t t' (ap (λ (r : store.State × Result Turn). r.1) h'),
          rw (← at) (
              store.read-write s w (own_key b t) (own_key b t) (turn t) e
              ∙ rw (store.same_refl _ (write-accepts s w _ t e))),
        )
  ]

  reuse-eq-ok :
      (x t : Turn) (rid question : String)
      → reuse b x rid question ≡ ok t
      → (x ≡ t) × (x.request_id ≡ rid) × (x.question ≡ question)
  reuse-eq-ok x t rid question h =
      ground (arith, eq_iff x.request_id rid, eq_iff x.question question)

  -- the turn that answers a request
  record Answers (u : store.State) (sid rid question : String) (t : Turn) : Type 0 where
    held : Holds b u (turn_key sid (compute_turn_id b sid rid)) t
    request : t.request_id ≡ rid
    asked : t.question ≡ question

  begin-Answers :
      (s u : store.State) (sid rid question : String) (t : Turn)
      → begin b s sid rid question ≡ (u, ok t)
      → Answers u sid rid question t
  unfolding begin
  begin-Answers s u sid rid question t h =
      let tid = compute_turn_id b sid rid in
      elim (Option-cases (get b s sid tid)) [
        | inl e ↦
            let (same, p) = save-eq-ok s u (new_turn b sid rid question) t (rw (e, begin) at h) in
            rw (← same) (record { held = p; request = refl; asked = refl })
        | inr (x, e) ↦
            let h' : (s, reuse b x rid question) ≡ (u, ok t) = rw (e, begin) at h in
            let (same, request, asked) =
              reuse-eq-ok x t rid question (ap (λ (r : store.State × Result Turn). r.1) h') in
            rw (← same, ← ap (λ (r : store.State × Result Turn). r.0) h')
              (record { held = get-Holds b s sid tid x e; request = request; asked = asked })
      ]

  reuse-known :
      (x : Turn) (rid question question' : String)
      → x.request_id ≡ rid
      → x.question ≡ question
      → reuse b x rid question' ≡ (if question == question' then ok x else err request_conflict)
  reuse-known x rid question question' p q = rw (p, q, ==_refl rid)

  -- A request runs at most once. Once a request has been taken up, then after any later sections of
  -- any threads `start` with its id does not call `execute` and changes nothing: for the same
  -- question it returns the turn, which has gone on from the one first returned, and for another
  -- question it raises the conflict.
  pub start_again :
      (s u w : store.State) (sid rid question : String) (t : Turn)
      → IsSound b s
      → begin b s sid rid question ≡ (u, ok t)
      → Reach b u w
      → (t' : Turn) × Continues t t'
        × ((question' : String) (execute : store.State → store.State × Attempt)
            → start b w sid rid question' execute
              ≡ (w, if question == question' then ok t' else err request_conflict))
  unfolding start
  start_again s u w sid rid question t v h r =
      let tid = compute_turn_id b sid rid in
      let a = begin-Answers s u sid rid question t h in
      let state : (begin b s sid rid question).0 ≡ u =
        ap (λ (r : store.State × Result Turn). r.0) h in
      let sound : IsSound b u =
        subst (IsSound b) state (begin-IsSafe b s sid rid question v).sound in
      let (t', p, c) = (Reach-IsSafe b sound r).keeps (turn_key sid tid) t a.held in
      (
        t',
        c,
        λ question' execute.
            rw (Holds-get w sid tid t' p, start)
              (rw (
                reuse-known t' rid question question' (c.same_request ∙ a.request)
                  (c.same_question ∙ a.asked))),
      )

  -- A later state of a turn that the store holds can always be saved, and is then held there.
  save-there :
      (s : store.State) (k : String) (t t' : Turn)
      → IsSound b s
      → Holds b s k t
      → own_key b t' ≡ own_key b t
      → Holds b (save b s t').0 k t'
  unfolding save
  save-there s k t t' v p own =
      let same : store.same (own_key b t') k ≡ true = rw own (v.keyed k t p) in
      let there : store.read s (own_key b t') ≡ some (turn t) = store.read_same s _ k same ∙ p in
      elim (Bool-cases (store.accepts (own_key b t'))) [
        | inl fine ↦
            let (u, e) = store.write_accepted s (own_key b t') (turn t') fine in
            rw (e, save) (store.read-write s u (own_key b t') k (turn t') e ∙ rw same)
        | inr bad ↦ cc (there, store.read_refused s (own_key b t') bad)
      ]

  abbrev canceled_turn : Turn → Turn
  canceled_turn t =
      append (record t { status = canceled }) cancellation
        (single "message" (str "The turn was canceled by the user."))

  cancel-Holds :
      (s : store.State) (sid tid : String) (t : Turn)
      → IsSound b s
      → get b s sid tid ≡ some t
      → (is_active t.status || is_paused t.status) ≡ true
      → Holds b (cancel b s sid tid).0 (turn_key sid tid) (canceled_turn t)
  unfolding cancel append
  cancel-Holds s sid tid t v e live =
      rw (e, cancel)
        (rw live (
          rw found-state (
            save-there s (turn_key sid tid) t (canceled_turn t) v (get-Holds b s sid tid t e)
              refl)))

  -- A cancellation reaches a running turn: after `cancel` on an active or paused turn, every later
  -- poll of the steering directive says stop, whatever sections came between.
  pub cancel-stops :
      (s w : store.State) (sid tid : String) (t : Turn)
      → IsSound b s
      → get b s sid tid ≡ some t
      → (is_active t.status || is_paused t.status) ≡ true
      → Reach b (cancel b s sid tid).0 w
      → steering_directive b w sid tid ≡ some stop
  unfolding steering_directive append
  cancel-stops s w sid tid t v e live r =
      let p =
        canceled_is_final b (turn_key sid tid) (canceled_turn t) (cancel-IsSafe b s sid tid v).sound
          r (cancel-Holds s sid tid t v e live) refl in
      rw (Holds-get w sid tid (canceled_turn t) p, steering_directive)
