-- ===== src/Handlers/Process/Alone.antt =====
-- A request that runs with no other in between.
use session_service.Common.{ℕ, ◌≡◌, refl, true, false, nat_eq, inl, inr, sym, ap, ◌∙◌, arith}
use session_service.Handlers.Action.{Outcome, Outcome-cases, reject, accept, Act}
use session_service.Handlers.Action
use session_service.Handlers.Process.{
  Process, done, call, run, System, update, turn, Steps, here, next,
}

module _ {W A : Type 0} where
  update-same : (f : ℕ → Process W A) (i : ℕ) (p : Process W A) → update f i p i ≡ p
  update-same f i p = let same : nat_eq i i ≡ true = ground arith in rw same refl

  -- A request has run to its end from `s` with no other in between, and `t` is the state then.
  pub record Alone (Env : W → W → Type 0) (i : ℕ) (p : Process W A) (s t : System W A)
      : Type 1 where
    pub steps : Steps Env s t
    pub ended : t.requests i ≡ done (run p s.shared).0
    pub left : t.shared ≡ (run p s.shared).1
    pub others : (j : ℕ) → nat_eq i j ≡ false → t.requests j ≡ s.requests j

  -- How a request goes on from the outcome of a call.
  abbrev resume : {X : Type 0} → (X → Process W A) → W → Outcome X × W → Outcome A × W
  resume k w r = Action.◌>>=◌ (λ _. r) (λ x. run (k x)) w

  run-call :
      {X : Type 0} (m : Act W X) (k : X → Process W A) (w : W) {r : Outcome X × W}
      → m w ≡ r
      → resume k w r ≡ run (call m k) w
  run-call m k w e = ap (resume k w) (sym e)

  pub Steps-append :
      {Env : W → W → Type 0} {s t u : System W A} → Steps Env s t → Steps Env t u → Steps Env s u
  Steps-append first here = first
  Steps-append first (next rest step) = next (Steps-append first rest) step

  -- Every request can run to its end with no other in between.
  pub run-Alone :
      (Env : W → W → Type 0) (i : ℕ) (p : Process W A) (s : System W A)
      → s.requests i ≡ p
      → (t : System W A) × Alone Env i p s t
  run-Alone Env i (done o) s e =
      (s, record { steps = here; ended = e; left = refl; others = λ j _. refl })
  run-Alone Env i (call {X} m k) s e = elim (Outcome-cases (m s.shared)) [
    | inr (failed, w, stops) ↦
        let t : System W A = record {
          shared = w;
          requests = update s.requests i (done (reject failed));
        } in
        (
          t,
          record {
            steps = next here (turn i m k e (rw stops refl));
            ended =
                update-same s.requests i (done (reject failed))
                ∙ ap (λ r. done r.0) (run-call m k s.shared stops);
            left = ap (λ r. r.1) (run-call m k s.shared stops);
            others = λ j other. rw other refl;
          },
        )
    | inl (x, w, goes) ↦
        let t : System W A = record { shared = w; requests = update s.requests i (k x) } in
        let (u, rest) = run-Alone Env i (k x) t (update-same s.requests i (k x)) in
        (
          u,
          record {
            steps = Steps-append (next here (turn i m k e (rw goes refl))) rest.steps;
            ended = rest.ended ∙ ap (λ r. done r.0) (run-call m k s.shared goes);
            left = rest.left ∙ ap (λ r. r.1) (run-call m k s.shared goes);
            others = λ j other. rest.others j other ∙ rw other refl;
          },
        )
  ]
