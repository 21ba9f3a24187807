-- ===== src/Handlers/Process.antt =====
-- Requests that run at the same time: each handler is a goroutine of net/http, and what it shares with
-- the others is the state outside it, which it changes one call of a service at a time. Other parts of
-- the program change it too.
pub mod Alone
use session_service.Common.{
  ℕ, ◌≡◌, refl, true, false, nat_eq, if◌then◌else◌, if_elim, Bool-cases, inl, inr, sym, ap, ◌∙◌,
  arith, ◌⊎◌,
}
use session_service.Handlers.Action.{Outcome, Outcome-cases, reject, accept, Act}
use session_service.Handlers.Action

-- What is left of a request: it has ended, or it makes a call and goes on with what the call gives.
pub data Process (W A : Type 0) : Type 1 where
  done : Outcome A → Process W A
  call : {X : Type 0} → Act W X → (X → Process W A) → Process W A

module _ {W : Type 0} where
  infixl 5 ◌>>=◌ ◌>>◌
  abbrev pub ◌>>=◌ : {X A : Type 0} → Act W X → (X → Process W A) → Process W A
  m >>= k = call m k

  abbrev pub ◌>>◌ : {X A : Type 0} → Act W X → Process W A → Process W A
  m >> p = call m (λ _. p)

  -- A request that runs alone.
  abbrev pub run : {A : Type 0} → Process W A → Act W A
  run (done o) w = (o, w)
  run (call m k) w = Action.◌>>=◌ m (λ x. run (k x)) w

  -- What is left after a call: nothing if it has sent an error.
  abbrev pub go_on : {X A : Type 0} → (X → Process W A) → Outcome X → Process W A
  go_on k (reject e) = done (reject e)
  go_on k (accept x) = k x

-- Such a change of the state does not break the property.
abbrev pub IsKeptBy : {W : Type 0} → (W → W → Type 0) → (W → Type 0) → Type 0
IsKeptBy {W} Env P = (w w' : W) → Env w w' → P w → P w'

-- The requests under way, by number, and the state that they share.
pub record System (W A : Type 0) : Type 1 where
  pub shared : W
  pub requests : ℕ → Process W A

nat_eq-eq : (i j : ℕ) → nat_eq i j ≡ true → i ≡ j
nat_eq-eq i j e = ground arith

module _ {W A : Type 0} where
  abbrev pub update : (ℕ → Process W A) → ℕ → Process W A → ℕ → Process W A
  update f i p j = if nat_eq i j then p else f j

  -- One request makes its next call, or something else changes what they share.
  pub data Step (Env : W → W → Type 0) (s t : System W A) : Type 1 where
    turn :
        {X : Type 0} (i : ℕ) (m : Act W X) (k : X → Process W A)
        → s.requests i ≡ call m k
        → t ≡ record {
          shared = (m s.shared).1;
          requests = update s.requests i (go_on k (m s.shared).0);
        }
        → Step Env s t
    background :
        (w : W) → Env s.shared w → t ≡ record { shared = w; requests = s.requests } → Step Env s t

  -- Any number of these in any order.
  pub data Steps (Env : W → W → Type 0) (s : System W A) : System W A → Type 1 where
    here : Steps Env s s
    next : {t u : System W A} → Steps Env s t → Step Env t u → Steps Env s u

  -- No call of the request breaks the property.
  abbrev pub Keeps : (W → Type 0) → Process W A → Type 0
  Keeps P (done o) = Unit
  Keeps P (call {X} m k) = ((w : W) → P w → P (m w).1) × ((x : X) → Keeps P (k x))

  go_on-Keeps :
      (P : W → Type 0) {X : Type 0} (k : X → Process W A) (o : Outcome X)
      → ((x : X) → Keeps P (k x))
      → Keeps P (go_on k o)
  go_on-Keeps P k (reject e) h = tt
  go_on-Keeps P k (accept x) h = h x

  -- What is left of each request keeps the property that the requests kept at first.
  pub Steps-Keeps :
      {Env : W → W → Type 0} (P : W → Type 0) {s t : System W A}
      → Steps Env s t
      → ((j : ℕ) → Keeps P (s.requests j))
      → (j : ℕ) → Keeps P (t.requests j)
  Steps-Keeps P here keeps j = keeps j
  Steps-Keeps P (next {t} steps (turn {X} i m k e same)) keeps j =
      let before : ((w : W) → P w → P (m w).1) × ((x : X) → Keeps P (k x)) =
        rw e at (Steps-Keeps P steps keeps i) in
      rw same (
        if_elim (Keeps P) (nat_eq i j) (go_on-Keeps P k (m t.shared).0 before.1)
          (Steps-Keeps P steps keeps j))
  Steps-Keeps P (next steps (background w moved same)) keeps j =
      rw same (Steps-Keeps P steps keeps j)

  -- A property that all the requests keep, and everything else, stays true.
  Steps-property :
      {Env : W → W → Type 0} (P : W → Type 0) {s t : System W A}
      → Steps Env s t
      → IsKeptBy Env P
      → ((j : ℕ) → Keeps P (s.requests j))
      → P s.shared
      → P t.shared
  Steps-property P here kept keeps holds = holds
  Steps-property P (next {t} steps (turn {X} i m k e same)) kept keeps holds =
      let before : ((w : W) → P w → P (m w).1) × ((x : X) → Keeps P (k x)) =
        rw e at (Steps-Keeps P steps keeps i) in
      rw same (before.0 t.shared (Steps-property P steps kept keeps holds))
  Steps-property P (next {t} steps (background w moved same)) kept keeps holds =
      rw same (kept t.shared w moved (Steps-property P steps kept keeps holds))

  -- While `P` holds, the request makes `Q` true before it ends with a value.
  abbrev pub Ensures : (W → Type 0) → (W → Type 0) → Process W A → Type 0
  Ensures P Q (done (accept a)) = ⊥
  Ensures P Q (done (reject e)) = Unit
  Ensures P Q (call {X} m k) =
      (w : W) → P w → (x : X) → (m w).0 ≡ accept x → Q (m w).1 ⊎ Ensures P Q (k x)

  go_on-Ensures :
      (P Q : W → Type 0) {X : Type 0} (k : X → Process W A) (o : Outcome X) (w : W)
      → ((x : X) → o ≡ accept x → Q w ⊎ Ensures P Q (k x))
      → Q w ⊎ Ensures P Q (go_on k o)
  go_on-Ensures P Q k (reject e) w h = inr tt
  go_on-Ensures P Q k (accept x) w h = h x refl

  -- If all requests keep `P` and `Q`, what a request ensures is true or still ensured by the rest
  -- of it, whatever calls the others make in between.
  pub Steps-Ensures :
      {Env : W → W → Type 0} (P Q : W → Type 0) (i : ℕ) {s t : System W A}
      → Steps Env s t
      → IsKeptBy Env P
      → IsKeptBy Env Q
      → ((j : ℕ) → Keeps P (s.requests j))
      → ((j : ℕ) → Keeps Q (s.requests j))
      → P s.shared
      → Ensures P Q (s.requests i)
      → Q t.shared ⊎ Ensures P Q (t.requests i)
  Steps-Ensures P Q i here kept kept' keeps keeps' holds ensures = inr ensures
  Steps-Ensures P Q i (next {t} steps (turn {X} j m k e same)) kept kept' keeps keeps' holds
        ensures =
      let before : ((w : W) → Q w → Q (m w).1) × ((x : X) → Keeps Q (k x)) =
        rw e at (Steps-Keeps Q steps keeps' j) in
      elim (Steps-Ensures P Q i steps kept kept' keeps keeps' holds ensures) [
        | inl reached ↦ inl (rw same (before.0 t.shared reached))
        | inr still ↦ elim (Bool-cases (nat_eq j i)) [
          | inl mine ↦
              let same_request : t.requests i ≡ call m k =
                ap t.requests (sym (nat_eq-eq j i mine)) ∙ e in
              rw (same, mine)
                (go_on-Ensures P Q k (m t.shared).0 (m t.shared).1
                  ((rw same_request at still) t.shared (Steps-property P steps kept keeps holds)))
          | inr other ↦ inr (rw (same, other) still)
        ]
      ]
  Steps-Ensures P Q i (next {t} steps (background w moved same)) kept kept' keeps keeps' holds
        ensures =
      elim (Steps-Ensures P Q i steps kept kept' keeps keeps' holds ensures) [
        | inl reached ↦ inl (rw same (kept' t.shared w moved reached))
        | inr still ↦ inr (rw same still)
      ]

  -- Nothing keeps what is never true from staying so.
  never-Keeps : (p : Process W A) → Keeps (λ _. ⊥) p
  never-Keeps (done o) = tt
  never-Keeps (call m k) = (λ w never. never, λ x. never-Keeps (k x))

  -- While `P` holds, the request cannot end with a value.
  abbrev pub Refused : (W → Type 0) → Process W A → Type 0
  Refused P = Ensures P (λ _. ⊥)

  pub Steps-Refused :
      {Env : W → W → Type 0} (P : W → Type 0) (i : ℕ) {s t : System W A}
      → Steps Env s t
      → IsKeptBy Env P
      → ((j : ℕ) → Keeps P (s.requests j))
      → P s.shared
      → Refused P (s.requests i)
      → Refused P (t.requests i)
  Steps-Refused P i {s} steps kept keeps holds refused =
      elim (Steps-Ensures P (λ _. ⊥) i steps kept (λ w w' moved never. never) keeps
        (λ j. never-Keeps (s.requests j)) holds refused) [
          | inl never ↦ absurd never
          | inr still ↦ still
        ]
