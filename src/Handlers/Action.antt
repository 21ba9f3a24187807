-- ===== src/Handlers/Action.antt =====
-- How a handler runs: over the state of everything outside it, up to the first error that it sends.
use session_service.Common.{
  ◌≡◌, ◌⊎◌, inl, inr, refl, ℕ, String, Bool, Option, none, some, [], ◌∷◌, Result, ok, err,
  if◌then◌else◌,
}
use session_service.Errors.{ServiceError, wrap}
use session_service.Http.{Response, error_body, json}
use session_service.Services.{System, Jwt}
use session_service.Cache.{Cache}
use session_service.Repository.{Repository}
use session_service.Auth.Keys.{KeyManager}
use session_service.Common.Time.{Time}

-- The state of the cache server, the database, the clock and random source, and the signing keys.
pub record World (Server Database State PrivateKey PublicKey : Type 0) : Type 0 where
  pub server : Server
  pub db : Database
  pub sys : State
  pub keys : KeyManager PrivateKey PublicKey

-- The services that a handler is built with.
pub record Backend (Server Database State PrivateKey PublicKey : Type 0) : Type 0 where
  pub cache : Cache Server
  pub repo : Repository Database
  pub system : System PrivateKey State
  pub jwt : Jwt PrivateKey PublicKey
  -- `bcrypt.CompareHashAndPassword(hash, password)` returns nil
  pub bcrypt_matches : String → String → Bool

-- An early return that sends an error, or a value to go on with.
pub data Outcome (A : Type 0) : Type 0 where
  reject : ServiceError → Outcome A
  accept : A → Outcome A

abbrev pub Act : Type 0 → Type 0 → Type 0
Act W A = W → Outcome A × W

infixl 5 ◌>>=◌ ◌>>◌
abbrev pub ◌>>=◌ : {W A B : Type 0} → Act W A → (A → Act W B) → Act W B
◌>>=◌ m f w = let (o, w') = m w in elim o [ reject e ↦ (reject e, w') | accept a ↦ f a w' ]

abbrev pub ◌>>◌ : {W A B : Type 0} → Act W A → Act W B → Act W B
m >> k = m >>= λ _. k

abbrev pub pure : {W A : Type 0} → A → Act W A
pure a w = (accept a, w)

-- `if test { h.sendError(w, e); return }`
abbrev pub reject_if : {W : Type 0} → Bool → ServiceError → Act W (Unit {0})
reject_if test e w = (if test then reject e else accept tt, w)

-- `if x == nil { h.sendError(w, e); return }`
abbrev pub require : {W A : Type 0} → Option A → ServiceError → Act W A
require none e w = (reject e, w)
require (some a) e w = (accept a, w)

-- `if err != nil { h.sendError(w, errors.Wrap(err, e)); return }`
abbrev or_wrap : {A : Type 0} → ServiceError → Result A → Outcome A
or_wrap e (ok a) = accept a
or_wrap e (err cause) = reject (wrap cause e)

abbrev pub attempt : {W A : Type 0} → ServiceError → (W → Result A × W) → Act W A
attempt e call w = let (r, w') = call w in (or_wrap e r, w')

-- A call whose error is only logged.
abbrev pub ignore : {W A : Type 0} → (W → Result A × W) → Act W (Unit {0})
ignore call w = (accept tt, (call w).1)

-- How a call of one service runs on the whole state.
module _ {Server Database State PrivateKey PublicKey A : Type 0} where
  abbrev pub read_cache :
      (Server → Result A)
      → World Server Database State PrivateKey PublicKey
      → Result A × World Server Database State PrivateKey PublicKey
  read_cache f w = (f w.server, w)

  abbrev pub write_cache :
      (Server → Result A × Server)
      → World Server Database State PrivateKey PublicKey
      → Result A × World Server Database State PrivateKey PublicKey
  write_cache f w = let (r, s) = f w.server in (r, record w { server = s })

  abbrev pub read_db :
      (Database → Result A)
      → World Server Database State PrivateKey PublicKey
      → Result A × World Server Database State PrivateKey PublicKey
  read_db f w = (f w.db, w)

  abbrev pub write_db :
      (Database → Result A × Database)
      → World Server Database State PrivateKey PublicKey
      → Result A × World Server Database State PrivateKey PublicKey
  write_db f w = let (r, d) = f w.db in (r, record w { db = d })

  abbrev pub on_sys :
      (State → Result A × State)
      → World Server Database State PrivateKey PublicKey
      → Result A × World Server Database State PrivateKey PublicKey
  on_sys f w = let (r, s) = f w.sys in (r, record w { sys = s })

-- `time.Now()`
abbrev pub read_clock :
    {Server Database State PrivateKey PublicKey : Type 0}
    → System PrivateKey State
    → Act (World Server Database State PrivateKey PublicKey) Time
read_clock system w = let (t, s) = system.now w.sys in (accept t, record w { sys = s })

-- `sendError`, which all handlers share in form
unfoldable pub send_error : {A : Type 0} → ServiceError → Response A
send_error e = record {
  status = e.status;
  headers = ("Content-Type", "application/json") ∷ [];
  body = error_body e.code e.message;
}

-- `sendJSON`
unfoldable pub send_json : {A : Type 0} → ℕ → A → Response A
send_json status a = record {
  status = status;
  headers = ("Content-Type", "application/json") ∷ [];
  body = json a;
}

-- The response to the outcome of an action.
abbrev pub respond : {W A : Type 0} → Act W A → W → Response A × W
respond act w =
    let (o, w') = act w in (elim o [ reject e ↦ send_error e | accept a ↦ send_json 200 a ], w')

-- How a part of an action has ended, with the equation.
pub Outcome-cases :
    {W A : Type 0} (r : Outcome A × W)
    → ((a : A) × (w : W) × (r ≡ (accept a, w)))
      ⊎ ((e : ServiceError) × (w : W) × (r ≡ (reject e, w)))
Outcome-cases (accept a, w) = inl (a, w, refl)
Outcome-cases (reject e, w) = inr (e, w, refl)
