-- ===== src/Handlers/Token/Race.antt =====
-- internal/handlers/token.go: requests to the token endpoint that run at the same time.
use session_service.Common.{
  ℕ, String, ◌≡◌, ◌≢◌, ◌<◌, refl, if_elim, true, ok, arith, inl, inr, eq_refl, ◌==◌, ◌*◌,
}
use session_service.Common.Dict.{Dict}
use session_service.Common.Int.{pos_part, pos}
use session_service.Common.Time.{minute}
use session_service.Models.{TokenResponse}
use session_service.Cache.Laws.{CacheLaws}
use session_service.Handlers.Action.{World, Backend, accept}
use session_service.Handlers.Process.{
  System, Steps, Keeps, Refused, Ensures, IsKeptBy, Steps-Ensures, Steps-Refused, Steps-Keeps, done,
}
use session_service.Handlers.Token.{TokenHandler}
use session_service.Handlers.Token.Refresh.{token_of}
use session_service.Handlers.Token.Steps.{refresh_process}
use session_service.Handlers.Token.Steps.Grants.{grant_process}
use session_service.Handlers.Token.Steps.GrantsKeep.{grant_process-Keeps}
use session_service.Handlers.Token.Steps.Keeps.{KeptByCalls}
use session_service.Http.{form_value}

module _ {Server Database State PrivateKey PublicKey : Type 0}
    (b : Backend Server Database State PrivateKey PublicKey) (h : TokenHandler) where
  abbrev W : Type 0
  W = World Server Database State PrivateKey PublicKey

  module _ (laws : CacheLaws b.cache) (positive : 0 < pos_part h.refresh_token_expiry) where
    IsUp-KeptByCalls : KeptByCalls b h laws.IsUp
    IsUp-KeptByCalls = record {
      limit = λ id client s. laws.check_rate_limit-IsUp id client.rate_limit (pos minute) s;
      remember = λ client s. laws.set_client-IsUp client (pos (15 * minute)) s;
      revoke = λ id s. laws.revoke-IsUp id h.refresh_token_expiry s;
      delete = λ id s. laws.delete-IsUp id s;
      store = λ id d s. laws.store-IsUp id d h.refresh_token_expiry s;
    }

    -- The cache server is up and has the token on its revocation list.
    record Retired (token : String) (s : Server) : Type 0 where
      up : laws.IsUp s
      revoked : b.cache.is_refresh_token_revoked token s ≡ ok true

    -- A change by another part of the program or by another program, of the database, the clock, the
    -- keys or the cache server: the server stays up, and no token is taken from its revocation list.
    pub record Background (w w' : W) : Type 0 where
      pub up : laws.IsUp w.server → laws.IsUp w'.server
      pub revoked :
          (token : String)
          → b.cache.is_refresh_token_revoked token w.server ≡ ok true
          → b.cache.is_refresh_token_revoked token w'.server ≡ ok true

    IsUp-IsKeptBy : IsKeptBy Background (λ w. laws.IsUp w.server)
    IsUp-IsKeptBy w w' change up = change.up up

    Retired-IsKeptBy : (token : String) → IsKeptBy Background (λ w. Retired token w.server)
    Retired-IsKeptBy token w w' change r = record {
      up = change.up r.up;
      revoked = change.revoked token r.revoked;
    }

    -- The requests that name the grant `refresh_token` are refreshes.
    grant_process-refresh :
        (form : Dict String) (tenant : String)
        → form_value form "grant_type" ≡ "refresh_token"
        → grant_process b h form tenant ≡ refresh_process b h form tenant
    grant_process-refresh form tenant refresh = rw refresh refl

    -- No call of a request takes a token from the revocation list.
    Retired-KeptByCalls : (token : String) → KeptByCalls b h (Retired token)
    Retired-KeptByCalls token =
        let ttl = h.refresh_token_expiry in
        let up = IsUp-KeptByCalls in
        record {
          limit = λ id client s r.
              let keeps =
                laws.check_rate_limit-KeepsTokens id client.rate_limit (pos minute) s r.up
                  (ground arith) in
              record {
                up = up.limit id client s r.up;
                revoked = rw (keeps.revoked token) r.revoked;
              };
          remember = λ client s r.
              let keeps =
                laws.set_client-KeepsTokens client (pos (15 * minute)) s r.up (ground arith) in
              record {
                up = up.remember client s r.up;
                revoked = rw (keeps.revoked token) r.revoked;
              };
          revoke = λ id s r. record {
            up = up.revoke id s r.up;
            revoked =
                rw (laws.revoked-revoke id ttl s token r.up positive)
                  (if_elim (λ a. a ≡ ok true) (id == token) refl r.revoked);
          };
          delete = λ id s r. record {
            up = up.delete id s r.up;
            revoked = rw (laws.revoked-delete id s token r.up) r.revoked;
          };
          store = λ id d s r. record {
            up = up.store id d s r.up;
            revoked = rw (laws.revoked-store id d ttl s token r.up positive) r.revoked;
          };
        }

    -- A refresh of a token on the revocation list stops at the check of that list.
    refresh_process-Refused :
        (token : String) (form : Dict String) (tenant : String)
        → token_of form ≡ token
        → Refused (λ w. Retired token w.server) (refresh_process b h form tenant)
    refresh_process-Refused token form tenant same _ _ _ _ = inr λ _ _ found _. inr λ _ _ _ _.
        inr λ w retired listed answer. inr λ _ _ _ passed.
          let revoked : b.cache.is_refresh_token_revoked (token_of form) w.server ≡ ok true =
            rw same retired.revoked in
          absurd (ground arith)

    -- At a server that is up, a refresh puts its token on the revocation list before it can end with
    -- tokens.
    refresh_process-Ensures :
        (form : Dict String) (tenant : String)
        → Ensures
            (λ w. laws.IsUp w.server)
            (λ w. Retired (token_of form) w.server)
            (refresh_process b h form tenant)
    refresh_process-Ensures form tenant _ _ _ _ = inr λ _ _ _ _. inr λ _ _ _ _. inr λ _ _ _ _.
        inr λ _ _ _ _. inr λ _ _ _ _. inr λ _ _ _ _. inr λ _ _ _ _. inr λ _ _ _ _. inr λ _ _ _ _.
          inr λ _ _ _ _. inr λ w up _ _. inl (record {
            up = laws.revoke-IsUp (token_of form) h.refresh_token_expiry w.server up;
            revoked =
                rw
                  (
                    laws.revoked-revoke (token_of form) h.refresh_token_expiry w.server
                        (token_of form) up positive,
                    eq_refl,
                  )
                  refl;
          })

    -- At a server that is up, whatever calls any number of token requests of all grants make in whatever
    -- order, and whatever else changes in between, as long as the server stays up and no token is taken
    -- from the revocation list: once a refresh has ended with tokens, a refresh of the same token that
    -- has not made a call by then never ends with tokens.
    pub refresh_process_once :
        (forms : ℕ → Dict String) (tenants : ℕ → String) (i j : ℕ) (s t u : System W TokenResponse)
        (response response' : TokenResponse)
        → ((l : ℕ) → s.requests l ≡ grant_process b h (forms l) (tenants l))
        → laws.IsUp s.shared.server
        → form_value (forms i) "grant_type" ≡ "refresh_token"
        → form_value (forms j) "grant_type" ≡ "refresh_token"
        → Steps Background s t
        → t.requests i ≡ done (accept response)
        → token_of (forms j) ≡ token_of (forms i)
        → t.requests j ≡ grant_process b h (forms j) (tenants j)
        → Steps Background t u
        → u.requests j ≢ done (accept response')
    refresh_process_once forms tenants i j s t u response response' starts up first second steps
          ended same waits steps' exchanged =
        let token = token_of (forms i) in
        let all_keep : (P : Server → Type 0)
            → KeptByCalls b h P
            → (l : ℕ) → Keeps (λ (w : W). P w.server) (s.requests l) =
          λ P kept l. rw (starts l) (grant_process-Keeps b h kept (forms l) (tenants l)) in
        let keeps = all_keep (Retired token) (Retired-KeptByCalls token) in
        elim (Steps-Ensures (λ w. laws.IsUp w.server) (λ w. Retired token w.server) i steps
          IsUp-IsKeptBy (Retired-IsKeptBy token) (all_keep laws.IsUp IsUp-KeptByCalls) keeps up
          (rw (starts i, grant_process-refresh (forms i) (tenants i) first)
            (refresh_process-Ensures (forms i) (tenants i)))) [
              | inr unfinished ↦ rw ended at unfinished
              | inl retired ↦ rw exchanged at (
                  Steps-Refused (λ w. Retired token w.server) j steps' (Retired-IsKeptBy token)
                    (Steps-Keeps (λ w. Retired token w.server) steps keeps) retired
                    (rw (waits, grant_process-refresh (forms j) (tenants j) second)
                      (refresh_process-Refused token (forms j) (tenants j) same)))
            ]
