-- ===== src/Handlers/Token/Steps/Keeps.antt =====
-- internal/handlers/token.go: what every call of a refresh keeps, and of the issue of tokens.
use session_service.Common.{
  ◌*◌, String, ◌≡◌, refl, Option, none, some, arith, Result-cases, inl, inr,
}
use session_service.Common.Dict.{Dict}
use session_service.Common.Int.{pos}
use session_service.Common.Time.{minute}
use session_service.Errors.{ServiceError}
use session_service.Models.{Client, TokenSubject, RefreshTokenData, TokenResponse}
use session_service.Handlers.Action.{World, Backend, require, accept}
use session_service.Handlers.Process.{Process, Keeps, done}
use session_service.Handlers.Token.{TokenHandler, limit_rate, subject_for}
use session_service.Handlers.Token.Refresh.{token_of}
use session_service.Handlers.Token.Steps.{exchange_process, issue_process, refresh_process}

module _ {Server Database State PrivateKey PublicKey : Type 0}
    (b : Backend Server Database State PrivateKey PublicKey) (h : TokenHandler) where
  abbrev W : Type 0
  W = World Server Database State PrivateKey PublicKey

  -- The calls of the grants that change the cache server keep the property of it.
  pub record KeptByCalls (P : Server → Type 0) : Type 0 where
    pub limit :
        (id : String) (client : Client) (s : Server)
        → P s
        → P (b.cache.check_rate_limit id client.rate_limit (pos minute) s).1
    pub remember :
        (client : Client) (s : Server) → P s → P (b.cache.set_client client (pos (15 * minute)) s).1
    pub revoke :
        (id : String) (s : Server)
        → P s
        → P (b.cache.revoke_refresh_token id h.refresh_token_expiry s).1
    pub delete : (id : String) (s : Server) → P s → P (b.cache.delete_refresh_token id s).1
    pub store :
        (id : String) (d : RefreshTokenData) (s : Server)
        → P s
        → P (b.cache.store_refresh_token id d h.refresh_token_expiry s).1

  pub require-server :
      {A : Type 0} (found : Option A) (e : ServiceError) (w : W)
      → (require found e w).1.server ≡ w.server
  require-server none e w = refl
  require-server (some a) e w = refl

  pub subject_for-server :
      (tenant : String) (found : Option TokenSubject) (w : W)
      → (subject_for b h tenant found w).1.server ≡ w.server
  unfolding subject_for
  subject_for-server tenant none w = refl
  subject_for-server tenant (some s) w = refl

  pub limit_rate-server :
      (id : String) (client : Client) (w : W)
      → (limit_rate b h id client w).1.server
        ≡ (b.cache.check_rate_limit id client.rate_limit (pos minute) w.server).1
  unfolding limit_rate
  limit_rate-server id client w =
      elim (Result-cases (b.cache.check_rate_limit id client.rate_limit (pos minute) w.server).0) [
        | inl (_, _) ↦ ground arith
        | inr (_, _) ↦ ground arith
      ]

  module _ {P : Server → Type 0} (kept : KeptByCalls P) where
    pub issue_process-Keeps :
        (client_id : String) (subject : TokenSubject) (k : TokenResponse → Process W TokenResponse)
        → ((response : TokenResponse) → Keeps (λ w. P w.server) (k response))
        → Keeps (λ w. P w.server) (issue_process b h client_id subject k)
    issue_process-Keeps client_id subject k rest =
        let unchanged = λ (w : W) (p : P w.server). p in
        (
          unchanged,
          λ _. (
            unchanged,
            λ refresh. (unchanged, λ now. (λ w p. kept.store refresh _ w.server p, λ _. rest _)),
          ),
        )

    -- Once the checks are passed: the old token is retired and new ones are issued.
    exchange_process-Keeps :
        (old client_id : String) (client : Client) (subject : TokenSubject)
        → Keeps (λ w. P w.server) (exchange_process b h old client_id client subject)
    exchange_process-Keeps old client_id client subject = (
      λ w p. rw (limit_rate-server client_id client w) (kept.limit client_id client w.server p),
      λ _. (
        λ w p. kept.revoke old w.server p,
        λ _. (
          λ w p. kept.delete old w.server p,
          λ _. issue_process-Keeps client_id subject (λ response. done (accept response)) (λ _. tt),
        ),
      ),
    )

    -- No call of a refresh breaks the property.
    pub refresh_process-Keeps :
        (form : Dict String) (tenant : String)
        → Keeps (λ w. P w.server) (refresh_process b h form tenant)
    refresh_process-Keeps form tenant =
        let unchanged = λ (w : W) (p : P w.server). p in
        (
          unchanged,
          λ _. (
            unchanged,
            λ found. (
              λ w p. rw (require-server found _ w) p,
              λ stored_data. (
                unchanged,
                λ _. (
                  unchanged,
                  λ _. (
                    unchanged,
                    λ _. (
                      unchanged,
                      λ _. (
                        λ w p. rw (subject_for-server tenant stored_data.subject w) p,
                        λ subject. (
                          unchanged,
                          λ known. (
                            λ w p. rw (require-server known _ w) p,
                            λ client.
                                exchange_process-Keeps (token_of form) stored_data.client_id client
                                  subject,
                          ),
                        ),
                      ),
                    ),
                  ),
                ),
              ),
            ),
          ),
        )
