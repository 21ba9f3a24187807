-- ===== src/Handlers/Verify/Tenant.antt =====
-- internal/handlers/verify.go: the tenants in which a token is valid.
use session_service.Common.{
  String, ◌≡◌, ◌≢◌, refl, true, false, some, ok, arith, ◌==◌, if◌then◌else◌,
}
use session_service.Common.Dict.{lookup}
use session_service.Common.Int.{ltb_ℤ}
use session_service.Common.Time.{Time, unix, add}
use session_service.Models.{TokenSubject, VerifyResponse}
use session_service.Services.{Claims}
use session_service.Services.Laws.{JwtLaws}
use session_service.Http.{Response}
use session_service.Auth.Keys.{KeyManager, get_private_key, get_public_key_by_id}
use session_service.Auth.Generator.{TokenGenerator, access_claims, generate_access_token}
use session_service.Auth.Validator.{as_string, validate_token}
use session_service.Auth.Validator.Lifetime.{
  validator_of, IsUnrevoked, validate_at-generate_access_token,
}
use session_service.Handlers.Action.{World, Backend, send_json}
use session_service.Handlers.Verify.{check_token, refusal}

-- The response says that the token is valid, with these claims.
abbrev pub IsValidWith : Claims → Response VerifyResponse → Type 0
IsValidWith claims r =
    r ≡ send_json 200 (record { valid = true; claims = some claims; message = "" })

-- The `tid` of an access token is the tenant of its subject.
tid-access_claims :
    (tg : TokenGenerator) (subject : TokenSubject) (now : Time) (jti : String)
    → as_string (lookup "tid" (access_claims tg subject now jti)) ≡ some subject.tenant_id
unfolding access_claims
tid-access_claims tg subject now jti = refl

module _ {Server Database State PrivateKey PublicKey : Type 0}
    (b : Backend Server Database State PrivateKey PublicKey) where
  abbrev W : Type 0
  W = World Server Database State PrivateKey PublicKey

  -- The reading of the clock in a state, and the state after it.
  abbrev pub time_of : State → Time
  time_of s = (b.system.now s).0

  abbrev pub tick : State → State
  tick s = (b.system.now s).1

  module _ (public_of : PrivateKey → PublicKey) (laws : JwtLaws public_of b.jwt) where
    -- From issue to verification: an access token that the generator signed for a subject is valid,
    -- with its claims, in the tenant of the subject, and in every other tenant it is refused, while
    -- the key that signed it is held, it has not expired, and its id is not revoked.
    pub check_token-generate_access_token :
        (tg : TokenGenerator) (subject : TokenSubject) (km : KeyManager PrivateKey PublicKey)
        (k : PrivateKey) (s s' : State) (token jti tenant : String) (w : W)
        → generate_access_token b.system b.jwt tg subject km s ≡ (ok (token, jti), s')
        → get_private_key km ≡ some k
        → km.current_key_id ≢ ""
        → get_public_key_by_id w.keys km.current_key_id (time_of (tick w.sys)) ≡ ok (public_of k)
        → ltb_ℤ (unix (time_of w.sys)) (unix (add (time_of s) tg.access_token_expiry)) ≡ true
        → ltb_ℤ (unix (add (time_of s) tg.access_token_expiry)) (unix (time_of (tick (tick w.sys))))
          ≡ false
        → IsUnrevoked b.cache w.server jti
        → (check_token b (validator_of tg) tenant token w).0 ≡ (
            if subject.tenant_id == tenant
            then send_json 200 (record {
              valid = true;
              claims = some (access_claims tg subject (time_of s) jti);
              message = "";
            })
            else refusal "tenant_id in path does not match token tenant_id")
    unfolding check_token validate_token
    check_token-generate_access_token tg subject km k s s' token jti tenant w e private named known
          live unexpired unrevoked =
        ground (
          arith,
          validate_at-generate_access_token public_of b.jwt laws b.system tg b.cache subject km
              w.keys k s s' token jti (time_of w.sys) (time_of (tick w.sys))
              (time_of (tick (tick w.sys))) w.server e private named known live unexpired unrevoked,
          tid-access_claims tg subject (time_of s) jti,
        )
