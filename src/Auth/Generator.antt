-- ===== src/Auth/Generator.antt =====
-- internal/auth/token.go: access tokens and refresh tokens.
pub mod Base64
pub mod RefreshTokens
use session_service.Common.{
  ℕ, String, Bool, not, Option, none, some, List, [], ◌∷◌, ◌++◌, Result, ok, err, failure, context,
  ◌==◌, is_empty, Slice, elements, if◌then◌else◌,
}
use session_service.Common.Time.{Time, Duration, add, unix}
use session_service.Services.{Claims, Claim, str, num, strs, System, Jwt}
use session_service.Models.{TokenSubject}
use session_service.Auth.Keys.{KeyManager, get_private_key, get_current_key_id}
use Base64.{url_encode}

pub record TokenGenerator : Type 0 where
  pub issuer : String
  pub audience : String
  pub access_token_expiry : Duration
  -- the length of the slice that `make` allocates: a negative one panics there
  pub refresh_token_length : ℕ

-- `if len(values) > 0 { claims[name] = values }`
abbrev claim_unless_empty : String → Slice String → Claims
claim_unless_empty name values =
    if is_empty (elements values) then [] else (name, strs (elements values)) ∷ []

-- The claims of an access token; their names are distinct, so the order of the writes is no matter.
unfoldable pub access_claims : TokenGenerator → TokenSubject → Time → String → Claims
access_claims tg subject now jti =
    ("iss", str tg.issuer)
      ∷ ("aud", str tg.audience)
      ∷ ("exp", num (unix (add now tg.access_token_expiry)))
      ∷ ("iat", num (unix now))
      ∷ ("jti", str jti)
      ∷ ("sub", str subject.user_id)
      ∷ ("oid", str subject.user_id)
      ∷ ("tid", str subject.tenant_id)
      ∷ claim_unless_empty "roles" subject.roles
    ++ claim_unless_empty "scp" subject.scopes

-- The `kid` header: set unless it is empty.
abbrev pub kid_header :
    {PrivateKey PublicKey : Type 0} → KeyManager PrivateKey PublicKey → Option String
kid_header km = if get_current_key_id km == "" then none else some (get_current_key_id km)

module _ {PrivateKey PublicKey State : Type 0} (sys : System PrivateKey State) where
  -- `GenerateAccessToken`, where `GetCurrentKeyID` and `GetPrivateKey` find these keys, between which
  -- the mutex is free: the signed token and its id
  unfoldable pub generate_between :
      Jwt PrivateKey PublicKey
      → TokenGenerator
      → TokenSubject
      → KeyManager PrivateKey PublicKey
      → KeyManager PrivateKey PublicKey
      → State
      → Result (String × String) × State
  unfolding get_private_key get_current_key_id
  generate_between jwt tg subject naming signing s =
      let (now, s₁) = sys.now s in
      let (jti, s₂) = sys.new_uuid s₁ in
      (
        elim (context "failed to sign token" (
            jwt.signed_string (kid_header naming) (access_claims tg subject now jti)
              (get_private_key signing))) [ ok token ↦ ok (token, jti) | err e ↦ err e ],
        s₂,
      )

  -- `GenerateAccessToken`, where no rotation falls into it
  unfoldable pub generate_access_token :
      Jwt PrivateKey PublicKey
      → TokenGenerator
      → TokenSubject
      → KeyManager PrivateKey PublicKey
      → State
      → Result (String × String) × State
  unfolding generate_between get_private_key get_current_key_id
  generate_access_token jwt tg subject km s = generate_between jwt tg subject km km s

-- `GenerateRefreshToken`
unfoldable pub generate_refresh_token :
    {PrivateKey State : Type 0}
    → System PrivateKey State
    → TokenGenerator
    → State
    → Result String × State
generate_refresh_token sys tg s =
    let (read, s') = sys.random_bytes tg.refresh_token_length s in
    (
      elim (context "failed to generate refresh token" read) [
        | ok bytes ↦ ok (url_encode bytes)
        | err e ↦ err e
      ],
      s',
    )
