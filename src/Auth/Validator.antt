-- ===== src/Auth/Validator.antt =====
-- internal/auth/validator.go: what makes an access token acceptable.
pub mod Soundness
pub mod Lifetime
pub mod Rotations
pub mod Straddled
use session_service.Common.{
  String, Bool, true, false, not, ◌||◌, Option, none, some, List, [], ◌∷◌, Result, ok, err, failure,
  context, ◌>>=◌, ◌==◌, if◌then◌else◌,
}
use session_service.Common.Dict.{lookup}
use session_service.Common.Int.{ltb_ℤ}
use session_service.Common.Time.{Time, unix}
use session_service.Services.{Claims, Claim, str, num, strs, other, Header, Token, Jwt, System}
use session_service.Cache.{Cache}
use session_service.Auth.Keys.{KeyManager, get_public_key_by_id}
use Prim.Native.String

pub record TokenValidator : Type 0 where
  pub issuer : String
  pub audience : String

-- A comma-ok assertion of a claim to `string`.
abbrev pub as_string : Option Claim → Option String
as_string (some (str s)) = some s
as_string _ = none

abbrev pub is_string : String → Option Claim → Bool
is_string expected c = elim (as_string c) [ none ↦ false | some s ↦ s == expected ]

-- The key for the `kid` of the header, which must be a string and not empty.
abbrev pub key_of_kid :
    {PrivateKey PublicKey : Type 0}
    → KeyManager PrivateKey PublicKey
    → Time
    → Option String
    → Result PublicKey
key_of_kid km now none = err (failure "missing kid in token header")
key_of_kid km now (some kid) =
    if kid == ""
    then err (failure "missing kid in token header")
    else context (String.◌++◌ "failed to get public key for kid " kid)
        (get_public_key_by_id km kid now)

-- The key function that `ValidateToken` gives to `jwt.Parse`.
unfoldable pub key_function :
    {PrivateKey PublicKey : Type 0}
    → KeyManager PrivateKey PublicKey
    → Time
    → Header
    → Result PublicKey
key_function km now header =
    if not header.is_rsa
    then err (failure (String.◌++◌ "unexpected signing method: " header.alg))
    else key_of_kid km now (as_string header.kid)

-- The `exp` claim, if it is a number, lies before the instant.
abbrev pub has_expired : Time → Option Claim → Bool
has_expired now (some (num e)) = ltb_ℤ e (unix now)
has_expired now _ = false

-- The test of the revocation list, which a token with no `jti` passes.
abbrev check_revoked :
    {Server : Type 0} → Cache Server → Server → Claims → Option String → Result Claims
check_revoked cache server claims none = ok claims
check_revoked cache server claims (some jti) =
    if jti == ""
    then ok claims
    else elim (context "failed to check token revocation" (cache.is_token_revoked jti server)) [
      | err e ↦ err e
      | ok revoked ↦ if revoked then err (failure "token has been revoked") else ok claims
    ]

-- The tests on the claims of a parsed token, in the order of the code.
unfoldable pub check_claims :
    {Server : Type 0} → TokenValidator → Cache Server → Server → Time → Claims → Result Claims
check_claims tv cache server now claims =
    if not (is_string tv.issuer (lookup "iss" claims))
    then err (failure "invalid issuer")
    else if not (is_string tv.audience (lookup "aud" claims))
    then err (failure "invalid audience")
    else if has_expired now (lookup "exp" claims)
    then err (failure "token has expired")
    else check_revoked cache server claims (as_string (lookup "jti" claims))

abbrev check_parsed :
    {Server : Type 0} → TokenValidator → Cache Server → Server → Time → Token → Result Claims
check_parsed tv cache server now token =
    if not token.valid then err (failure "token is not valid") else elim token.claims [
      | none ↦ err (failure "invalid token claims")
      | some claims ↦ check_claims tv cache server now claims
    ]

module _ {PrivateKey PublicKey Server : Type 0} where
  -- `ValidateToken` at the three times that the library, the key manager and the expiry test read.
  unfoldable pub validate_at :
      Jwt PrivateKey PublicKey
      → TokenValidator
      → Cache Server
      → KeyManager PrivateKey PublicKey
      → Time
      → Time
      → Time
      → String
      → Server
      → Result Claims
  unfolding key_function check_claims
  validate_at jwt tv cache km parse_time key_time check_time token_string server =
      elim (context "failed to parse token"
        (jwt.parse ("RS256" ∷ []) parse_time token_string (key_function km key_time))) [
          | err e ↦ err e
          | ok token ↦ check_parsed tv cache server check_time token
        ]

  -- `ValidateToken`
  unfoldable pub validate_token :
      {State : Type 0} (sys : System PrivateKey State)
      → Jwt PrivateKey PublicKey
      → TokenValidator
      → Cache Server
      → KeyManager PrivateKey PublicKey
      → String
      → Server
      → State
      → Result Claims × State
  unfolding validate_at
  validate_token sys jwt tv cache km token_string server s =
      let (parse_time, s₁) = sys.now s in
      let (key_time, s₂) = sys.now s₁ in
      let (check_time, s₃) = sys.now s₂ in
      (validate_at jwt tv cache km parse_time key_time check_time token_string server, s₃)
