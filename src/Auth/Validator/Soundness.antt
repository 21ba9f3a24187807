-- ===== src/Auth/Validator/Soundness.antt =====
-- internal/auth/validator.go: what a token that passes has passed.
use session_service.Common.{
  String, ◌≡◌, ◌≢◌, true, false, Option, none, some, [], ◌∷◌, ok, arith, eq_iff, Result-cases,
  Option-cases, inl, inr,
}
use session_service.Common.Dict.{lookup}
use session_service.Common.Time.{Time}
use session_service.Services.{Claims, Claim, Header, Token, Jwt, str, num, strs, other}
use session_service.Services.Laws.{JwtLaws}
use session_service.Cache.{Cache}
use session_service.Auth.Keys.{KeyManager, get_public_key_by_id}
use session_service.Auth.Validator.{
  TokenValidator, as_string, is_string, has_expired, key_of_kid, key_function, check_claims,
  check_parsed, validate_at,
}

is_string-eq : (s : String) (c : Option Claim) → is_string s c ≡ true → c ≡ some (str s)
is_string-eq s none e = cc
is_string-eq s (some (str t)) e = ground (arith, eq_iff t s)
is_string-eq s (some (num _)) e = cc
is_string-eq s (some (strs _)) e = cc
is_string-eq s (some other) e = cc

module _ {Server : Type 0} (tv : TokenValidator) (cache : Cache Server) where
  -- What the tests on the claims establish.
  pub record Accepts (server : Server) (now : Time) (claims : Claims) : Type 0 where
    pub issuer : lookup "iss" claims ≡ some (str tv.issuer)
    pub audience : lookup "aud" claims ≡ some (str tv.audience)
    pub unexpired : has_expired now (lookup "exp" claims) ≡ false
    pub not_revoked :
        (jti : String)
        → jti ≢ ""
        → lookup "jti" claims ≡ some (str jti)
        → cache.is_token_revoked jti server ≡ ok false

  -- The claims that come back are those that went in, and they pass every test.
  check_claims_sound :
      (server : Server) (now : Time) (claims result : Claims)
      → check_claims tv cache server now claims ≡ ok result
      → (result ≡ claims) × Accepts server now claims
  unfolding check_claims
  check_claims_sound server now claims result e = (
    ground arith,
    record {
      issuer = is_string-eq tv.issuer _ (ground arith);
      audience = is_string-eq tv.audience _ (ground arith);
      unexpired = ground arith;
      not_revoked = λ jti ne found. ground (arith, eq_iff jti "");
    },
  )

  check_parsed-eq-ok :
      (server : Server) (now : Time) (t : Token) (claims : Claims)
      → check_parsed tv cache server now t ≡ ok claims
      → Accepts server now claims
  check_parsed-eq-ok server now t claims e = elim (Option-cases t.claims) [
    | inl missing ↦ absurd (ground arith)
    | inr (found, some_claims) ↦
        let (same, accepted) = check_claims_sound server now found claims (ground arith) in
        rw same accepted
  ]

module _ {PrivateKey PublicKey : Type 0} where
  key_of_kid_sound :
      (km : KeyManager PrivateKey PublicKey) (t : Time) (k : Option String) (key : PublicKey)
      → key_of_kid km t k ≡ ok key
      → (kid : String) × (kid ≢ "") × (get_public_key_by_id km kid t ≡ ok key)
  key_of_kid_sound km t none key e = cc
  key_of_kid_sound km t (some kid) key e = (kid, ground (arith, eq_iff kid ""), ground arith)

  key_function_sound :
      (km : KeyManager PrivateKey PublicKey) (t : Time) (header : Header) (key : PublicKey)
      → key_function km t header ≡ ok key
      → (kid : String) × (kid ≢ "") × (get_public_key_by_id km kid t ≡ ok key)
  unfolding key_function
  key_function_sound km t header key e =
      key_of_kid_sound km t (as_string header.kid) key (ground arith)

module _ {PrivateKey PublicKey Server : Type 0} where
  -- A run that accepts has parsed a token with claims, and they passed the tests.
  pub validate_at-eq-ok :
      (jwt : Jwt PrivateKey PublicKey) (tv : TokenValidator) (cache : Cache Server)
      (km : KeyManager PrivateKey PublicKey) (parse_time key_time check_time : Time)
      (token : String) (server : Server) (claims : Claims)
      → validate_at jwt tv cache km parse_time key_time check_time token server ≡ ok claims
      → (t : Token) × (jwt.parse ("RS256" ∷ []) parse_time token (key_function km key_time) ≡ ok t)
        × (check_parsed tv cache server check_time t ≡ ok claims)
  unfolding validate_at
  validate_at-eq-ok jwt tv cache km parse_time key_time check_time token server claims e =
      elim (Result-cases (jwt.parse ("RS256" ∷ []) parse_time token (key_function km key_time))) [
        | inr (_, failed) ↦ absurd (ground arith)
        | inl (t, parsed) ↦ (t, parsed, ground arith)
      ]

module _ {PrivateKey PublicKey Server : Type 0} (public_of : PrivateKey → PublicKey)
    (jwt : Jwt PrivateKey PublicKey) (laws : JwtLaws public_of jwt) where
  -- What is behind a token that `ValidateToken` accepts with these claims: an RSA header with a
  -- non-empty `kid`, under which the key manager holds a live key that verifies the signature, and
  -- claims that pass every test.
  pub record IsGenuine (tv : TokenValidator) (cache : Cache Server)
      (km : KeyManager PrivateKey PublicKey) (key_time check_time : Time) (token : String)
      (server : Server) (claims : Claims) : Type 0 where
    pub kid : String
    pub named : kid ≢ ""
    pub key : PublicKey
    pub known : get_public_key_by_id km kid key_time ≡ ok key
    pub signed : laws.Signed key token
    pub accepted : Accepts tv cache server check_time claims

  -- A token that `ValidateToken` accepts is genuine: signed by a key that the key manager holds and
  -- that is active and unexpired, with the validator's issuer and audience, not expired, and, if it
  -- has an id, found not to be revoked. The claims returned are those of the token.
  pub validate_at-IsGenuine :
      (tv : TokenValidator) (cache : Cache Server) (km : KeyManager PrivateKey PublicKey)
      (parse_time key_time check_time : Time) (token : String) (server : Server) (claims : Claims)
      → validate_at jwt tv cache km parse_time key_time check_time token server ≡ ok claims
      → IsGenuine tv cache km key_time check_time token server claims
  validate_at-IsGenuine tv cache km parse_time key_time check_time token server claims e =
      let (t, parsed, checked) =
        validate_at-eq-ok jwt tv cache km parse_time key_time check_time token server claims e in
      let (key, chosen, signed) =
        laws.parse_sound ("RS256" ∷ []) parse_time token (key_function km key_time) t parsed in
      let (kid, named, known) = key_function_sound km key_time t.header key chosen in
      record {
        kid = kid;
        named = named;
        key = key;
        known = known;
        signed = signed;
        accepted = check_parsed-eq-ok tv cache server check_time t claims checked;
      }
