-- ===== src/Auth/Validator/Straddled.antt =====
-- internal/auth: a rotation that falls between the two reads of the keys by GenerateAccessToken.
use session_service.Common.{
  String, ◌≡◌, ◌≢◌, ◌<◌, ◌≤◌, true, Option, some, List, [], ◌∷◌, ok, arith, ap, Result-cases, inl,
  inr,
}
use session_service.Common.Int.{ltb_ℤ, ◌≤ℤ◌}
use session_service.Common.Time.{Time, Duration, unix, add}
use session_service.Services.{Jwt, System, Header, Token, Claims}
use session_service.Services.Laws.{JwtLaws, rs256, kid_claim}
use session_service.Models.{TokenSubject}
use session_service.Cache.{Cache}
use session_service.Common.{Result}
use session_service.Auth.Keys.{KeyManager, install, get_private_key, get_public_key_by_id}
use session_service.Auth.Keys.Evolution.{Evolution, IsSound}
use session_service.Auth.Keys.Evolution.Lasting.{
  get_public_key_by_id-Evolution, get_private_key-install,
}
use session_service.Auth.Generator.{TokenGenerator, access_claims, generate_between, kid_header}
use session_service.Auth.Validator.{TokenValidator, validate_at, key_function}
use session_service.Auth.Validator.Soundness.{validate_at-eq-ok}
use session_service.Auth.Validator.Lifetime.{unix-lt, key_function-kid_header}
use session_service.Auth.Validator.Rotations.{expiry-le-grace}

-- What signatures promise: a signed text has the header that was signed, and verifies under the signer's
-- public key alone.
pub record SignatureLaws {PrivateKey PublicKey : Type 0} (public_of : PrivateKey → PublicKey)
    (j : Jwt PrivateKey PublicKey) (laws : JwtLaws public_of j) : Type 0 where
  pub header :
      (kid : Option String) (claims : Claims) (k : PrivateKey) (s : String) (methods : List String)
      (now : Time) (key : Header → Result PublicKey) (t : Token)
      → j.signed_string kid claims (some k) ≡ ok s
      → j.parse methods now s key ≡ ok t
      → t.header ≡ rs256 (kid_claim kid)
  pub signer :
      (kid : Option String) (claims : Claims) (k : PrivateKey) (s : String) (p : PublicKey)
      → j.signed_string kid claims (some k) ≡ ok s
      → laws.Signed p s
      → p ≡ public_of k

module _ {PrivateKey PublicKey State : Type 0} (jwt : Jwt PrivateKey PublicKey)
    (sys : System PrivateKey State) (tg : TokenGenerator) where
  signed_between :
      (subject : TokenSubject) (naming signing : KeyManager PrivateKey PublicKey) (s : State)
      {token jti : String} {s' : State}
      → generate_between sys jwt tg subject naming signing s ≡ (ok (token, jti), s')
      → jwt.signed_string
          (kid_header naming)
          (access_claims tg subject (sys.now s).0 jti)
          (get_private_key signing)
        ≡ ok token
  unfolding generate_between
  signed_between subject naming signing s {token} {jti} e =
      elim (Result-cases (
        jwt.signed_string (kid_header naming)
          (access_claims tg subject (sys.now s).0 (sys.new_uuid (sys.now s).1).0)
          (get_private_key signing))) [
            | inr (_, failed) ↦ absurd (ground arith)
            | inl (t, signed) ↦ ground arith
          ]

module _ {PrivateKey PublicKey Server : Type 0} (public_of : PrivateKey → PublicKey)
    (jwt : Jwt PrivateKey PublicKey) (laws : JwtLaws public_of jwt)
    (signatures : SignatureLaws public_of jwt laws) where
  -- A token whose header names one key and that another has signed is refused for as long as the named
  -- key verifies at all, whatever the validator's issuer and audience, the times and the revocations.
  mismatched :
      (naming signing km : KeyManager PrivateKey PublicKey) (claims : Claims) (k : PrivateKey)
      (p : PublicKey) (token : String) (parse_time key_time check_time : Time) (tv : TokenValidator)
      (cache : Cache Server) (server : Server) (shown : Claims)
      → jwt.signed_string (kid_header naming) claims (get_private_key signing) ≡ ok token
      → get_private_key signing ≡ some k
      → naming.current_key_id ≢ ""
      → get_public_key_by_id km naming.current_key_id key_time ≡ ok p
      → p ≢ public_of k
      → validate_at jwt tv cache km parse_time key_time check_time token server ≢ ok shown
  mismatched naming signing km claims k p token parse_time key_time check_time tv cache server shown
        signed private named known other passed =
      let signed' : jwt.signed_string (kid_header naming) claims (some k) ≡ ok token =
        rw private at signed in
      let (t, parsed, _) =
        validate_at-eq-ok jwt tv cache km parse_time key_time check_time token server shown
          passed in
      let (q, chosen, verifies) =
        laws.parse_sound ("RS256" ∷ []) parse_time token (key_function km key_time) t parsed in
      let header =
        signatures.header (kid_header naming) claims k token ("RS256" ∷ []) parse_time
          (key_function km key_time) t signed' parsed in
      let by_signer = signatures.signer (kid_header naming) claims k token q signed' verifies in
      let by_name = key_function-kid_header naming km key_time p named known in
      other (cc (chosen, ap (key_function km key_time) header, by_name, by_signer))

module _ {PrivateKey PublicKey Server State : Type 0} (public_of : PrivateKey → PublicKey)
    (jwt : Jwt PrivateKey PublicKey) (laws : JwtLaws public_of jwt)
    (signatures : SignatureLaws public_of jwt laws) (sys : System PrivateKey State)
    (tg : TokenGenerator) (grace : Duration) where
  -- If a rotation to a key of another pair falls between the reading of the key's id and that of the
  -- private key, the access token is refused from the start to the end of its life, whatever rotations
  -- and cleanups follow.
  pub validate_at-generate_between :
      (subject : TokenSubject) (km km' : KeyManager PrivateKey PublicKey)
      (sound : IsSound public_of km) (k : PrivateKey) (id : String) (rotated : Time) (s s' : State)
      (token jti : String) (until parse_time key_time check_time : Time) (tv : TokenValidator)
      (cache : Cache Server) (server : Server) (shown : Claims)
      → generate_between sys jwt tg subject km (install k (public_of k) id rotated grace km) s
        ≡ (ok (token, jti), s')
      → public_of sound.valid.current.private_key ≢ public_of k
      → Evolution public_of grace (sys.now s).0 until km km'
      → tg.access_token_expiry ≤ℤ grace
      → until ≤ key_time
      → ltb_ℤ (unix key_time) (unix (add (sys.now s).0 tg.access_token_expiry)) ≡ true
      → validate_at jwt tv cache km' parse_time key_time check_time token server ≢ ok shown
  validate_at-generate_between subject km km' sound k id rotated s s' token jti until parse_time
        key_time check_time tv cache server shown e other evolution short up_to key_live =
      let minted : Time = (sys.now s).0 in
      let deadline : Time = add minted tg.access_token_expiry in
      let in_time : key_time < deadline = unix-lt key_time deadline key_live in
      let after = install k (public_of k) id rotated grace km in
      mismatched public_of jwt laws signatures km after km' (access_claims tg subject minted jti) k
        (public_of sound.valid.current.private_key) token parse_time key_time check_time tv cache
        server shown (signed_between jwt sys tg subject km after s {s' = s'} e)
        (get_private_key-install k (public_of k) id rotated grace km) sound.named
        (get_public_key_by_id-Evolution public_of grace minted until deadline sound key_time
          evolution (expiry-le-grace minted tg.access_token_expiry grace short)
          (omega (arith, in_time)) in_time)
        other
