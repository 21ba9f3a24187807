-- ===== src/Auth/Validator/Lifetime.antt =====
-- internal/auth: what the generator issues, the validator accepts, for as long as it should.
use session_service.Common.{
  String, ◌≡◌, ◌≢◌, ◌<◌, ◌≤◌, true, false, some, ok, arith, eq_iff, eq_refl, Result-cases, inl, inr,
  refl,
}
use session_service.Common.Int.{ltb_ℤ, ◌≤ℤ◌}
use session_service.Common.Time.{Time, Duration, unix, add}
use session_service.Services.{Jwt, System}
use session_service.Services.Laws.{JwtLaws, rs256, kid_claim, IsLive}
use session_service.Models.{TokenSubject}
use session_service.Cache.{Cache}
use session_service.Auth.Keys.{
  KeyManager, install, get_private_key, get_public_key_by_id, get_current_key_id,
}
use session_service.Auth.Keys.Rotation.{IsValid}
use session_service.Auth.Keys.Lookup.{get_public_key_by_id-install}
use session_service.Auth.Generator.{
  TokenGenerator, access_claims, generate_access_token, kid_header,
}
use session_service.Auth.Validator.{TokenValidator, key_function, check_claims, validate_at}

-- The validator that main.go builds beside a generator.
abbrev pub validator_of : TokenGenerator → TokenValidator
validator_of tg = record { issuer = tg.issuer; audience = tg.audience }

-- The token's id is not on the revocation list; an empty id is not looked up.
abbrev pub IsUnrevoked : {Server : Type 0} → Cache Server → Server → String → Type 0
IsUnrevoked cache server jti = jti ≢ "" → cache.is_token_revoked jti server ≡ ok false

pub unix-lt : (t u : Time) → ltb_ℤ (unix t) (unix u) ≡ true → t < u
unix-lt t u h = ground arith

pub add_mono : (t u v : Time) (d e : Duration) → u ≤ v → d ≤ℤ e → t < add u d → t < add v e
add_mono t u v d e h k l = omega arith

module _ {Server : Type 0} (tg : TokenGenerator) (cache : Cache Server) where
  check_claims-access_claims :
      (subject : TokenSubject) (minted now : Time) (jti : String) (server : Server)
      → ltb_ℤ (unix (add minted tg.access_token_expiry)) (unix now) ≡ false
      → IsUnrevoked cache server jti
      → check_claims (validator_of tg) cache server now (access_claims tg subject minted jti)
        ≡ ok (access_claims tg subject minted jti)
  unfolding check_claims access_claims
  check_claims-access_claims subject minted now jti server live unrevoked =
      ground (arith, eq_refl tg.issuer, eq_refl tg.audience, eq_iff jti "")

  access_claims-IsLive :
      (subject : TokenSubject) (minted now : Time) (jti : String)
      → ltb_ℤ (unix now) (unix (add minted tg.access_token_expiry)) ≡ true
      → IsLive now (access_claims tg subject minted jti)
  unfolding access_claims
  access_claims-IsLive subject minted now jti h = (_, refl, h)

module _ {PrivateKey PublicKey : Type 0} where
  pub key_function-kid_header :
      (km km' : KeyManager PrivateKey PublicKey) (t : Time) (p : PublicKey)
      → km.current_key_id ≢ ""
      → get_public_key_by_id km' km.current_key_id t ≡ ok p
      → key_function km' t (rs256 (kid_claim (kid_header km))) ≡ ok p
  unfolding key_function get_current_key_id
  key_function-kid_header km km' t p named known = ground (arith, eq_iff km.current_key_id "")

module _ {PrivateKey PublicKey Server State : Type 0} (public_of : PrivateKey → PublicKey)
    (jwt : Jwt PrivateKey PublicKey) (laws : JwtLaws public_of jwt) (sys : System PrivateKey State)
    (tg : TokenGenerator) (cache : Cache Server) where
  generated :
      (subject : TokenSubject) (km : KeyManager PrivateKey PublicKey) (s : State)
      {token jti : String} {s' : State}
      → generate_access_token sys jwt tg subject km s ≡ (ok (token, jti), s')
      → (jti ≡ (sys.new_uuid (sys.now s).1).0)
        × (jwt.signed_string
              (kid_header km)
              (access_claims tg subject (sys.now s).0 jti)
              (get_private_key km)
            ≡ ok token)
  unfolding generate_access_token
  generated subject km s {token} {jti} e =
      elim (Result-cases (
        jwt.signed_string (kid_header km)
          (access_claims tg subject (sys.now s).0 (sys.new_uuid (sys.now s).1).0)
          (get_private_key km))) [
            | inr (_, failed) ↦ absurd (ground arith)
            | inl (t, signed) ↦ ground arith
          ]

  -- A token that the generator signs passes the validator, and comes back with the claims of its
  -- subject, if the key manager of that moment still has the signing key under its id, the token
  -- has not expired, and its id is not revoked.
  pub validate_at-generate_access_token :
      (subject : TokenSubject) (km km' : KeyManager PrivateKey PublicKey) (k : PrivateKey)
      (s s' : State) (token jti : String) (parse_time key_time check_time : Time) (server : Server)
      → generate_access_token sys jwt tg subject km s ≡ (ok (token, jti), s')
      → get_private_key km ≡ some k
      → km.current_key_id ≢ ""
      → get_public_key_by_id km' km.current_key_id key_time ≡ ok (public_of k)
      → ltb_ℤ (unix parse_time) (unix (add (sys.now s).0 tg.access_token_expiry)) ≡ true
      → ltb_ℤ (unix (add (sys.now s).0 tg.access_token_expiry)) (unix check_time) ≡ false
      → IsUnrevoked cache server jti
      → validate_at jwt (validator_of tg) cache km' parse_time key_time check_time token server
        ≡ ok (access_claims tg subject (sys.now s).0 jti)
  unfolding validate_at
  validate_at-generate_access_token subject km km' k s s' token jti parse_time key_time check_time
        server e private named known live unexpired unrevoked =
      let (_, signed) = generated subject km s e in
      let minted : Time = (sys.now s).0 in
      rw
        (
          laws.parse_signed (kid_header km) (access_claims tg subject minted jti) k token parse_time
              (key_function km' key_time) (rw private at signed)
              (key_function-kid_header km km' key_time (public_of k) named known)
              (access_claims-IsLive tg cache subject minted parse_time jti live),
          validate_at,
        )
        (check_claims-access_claims tg cache subject minted check_time jti server unexpired
          unrevoked)

  -- A rotation does not cut short the life of the tokens signed before it: while such a token has
  -- not expired, the validator accepts it under the keys after the rotation too, if tokens live no
  -- longer than the grace period.
  pub validate_at-install :
      (subject : TokenSubject) (km : KeyManager PrivateKey PublicKey) (v : IsValid km)
      (k new_private : PrivateKey) (new_public : PublicKey) (id : String) (rotated : Time)
      (grace : Duration) (s s' : State) (token jti : String) (parse_time key_time check_time : Time)
      (server : Server)
      → generate_access_token sys jwt tg subject km s ≡ (ok (token, jti), s')
      → get_private_key km ≡ some k
      → v.current.public_key ≡ public_of k
      → km.current_key_id ≢ ""
      → id ≢ km.current_key_id
      → (sys.now s).0 ≤ rotated
      → tg.access_token_expiry ≤ℤ grace
      → ltb_ℤ (unix parse_time) (unix (add (sys.now s).0 tg.access_token_expiry)) ≡ true
      → ltb_ℤ (unix key_time) (unix (add (sys.now s).0 tg.access_token_expiry)) ≡ true
      → ltb_ℤ (unix (add (sys.now s).0 tg.access_token_expiry)) (unix check_time) ≡ false
      → IsUnrevoked cache server jti
      → validate_at jwt
          (validator_of tg)
          cache
          (install new_private new_public id rotated grace km)
          parse_time
          key_time
          check_time
          token
          server
        ≡ ok (access_claims tg subject (sys.now s).0 jti)
  validate_at-install subject km v k new_private new_public id rotated grace s s' token jti
        parse_time key_time check_time server e private same named other_id later short live
        key_live unexpired unrevoked =
      let minted : Time = (sys.now s).0 in
      let alive : key_time < add minted tg.access_token_expiry =
        unix-lt key_time (add minted tg.access_token_expiry) key_live in
      let in_grace : key_time < add rotated grace =
        add_mono key_time minted rotated tg.access_token_expiry grace later short alive in
      validate_at-generate_access_token subject km
        (install new_private new_public id rotated grace km) k s s' token jti parse_time key_time
        check_time server e private named
        (rw
          (get_public_key_by_id-install new_private new_public id rotated grace km v
            km.current_key_id key_time other_id (omega (arith, in_grace)))
          (ground (arith, eq_refl km.current_key_id, same, in_grace)))
        live unexpired unrevoked
