-- ===== src/Auth/Validator/Rotations.antt =====
-- internal/auth: the life of an access token while the keys are rotated and cleaned up.
use session_service.Common.{String, ◌≡◌, ◌<◌, ◌≤◌, true, false, ok, arith}
use session_service.Common.Int.{ltb_ℤ, ◌≤ℤ◌}
use session_service.Common.Time.{Time, Duration, unix, add}
use session_service.Services.{Jwt, System}
use session_service.Services.Laws.{JwtLaws}
use session_service.Models.{TokenSubject}
use session_service.Cache.{Cache}
use session_service.Auth.Keys.{KeyManager}
use session_service.Auth.Keys.Evolution.{Evolution, IsSound}
use session_service.Auth.Keys.Evolution.Lasting.{
  get_public_key_by_id-Evolution, get_private_key-IsValid,
}
use session_service.Auth.Generator.{TokenGenerator, access_claims, generate_access_token}
use session_service.Auth.Validator.{validate_at}
use session_service.Auth.Validator.Lifetime.{
  validator_of, IsUnrevoked, unix-lt, validate_at-generate_access_token,
}

-- The grace period reaches as far as the life of what is minted.
pub expiry-le-grace :
    (minted : Time) (expiry grace : Duration)
    → expiry ≤ℤ grace
    → add minted expiry ≤ add minted grace
expiry-le-grace minted expiry grace short = omega arith

module _ {PrivateKey PublicKey Server State : Type 0} (public_of : PrivateKey → PublicKey)
    (jwt : Jwt PrivateKey PublicKey) (laws : JwtLaws public_of jwt) (sys : System PrivateKey State)
    (tg : TokenGenerator) (cache : Cache Server) (grace : Duration) where
  -- Whatever rotations and cleanups there are between signing and validation, a token that has not
  -- expired and whose id is not revoked validates with the claims of its subject, if the keys that
  -- signed it were well-formed pairs, tokens live no longer than the grace period, and new keys have
  -- new ids.
  pub validate_at-Evolution :
      (subject : TokenSubject) (km km' : KeyManager PrivateKey PublicKey)
      (sound : IsSound public_of km) (s s' : State) (token jti : String)
      (until parse_time key_time check_time : Time) (server : Server)
      → generate_access_token sys jwt tg subject km s ≡ (ok (token, jti), s')
      → Evolution public_of grace (sys.now s).0 until km km'
      → tg.access_token_expiry ≤ℤ grace
      → until ≤ key_time
      → ltb_ℤ (unix parse_time) (unix (add (sys.now s).0 tg.access_token_expiry)) ≡ true
      → ltb_ℤ (unix key_time) (unix (add (sys.now s).0 tg.access_token_expiry)) ≡ true
      → ltb_ℤ (unix (add (sys.now s).0 tg.access_token_expiry)) (unix check_time) ≡ false
      → IsUnrevoked cache server jti
      → validate_at jwt (validator_of tg) cache km' parse_time key_time check_time token server
        ≡ ok (access_claims tg subject (sys.now s).0 jti)
  validate_at-Evolution subject km km' sound s s' token jti until parse_time key_time check_time
        server e evolution short up_to live key_live unexpired unrevoked =
      let minted : Time = (sys.now s).0 in
      let deadline : Time = add minted tg.access_token_expiry in
      let in_time : key_time < deadline = unix-lt key_time deadline key_live in
      validate_at-generate_access_token public_of jwt laws sys tg cache subject km km'
        sound.valid.current.private_key s s' token jti parse_time key_time check_time server e
        (get_private_key-IsValid km sound.valid) sound.named
        (get_public_key_by_id-Evolution public_of grace minted until deadline sound key_time
          evolution (expiry-le-grace minted tg.access_token_expiry grace short)
          (omega (arith, in_time)) in_time)
        live unexpired unrevoked
