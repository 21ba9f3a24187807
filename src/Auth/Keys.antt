-- ===== src/Auth/Keys.antt =====
-- internal/auth/jwks.go: the key manager. The mutex makes each operation one step on its state; the
-- pointers of the map are held by no one else, so a write through one is a write to the map.
pub mod Rotation
pub mod Lookup
pub mod Schedule
pub mod Initial
pub mod Evolution
use session_service.Common.{
  String, Bool, true, false, not, ◌&&◌, ◌||◌, Option, none, some, List, [], ◌∷◌, Result, ok, err,
  failure, context, ◌>>=◌, ◌++◌, if◌then◌else◌,
}
use session_service.Common.Dict.{Dict, lookup, insert, keep}
use session_service.Common.Time.{Time, Duration, zero_time, is_zero, before, add}
use session_service.Services.{Crypto, System, ParsedKey, rsa, other_kind}
use Prim.Native.String

pub record KeyPair (PrivateKey PublicKey : Type 0) : Type 0 where
  pub key_id : String
  pub private_key : PrivateKey
  pub public_key : PublicKey
  pub created_at : Time
  pub expires_at : Time
  pub is_active : Bool

pub record KeyManager (PrivateKey PublicKey : Type 0) : Type 0 where
  pub keys : Dict (KeyPair PrivateKey PublicKey)
  pub current_key_id : String

-- One entry of the JWK set.
pub record Jwk (PublicKey : Type 0) : Type 0 where
  pub key : PublicKey
  pub kid : String
  pub alg : String
  pub use_for : String

-- `!kp.ExpiresAt.IsZero() && kp.ExpiresAt.Before(now)`
abbrev pub expired : {PrivateKey PublicKey : Type 0} → Time → KeyPair PrivateKey PublicKey → Bool
expired now kp = not (is_zero kp.expires_at) && before kp.expires_at now

-- An active key with no expiry.
abbrev pub fresh_key :
    {PrivateKey PublicKey : Type 0}
    → PrivateKey
    → PublicKey
    → String
    → Time
    → KeyPair PrivateKey PublicKey
fresh_key k p id now = record {
  key_id = id;
  private_key = k;
  public_key = p;
  created_at = now;
  expires_at = zero_time;
  is_active = true;
}

module _ {PrivateKey PublicKey : Type 0} (c : Crypto PrivateKey PublicKey) where
  rsa_private : ParsedKey PrivateKey → Result PrivateKey
  rsa_private (rsa k) = ok k
  rsa_private other_kind = err (failure "key is not an RSA private key")

  rsa_public : ParsedKey PublicKey → Result PublicKey
  rsa_public (rsa k) = ok k
  rsa_public other_kind = err (failure "key is not an RSA public key")

  -- `parseRSAPrivateKey`
  unfoldable pub parse_rsa_private_key : String → Result PrivateKey
  unfolding rsa_private
  parse_rsa_private_key pem_data = elim (c.pem_decode pem_data) [
    | none ↦ err (failure "failed to decode PEM block")
    | some bytes ↦ elim (c.parse_pkcs1_private_key bytes) [
      | ok key ↦ ok key
      | err _ ↦ c.parse_pkcs8_private_key bytes >>= rsa_private
    ]
  ]

  -- `parseRSAPublicKey`
  unfoldable pub parse_rsa_public_key : String → Result PublicKey
  unfolding rsa_public
  parse_rsa_public_key pem_data = elim (c.pem_decode pem_data) [
    | none ↦ err (failure "failed to decode PEM block")
    | some bytes ↦ elim (c.parse_pkix_public_key bytes) [
      | ok key ↦ rsa_public key
      | err _ ↦ c.parse_pkcs1_public_key bytes
    ]
  ]

-- `NewKeyManager`
unfoldable pub new_key_manager :
    {PrivateKey PublicKey State : Type 0} (c : Crypto PrivateKey PublicKey)
    (sys : System PrivateKey State)
    → String
    → String
    → State
    → Result (KeyManager PrivateKey PublicKey) × State
unfolding parse_rsa_private_key parse_rsa_public_key
new_key_manager c sys private_pem public_pem s =
    elim (context "failed to parse private key" (parse_rsa_private_key c private_pem)) [
      | err e ↦ (err e, s)
      | ok private_key ↦
          elim (context "failed to parse public key" (parse_rsa_public_key c public_pem)) [
            | err e ↦ (err e, s)
            | ok public_key ↦
                let (id, s₁) = sys.new_uuid s in
                let (now, s₂) = sys.now s₁ in
                (
                  ok (record {
                    keys = (id, fresh_key private_key public_key id now) ∷ [];
                    current_key_id = id;
                  }),
                  s₂,
                )
          ]
    ]

module _ {PrivateKey PublicKey : Type 0} where
  -- `GetPrivateKey`; `none` is the nil key
  unfoldable pub get_private_key : KeyManager PrivateKey PublicKey → Option PrivateKey
  get_private_key km = elim (lookup km.current_key_id km.keys) [
    | none ↦ none
    | some key ↦ if key.is_active then some key.private_key else none
  ]

  -- `GetCurrentKeyID`
  unfoldable pub get_current_key_id : KeyManager PrivateKey PublicKey → String
  get_current_key_id km = km.current_key_id

  -- `GetPublicKeyByID`, at the time that it reads
  unfoldable pub get_public_key_by_id :
      KeyManager PrivateKey PublicKey → String → Time → Result PublicKey
  get_public_key_by_id km key_id now = elim (lookup key_id km.keys) [
    | none ↦ err (failure (String.◌++◌ "key not found or inactive: " key_id))
    | some key ↦
        if not key.is_active
        then err (failure (String.◌++◌ "key not found or inactive: " key_id))
        else if expired now key
        then err (failure (String.◌++◌ "key expired: " key_id))
        else ok key.public_key
  ]

  -- the loop of `GetJWKSet`
  jwk_entries :
      (PublicKey → Bool) → Time → Dict (KeyPair PrivateKey PublicKey) → List (Jwk PublicKey)
  jwk_entries is_importable now [] = []
  jwk_entries is_importable now ((_, kp) ∷ rest) =
      let more = jwk_entries is_importable now rest in
      if not kp.is_active || expired now kp || not (is_importable kp.public_key)
      then more
      else (record { key = kp.public_key; kid = kp.key_id; alg = "RS256"; use_for = "sig" }) ∷ more

  -- `GetJWKSet`
  unfoldable pub get_jwk_set :
      (PublicKey → Bool) → KeyManager PrivateKey PublicKey → Time → List (Jwk PublicKey)
  unfolding jwk_entries
  get_jwk_set is_importable km now = jwk_entries is_importable now km.keys

  -- the previous current key expires after the grace period
  abbrev retire : Time → Duration → KeyPair PrivateKey PublicKey → KeyPair PrivateKey PublicKey
  retire now grace kp = record kp { expires_at = add now grace }

  abbrev retire_current :
      Time → Duration → KeyManager PrivateKey PublicKey → Dict (KeyPair PrivateKey PublicKey)
  retire_current now grace km = elim (lookup km.current_key_id km.keys) [
    | none ↦ km.keys
    | some current ↦ insert km.current_key_id (retire now grace current) km.keys
  ]

  abbrev pub install :
      PrivateKey
      → PublicKey
      → String
      → Time
      → Duration
      → KeyManager PrivateKey PublicKey
      → KeyManager PrivateKey PublicKey
  install k pub_key id now grace km = record {
    keys = insert id (fresh_key k pub_key id now) (retire_current now grace km);
    current_key_id = id;
  }

  -- `CleanupExpiredKeys`, at the time that it reads
  unfoldable pub cleanup_expired_keys :
      KeyManager PrivateKey PublicKey → Time → KeyManager PrivateKey PublicKey
  cleanup_expired_keys km now = record km { keys = keep (λ kp. not (expired now kp)) km.keys }

  -- `RotateKeys`
  unfoldable pub rotate_keys :
      {State : Type 0} (sys : System PrivateKey State) (public_of : PrivateKey → PublicKey)
      → Duration
      → KeyManager PrivateKey PublicKey
      → State
      → Result (Unit {0}) × KeyManager PrivateKey PublicKey × State
  rotate_keys sys public_of grace km s =
      let (generated, s₁) = sys.generate_key 2048 s in
      elim generated [
        | err e ↦ (context "failed to generate new RSA key" (err e), km, s₁)
        | ok k ↦
            let (id, s₂) = sys.new_uuid s₁ in
            let (now, s₃) = sys.now s₂ in (ok tt, install k (public_of k) id now grace km, s₃)
      ]
