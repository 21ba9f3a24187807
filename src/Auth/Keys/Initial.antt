-- ===== src/Auth/Keys/Initial.antt =====
-- internal/auth/jwks.go: the keys that the service starts with.
use session_service.Common.{
  String, ◌≡◌, ◌≢◌, refl, some, [], ◌∷◌, ok, arith, Result-cases, inl, inr, eq_iff, eq_refl, ap,
  ◌∙◌,
}
use session_service.Common.Time.{Time}
use session_service.Services.{Crypto, System}
use session_service.Auth.Keys.{
  KeyManager, fresh_key, parse_rsa_private_key, parse_rsa_public_key, get_private_key,
  get_public_key_by_id, new_key_manager,
}
use session_service.Auth.Keys.Rotation.{IsValid}
use session_service.Auth.Keys.Evolution.{IsSound}

module _ {PrivateKey PublicKey State : Type 0} (c : Crypto PrivateKey PublicKey)
    (sys : System PrivateKey State) where
  -- The key manager holds one key, made of the two that the texts encode, under the id drawn.
  pub record Initial (private_pem public_pem : String) (s : State)
      (km : KeyManager PrivateKey PublicKey) : Type 0 where
    pub private_key : PrivateKey
    pub public_key : PublicKey
    pub created_at : Time
    pub private_parsed : parse_rsa_private_key c private_pem ≡ ok private_key
    pub public_parsed : parse_rsa_public_key c public_pem ≡ ok public_key
    pub same : km ≡ record {
      keys =
          ((sys.new_uuid s).0, fresh_key private_key public_key (sys.new_uuid s).0 created_at) ∷ [];
      current_key_id = (sys.new_uuid s).0;
    }

  -- A key manager that is made holds the configured pair alone.
  pub new_key_manager-Initial :
      (private_pem public_pem : String) (s : State) (km : KeyManager PrivateKey PublicKey)
      → (new_key_manager c sys private_pem public_pem s).0 ≡ ok km
      → Initial private_pem public_pem s km
  unfolding new_key_manager
  new_key_manager-Initial private_pem public_pem s km e =
      elim (Result-cases (parse_rsa_private_key c private_pem)) [
        | inr (_, failed) ↦ absurd (ground arith)
        | inl (k, parsed) ↦ elim (Result-cases (parse_rsa_public_key c public_pem)) [
          | inr (_, failed) ↦ absurd (ground arith)
          | inl (p, parsed') ↦ record {
            private_key = k;
            public_key = p;
            created_at = (sys.now (sys.new_uuid s).1).0;
            private_parsed = parsed;
            public_parsed = parsed';
            same = ground arith;
          }
        ]
      ]

-- A key manager with one key.
abbrev one_key :
    {PrivateKey PublicKey : Type 0}
    → PrivateKey
    → PublicKey
    → String
    → Time
    → KeyManager PrivateKey PublicKey
one_key k p id now = record { keys = (id, fresh_key k p id now) ∷ []; current_key_id = id }

get_private_key-one_key :
    {PrivateKey PublicKey : Type 0} (k : PrivateKey) (p : PublicKey) (id : String) (now : Time)
    → get_private_key (one_key k p id now) ≡ some k
unfolding get_private_key
get_private_key-one_key k p id now = ground (arith, eq_refl id)

get_public_key_by_id-one_key :
    {PrivateKey PublicKey : Type 0} (k : PrivateKey) (p : PublicKey) (id : String)
    (created_at now : Time)
    → get_public_key_by_id (one_key k p id created_at) id now ≡ ok p
unfolding get_public_key_by_id
get_public_key_by_id-one_key k p id created_at now = ground (arith, eq_refl id)

one_key-IsValid :
    {PrivateKey PublicKey : Type 0} (k : PrivateKey) (p : PublicKey) (id : String) (now : Time)
    → IsValid (one_key k p id now)
one_key-IsValid k p id now = record {
  unique = (refl, tt);
  entries = λ j kp e. ground (arith, eq_iff id j);
  current = fresh_key k p id now;
  found = ground (arith, eq_refl id);
  lasting = refl;
}

module _ {PrivateKey PublicKey State : Type 0} (c : Crypto PrivateKey PublicKey)
    (sys : System PrivateKey State) where
  pub Initial-IsValid :
      (private_pem public_pem : String) (s : State) (km : KeyManager PrivateKey PublicKey)
      → Initial c sys private_pem public_pem s km
      → IsValid km
  Initial-IsValid private_pem public_pem s km i =
      rw i.same (one_key-IsValid i.private_key i.public_key (sys.new_uuid s).0 i.created_at)

  -- The first keys sign with the configured private key and verify with the configured public key.
  pub Initial-lookups :
      (private_pem public_pem : String) (s : State) (km : KeyManager PrivateKey PublicKey)
      (i : Initial c sys private_pem public_pem s km) (now : Time)
      → (km.current_key_id ≡ (sys.new_uuid s).0)
        × (get_private_key km ≡ some i.private_key)
        × (get_public_key_by_id km km.current_key_id now ≡ ok i.public_key)
  Initial-lookups private_pem public_pem s km i now =
      let k = i.private_key in
      let p = i.public_key in
      let id = (sys.new_uuid s).0 in
      (
        ap (λ (m : KeyManager PrivateKey PublicKey). m.current_key_id) i.same,
        ap get_private_key i.same ∙ get_private_key-one_key k p id i.created_at,
        ap (λ (m : KeyManager PrivateKey PublicKey). get_public_key_by_id m m.current_key_id now)
              i.same
            ∙ get_public_key_by_id-one_key k p id i.created_at now,
      )

  -- The first keys are sound, if the configured keys are a pair and the id that is drawn is not empty.
  pub Initial-IsSound :
      (public_of : PrivateKey → PublicKey) (private_pem public_pem : String) (s : State)
      (km : KeyManager PrivateKey PublicKey) (i : Initial c sys private_pem public_pem s km)
      → i.public_key ≡ public_of i.private_key
      → (sys.new_uuid s).0 ≢ ""
      → IsSound public_of km
  Initial-IsSound public_of private_pem public_pem s km i pair drawn = rw i.same (record {
    valid = one_key-IsValid i.private_key i.public_key (sys.new_uuid s).0 i.created_at;
    paired = λ j kp e. ground (arith, pair);
    named = drawn;
  })
