-- ===== src/Auth/Keys/Rotation.antt =====
-- internal/auth/jwks.go: what rotation and cleanup keep.
use session_service.Common.{
  String, ◌≡◌, ◌≢◌, refl, true, not, some, arith, eq_iff, ◌==◌, eq_refl, Option-cases, inl, inr,
  if◌then◌else◌, Result-cases,
}
use session_service.Common.Dict.{
  lookup, IsUnique, lookup-insert, insert-IsUnique, lookup-keep, keep-IsUnique,
}
use session_service.Common.Time.{Time, Duration}
use session_service.Services.{System}
use session_service.Auth.Keys.{
  KeyPair, KeyManager, expired, fresh_key, retire, retire_current, install, rotate_keys,
  cleanup_expired_keys,
}

module _ {PrivateKey PublicKey : Type 0} where
  -- An entry is stored under its own id and is active.
  abbrev pub IsEntry : String → KeyPair PrivateKey PublicKey → Type 0
  IsEntry id kp = (kp.key_id ≡ id) × (kp.is_active ≡ true)

  -- The map holds an id once, its entries are stored under their own ids and active, and the
  -- current id has an entry with no expiry.
  pub record IsValid (km : KeyManager PrivateKey PublicKey) : Type 0 where
    pub unique : IsUnique km.keys
    pub entries :
        (id : String) (kp : KeyPair PrivateKey PublicKey)
        → lookup id km.keys ≡ some kp
        → IsEntry id kp
    pub current : KeyPair PrivateKey PublicKey
    pub found : lookup km.current_key_id km.keys ≡ some current
    pub lasting : current.expires_at ≡ 0

  -- A lookup after a rotation: the new key, the retired one, or what was there.
  pub lookup-install :
      (k : PrivateKey) (p : PublicKey) (id : String) (now : Time) (grace : Duration)
      (km : KeyManager PrivateKey PublicKey) (v : IsValid km) (j : String)
      → id ≢ j
      → lookup j (install k p id now grace km).keys
        ≡ (if km.current_key_id == j then some (retire now grace v.current) else lookup j km.keys)
  lookup-install k p id now grace km v j ne = ground (
    arith,
    v.found,
    eq_iff id j,
    lookup-insert id j (fresh_key k p id now) (retire_current now grace km),
    lookup-insert km.current_key_id j (retire now grace v.current) km.keys,
  )

  install-entries :
      (k : PrivateKey) (p : PublicKey) (id : String) (now : Time) (grace : Duration)
      (km : KeyManager PrivateKey PublicKey)
      → IsValid km
      → (j : String) (kp : KeyPair PrivateKey PublicKey)
      → lookup j (install k p id now grace km).keys ≡ some kp
      → IsEntry j kp
  install-entries k p id now grace km v j kp e = ground (
    arith,
    v.found,
    eq_iff id j,
    eq_iff km.current_key_id j,
    v.entries j kp,
    v.entries km.current_key_id v.current,
    lookup-insert id j (fresh_key k p id now) (retire_current now grace km),
    lookup-insert km.current_key_id j (retire now grace v.current) km.keys,
  )

  retire_current-IsUnique :
      (now : Time) (grace : Duration) (km : KeyManager PrivateKey PublicKey)
      → IsUnique km.keys
      → IsUnique (retire_current now grace km)
  retire_current-IsUnique now grace km u = elim (Option-cases (lookup km.current_key_id km.keys)) [
    | inl e ↦ rw (e, retire_current) u
    | inr (kp, e) ↦
        rw (e, retire_current) (insert-IsUnique km.current_key_id (retire now grace kp) km.keys u)
  ]

  pub install-IsValid :
      (k : PrivateKey) (p : PublicKey) (id : String) (now : Time) (grace : Duration)
      (km : KeyManager PrivateKey PublicKey)
      → IsValid km
      → IsValid (install k p id now grace km)
  install-IsValid k p id now grace km v = record {
    unique = insert-IsUnique id _ _ (retire_current-IsUnique now grace km v.unique);
    entries = install-entries k p id now grace km v;
    current = fresh_key k p id now;
    found = simp (lookup-insert, eq_refl);
    lasting = refl;
  }

  -- After a rotation the keys are well formed, whether a new key could be generated or not.
  pub rotate_keys-IsValid :
      {State : Type 0} (sys : System PrivateKey State) (public_of : PrivateKey → PublicKey)
      (grace : Duration) (km : KeyManager PrivateKey PublicKey) (s : State)
      → IsValid km
      → IsValid (rotate_keys sys public_of grace km s).1
  unfolding rotate_keys
  rotate_keys-IsValid sys public_of grace km s v = elim (Result-cases (sys.generate_key 2048 s).0) [
    | inl (k, e) ↦ rw (e, rotate_keys) (install-IsValid k _ _ _ grace km v)
    | inr (_, e) ↦ rw (e, rotate_keys) v
  ]

  -- Cleanup keeps the keys well formed: the current one is never removed.
  pub cleanup_expired_keys-IsValid :
      (km : KeyManager PrivateKey PublicKey) (now : Time)
      → IsValid km
      → IsValid (cleanup_expired_keys km now)
  unfolding cleanup_expired_keys
  cleanup_expired_keys-IsValid km now v = record {
    unique = keep-IsUnique _ km.keys v.unique;
    entries = λ id kp e.
        v.entries id kp
          (ground (arith, lookup-keep (λ kp. not (expired now kp)) id km.keys v.unique));
    current = v.current;
    found = ground (
      arith,
      lookup-keep (λ kp. not (expired now kp)) km.current_key_id km.keys v.unique,
      v.found,
      v.lasting,
    );
    lasting = v.lasting;
  }
