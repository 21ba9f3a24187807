-- ===== src/Auth/Keys/Evolution.antt =====
-- internal/auth/jwks.go: what becomes of the keys while requests run, under the rotations and cleanups
-- that the goroutine of cmd/server/main.go makes at any moments between them.
pub mod Lasting
use session_service.Common.{String, ◌≡◌, ◌≢◌, not, none, some, ◌≤◌, arith, eq_iff}
use session_service.Common.Dict.{lookup, lookup-insert, lookup-keep}
use session_service.Common.Time.{Time, Duration}
use session_service.Auth.Keys.{
  KeyPair, KeyManager, expired, fresh_key, retire, retire_current, install, cleanup_expired_keys,
}
use session_service.Auth.Keys.Rotation.{IsValid, install-IsValid, cleanup_expired_keys-IsValid}

module _ {PrivateKey PublicKey : Type 0} (public_of : PrivateKey → PublicKey)
    (grace : Duration) where
  -- One change of the keys, at the time that it reads: a rotation to a new id, or a cleanup.
  pub data Change (now : Time)
      : KeyManager PrivateKey PublicKey → KeyManager PrivateKey PublicKey → Type 0 where
    rotated :
        (k : PrivateKey) (id : String) (km : KeyManager PrivateKey PublicKey)
        → id ≢ ""
        → lookup id km.keys ≡ none
        → Change now km (install k (public_of k) id now grace km)
    cleaned : (km : KeyManager PrivateKey PublicKey) → Change now km (cleanup_expired_keys km now)

  -- Any number of changes from an instant to another.
  pub data Evolution (since until : Time) (km : KeyManager PrivateKey PublicKey)
      : KeyManager PrivateKey PublicKey → Type 0 where
    unchanged : Evolution since until km km
    changed :
        {km₁ km₂ : KeyManager PrivateKey PublicKey} (now : Time)
        → Evolution since until km km₁
        → since ≤ now
        → now ≤ until
        → Change now km₁ km₂
        → Evolution since until km km₂

module _ {PrivateKey PublicKey : Type 0} (public_of : PrivateKey → PublicKey) where
  -- Well-formed keys, each a pair, with a current one that has a name.
  pub record IsSound (km : KeyManager PrivateKey PublicKey) : Type 0 where
    pub valid : IsValid km
    pub paired :
        (id : String) (kp : KeyPair PrivateKey PublicKey)
        → lookup id km.keys ≡ some kp
        → kp.public_key ≡ public_of kp.private_key
    pub named : km.current_key_id ≢ ""

  install-paired :
      (k : PrivateKey) (id : String) (now : Time) (grace : Duration)
      (km : KeyManager PrivateKey PublicKey) (s : IsSound km) (j : String)
      (kp : KeyPair PrivateKey PublicKey)
      → lookup j (install k (public_of k) id now grace km).keys ≡ some kp
      → kp.public_key ≡ public_of kp.private_key
  install-paired k id now grace km s j kp e = ground (
    arith,
    eq_iff id j,
    eq_iff km.current_key_id j,
    lookup-insert id j (fresh_key k (public_of k) id now) (retire_current now grace km),
    lookup-insert km.current_key_id j (retire now grace s.valid.current) km.keys,
    s.valid.found,
    s.paired j kp,
    s.paired km.current_key_id s.valid.current,
  )

  Change-IsSound :
      (grace : Duration) (now : Time) {km km' : KeyManager PrivateKey PublicKey}
      → Change public_of grace now km km'
      → IsSound km
      → IsSound km'
  unfolding cleanup_expired_keys
  Change-IsSound grace now (rotated k id km named fresh) s = record {
    valid = install-IsValid k (public_of k) id now grace km s.valid;
    paired = install-paired k id now grace km s;
    named = named;
  }
  Change-IsSound grace now (cleaned km) s = record {
    valid = cleanup_expired_keys-IsValid km now s.valid;
    paired = λ id kp e.
        s.paired id kp
          (ground (arith, lookup-keep (λ kp. not (expired now kp)) id km.keys s.valid.unique));
    named = s.named;
  }

  pub Evolution-IsSound :
      (grace : Duration) (since until : Time) {km km' : KeyManager PrivateKey PublicKey}
      → Evolution public_of grace since until km km'
      → IsSound km
      → IsSound km'
  Evolution-IsSound grace since until unchanged s = s
  Evolution-IsSound grace since until (changed now e _ _ c) s =
      Change-IsSound grace now c (Evolution-IsSound grace since until e s)
