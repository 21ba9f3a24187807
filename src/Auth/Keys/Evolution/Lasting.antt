-- ===== src/Auth/Keys/Evolution/Lasting.antt =====
-- internal/auth/jwks.go: how long a key that has signed goes on to verify, whatever rotations and
-- cleanups there are.
use session_service.Common.{
  String, ◌≡◌, ◌≢◌, true, not, none, some, ok, ◌≤◌, ◌<◌, ◌⊎◌, inl, inr, arith, eq_iff, eq_refl,
  Bool-cases, ◌==◌,
}
use session_service.Common.Dict.{lookup, lookup-keep, lookup-insert}
use session_service.Common.Time.{Time, Duration, add}
use session_service.Auth.Keys.{
  KeyPair, KeyManager, expired, fresh_key, retire, retire_current, install, cleanup_expired_keys,
  get_private_key, get_public_key_by_id,
}
use session_service.Auth.Keys.Rotation.{IsValid, lookup-install}
use session_service.Auth.Keys.Evolution.{
  Change, rotated, cleaned, Evolution, unchanged, changed, IsSound, Evolution-IsSound,
}

module _ {PrivateKey PublicKey : Type 0} (id : String) (p : PublicKey) (deadline : Time) where
  -- The key under that id, active and with no expiry before the deadline.
  record Lasts (km : KeyManager PrivateKey PublicKey) : Type 0 where
    entry : KeyPair PrivateKey PublicKey
    found : lookup id km.keys ≡ some entry
    active : entry.is_active ≡ true
    same : entry.public_key ≡ p
    lasting : (entry.expires_at ≡ 0) ⊎ (deadline ≤ entry.expires_at)

  -- Such a key verifies up to the deadline.
  Lasts-get_public_key_by_id :
      (km : KeyManager PrivateKey PublicKey) (t : Time)
      → Lasts km
      → t < deadline
      → get_public_key_by_id km id t ≡ ok p
  unfolding get_public_key_by_id
  Lasts-get_public_key_by_id km t l early = ground (arith, l.found, l.active, l.same, l.lasting)

  cleanup-Lasts :
      (km : KeyManager PrivateKey PublicKey) (now : Time)
      → IsValid km
      → now < deadline
      → Lasts km
      → Lasts (cleanup_expired_keys km now)
  unfolding cleanup_expired_keys
  cleanup-Lasts km now v early l = record {
    entry = l.entry;
    found =
        ground
          (arith, l.found, l.lasting, lookup-keep (λ kp. not (expired now kp)) id km.keys v.unique);
    active = l.active;
    same = l.same;
    lasting = l.lasting;
  }

  -- A rotation with an expiry behind the deadline.
  install-Lasts :
      (k : PrivateKey) (q : PublicKey) (new_id : String) (now : Time) (grace : Duration)
      (km : KeyManager PrivateKey PublicKey)
      → IsValid km
      → lookup new_id km.keys ≡ none
      → deadline ≤ add now grace
      → Lasts km
      → Lasts (install k q new_id now grace km)
  install-Lasts k q new_id now grace km v fresh later l =
      let differs : new_id ≢ id = λ e. ground (arith, l.found) in
      elim (Bool-cases (km.current_key_id == id)) [
        | inl current ↦ record {
          entry = retire now grace v.current;
          found = ground (arith, lookup-install k q new_id now grace km v id differs);
          active = ground (arith, l.found, v.found, l.active, eq_iff km.current_key_id id);
          same = ground (arith, l.found, v.found, l.same, eq_iff km.current_key_id id);
          lasting = inr later;
        }
        | inr other ↦ record {
          entry = l.entry;
          found = ground (arith, lookup-install k q new_id now grace km v id differs, l.found);
          active = l.active;
          same = l.same;
          lasting = l.lasting;
        }
      ]

module _ {PrivateKey PublicKey : Type 0} (public_of : PrivateKey → PublicKey) (grace : Duration)
    (since until deadline : Time) where
  Change-Lasts :
      (id : String) (p : PublicKey) (now : Time) {km km' : KeyManager PrivateKey PublicKey}
      → Change public_of grace now km km'
      → IsValid km
      → since ≤ now
      → now ≤ until
      → deadline ≤ add since grace
      → until < deadline
      → Lasts id p deadline km
      → Lasts id p deadline km'
  Change-Lasts id p now (rotated k new_id km _ fresh) v after up_to covered early l =
      install-Lasts id p deadline k (public_of k) new_id now grace km v fresh (omega arith) l
  Change-Lasts id p now (cleaned km) v after up_to covered early l =
      cleanup-Lasts id p deadline km now v (omega arith) l

  Evolution-Lasts :
      (id : String) (p : PublicKey) {km km' : KeyManager PrivateKey PublicKey}
      → Evolution public_of grace since until km km'
      → IsSound public_of km
      → deadline ≤ add since grace
      → until < deadline
      → Lasts id p deadline km
      → Lasts id p deadline km'
  Evolution-Lasts id p unchanged s covered early l = l
  Evolution-Lasts id p (changed now e after up_to c) s covered early l =
      Change-Lasts id p now c (Evolution-IsSound public_of grace since until e s).valid after up_to
        covered early (Evolution-Lasts id p e s covered early l)

  -- The key that signs at an instant verifies under its id until the deadline, whatever rotations and
  -- cleanups there have been since, if the grace period reaches as far as the deadline.
  pub get_public_key_by_id-Evolution :
      {km km' : KeyManager PrivateKey PublicKey} (s : IsSound public_of km) (key_time : Time)
      → Evolution public_of grace since until km km'
      → deadline ≤ add since grace
      → until < deadline
      → key_time < deadline
      → get_public_key_by_id km' km.current_key_id key_time
        ≡ ok (public_of s.valid.current.private_key)
  get_public_key_by_id-Evolution {km} {km'} s key_time e covered early in_time =
      let v = s.valid in
      Lasts-get_public_key_by_id km.current_key_id (public_of v.current.private_key) deadline km'
        key_time
        (Evolution-Lasts km.current_key_id (public_of v.current.private_key) e s covered early
          (record {
            entry = v.current;
            found = v.found;
            active = (v.entries km.current_key_id v.current v.found).1;
            same = s.paired km.current_key_id v.current v.found;
            lasting = inl v.lasting;
          }))
        in_time

module _ {PrivateKey PublicKey : Type 0} where
  -- Well-formed keys sign with the current one.
  pub get_private_key-IsValid :
      (km : KeyManager PrivateKey PublicKey) (v : IsValid km)
      → get_private_key km ≡ some v.current.private_key
  unfolding get_private_key
  get_private_key-IsValid km v =
      ground (arith, v.found, v.entries km.current_key_id v.current v.found)

  -- After a rotation the new key signs.
  pub get_private_key-install :
      (k : PrivateKey) (p : PublicKey) (id : String) (now : Time) (grace : Duration)
      (km : KeyManager PrivateKey PublicKey)
      → get_private_key (install k p id now grace km) ≡ some k
  unfolding get_private_key
  get_private_key-install k p id now grace km =
      ground (
        arith,
        lookup-insert id id (fresh_key k p id now) (retire_current now grace km),
        eq_refl id,
      )
