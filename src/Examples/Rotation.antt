-- ===== src/Examples/Rotation.antt =====
-- Tokens across rotations of the keys, at concrete inputs.
use session_service.Common.{
  ℕ, ◌+◌, ◌*◌, ◌≡◌, ◌≢◌, refl, [], ok, nat_eq, if◌then◌else◌, arith, eq_iff,
}
use session_service.Common.Int.{pos}
use session_service.Common.Time.{hour}
use session_service.Services.{System}
use session_service.Auth.Keys.{
  KeyManager, install, rotate_keys, cleanup_expired_keys, get_public_key_by_id,
}
use session_service.Auth.Keys.Evolution.{Evolution, unchanged, changed, rotated, cleaned, IsSound}
use session_service.Auth.Keys.Schedule.{rotation_tick, rotation_ticks}
use session_service.Auth.Keys.Schedule.Evolves.{Within, get_public_key_by_id-rotation_ticks}
use session_service.Auth.Generator.{generate_access_token, generate_between, access_claims}
use session_service.Auth.Validator.{validate_at}
use session_service.Auth.Validator.Lifetime.{validator_of}
use session_service.Auth.Validator.Rotations.{validate_at-Evolution}
use session_service.Auth.Validator.Straddled.{validate_at-generate_between}
use session_service.Examples.Services.{t₀, subject, generator, cache, system, keys, empty_store}
use session_service.Examples.Signing.{
  claims, jwt, jwt_laws, jwt_of, laws_of, public_of, signature_laws,
}
use session_service.Examples.Keys.{keys_valid}

abbrev pub sound : IsSound public_of keys
sound = record {
  valid = keys_valid;
  paired = λ id kp e. ground (arith, eq_iff "k1" id);
  named = λ e. ground (arith, eq_iff "k1" "");
}

abbrev fortnight : ℕ
fortnight = 1209600000000000

abbrev after_rotation : KeyManager ℕ ℕ
after_rotation = install 9 9 "k2" t₀ (pos fortnight) keys

-- A rotation and a cleanup.
abbrev evolved :
    Evolution public_of (pos fortnight) t₀ t₀ keys (cleanup_expired_keys after_rotation t₀)
evolved =
    changed t₀
      (changed t₀ unchanged (omega arith) (omega arith)
        (rotated 9 "k2" keys (λ e. ground (arith, eq_iff "k2" "")) refl))
      (omega arith) (omega arith) (cleaned after_rotation)

minted : generate_access_token system jwt generator subject keys tt ≡ (ok ("signed", "id-2"), tt)
unfolding generate_access_token access_claims
minted = refl

validate_at-Evolution_example :
    validate_at jwt
      (validator_of generator)
      cache
      (cleanup_expired_keys after_rotation t₀)
      t₀
      t₀
      t₀
      "signed"
      empty_store
    ≡ ok (access_claims generator subject t₀ "id-2")
validate_at-Evolution_example =
    validate_at-Evolution public_of jwt jwt_laws system generator cache (pos fortnight) subject keys
      (cleanup_expired_keys after_rotation t₀) sound tt tt "signed" "id-2" t₀ t₀ t₀ t₀ empty_store
      minted evolved (omega arith) (omega arith) refl refl refl (λ ne. refl)

-- A clock that is an hour further with every reading, and new ids.
abbrev hourly : System ℕ ℕ
hourly = record {
  now = λ s. (hour * (s + 1), s + 1);
  new_uuid = λ s. (if nat_eq s 0 then "k2" else "k3", s);
  generate_key = λ bits s. (ok 9, s);
  random_bytes = λ n s. (ok [], s);
}

within : Within hourly public_of (pos fortnight) 0 (hour * 4) 2 keys 0
unfolding rotation_tick rotate_keys cleanup_expired_keys
within = (
  omega arith,
  omega arith,
  omega arith,
  omega arith,
  λ e. ground (arith, eq_iff "k2" ""),
  refl,
  (
    omega arith,
    omega arith,
    omega arith,
    omega arith,
    λ e. ground (arith, eq_iff "k3" ""),
    refl,
    tt,
  ),
)

get_public_key_by_id-rotation_ticks_example :
    get_public_key_by_id
      (rotation_ticks hourly public_of 2 (pos fortnight) keys 0).0
      "k1"
      (hour * 100)
    ≡ ok 7
get_public_key_by_id-rotation_ticks_example =
    get_public_key_by_id-rotation_ticks hourly public_of (pos fortnight) 0 (hour * 4) 2 keys sound 0
      (hour * 100) within (omega arith) (omega arith)

-- The header names the first key, and the second one signs.
straddled :
    generate_between system (jwt_of 9) generator subject keys after_rotation tt
    ≡ (ok ("signed", "id-2"), tt)
unfolding generate_between access_claims
straddled = refl

abbrev rotated_only : Evolution public_of (pos fortnight) t₀ t₀ keys after_rotation
rotated_only =
    changed t₀ unchanged (omega arith) (omega arith)
      (rotated 9 "k2" keys (λ e. ground (arith, eq_iff "k2" "")) refl)

validate_at-generate_between_example :
    validate_at
      (jwt_of 9)
      (validator_of generator)
      cache
      after_rotation
      t₀
      t₀
      t₀
      "signed"
      empty_store
    ≢ ok claims
validate_at-generate_between_example =
    validate_at-generate_between public_of (jwt_of 9) (laws_of 9) (signature_laws 9) system
      generator (pos fortnight) subject keys after_rotation sound 9 "k2" t₀ tt tt "signed" "id-2" t₀
      t₀ t₀ t₀ (validator_of generator) cache empty_store claims straddled (λ e. omega arith)
      rotated_only (omega arith) (omega arith) refl
