-- ===== src/Examples/Keys.antt =====
-- The properties of the signing keys and of the checks on access tokens, at concrete inputs.
use session_service.Common.{◌⊎◌, ◌<◌, ◌*◌, ◌≡◌, refl, some, ok, eq_iff, arith, ℕ, ◌+◌}
use session_service.Common.Dict.{lookup}
use session_service.Common.Int.{pos, pos_part}
use session_service.Common.Time.{hour}
use session_service.Examples.Services.{t₀, subject, generator, cache, system, keys, empty_store}
use session_service.Examples.Signing.{claims, jwt, public_of}
use session_service.Auth.Keys.{
  KeyManager, fresh_key, install, cleanup_expired_keys, get_private_key, get_public_key_by_id,
}
use session_service.Auth.Keys.Rotation.{IsValid, install-IsValid}
use session_service.Auth.Keys.Lookup.{get_public_key_by_id-install}
use session_service.Auth.Keys.Schedule.{
  rotation_ticks, rotation_interval, grace_period, rotation_interval_exact, rotation_ticks-IsValid,
}
use session_service.Auth.Generator.{generate_access_token, access_claims}
use session_service.Auth.Validator.{validate_at, key_function, check_claims}
use session_service.Auth.Validator.Lifetime.{validator_of}

abbrev pub keys_valid : IsValid keys
keys_valid = record {
  unique = (refl, tt);
  entries = λ id kp e. ground (arith, eq_iff "k1" id);
  current = fresh_key 7 7 "k1" 5;
  found = refl;
  lasting = refl;
}

abbrev fortnight : ℕ
fortnight = 1209600000000000

-- The keys after a rotation at t₀.
abbrev rotated : KeyManager ℕ ℕ
rotated = install 9 9 "k2" t₀ (pos fortnight) keys

minted : generate_access_token system jwt generator subject keys tt ≡ (ok ("signed", "id-2"), tt)
unfolding generate_access_token access_claims
minted = refl

pub signs : get_private_key keys ≡ some 7
unfolding get_private_key
signs = refl

pub verifies : get_public_key_by_id keys "k1" t₀ ≡ ok 7
unfolding get_public_key_by_id
verifies = refl

accepted :
    validate_at jwt (validator_of generator) cache keys t₀ t₀ t₀ "signed" empty_store ≡ ok claims
unfolding validate_at key_function check_claims get_public_key_by_id
accepted = refl

get_public_key_by_id-install_example : get_public_key_by_id rotated "k1" (t₀ + fortnight) ≡ ok 7
get_public_key_by_id-install_example =
    get_public_key_by_id-install 9 9 "k2" t₀ (pos fortnight) keys keys_valid "k1" (t₀ + fortnight)
      (ground (arith, eq_iff "k2" "k1")) (omega arith)

rotated_valid : IsValid rotated
rotated_valid = install-IsValid 9 9 "k2" t₀ (pos fortnight) keys keys_valid

rotation_ticks-IsValid_example :
    IsValid (rotation_ticks system public_of 2 (pos fortnight) keys tt).0
rotation_ticks-IsValid_example =
    rotation_ticks-IsValid system public_of 2 (pos fortnight) keys tt keys_valid

-- The rotation after the first one's grace period: the key of the first rotation is still there.
left :
    lookup "k2"
      (cleanup_expired_keys
        (install 8 8 "k3" (t₀ + fortnight) (pos fortnight) rotated)
        (t₀ + fortnight + 1)).keys
    ≡ some (record (fresh_key 9 9 "k2" t₀) { expires_at = t₀ + fortnight + fortnight })
unfolding cleanup_expired_keys
left = refl

rotation_interval_exact_example :
    ((pos_part (pos 30) ≡ 0)
      × (rotation_interval (pos 30) ≡ pos (90 * 24 * hour))
      × (grace_period (pos 30) ≡ pos (14 * 24 * hour)))
    ⊎ ((0 < pos_part (pos 30))
        × (rotation_interval (pos 30) ≡ pos (30 * 24 * hour))
        × (grace_period (pos 30) ≡ pos (30 * 24 * hour)))
rotation_interval_exact_example = rotation_interval_exact (pos 30) (omega arith)
