-- ===== src/Auth/Keys/Schedule/Bounded.antt =====
-- cmd/server/main.go: how many keys the schedule keeps.

use session_service.Common.{
  length, ℕ, ◌+◌, ◌≤◌, ◌<◌, String, ◌≡◌, ◌⊎◌, inl, inr, not, Result-cases, some, arith, eq_iff,
}
use session_service.Common.Dict.{lookup, lookup-keep, length-two}
use session_service.Common.Time.{Time, Duration, add}
use session_service.Services.{System}
use session_service.Auth.Keys.{
  KeyPair, KeyManager, expired, install, rotate_keys, cleanup_expired_keys,
}
use session_service.Auth.Keys.Rotation.{
  IsValid, cleanup_expired_keys-IsValid, install-IsValid, lookup-install,
}
use session_service.Auth.Keys.Schedule.{RetiredBefore, rotation_tick, rotation_ticks}

module _ {PrivateKey PublicKey : Type 0} where
  -- The keys that stay when those that an earlier rotation has retired are cleaned up: the new one, and
  -- the one that it replaces, with the expiry that the rotation gives it.
  cleanup-install-kept :
      (k : PrivateKey) (p : PublicKey) (id : String) (now t c : Time) (grace : Duration)
      (km : KeyManager PrivateKey PublicKey) (j : String) (kp : KeyPair PrivateKey PublicKey)
      → IsValid km
      → RetiredBefore t km
      → t ≤ c
      → lookup j (cleanup_expired_keys (install k p id now grace km) c).keys ≡ some kp
      → (id ≡ j) ⊎ ((km.current_key_id ≡ j) × (kp.expires_at ≡ add now grace))
  unfolding cleanup_expired_keys
  cleanup-install-kept k p id now t c grace km j kp v retired later e = ground (
    arith,
    eq_iff id j,
    eq_iff km.current_key_id j,
    retired j kp,
    lookup-install k p id now grace km v j,
    lookup-keep (λ kp. not (expired c kp)) j (install k p id now grace km).keys
        (install-IsValid k p id now grace km v).unique,
  )

  cleanup-kept :
      (t c : Time) (km : KeyManager PrivateKey PublicKey) (j : String)
      (kp : KeyPair PrivateKey PublicKey)
      → IsValid km
      → RetiredBefore t km
      → t ≤ c
      → lookup j (cleanup_expired_keys km c).keys ≡ some kp
      → km.current_key_id ≡ j
  unfolding cleanup_expired_keys
  cleanup-kept t c km j kp v retired later e = ground (
    arith,
    eq_iff km.current_key_id j,
    retired j kp,
    lookup-keep (λ kp. not (expired c kp)) j km.keys v.unique,
  )

  -- The current key and one other are all that the key manager holds, and the other one has an expiry
  -- that lies before that instant.
  pub record TwoKeys (t : Time) (km : KeyManager PrivateKey PublicKey) : Type 0 where
    pub valid : IsValid km
    pub other : String
    pub only :
        (j : String) (kp : KeyPair PrivateKey PublicKey)
        → lookup j km.keys ≡ some kp
        → (km.current_key_id ≡ j) ⊎ (other ≡ j)
    pub retired : RetiredBefore t km

  install-TwoKeys :
      (k : PrivateKey) (p : PublicKey) (id : String) (now t c : Time) (grace : Duration)
      (km : KeyManager PrivateKey PublicKey)
      → TwoKeys t km
      → t ≤ c
      → 0 < add now grace
      → TwoKeys (add now grace + 1) (cleanup_expired_keys (install k p id now grace km) c)
  unfolding cleanup_expired_keys
  install-TwoKeys k p id now t c grace km two later lasting =
      let kept = λ (j : String) (kp : KeyPair PrivateKey PublicKey).
        cleanup-install-kept k p id now t c grace km j kp two.valid two.retired later in
      record {
        valid = cleanup_expired_keys-IsValid _ c (install-IsValid k p id now grace km two.valid);
        other = km.current_key_id;
        only = λ j kp e. elim (kept j kp e) [ inl new ↦ inl new | inr (old, _) ↦ inr old ];
        retired = λ j kp e differs. elim (kept j kp e) [
          | inl new ↦ absurd (differs new)
          | inr (_, expiry) ↦ (ground arith, ground arith)
        ];
      }

  cleanup-TwoKeys :
      (t t' c : Time) (km : KeyManager PrivateKey PublicKey)
      → TwoKeys t km
      → t ≤ c
      → TwoKeys t' (cleanup_expired_keys km c)
  unfolding cleanup_expired_keys
  cleanup-TwoKeys t t' c km two later =
      let kept = λ (j : String) (kp : KeyPair PrivateKey PublicKey).
        cleanup-kept t c km j kp two.valid two.retired later in
      record {
        valid = cleanup_expired_keys-IsValid km c two.valid;
        other = two.other;
        only = λ j kp e. inl (kept j kp e);
        retired = λ j kp e differs. absurd (differs (kept j kp e));
      }

module _ {PrivateKey PublicKey State : Type 0} (sys : System PrivateKey State)
    (public_of : PrivateKey → PublicKey) (grace : Duration) where
  -- The time that `RotateKeys` reads.
  abbrev pub rotated_at : State → Time
  rotated_at s = (sys.now (sys.new_uuid (sys.generate_key 2048 s).1).1).0

  -- The time that `CleanupExpiredKeys` reads behind it.
  abbrev pub cleaned_at : KeyManager PrivateKey PublicKey → State → Time
  cleaned_at km s = (sys.now (rotate_keys sys public_of grace km s).2).0

  -- A tick cleans up no earlier than at `t`, at which the keys retired before have expired, and gives
  -- the key that it retires an expiry.
  tick-TwoKeys :
      (t : Time) (km : KeyManager PrivateKey PublicKey) (s : State)
      → TwoKeys t km
      → t ≤ cleaned_at km s
      → 0 < add (rotated_at s) grace
      → TwoKeys (add (rotated_at s) grace + 1) (rotation_tick sys public_of grace km s).0
  unfolding rotation_tick rotate_keys
  tick-TwoKeys t km s two later lasting = elim (Result-cases (sys.generate_key 2048 s).0) [
    | inr (_, failed) ↦
        rw (failed, rotation_tick, rotate_keys)
          (cleanup-TwoKeys t (add (rotated_at s) grace + 1) (sys.now (sys.generate_key 2048 s).1).0
            km two (rw (failed, cleaned_at, rotate_keys) at later))
    | inl (k, generated) ↦
        rw (generated, rotation_tick, rotate_keys)
          (install-TwoKeys k (public_of k) (sys.new_uuid (sys.generate_key 2048 s).1).0
            (rotated_at s) t (sys.now (sys.now (sys.new_uuid (sys.generate_key 2048 s).1).1).1).0
            grace km two (rw (generated, cleaned_at, rotate_keys) at later) lasting)
  ]

  -- The clock over so many ticks: each cleans up after the keys that the ticks before have retired
  -- have expired, at `t` for the first, and no expiry is the zero time.
  abbrev pub Spaced : ℕ → Time → KeyManager PrivateKey PublicKey → State → Type 0
  Spaced ℕ.zero t km s = Unit
  Spaced (ℕ.suc n) t km s =
      (t ≤ cleaned_at km s)
      × (0 < add (rotated_at s) grace)
      × Spaced n (add (rotated_at s) grace + 1) (rotation_tick sys public_of grace km s).0
          (rotation_tick sys public_of grace km s).1

  rotation_ticks-TwoKeys :
      (n : ℕ) (t : Time) (km : KeyManager PrivateKey PublicKey) (s : State)
      → TwoKeys t km
      → Spaced n t km s
      → (u : Time) × TwoKeys u (rotation_ticks sys public_of n grace km s).0
  unfolding rotation_ticks
  rotation_ticks-TwoKeys ℕ.zero t km s two spaced = (t, two)
  rotation_ticks-TwoKeys (ℕ.suc n) t km s two (later, lasting, spaced) =
      rotation_ticks-TwoKeys n (add (rotated_at s) grace + 1) _ _
        (tick-TwoKeys t km s two later lasting) spaced

  -- A key manager that starts with the current key, and perhaps one other that expires before `t`,
  -- never holds more than two keys after a tick, if each tick cleans up after the grace period of the
  -- one before, the first no earlier than at `t`.
  pub rotation_ticks_bounded :
      (n : ℕ) (t : Time) (km : KeyManager PrivateKey PublicKey) (s : State)
      → TwoKeys t km
      → Spaced n t km s
      → length (rotation_ticks sys public_of n grace km s).0.keys ≤ 2
  rotation_ticks_bounded n t km s two spaced =
      let (_, kept) = rotation_ticks-TwoKeys n t km s two spaced in
      let valid = kept.valid in
      length-two (rotation_ticks sys public_of n grace km s).0.current_key_id kept.other
        (rotation_ticks sys public_of n grace km s).0.keys (valid.unique) kept.only
