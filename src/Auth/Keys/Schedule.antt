-- ===== src/Auth/Keys/Schedule.antt =====
-- cmd/server/main.go: the goroutine that rotates the signing keys.
pub mod Bounded
pub mod Evolves
use session_service.Common.{
  ◌%◌, ◌≤◌, refl, ℕ, String, ◌≡◌, ◌≢◌, ◌<◌, ◌⊎◌, ◌*◌, not, some, arith, eq_iff, leb, if◌then◌else◌,
  inl, inr,
}
use session_service.Common.Dict.{lookup, lookup-keep}
use session_service.Common.Int.{ℤ, pos_part, signed, word, pos, negsuc}
use session_service.Common.Time.{Time, Duration, hour}
use session_service.Services.{System}
use session_service.Auth.Keys.{
  KeyPair, KeyManager, expired, install, rotate_keys, cleanup_expired_keys,
}
use session_service.Auth.Keys.Rotation.{
  IsValid, install-IsValid, rotate_keys-IsValid, cleanup_expired_keys-IsValid, lookup-install,
}

-- `if days <= 0 { days = fallback }`
abbrev or_default : ℤ → ℕ → ℕ
or_default (pos days) fallback = if leb days 0 then fallback else days
or_default (negsuc _) fallback = fallback

-- `rotationInterval`, which wraps around at 64 bits
unfoldable pub rotation_interval : ℤ → Duration
rotation_interval days = signed (or_default days 90 * 24 * hour % word)

-- `gracePeriod`
unfoldable pub grace_period : ℤ → Duration
grace_period days = signed (or_default days 14 * 24 * hour % word)

-- Up to 106751 days, the most that a `time.Duration` holds: a number of days that is positive gives
-- exactly as many days for both durations, and any other gives 90 days between rotations and 14 of grace.
pub rotation_interval_exact :
    (days : ℤ)
    → pos_part days ≤ 106751
    → ((pos_part days ≡ 0)
        × (rotation_interval days ≡ pos (90 * 24 * hour))
        × (grace_period days ≡ pos (14 * 24 * hour)))
      ⊎ ((0 < pos_part days)
          × (rotation_interval days ≡ pos (pos_part days * 24 * hour))
          × (grace_period days ≡ pos (pos_part days * 24 * hour)))
unfolding rotation_interval grace_period
rotation_interval_exact (pos ℕ.zero) h = inl (refl, refl, refl)
rotation_interval_exact (pos (ℕ.suc n)) h = inr (omega arith, ground arith, ground arith)
rotation_interval_exact (negsuc n) h = inl (refl, refl, refl)

-- With one day more the interval is negative.
rotation_interval_wraps : rotation_interval (pos 106752) ≡ negsuc 9223371273709551615
unfolding rotation_interval
rotation_interval_wraps = refl

module _ {PrivateKey PublicKey State : Type 0} (sys : System PrivateKey State)
    (public_of : PrivateKey → PublicKey) where
  -- One tick: rotate, log an error, clean up.
  unfoldable pub rotation_tick :
      Duration → KeyManager PrivateKey PublicKey → State → KeyManager PrivateKey PublicKey × State
  rotation_tick grace km s =
      let (_, km₁, s₁) = rotate_keys sys public_of grace km s in
      let (now, s₂) = sys.now s₁ in (cleanup_expired_keys km₁ now, s₂)

  -- Any number of ticks.
  unfoldable pub rotation_ticks :
      ℕ
      → Duration
      → KeyManager PrivateKey PublicKey
      → State
      → KeyManager PrivateKey PublicKey × State
  rotation_ticks ℕ.zero grace km s = (km, s)
  rotation_ticks (ℕ.suc n) grace km s =
      let (km', s') = rotation_tick grace km s in rotation_ticks n grace km' s'

  -- However often the schedule ticks, and whether or not keys can be generated, the keys stay well
  -- formed: there is always an active current key with no expiry.
  pub rotation_ticks-IsValid :
      (n : ℕ) (grace : Duration) (km : KeyManager PrivateKey PublicKey) (s : State)
      → IsValid km
      → IsValid (rotation_ticks n grace km s).0
  unfolding rotation_ticks rotation_tick
  rotation_ticks-IsValid ℕ.zero grace km s v = v
  rotation_ticks-IsValid (ℕ.suc n) grace km s v =
      let (_, km₁, s₁) = rotate_keys sys public_of grace km s in
      let (now, s₂) = sys.now s₁ in
      rotation_ticks-IsValid n grace (cleanup_expired_keys km₁ now) s₂
        (cleanup_expired_keys-IsValid km₁ now (rotate_keys-IsValid sys public_of grace km s v))

module _ {PrivateKey PublicKey : Type 0} where
  -- Every key but the current one has an expiry, which lies before that instant.
  abbrev pub RetiredBefore : Time → KeyManager PrivateKey PublicKey → Type 0
  RetiredBefore t km =
      (j : String) (kp : KeyPair PrivateKey PublicKey)
      → lookup j km.keys ≡ some kp
      → km.current_key_id ≢ j
      → (0 < kp.expires_at) × (kp.expires_at < t)

  -- If the keys that earlier rotations retired have expired when a rotation is cleaned up, only the
  -- new key and the one that it replaces are left.
  cleanup-install_bounded :
      (k : PrivateKey) (p : PublicKey) (id : String) (now t : Time) (grace : Duration)
      (km : KeyManager PrivateKey PublicKey) (j : String) (kp : KeyPair PrivateKey PublicKey)
      → IsValid km
      → RetiredBefore t km
      → lookup j (cleanup_expired_keys (install k p id now grace km) t).keys ≡ some kp
      → (id ≡ j) ⊎ (km.current_key_id ≡ j)
  unfolding cleanup_expired_keys
  cleanup-install_bounded k p id now t grace km j kp v retired e = ground (
    arith,
    eq_iff id j,
    eq_iff km.current_key_id j,
    retired j kp,
    lookup-install k p id now grace km v j,
    lookup-keep (λ kp. not (expired t kp)) j (install k p id now grace km).keys
        (install-IsValid k p id now grace km v).unique,
  )
