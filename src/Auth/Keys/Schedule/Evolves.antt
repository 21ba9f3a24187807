-- ===== src/Auth/Keys/Schedule/Evolves.antt =====
-- cmd/server/main.go with internal/auth/jwks.go: the ticks of the schedule as changes of the keys, and
-- what they leave of the key that signs.
use session_service.Common.{ℕ, String, ◌≡◌, ◌≢◌, none, ok, ◌≤◌, ◌<◌, arith, Result-cases, inl, inr}
use session_service.Common.Dict.{lookup}
use session_service.Common.Time.{Time, Duration, add}
use session_service.Services.{System}
use session_service.Auth.Keys.{KeyManager, rotate_keys, get_public_key_by_id}
use session_service.Auth.Keys.Evolution.{Evolution, unchanged, changed, rotated, cleaned, IsSound}
use session_service.Auth.Keys.Evolution.Lasting.{get_public_key_by_id-Evolution}
use session_service.Auth.Keys.Schedule.{rotation_tick, rotation_ticks}
use session_service.Auth.Keys.Schedule.Bounded.{rotated_at, cleaned_at}

module _ {PrivateKey PublicKey State : Type 0} (sys : System PrivateKey State)
    (public_of : PrivateKey → PublicKey) (grace : Duration) (since until : Time) where
  -- The id that a rotation draws.
  abbrev drawn : State → String
  drawn s = (sys.new_uuid (sys.generate_key 2048 s).1).0

  -- So many ticks fall between the two instants, and draw ids that are new.
  abbrev pub Within : ℕ → KeyManager PrivateKey PublicKey → State → Type 0
  Within ℕ.zero km s = Unit
  Within (ℕ.suc n) km s =
      (since ≤ rotated_at sys public_of grace s)
      × (rotated_at sys public_of grace s ≤ until)
      × (since ≤ cleaned_at sys public_of grace km s)
      × (cleaned_at sys public_of grace km s ≤ until)
      × (drawn s ≢ "")
      × (lookup (drawn s) km.keys ≡ none)
      × Within n (rotation_tick sys public_of grace km s).0
          (rotation_tick sys public_of grace km s).1

  tick-Evolution :
      (km₀ km : KeyManager PrivateKey PublicKey) (s : State)
      → Evolution public_of grace since until km₀ km
      → since ≤ rotated_at sys public_of grace s
      → rotated_at sys public_of grace s ≤ until
      → since ≤ cleaned_at sys public_of grace km s
      → cleaned_at sys public_of grace km s ≤ until
      → drawn s ≢ ""
      → lookup (drawn s) km.keys ≡ none
      → Evolution public_of grace since until km₀ (rotation_tick sys public_of grace km s).0
  unfolding rotation_tick rotate_keys
  tick-Evolution km₀ km s e after up_to after' up_to' named fresh =
      elim (Result-cases (sys.generate_key 2048 s).0) [
        | inr (_, failed) ↦
            rw (failed, rotation_tick, rotate_keys)
              (changed (sys.now (sys.generate_key 2048 s).1).0 e
                (rw (failed, cleaned_at, rotate_keys) at after')
                (rw (failed, cleaned_at, rotate_keys) at up_to') (cleaned km))
        | inl (k, generated) ↦
            rw (generated, rotation_tick, rotate_keys)
              (changed _
                (changed (rotated_at sys public_of grace s) e after up_to
                  (rotated k (drawn s) km named fresh))
                (rw (generated, cleaned_at, rotate_keys) at after')
                (rw (generated, cleaned_at, rotate_keys) at up_to') (cleaned _))
      ]

  pub rotation_ticks-Evolution :
      (n : ℕ) (km₀ km : KeyManager PrivateKey PublicKey) (s : State)
      → Evolution public_of grace since until km₀ km
      → Within n km s
      → Evolution public_of grace since until km₀ (rotation_ticks sys public_of n grace km s).0
  unfolding rotation_ticks
  rotation_ticks-Evolution ℕ.zero km₀ km s e within = e
  rotation_ticks-Evolution (ℕ.suc n) km₀ km s e
        (after, up_to, after', up_to', named, fresh, within) =
      rotation_ticks-Evolution n km₀ _ _
        (tick-Evolution km₀ km s e after up_to after' up_to' named fresh) within

  -- The key that signs at an instant goes on to verify under its id through any number of ticks, until
  -- the grace period, counted from that instant, has passed, if the ids drawn are new.
  pub get_public_key_by_id-rotation_ticks :
      (n : ℕ) (km : KeyManager PrivateKey PublicKey) (v : IsSound public_of km) (s : State)
      (t : Time)
      → Within n km s
      → until < add since grace
      → t < add since grace
      → get_public_key_by_id (rotation_ticks sys public_of n grace km s).0 km.current_key_id t
        ≡ ok (public_of v.valid.current.private_key)
  get_public_key_by_id-rotation_ticks n km v s t within early in_time =
      get_public_key_by_id-Evolution public_of grace since until (add since grace) v t
        (rotation_ticks-Evolution n km km s unchanged within) (omega arith) early in_time
