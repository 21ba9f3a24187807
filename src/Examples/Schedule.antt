-- ===== src/Examples/Schedule.antt =====
-- Two ticks of the rotation schedule.

use session_service.Common.{length, ℕ, ◌+◌, ◌*◌, ◌≤◌, inl, [], ok, arith, eq_iff}
use session_service.Common.Int.{pos}
use session_service.Common.Time.{hour}
use session_service.Services.{System}
use session_service.Auth.Keys.{rotate_keys}
use session_service.Auth.Keys.Schedule.{rotation_tick, rotation_ticks}
use session_service.Auth.Keys.Schedule.Bounded.{TwoKeys, Spaced, rotation_ticks_bounded}
use session_service.Examples.Services.{keys}
use session_service.Examples.Keys.{keys_valid}

-- A clock that is a day further with every reading.
abbrev daily : System ℕ ℕ
daily = record {
  now = λ s. (24 * hour * (s + 1), s + 1);
  new_uuid = λ s. ("k2", s);
  generate_key = λ bits s. (ok 9, s);
  random_bytes = λ n s. (ok [], s);
}

abbrev one_key : TwoKeys 0 keys
one_key = record {
  valid = keys_valid;
  other = "k1";
  only = λ j kp e. inl (ground (arith, eq_iff "k1" j));
  retired = λ j kp e differs. absurd (differs (ground (arith, eq_iff "k1" j)));
}

spaced : Spaced daily (λ k. k) (pos hour) 2 0 keys 0
unfolding rotation_tick rotate_keys
spaced = (omega arith, omega arith, (omega arith, omega arith, tt))

rotation_ticks_bounded_example :
    length (rotation_ticks daily (λ k. k) 2 (pos hour) keys 0).0.keys ≤ 2
rotation_ticks_bounded_example =
    rotation_ticks_bounded daily (λ k. k) (pos hour) 2 0 keys 0 one_key spaced
