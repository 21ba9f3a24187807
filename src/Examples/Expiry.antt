-- ===== src/Examples/Expiry.antt =====
-- A refresh token and its revocation, at a Redis server in memory whose keys expire.
use session_service.Common.{
  ℕ, ◌+◌, String, ◌≡◌, ◌⊎◌, refl, true, none, some, Option, ok, err, failure, redis_nil, ltb, ◌==◌,
  if◌then◌else◌, arith,
}
use session_service.Common.Int.{pos, pos_part}
use session_service.Models.{RefreshTokenData}
use session_service.Json.{JsonText}
use session_service.Json.Records.{marshal_refresh_token_data}
use session_service.Cache.Redis.{
  Redis, store_refresh_token, get_refresh_token, revoke_refresh_token, is_refresh_token_revoked,
}
use session_service.Cache.Redis.Laws.{reply}
use session_service.Cache.Redis.Expiry.{ExpiryLaws, here, next, time_passes}
use session_service.Cache.Redis.Expiry.Outlives.{revocation_outlives}
use session_service.Examples.Services.{subject}

record Timed : Type 0 where
  clock : ℕ
  texts : String → Option String
  until : String → ℕ

abbrev timed : Redis Timed
timed = record {
  get = λ k s. if ltb s.clock (s.until k) then reply (s.texts k) else err redis_nil;
  set = λ k v ttl s. (
    ok tt,
    record s {
      texts = λ j. if k == j then some v else s.texts j;
      until = λ j. if k == j then s.clock + pos_part ttl else s.until j;
    },
  );
  incr = λ k s. (ok (pos 1), s);
  expire = λ k ttl s. (ok tt, s);
  del = λ k s. (ok tt, record s { until = λ j. if k == j then 0 else s.until j });
  exists = λ k s. ok (if ltb s.clock (s.until k) then 1 else 0);
}

abbrev timed_laws : ExpiryLaws timed
timed_laws = record {
  IsUp = λ s. Unit;
  now = λ s. s.clock;
  deadline = λ s k. s.until k;
  lifetime = pos_part;
  later = λ d s. record s { clock = s.clock + d };
  later-IsUp = λ d s up. tt;
  now-later = λ d s. refl;
  deadline-later = λ d s j. refl;
  get_gone = λ k s up gone. ground arith;
  exists_live = λ k s up live. ground arith;
  set-IsUp = λ k v ttl s up. tt;
  now-set = λ k v ttl s. refl;
  deadline-set = λ k v ttl s j up p. refl;
  del-IsUp = λ k s up. tt;
  now-del = λ k s. refl;
  deadline-del = λ k s j up. refl;
  incr-IsUp = λ k s up. tt;
  now-incr = λ k s. refl;
  deadline-incr = λ k s j up ne. refl;
  expire-IsUp = λ k ttl s up. tt;
  now-expire = λ k ttl s. refl;
  deadline-expire = λ k ttl s j up ne. refl;
}

-- A text of JSON that is always the same.
abbrev constant : JsonText
constant = record {
  render = λ v. ok "doc";
  parse = λ s. err (failure "no value");
  format_time = λ t. ok "now";
  parse_time = λ s. err (failure "no time");
}

abbrev data_of : RefreshTokenData
data_of = record { client_id = "c1"; subject = some subject; expires_at = 100 }

marshals : marshal_refresh_token_data constant data_of ≡ ok "doc"
unfolding marshal_refresh_token_data
marshals = refl

abbrev empty : Timed
empty = record { clock = 0; texts = λ k. none; until = λ k. 0 }

-- The token is stored, 40 pass, it is revoked, and 70 pass.
abbrev stored : Timed
stored = (store_refresh_token timed constant "r1" data_of (pos 100) empty).1

abbrev revoked : Timed
revoked =
    (revoke_refresh_token timed constant "r1" (pos 100)
      (record stored { clock = stored.clock + 40 })).1

abbrev end : Timed
end = record revoked { clock = revoked.clock + 70 }

revocation_outlives_example :
    (get_refresh_token timed constant "r1" end ≡ ok none)
    ⊎ (is_refresh_token_revoked timed constant "r1" end ≡ ok true)
revocation_outlives_example =
    revocation_outlives timed constant timed_laws (pos 100) "r1" (omega arith) data_of "doc" empty
      (record stored { clock = stored.clock + 40 }) end marshals tt (next here (time_passes 40))
      (next here (time_passes 70))
