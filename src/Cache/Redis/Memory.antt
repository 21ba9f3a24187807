-- ===== src/Cache/Redis/Memory.antt =====
-- A Redis server in memory, which is always up: it shows that the laws can hold, and runs the tests.
use session_service.Common.{
  ℕ, ◌+◌, String, refl, Option, none, some, is_some, ok, ◌==◌, if◌then◌else◌,
}
use session_service.Common.Int.{pos}
use session_service.Cache.Redis.{Redis}
use session_service.Cache.Redis.Laws.{RedisLaws, reply}

-- The texts and the counters, by key.
pub record Memory : Type 0 where
  pub texts : String → Option String
  pub counters : String → ℕ

abbrev pub empty_memory : Memory
empty_memory = record { texts = λ _. none; counters = λ _. 0 }

abbrev pub memory : Redis Memory
memory = record {
  get = λ k s. reply (s.texts k);
  set = λ k v ttl s. (ok tt, record s { texts = λ j. if k == j then some v else s.texts j });
  incr = λ k s. (
    ok (pos (s.counters k + 1)),
    record s { counters = λ j. if k == j then s.counters j + 1 else s.counters j },
  );
  expire = λ k ttl s. (ok tt, s);
  del = λ k s. (ok tt, record s { texts = λ j. if k == j then none else s.texts j });
  exists = λ k s. ok (if is_some (s.texts k) then 1 else 0);
}

abbrev pub memory_laws : RedisLaws memory
memory_laws = record {
  IsUp = λ s. Unit;
  value = λ s k. s.texts k;
  count = λ s k. s.counters k;
  get_lem = λ k s up. refl;
  exists_lem = λ k s up. refl;
  set-IsUp = λ k v ttl s up. tt;
  set-ok = λ k v ttl s up p. refl;
  value-set = λ k v ttl s j up p. refl;
  del-IsUp = λ k s up. tt;
  value-del = λ k s j up. refl;
  incr-IsUp = λ k s up. tt;
  incr-ok = λ k s up. refl;
  count-incr = λ k s j up. refl;
  value-incr = λ k s j up ne. refl;
  expire-IsUp = λ k ttl s up. tt;
  count-expire = λ k ttl s j up p. refl;
  value-expire = λ k ttl s j up p. refl;
}
