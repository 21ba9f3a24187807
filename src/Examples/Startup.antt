-- ===== src/Examples/Startup.antt =====
-- `NewRepository` at concrete inputs.
use session_service.Common.{
  ℕ, ◌+◌, ◌-◌, ◌*◌, ◌≤◌, ◌≡◌, ◌⊎◌, refl, some, ok, err, failure, nat_eq, if◌then◌else◌, arith,
}
use session_service.Common.Int.{pos_part}
use session_service.Common.Time.{second}
use session_service.Repository.Postgres.Connect.{Driver, attempt, pause, retry, new_repository}
use session_service.Repository.Postgres.Connect.Retries.{
  Connected, Unreachable, new_repository-Ends,
}
use session_service.Main.Stopped.{KeepsClients}
use session_service.Repository.Postgres.Connect.Counts.{
  Counters, DriverLaws, kept_open, new_repository_bounded,
}

-- A net on which so many attempts to connect fail at first.
pub record Net : Type 0 where
  pub refusing : ℕ
  pub opens : ℕ
  pub slept : ℕ
  pub held : ℕ
  pub clients : ℕ

abbrev pub driver : Driver (Unit {0}) Net
driver = record {
  open_db = λ url s. (ok tt, record s { opens = s.opens + 1; held = s.held + 1 });
  ping = λ db s.
      if nat_eq s.refusing 0
      then (ok tt, s)
      else (err (failure "connection refused"), record s { refusing = s.refusing - 1 });
  close = λ db s. (ok tt, record s { held = s.held - 1 });
  sleep = λ d s. record s { slept = s.slept + pos_part d };
}

abbrev pub count : Counters Net
count = record { opens = λ s. s.opens; slept = λ s. s.slept; held = λ s. s.held }

abbrev pub driver_laws : DriverLaws driver count
driver_laws = record {
  open-opens = λ url s. refl;
  open-slept = λ url s. refl;
  open-held = λ url s db e. refl;
  open-failed = λ url s e failed. absurd (cc);
  ping-Same = λ db s. record { opens = ground arith; slept = ground arith; held = ground arith };
  close-opens = λ db s. refl;
  close-slept = λ db s. refl;
  close-held = λ db s. refl;
  sleep-opens = λ d s. refl;
  sleep-slept = λ d s. refl;
  sleep-held = λ d s. refl;
}

-- Two attempts fail.
abbrev pub slow : Net
slow = record { refusing = 2; opens = 0; slept = 0; held = 0; clients = 0 }

new_repository-Ends_example :
    Connected driver "db" slow
      (new_repository driver "db" slow).0
      (new_repository driver "db" slow).1
    ⊎ Unreachable driver "db" slow
        (new_repository driver "db" slow).0
        (new_repository driver "db" slow).1
new_repository-Ends_example = new_repository-Ends driver "db" slow

new_repository_bounded_example :
    (count.opens (new_repository driver "db" slow).1 ≤ count.opens slow + 5)
    × (count.slept (new_repository driver "db" slow).1 ≤ count.slept slow + 10 * second)
    × (count.held (new_repository driver "db" slow).1
        ≡ count.held slow + kept_open (new_repository driver "db" slow).0)
new_repository_bounded_example = new_repository_bounded driver count driver_laws "db" slow

-- Three rounds, with pauses of one and two seconds.
third_round :
    new_repository driver "db" slow
    ≡ (ok (some tt), record { refusing = 0; opens = 3; slept = 3 * second; held = 1; clients = 0 })
unfolding new_repository retry attempt pause
third_round = refl

-- Where the cache's clients are counted apart.
pub keeps_clients : KeepsClients driver (λ s. s.clients)
keeps_clients = record {
  open_db = λ url s. refl;
  ping = λ db s. ground arith;
  close = λ db s. refl;
  sleep = λ d s. refl;
}
