-- ===== src/Repository/Postgres/Connect.antt =====
-- internal/database/postgres.go: `NewRepository`, which tries to connect a few times, and `Close`.
pub mod Retries
pub mod Counts
use session_service.Common.{
  ℕ, ◌+◌, ◌*◌, ◌-◌, ◌≤◌, ◌<◌, String, ◌≡◌, refl, ltb, Option, none, some, Result, ok, err, GoError,
  context, if◌then◌else◌, Result-cases, ◌⊎◌, inl, inr, arith, true, false, sym, ◌∙◌, ap,
}
use session_service.Common.Int.{pos}
use session_service.Common.Time.{Duration, second}

-- What the package asks of database/sql: a handle on the database, whose calls may go over the net,
-- and `time.Sleep`, over the state of all that is outside.
pub record Driver (Handle Net : Type 0) : Type 0 where
  -- `postgres.Open`
  pub open_db : String → Net → Result Handle × Net
  -- `db.PingContext`
  pub ping : Handle → Net → Result (Unit {0}) × Net
  pub close : Handle → Net → Result (Unit {0}) × Net
  pub sleep : Duration → Net → Net

abbrev pub max_retries : ℕ
max_retries = 5

module _ {Handle Net : Type 0} (driver : Driver Handle Net) (database_url : String) where
  -- One round: a handle that does not answer is closed again.
  unfoldable pub attempt : Net → Result Handle × Net
  attempt s =
      let (opened, s₁) = driver.open_db database_url s in
      elim opened [
        | err e ↦ (err e, s₁)
        | ok db ↦
            let (pinged, s₂) = driver.ping db s₁ in
            elim pinged [ ok _ ↦ (ok db, s₂) | err e ↦ (err e, (driver.close db s₂).1) ]
      ]

  -- The pause behind round `i`, which the last round does not have.
  unfoldable pub pause : ℕ → Net → Net
  pause i s = if ltb i (max_retries - 1) then driver.sleep (pos ((i + 1) * second)) s else s

  -- Behind the loop: the variable `err` after its rounds.
  abbrev pub outcome : Option GoError → Result (Option Handle)
  outcome none = ok none
  outcome (some e) = context "failed to connect to database after 5 attempts" (err e)

  -- The loop, with so many rounds left, at round `i`; `none` in place of the handle is the nil handle
  -- that no round at all would leave.
  unfoldable pub retry : ℕ → ℕ → Option GoError → Net → Result (Option Handle) × Net
  retry ℕ.zero i last s = (outcome last, s)
  retry (ℕ.suc left) i last s =
      let (tried, s') = attempt s in
      elim tried [ ok db ↦ (ok (some db), s') | err e ↦ retry left (i + 1) (some e) (pause i s') ]

  -- `NewRepository`
  unfoldable pub new_repository : Net → Result (Option Handle) × Net
  unfolding retry
  new_repository s = retry max_retries 0 none s

-- `Close` of a `PostgresRepository`
abbrev pub close_repository :
    {Handle Net : Type 0} → Driver Handle Net → Handle → Net → Result (Unit {0}) × Net
close_repository driver db s = driver.close db s
