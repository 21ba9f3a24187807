-- ===== src/Repository/Postgres/Connect/Counts.antt =====
-- internal/database/postgres.go: how often `NewRepository` connects, how long it waits, and the handles
-- that it leaves open.
use session_service.Common.{
  ℕ, ◌+◌, ◌*◌, ◌-◌, ◌≤◌, String, ◌≡◌, ltb, Option, some, Result, ok, err, GoError, if◌then◌else◌,
  Result-cases, inl, inr, arith, no_rows,
}
use session_service.Common.Int.{pos, pos_part}
use session_service.Common.Time.{Duration, second}
use session_service.Repository.Postgres.Connect.Retries.{retry-ok, retry-err}
use session_service.Repository.Postgres.Connect.{
  Driver, max_retries, attempt, pause, retry, new_repository,
}

-- What is counted outside: the calls of `Open` so far, the time slept so far, the handles open now.
pub record Counters (Net : Type 0) : Type 0 where
  pub opens : Net → ℕ
  pub slept : Net → ℕ
  pub held : Net → ℕ

-- One handle more is open if there is a result, and none otherwise.
abbrev pub kept_open : {A : Type 0} → Result A → ℕ
kept_open (ok _) = 1
kept_open (err _) = 0

module _ {Handle Net : Type 0} (driver : Driver Handle Net) (count : Counters Net) where
  pub record Same (s s' : Net) : Type 0 where
    pub opens : count.opens s' ≡ count.opens s
    pub slept : count.slept s' ≡ count.slept s
    pub held : count.held s' ≡ count.held s

  -- The documented behaviour: a handle is open from a successful `Open` to its `Close`.
  pub record DriverLaws : Type 0 where
    pub open-opens :
        (url : String) (s : Net) → count.opens (driver.open_db url s).1 ≡ count.opens s + 1
    pub open-slept : (url : String) (s : Net) → count.slept (driver.open_db url s).1 ≡ count.slept s
    pub open-held :
        (url : String) (s : Net) (db : Handle)
        → (driver.open_db url s).0 ≡ ok db
        → count.held (driver.open_db url s).1 ≡ count.held s + 1
    pub open-failed :
        (url : String) (s : Net) (e : GoError)
        → (driver.open_db url s).0 ≡ err e
        → count.held (driver.open_db url s).1 ≡ count.held s
    pub ping-Same : (db : Handle) (s : Net) → Same s (driver.ping db s).1
    pub close-opens : (db : Handle) (s : Net) → count.opens (driver.close db s).1 ≡ count.opens s
    pub close-slept : (db : Handle) (s : Net) → count.slept (driver.close db s).1 ≡ count.slept s
    pub close-held : (db : Handle) (s : Net) → count.held (driver.close db s).1 ≡ count.held s - 1
    pub sleep-opens : (d : Duration) (s : Net) → count.opens (driver.sleep d s) ≡ count.opens s
    pub sleep-slept :
        (d : Duration) (s : Net) → count.slept (driver.sleep d s) ≡ count.slept s + pos_part d
    pub sleep-held : (d : Duration) (s : Net) → count.held (driver.sleep d s) ≡ count.held s

  module _ (laws : DriverLaws) (database_url : String) where
    -- One round opens one handle, does not wait, and leaves a handle open only if it answers.
    record Round (s : Net) : Type 0 where
      opens : count.opens (attempt driver database_url s).1 ≡ count.opens s + 1
      slept : count.slept (attempt driver database_url s).1 ≡ count.slept s
      held :
          count.held (attempt driver database_url s).1
          ≡ count.held s + kept_open (attempt driver database_url s).0

    attempt-Round : (s : Net) → Round s
    unfolding attempt
    attempt-Round s =
        let s₁ = (driver.open_db database_url s).1 in
        let opened = laws.open-opens database_url s in
        let slept = laws.open-slept database_url s in
        elim (Result-cases (driver.open_db database_url s).0) [
          | inr (e, failed) ↦
              let closed = laws.open-failed database_url s e failed in
              record { opens = ground arith; slept = ground arith; held = ground arith }
          | inl (db, found) ↦
              let now_held = laws.open-held database_url s db found in
              let same = laws.ping-Same db s₁ in
              let same_opens = same.opens in
              let same_slept = same.slept in
              let same_held = same.held in
              let s₂ = (driver.ping db s₁).1 in
              elim (Result-cases (driver.ping db s₁).0) [
                | inl (_, answered) ↦ record {
                  opens = ground arith;
                  slept = ground arith;
                  held = ground arith;
                }
                | inr (e, silent) ↦
                    let close_opens = laws.close-opens db s₂ in
                    let close_slept = laws.close-slept db s₂ in
                    let close_held = laws.close-held db s₂ in
                    record { opens = ground arith; slept = ground arith; held = ground arith }
              ]
        ]

    -- The pause behind round `i`.
    abbrev pause_length : ℕ → ℕ
    pause_length i = if ltb i (max_retries - 1) then (i + 1) * second else 0

    pause-opens : (i : ℕ) (s : Net) → count.opens (pause driver database_url i s) ≡ count.opens s
    unfolding pause
    pause-opens i s = let law = laws.sleep-opens (pos ((i + 1) * second)) s in ground arith

    pause-held : (i : ℕ) (s : Net) → count.held (pause driver database_url i s) ≡ count.held s
    unfolding pause
    pause-held i s = let law = laws.sleep-held (pos ((i + 1) * second)) s in ground arith

    pause-slept :
        (i : ℕ) (s : Net)
        → count.slept (pause driver database_url i s) ≡ count.slept s + pause_length i
    unfolding pause
    pause-slept i s = let law = laws.sleep-slept (pos ((i + 1) * second)) s in ground arith

    -- The pauses of so many rounds from round `i` on.
    unfoldable pauses : ℕ → ℕ → ℕ
    pauses ℕ.zero i = 0
    pauses (ℕ.suc left) i = pause_length i + pauses left (i + 1)

    record Bounded (left i : ℕ) (s : Net) (r : Result (Option Handle) × Net) : Type 0 where
      opens : count.opens r.1 ≤ count.opens s + left
      slept : count.slept r.1 ≤ count.slept s + pauses left i
      held : count.held r.1 ≡ count.held s + kept_open r.0

    retry-Bounded :
        (left i : ℕ) (e : GoError) (s : Net)
        → Bounded left i s (retry driver database_url left i (some e) s)
    unfolding retry pauses
    retry-Bounded ℕ.zero i e s = record {
      opens = ground arith;
      slept = ground arith;
      held = ground arith;
    }
    retry-Bounded (ℕ.suc left) i e s =
        let r = attempt driver database_url s in
        let round = attempt-Round s in
        let round_opens = round.opens in
        let round_slept = round.slept in
        let round_held = round.held in
        elim (Result-cases r.0) [
          | inl (db, answered) ↦
              rw (retry-ok driver database_url left i (some e) db s (λ j. (answered j, r.1)))
                (record { opens = ground arith; slept = ground arith; held = ground arith })
          | inr (cause, failed) ↦
              let s' = pause driver database_url i r.1 in
              let paused_opens = pause-opens i r.1 in
              let paused_slept = pause-slept i r.1 in
              let paused_held = pause-held i r.1 in
              let rest = retry-Bounded left (i + 1) cause s' in
              let rest_opens = rest.opens in
              let rest_slept = rest.slept in
              let rest_held = rest.held in
              rw (retry-err driver database_url left i (some e) cause s (λ j. (failed j, r.1)))
                (record { opens = ground arith; slept = ground arith; held = ground arith })
        ]

    -- `NewRepository` opens the database five times at most and waits ten seconds at most in all, and
    -- of the handles that it has opened, all but the one that it returns are closed again.
    pub new_repository_bounded :
        (s : Net)
        → (count.opens (new_repository driver database_url s).1 ≤ count.opens s + 5)
          × (count.slept (new_repository driver database_url s).1 ≤ count.slept s + 10 * second)
          × (count.held (new_repository driver database_url s).1
              ≡ count.held s + kept_open (new_repository driver database_url s).0)
    unfolding new_repository retry pauses
    new_repository_bounded s =
        let b = retry-Bounded max_retries 0 no_rows s in (b.opens, b.slept, b.held)
