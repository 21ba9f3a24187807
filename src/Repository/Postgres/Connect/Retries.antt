-- ===== src/Repository/Postgres/Connect/Retries.antt =====
-- internal/database/postgres.go: what the rounds of `NewRepository` come to.
use session_service.Common.{
  ℕ, ◌+◌, ◌<◌, String, ◌≡◌, refl, Option, none, some, Result, ok, err, GoError, context,
  Result-cases, ◌⊎◌, inl, inr, arith, ◌∙◌, ◌*◌, ap, ltb, if◌then◌else◌,
}
use session_service.Common.Int.{pos}
use session_service.Common.Time.{second}
use session_service.Repository.Postgres.Connect.{
  Driver, max_retries, attempt, pause, retry, new_repository,
}

module _ {Handle Net : Type 0} (driver : Driver Handle Net) (database_url : String) where
  -- A round has failed from `s` to `t` with that error: the database could not be opened, or it did not
  -- answer a ping and was closed again.
  pub data Refused (s : Net) (e : GoError) (t : Net) : Type 0 where
    unopened : driver.open_db database_url s ≡ (err e, t) → Refused s e t
    silent :
        (db : Handle) (s₁ s₂ : Net)
        → driver.open_db database_url s ≡ (ok db, s₁)
        → driver.ping db s₁ ≡ (err e, s₂)
        → t ≡ (driver.close db s₂).1
        → Refused s e t

  -- The database was opened and has answered a ping.
  pub record Answered (s : Net) (db : Handle) (t : Net) : Type 0 where
    pub opened_at : Net
    pub opened : driver.open_db database_url s ≡ (ok db, opened_at)
    pub pinged : driver.ping db opened_at ≡ (ok tt, t)

  attempt-Refused :
      (s : Net) {e : GoError} {t : Net} → attempt driver database_url s ≡ (err e, t) → Refused s e t
  unfolding attempt
  attempt-Refused s {e} {t} tried =
      let r = driver.open_db database_url s in
      elim (Result-cases r.0) [
        | inr (e', failed) ↦ unopened (ground arith)
        | inl (db, opened) ↦
            let q = driver.ping db r.1 in
            elim (Result-cases q.0) [
              | inl (_, answered) ↦ absurd (ground arith)
              | inr (e', unanswered) ↦
                  silent db r.1 q.1 (ground arith) (ground arith) (ground arith)
            ]
      ]

  Refused-attempt :
      {s t : Net} {e : GoError} → Refused s e t → attempt driver database_url s ≡ (err e, t)
  unfolding attempt
  Refused-attempt (unopened failed) = ground arith
  Refused-attempt (silent db s₁ s₂ opened unanswered closed) = ground arith

  attempt-Answered :
      (s : Net) {db : Handle} {t : Net}
      → attempt driver database_url s ≡ (ok db, t)
      → Answered s db t
  unfolding attempt
  attempt-Answered s {db} {t} tried =
      let r = driver.open_db database_url s in
      elim (Result-cases r.0) [
        | inr (e', failed) ↦ absurd (ground arith)
        | inl (db', opened) ↦
            let q = driver.ping db' r.1 in
            elim (Result-cases q.0) [
              | inr (e', unanswered) ↦ absurd (ground arith)
              | inl (_, answered) ↦ record {
                opened_at = r.1;
                opened = ground arith;
                pinged = ground arith;
              }
            ]
      ]

  -- The wait behind round `n`: a second more each time, and none behind the fifth round.
  pub waited : ℕ → Net → Net
  waited n s = if ltb n 4 then driver.sleep (pos ((n + 1) * second)) s else s

  pause-waited : (n : ℕ) (s : Net) → pause driver database_url n s ≡ waited n s
  unfolding pause waited
  pause-waited n s = refl

  -- So many rounds have failed from `s` to `t`, the last with that error; the waits are between them.
  pub data Failed (s : Net) : ℕ → Option GoError → Net → Type 0 where
    untried : Failed s 0 none s
    failing :
        {n : ℕ} {last : Option GoError} {s₁ s₂ : Net} (e : GoError)
        → Failed s n last s₁
        → Refused s₁ e s₂
        → Failed s (n + 1) (some e) (waited n s₂)

  pub retry-err :
      (left n : ℕ) (last : Option GoError) (e : GoError) (t : Net) {u : Net}
      → attempt driver database_url t ≡ (err e, u)
      → retry driver database_url (ℕ.suc left) n last t
        ≡ retry driver database_url left (n + 1) (some e) (pause driver database_url n u)
  unfolding retry
  retry-err left n last e t tried = ground arith

  pub retry-ok :
      (left n : ℕ) (last : Option GoError) (db : Handle) (t : Net) {u : Net}
      → attempt driver database_url t ≡ (ok db, u)
      → retry driver database_url (ℕ.suc left) n last t ≡ (ok (some db), u)
  unfolding retry
  retry-ok left n last db t tried = ground arith

  -- The rounds that have failed are behind the loop.
  retry-Failed :
      {s t : Net} {n : ℕ} {last : Option GoError} (left : ℕ)
      → Failed s n last t
      → n + left ≡ max_retries
      → new_repository driver database_url s ≡ retry driver database_url left n last t
  unfolding new_repository retry
  retry-Failed left untried e = let five : left ≡ max_retries = ground arith in rw five refl
  retry-Failed left (failing {n} {last} {s₁} {s₂} e failed tried) total =
      retry-Failed (ℕ.suc left) failed (ground arith)
      ∙ retry-err left n last e s₁ (Refused-attempt tried)
      ∙ ap (retry driver database_url left (n + 1) (some e)) (pause-waited n s₂)

  -- A handle that has answered, after fewer than five failed rounds.
  pub record Connected (s : Net) (result : Result (Option Handle)) (s' : Net) : Type 0 where
    pub db : Handle
    pub is_ok : result ≡ ok (some db)
    pub failures : ℕ
    pub few : failures < 5
    pub last : Option GoError
    pub before : Net
    pub failed : Failed s failures last before
    pub answered : Answered before db s'

  -- Five rounds have failed, and the error is that of the last.
  pub record Unreachable (s : Net) (result : Result (Option Handle)) (s' : Net) : Type 0 where
    pub last : GoError
    pub failed : Failed s 5 (some last) s'
    pub is_err : result ≡ context "failed to connect to database after 5 attempts" (err last)

  abbrev pub Ends : Net → Result (Option Handle) × Net → Type 0
  Ends s r = Connected s r.0 r.1 ⊎ Unreachable s r.0 r.1

  retry-Ends :
      (left : ℕ) (s t : Net) (n : ℕ) (last : Option GoError)
      → Failed s n last t
      → n + left ≡ max_retries
      → Ends s (new_repository driver database_url s)
  unfolding retry
  retry-Ends ℕ.zero s t n last untried total = absurd (ground arith)
  retry-Ends ℕ.zero s t n last (failing {n = m} e failed tried) total =
      let five : m + 1 ≡ 5 = ground arith in
      rw (retry-Failed 0 (failing e failed tried) total)
        (inr (record { last = e; failed = rw five at (failing e failed tried); is_err = refl }))
  retry-Ends (ℕ.suc left) s t n last failed total =
      let r = attempt driver database_url t in
      elim (Result-cases r.0) [
        | inl (db, answered) ↦
            let answered_then : r ≡ (ok db, r.1) = λ i. (answered i, r.1) in
            rw (retry-Failed (ℕ.suc left) failed total ∙ retry-ok left n last db t answered_then) (
              inl (record {
                db = db;
                is_ok = refl;
                failures = n;
                few = ground arith;
                last = last;
                before = t;
                failed = failed;
                answered = attempt-Answered t answered_then;
              }))
        | inr (e, fails) ↦
            retry-Ends left s (waited n r.1) (n + 1) (some e)
              (failing e failed (attempt-Refused t (λ i. (fails i, r.1)))) (ground arith)
      ]

  -- `NewRepository` always ends: with a handle that was opened and has answered a ping, after fewer than
  -- five failed rounds, or, when five rounds have failed, with the error of the last. A failed round
  -- could not open the database, or got no answer and closed it again; behind the first four there are
  -- waits of one, two, three and four seconds.
  pub new_repository-Ends :
      (s : Net)
      → Connected s
          (new_repository driver database_url s).0
          (new_repository driver database_url s).1
        ⊎ Unreachable s
            (new_repository driver database_url s).0
            (new_repository driver database_url s).1
  new_repository-Ends s = retry-Ends max_retries s s 0 none untried refl

  -- A result is a handle that has answered.
  pub new_repository-Connected :
      (s : Net) (db : Option Handle)
      → (new_repository driver database_url s).0 ≡ ok db
      → Connected s
          (new_repository driver database_url s).0
          (new_repository driver database_url s).1
  new_repository-Connected s db opened = elim (new_repository-Ends s) [
    | inl connected ↦ connected
    | inr unreachable ↦ (let is_err = unreachable.is_err in absurd (cc))
  ]
