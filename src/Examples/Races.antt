-- ===== src/Examples/Races.antt =====
-- Requests that run at the same time, at concrete inputs.
use session_service.Common.{ℕ, String, ◌≡◌, ◌<◌, ◌≢◌, refl, arith, ap, ◌∙◌, nat_eq, if◌then◌else◌}
use session_service.Common.Dict.{Dict}
use session_service.Common.Int.{pos, pos_part}
use session_service.Auth.Keys.{install}
use session_service.Models.{TokenResponse}
use session_service.Examples.Services.{backend, handler, cache_laws, world_at, t₀}
use session_service.Examples.Tokens.{W, stored, refresh_form, user_form, tokens, refreshes}
use session_service.Handlers.Action.{accept}
use session_service.Handlers.Process.{
  System, Process, Step, Steps, background, here, next, turn, done, call, run, update, go_on,
}
use session_service.Handlers.Process.Alone.{run-Alone, Alone, Steps-append}
use session_service.Handlers.Token.{limit_rate, subject_for}
use session_service.Auth.Generator.{generate_access_token, generate_refresh_token, access_claims}
use session_service.Auth.Generator.Base64.{url_encode}
use session_service.Common.Time.{whole_seconds}
use session_service.Handlers.Token.Steps.{run-refresh_process}
use session_service.Handlers.Token.Steps.Grants.{grant_process}
use session_service.Handlers.Token.Race.{Background, refresh_process_once}

-- Any number of requests: one of them asks for the first tokens of a user, the others refresh one
-- token.
abbrev forms : ℕ → Dict String
forms i = if nat_eq i 2 then user_form else refresh_form

abbrev request : ℕ → Process W TokenResponse
request i = grant_process backend handler (forms i) "t1"

abbrev start : System W TokenResponse
start = record { shared = world_at stored; requests = request }

lifetime : 0 < pos_part handler.refresh_token_expiry
lifetime = ground arith

abbrev Meanwhile : W → W → Type 0
Meanwhile = Background backend handler cache_laws lifetime

-- A refresh runs alone.
first : (t : System W TokenResponse) × Alone Meanwhile 0 (request 0) start t
first = run-Alone Meanwhile 0 (request 0) start refl

-- Then the signing key is rotated.
abbrev keys_rotated : W
keys_rotated =
    let w = first.0.shared in
    record {
      server = w.server;
      db = w.db;
      sys = w.sys;
      keys = install 9 9 "k2" t₀ (pos 600) w.keys;
    }

abbrev rotated : System W TokenResponse
rotated = record { shared = keys_rotated; requests = first.0.requests }

rotation : Step Meanwhile first.0 rotated
rotation = background keys_rotated (record { up = λ up. up; revoked = λ token r. r }) refl

-- Then the request for first tokens runs.
third : (t : System W TokenResponse) × Alone Meanwhile 2 (request 2) rotated t
third = run-Alone Meanwhile 2 (request 2) rotated (first.1.others 2 refl)

-- Then the second refresh.
second : (u : System W TokenResponse) × Alone Meanwhile 1 (request 1) third.0 u
second = run-Alone Meanwhile 1 (request 1) third.0 (third.1.others 1 refl ∙ first.1.others 1 refl)

first-ended : first.0.requests 0 ≡ done (accept tokens)
first-ended =
    first.1.ended
    ∙ ap (λ r. done r.0)
        (run-refresh_process backend handler refresh_form "t1" (world_at stored) ∙ refreshes)

refresh_process_once_example : second.0.requests 1 ≢ done (accept tokens)
refresh_process_once_example =
    refresh_process_once backend handler cache_laws lifetime forms (λ i. "t1") 0 1 start first.0
      second.0 tokens tokens (λ i. refl) tt refl refl first.1.steps first-ended refl
      (first.1.others 1 refl)
      (Steps-append (next here rotation) (Steps-append third.1.steps second.1.steps))

-- One request makes its next call.
abbrev take_turn : ℕ → System W TokenResponse → System W TokenResponse
take_turn i s = elim (s.requests i) [
  | done o ↦ s
  | call m k ↦ record {
    shared = (m s.shared).1;
    requests = update s.requests i (go_on k (m s.shared).0);
  }
]

-- The first request has made its two reads of the cache and passed both checks.
abbrev checked : System W TokenResponse
checked = take_turn 0 (take_turn 0 (take_turn 0 (take_turn 0 (take_turn 0 start))))

checked-Steps : Steps Meanwhile start checked
checked-Steps =
    next
      (next
        (next (next (next here (turn 0 _ _ refl refl)) (turn 0 _ _ refl refl))
          (turn 0 _ _ refl refl))
        (turn 0 _ _ refl refl))
      (turn 0 _ _ refl refl)

-- Then the second runs from its start to its end, and after it the rest of the first.
overtaking : (t : System W TokenResponse) × Alone Meanwhile 1 (checked.requests 1) checked t
overtaking = run-Alone Meanwhile 1 (checked.requests 1) checked refl

overtaken : (t : System W TokenResponse) × Alone Meanwhile 0 (checked.requests 0) overtaking.0 t
overtaken = run-Alone Meanwhile 0 (checked.requests 0) overtaking.0 (overtaking.1.others 0 refl)

overtaking-accept : (run (checked.requests 1) checked.shared).0 ≡ accept tokens
unfolding limit_rate subject_for generate_access_token generate_refresh_token access_claims
    whole_seconds url_encode
overtaking-accept = refl

overtaken-accept :
    (run (checked.requests 0) (run (checked.requests 1) checked.shared).1).0 ≡ accept tokens
unfolding limit_rate subject_for generate_access_token generate_refresh_token access_claims
    whole_seconds url_encode
overtaken-accept = refl

-- Both of two refreshes of one token can end with tokens, when they run at the same time.
both_exchanged :
    Steps Meanwhile start overtaken.0
    × (overtaken.0.requests 0 ≡ done (accept tokens))
    × (overtaken.0.requests 1 ≡ done (accept tokens))
both_exchanged = (
  Steps-append (Steps-append checked-Steps overtaking.1.steps) overtaken.1.steps,
  overtaken.1.ended
      ∙ ap (λ w. done (run (checked.requests 0) w).0) overtaking.1.left
      ∙ ap done overtaken-accept,
  overtaken.1.others 1 refl ∙ overtaking.1.ended ∙ ap done overtaking-accept,
)
