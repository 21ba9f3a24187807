-- ===== src/Handlers/Verify/Statuses.antt =====
-- internal/handlers/verify.go: the statuses that the verification endpoint can send.
use session_service.Common.{
  String, ◌≡◌, ◌⊎◌, refl, true, false, Result, ok, err, arith, Bool-cases, Result-cases, inl, inr,
  ◌==◌,
}
use session_service.Errors.{wrap}
use session_service.Models.{VerifyRequest, VerifyResponse}
use session_service.Http.{Request, Response, var, http_error}
use session_service.Auth.Validator.{TokenValidator, as_string, validate_token}
use session_service.Services.{Claims}
use session_service.Handlers.Action.{World, Backend, send_error, send_json}
use session_service.Handlers.Verify.{handle_verify, check_token, verdict, answer}
use session_service.Common.Dict.{lookup}
use session_service.Common.{Option, none, some}

-- A request that can be answered: a POST for a tenant, with a token.
pub record AsksForToken (r : Request) : Type 0 where
  pub post : (r.method == "POST") ≡ true
  pub tenant : (var r "tenant_id" == "") ≡ false
  pub request : VerifyRequest
  pub decoded : r.json_body ≡ ok request
  pub token : (request.token == "") ≡ false

-- The response is a verdict about a token.
abbrev pub IsVerdict : Response VerifyResponse → Type 0
IsVerdict response = (shown : VerifyResponse) × (response ≡ send_json 200 shown)

answer-IsVerdict :
    (tenant : String) (claims : Claims) (tid : Option String) → IsVerdict (answer tenant claims tid)
answer-IsVerdict tenant claims none = (_, refl)
answer-IsVerdict tenant claims (some tid) = elim (Bool-cases (tid == tenant)) [
  | inl same ↦ rw same (_, refl)
  | inr other ↦ rw other (_, refl)
]

verdict-IsVerdict : (tenant : String) (result : Result Claims) → IsVerdict (verdict tenant result)
verdict-IsVerdict tenant (err e) = (_, refl)
verdict-IsVerdict tenant (ok claims) =
    answer-IsVerdict tenant claims (as_string (lookup "tid" claims))

module _ {Server Database State PrivateKey PublicKey : Type 0}
    (b : Backend Server Database State PrivateKey PublicKey) (tv : TokenValidator) where
  abbrev W : Type 0
  W = World Server Database State PrivateKey PublicKey

  -- A request is answered by a verdict, or by 405, 400 or 401 if it cannot be; neither changes the cache
  -- server, the database or the keys.
  abbrev pub Answered : Request → W → Response VerifyResponse × W → Type 0
  Answered r w result =
      ((AsksForToken r × IsVerdict result.0)
        ⊎ (¬ AsksForToken r
            × ((result.0.status ≡ 405) ⊎ (result.0.status ≡ 400) ⊎ (result.0.status ≡ 401))))
      × (result.1.server ≡ w.server)
      × (result.1.db ≡ w.db)
      × (result.1.keys ≡ w.keys)

  check_token-IsVerdict :
      (tenant token : String) (w : W) → IsVerdict (check_token b tv tenant token w).0
  unfolding check_token
  check_token-IsVerdict tenant token w =
      verdict-IsVerdict tenant
        (validate_token b.system b.jwt tv b.cache w.keys token w.server w.sys).0

  -- A POST for a tenant with a token is answered by a verdict with status 200; any other request by 405,
  -- 400 or 401. Neither changes the cache server, the database or the keys.
  pub handle_verify-status : (r : Request) (w : W) → Answered r w (handle_verify b tv r w)
  unfolding handle_verify check_token send_error http_error wrap
  handle_verify-status r w = elim (Bool-cases (r.method == "POST")) [
    | inr other ↦ rw other (inr (λ asks. ground (arith, asks.post), inl refl), refl, refl, refl)
    | inl post ↦ elim (Bool-cases (var r "tenant_id" == "")) [
      | inl missing ↦
          rw (post, missing)
            (inr (λ asks. ground (arith, asks.tenant), inr (inl refl)), refl, refl, refl)
      | inr tenant ↦ elim (Result-cases r.json_body) [
        | inr (e, garbled) ↦
            rw (post, tenant, garbled)
              (inr (λ asks. ground (arith, asks.decoded), inr (inr refl)), refl, refl, refl)
        | inl (request, decoded) ↦ elim (Bool-cases (request.token == "")) [
          | inl empty ↦
              rw (post, tenant, decoded, empty)
                (
                  inr (λ asks. ground (arith, asks.decoded, asks.token), inr (inr refl)),
                  refl,
                  refl,
                  refl,
                )
          | inr token ↦
              rw (post, tenant, decoded, token)
                (
                  inl (
                    record {
                      post = post;
                      tenant = tenant;
                      request = request;
                      decoded = refl;
                      token = token;
                    },
                    check_token-IsVerdict (var r "tenant_id") request.token w,
                  ),
                  refl,
                  refl,
                  refl,
                )
        ]
      ]
    ]
  ]
