-- ===== src/Handlers/Verify.antt =====
-- internal/handlers/verify.go: the verification endpoint.
pub mod Tenant
pub mod Issued
pub mod Statuses
use session_service.Common.{
  ℕ, String, Bool, true, false, not, Option, none, some, Result, ok, err, error_text, ◌==◌,
  if◌then◌else◌,
}
use session_service.Common.Dict.{lookup}
use session_service.Errors.{wrap, err_invalid_request, err_invalid_token}
use session_service.Models.{VerifyRequest, VerifyResponse}
use session_service.Services.{Claims}
use session_service.Http.{Request, Response, var, http_error}
use session_service.Auth.Validator.{TokenValidator, as_string, validate_token}
use session_service.Handlers.Action.{World, Backend, send_error, send_json}

-- `VerifyHandler`, but for its logger
pub record VerifyHandler : Type 0 where
  pub validator : TokenValidator

-- `NewVerifyHandler`
abbrev pub new_verify_handler : TokenValidator → VerifyHandler
new_verify_handler validator = record { validator = validator }

-- `sendResponse`
abbrev send_response : ℕ → VerifyResponse → Response VerifyResponse
send_response status response = send_json status response

-- The answer to a token that does not pass.
abbrev pub refusal : String → Response VerifyResponse
refusal message = send_response 200 (record { valid = false; claims = none; message = message })

-- The answer by the `tid` claim: one that is a string must be the tenant of the path.
abbrev pub answer : String → Claims → Option String → Response VerifyResponse
answer tenant claims none =
    send_response 200 (record { valid = true; claims = some claims; message = "" })
answer tenant claims (some tid) =
    if not (tid == tenant)
    then refusal "tenant_id in path does not match token tenant_id"
    else send_response 200 (record { valid = true; claims = some claims; message = "" })

abbrev pub verdict : String → Result Claims → Response VerifyResponse
verdict tenant (err e) = refusal (error_text e)
verdict tenant (ok claims) = answer tenant claims (as_string (lookup "tid" claims))

module _ {Server Database State PrivateKey PublicKey : Type 0}
    (b : Backend Server Database State PrivateKey PublicKey) (tv : TokenValidator) where
  abbrev W : Type 0
  W = World Server Database State PrivateKey PublicKey

  unfoldable pub check_token : String → String → W → Response VerifyResponse × W
  check_token tenant token w =
      let (result, s) = validate_token b.system b.jwt tv b.cache w.keys token w.server w.sys in
      (verdict tenant result, record w { sys = s })

  abbrev pub check_body : String → Result VerifyRequest → W → Response VerifyResponse × W
  check_body tenant (err e) w = (send_error (wrap e err_invalid_token), w)
  check_body tenant (ok request) w =
      if request.token == ""
      then (send_error err_invalid_token, w)
      else check_token tenant request.token w

  -- `HandleVerify`
  unfoldable pub handle_verify : Request → W → Response VerifyResponse × W
  handle_verify r w =
      if not (r.method == "POST")
      then (http_error "Method not allowed" 405, w)
      else if var r "tenant_id" == ""
      then (send_error err_invalid_request, w)
      else check_body (var r "tenant_id") r.json_body w
