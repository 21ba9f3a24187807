-- ===== src/Errors.antt =====
-- pkg/errors/errors.go: the errors that the handlers send.
use session_service.Common.{ℕ, String, Option, none, some, GoError, error_text}
use Prim.Native.String.{◌++◌}

pub record ServiceError : Type 0 where
  pub code : String
  pub message : String
  pub status : ℕ
  pub cause : Option GoError

abbrev pub err_invalid_credentials : ServiceError
err_invalid_credentials = record {
  code = "INVALID_CREDENTIALS";
  message = "Invalid client credentials";
  status = 401;
  cause = none;
}

abbrev pub err_invalid_token : ServiceError
err_invalid_token = record {
  code = "INVALID_TOKEN";
  message = "Invalid or expired token";
  status = 401;
  cause = none;
}

abbrev err_token_revoked : ServiceError
err_token_revoked = record {
  code = "TOKEN_REVOKED";
  message = "Token has been revoked";
  status = 401;
  cause = none;
}

abbrev pub err_rate_limit_exceeded : ServiceError
err_rate_limit_exceeded = record {
  code = "RATE_LIMIT_EXCEEDED";
  message = "Rate limit exceeded";
  status = 429;
  cause = none;
}

abbrev pub err_invalid_grant : ServiceError
err_invalid_grant = record {
  code = "INVALID_GRANT";
  message = "Invalid grant type";
  status = 400;
  cause = none;
}

abbrev pub err_invalid_request : ServiceError
err_invalid_request = record {
  code = "INVALID_REQUEST";
  message = "Invalid request";
  status = 400;
  cause = none;
}

abbrev pub err_invalid_refresh_token : ServiceError
err_invalid_refresh_token = record {
  code = "INVALID_REFRESH_TOKEN";
  message = "Invalid or expired refresh token";
  status = 401;
  cause = none;
}

abbrev pub err_internal_server : ServiceError
err_internal_server = record {
  code = "INTERNAL_SERVER_ERROR";
  message = "Internal server error";
  status = 500;
  cause = none;
}

-- `(*ServiceError).Error`
unfoldable pub error : ServiceError → String
error e = elim e.cause [
  | some inner ↦ e.code ++ ": " ++ e.message ++ " (" ++ error_text inner ++ ")"
  | none ↦ e.code ++ ": " ++ e.message
]

-- `(*ServiceError).Unwrap`
unfoldable pub unwrap : ServiceError → Option GoError
unwrap e = e.cause

unfoldable pub wrap : GoError → ServiceError → ServiceError
wrap inner service_err = record {
  code = service_err.code;
  message = service_err.message;
  status = service_err.status;
  cause = some inner;
}
