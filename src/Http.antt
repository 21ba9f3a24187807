-- ===== src/Http.antt =====
-- Requests and responses (net/http, gorilla/mux), as far as the handlers read and write them.
use session_service.Common.{ℕ, String, [], ◌∷◌, Option, none, some, Result}
use session_service.Common.Dict.{Dict, lookup}
use session_service.Models.{VerifyRequest}
use Prim.Native.String

-- The form is the outcome of `r.ParseForm()`, its values in the order in which `r.FormValue` takes
-- them; the JSON body is the outcome of decoding it into a `VerifyRequest`.
pub record Request : Type 0 where
  pub method : String
  pub path : String
  pub vars : Dict String
  pub form : Result (Dict String)
  pub json_body : Result VerifyRequest

-- A plain text, the JSON of a service error, or the JSON of a value.
pub data Body (A : Type 0) : Type 0 where
  plain : String → Body A
  error_body : String → String → Body A
  json : A → Body A

pub record Response (A : Type 0) : Type 0 where
  pub status : ℕ
  pub headers : Dict String
  pub body : Body A

-- A missing key of a map of strings, and a missing form value, read as the empty string.
abbrev or_empty : Option String → String
or_empty none = ""
or_empty (some s) = s

-- `mux.Vars(r)[name]`
abbrev pub var : Request → String → String
var r name = or_empty (lookup name r.vars)

-- `r.FormValue(name)` of a parsed form
abbrev pub form_value : Dict String → String → String
form_value form name = or_empty (lookup name form)

-- `http.Error(w, text, status)`
unfoldable pub http_error : {A : Type 0} → String → ℕ → Response A
http_error text status = record {
  status = status;
  headers =
      ("Content-Type", "text/plain; charset=utf-8") ∷ ("X-Content-Type-Options", "nosniff") ∷ [];
  body = plain (String.◌++◌ text "\n");
}
