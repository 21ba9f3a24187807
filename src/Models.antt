-- ===== src/Models.antt =====
-- internal/models/models.go. A nil pointer is `none`, and a nil slice is the `none` of `Slice`.
use session_service.Common.{String, Bool, Option, Slice}
use session_service.Common.Int.{ℤ}
use session_service.Common.Time.{Time}
use session_service.Services.{Claims}

pub record Tenant : Type 0 where
  pub id : String
  pub external_tid : String
  pub name : String
  pub created_at : Time
  pub updated_at : Time

pub record User : Type 0 where
  pub id : String
  pub tenant_id : String
  pub email : String
  pub full_name : String
  pub phone_number : String
  pub created_at : Time
  pub updated_at : Time

record UserRole : Type 0 where
  pub user_id : String
  pub role : String

pub record Client : Type 0 where
  pub id : ℤ
  pub client_id : String
  pub client_secret_hash : String
  pub rate_limit : ℤ
  pub tenant_id : String
  pub user_id : String
  pub created_at : Time
  pub updated_at : Time

-- The fields of a token request, which no code reads as one value: the handler reads the form.
record TokenRequest : Type 0 where
  grant_type : String
  client_id : String
  client_secret : String
  refresh_token : String

pub record TokenResponse : Type 0 where
  pub access_token : String
  pub token_type : String
  pub expires_in : ℤ
  pub refresh_token : String

pub record TokenSubject : Type 0 where
  pub user_id : String
  pub tenant_id : String
  pub roles : Slice String
  pub scopes : Slice String

pub record RefreshTokenData : Type 0 where
  pub client_id : String
  pub subject : Option TokenSubject
  pub expires_at : Time

pub record VerifyRequest : Type 0 where
  pub token : String

-- The nil map of claims of a refusal is `none`.
pub record VerifyResponse : Type 0 where
  pub valid : Bool
  pub claims : Option Claims
  pub message : String
