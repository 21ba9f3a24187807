-- ===== src/Services.antt =====
-- What the program takes from outside the repository, as records of operations: the operating
-- system's clock and random source, RSA keys and their encodings (crypto/x509, encoding/pem), and
-- the JWT library (github.com/golang-jwt/jwt/v5).
pub mod Laws
use session_service.Common.{ℕ, String, Bool, Option, List, Result}
use session_service.Common.Dict.{Dict}
use session_service.Common.Int.{ℤ}
use session_service.Common.Time.{Time}

-- The value of a JSON claim: a string, a whole number, an array of strings, or anything else.
pub data Claim : Type 0 where
  str : String → Claim
  num : ℤ → Claim
  strs : List String → Claim
  other : Claim

-- `jwt.MapClaims`
abbrev pub Claims : Type 0
Claims = Dict Claim

-- The key that x509 finds in a block that may hold keys of several kinds.
pub data ParsedKey (K : Type 0) : Type 0 where
  rsa : K → ParsedKey K
  other_kind : ParsedKey K

pub record Crypto (PrivateKey PublicKey : Type 0) : Type 0 where
  -- the field `PublicKey` of an `rsa.PrivateKey`
  pub public_of : PrivateKey → PublicKey
  -- `pem.Decode`: the bytes of the first block
  pub pem_decode : String → Option String
  pub parse_pkcs1_private_key : String → Result PrivateKey
  pub parse_pkcs8_private_key : String → Result (ParsedKey PrivateKey)
  pub parse_pkix_public_key : String → Result (ParsedKey PublicKey)
  pub parse_pkcs1_public_key : String → Result PublicKey
  -- `jwk.FromRaw` has no error
  pub is_importable : PublicKey → Bool
  -- `bcrypt.CompareHashAndPassword` returns nil
  pub bcrypt_matches : String → String → Bool

-- The clock and the random source, over a state that every reading may change.
pub record System (PrivateKey State : Type 0) : Type 0 where
  -- `time.Now()`
  pub now : State → Time × State
  -- `uuid.New().String()`
  pub new_uuid : State → String × State
  -- `rsa.GenerateKey(rand.Reader, bits)`
  pub generate_key : ℕ → State → Result PrivateKey × State
  -- `rand.Read` into a slice of that length
  pub random_bytes : ℕ → State → Result (List ℕ) × State

-- What the key function and the caller read of a `jwt.Token`.
pub record Header : Type 0 where
  pub alg : String
  -- the method is a `*jwt.SigningMethodRSA`
  pub is_rsa : Bool
  pub kid : Option Claim

pub record Token : Type 0 where
  pub header : Header
  pub valid : Bool
  -- `none` if the claims are no `jwt.MapClaims`
  pub claims : Option Claims

pub record Jwt (PrivateKey PublicKey : Type 0) : Type 0 where
  -- `token.SignedString(key)` of an RS256 token with that `kid` and these claims; the key may be nil
  pub signed_string : Option String → Claims → Option PrivateKey → Result String
  -- `jwt.Parse(s, keyFunc, WithValidMethods(methods))`, at the time that the library reads
  pub parse : List String → Time → String → (Header → Result PublicKey) → Result Token
