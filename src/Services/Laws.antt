-- ===== src/Services/Laws.antt =====
-- The documented behaviour of the JWT library, as hypotheses.
use session_service.Common.{String, true, Option, none, some, List, [], ◌∷◌, Result, ok, ◌≡◌}
use session_service.Common.Dict.{lookup}
use session_service.Common.Int.{ltb_ℤ}
use session_service.Common.Time.{Time, unix}
use session_service.Services.{Jwt, Header, Token, Claims, Claim, str, num}

-- The header of an RS256 token.
abbrev pub rs256 : Option Claim → Header
rs256 kid = record { alg = "RS256"; is_rsa = true; kid = kid }

abbrev pub kid_claim : Option String → Option Claim
kid_claim none = none
kid_claim (some kid) = some (str kid)

-- The claims carry an expiry that the instant has not reached.
abbrev pub IsLive : Time → Claims → Type 0
IsLive now claims = (e : _) × (lookup "exp" claims ≡ some (num e)) × (ltb_ℤ (unix now) e ≡ true)

pub record JwtLaws {PrivateKey PublicKey : Type 0} (public_of : PrivateKey → PublicKey)
    (j : Jwt PrivateKey PublicKey) : Type 1 where
  -- a signature on the text that the key verifies
  pub Signed : PublicKey → String → Type 0
  -- A parsed token is signed for the key that the key function chose for its header.
  pub parse_sound :
      (methods : List String) (now : Time) (s : String) (key : Header → Result PublicKey)
      (t : Token)
      → j.parse methods now s key ≡ ok t
      → (k : PublicKey) × (key t.header ≡ ok k) × Signed k s
  -- A signed token parses to what was signed, under the signer's public key and before its expiry.
  pub parse_signed :
      (kid : Option String) (claims : Claims) (k : PrivateKey) (s : String) (now : Time)
      (key : Header → Result PublicKey)
      → j.signed_string kid claims (some k) ≡ ok s
      → key (rs256 (kid_claim kid)) ≡ ok (public_of k)
      → IsLive now claims
      → j.parse ("RS256" ∷ []) now s key
        ≡ ok (record { header = rs256 (kid_claim kid); valid = true; claims = some claims })
