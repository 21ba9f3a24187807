-- ===== src/Examples/Signing.antt =====
-- A JWT library that signs one token, and that it obeys the laws of the library.
use session_service.Common.{
  ℕ, String, ◌≡◌, refl, Bool, true, false, ◌&&◌, Option, none, some, List, [], ◌∷◌, Result, ok, err,
  failure, ◌==◌, eq_iff, arith, nat_eq, if◌then◌else◌, ◌∙◌, sym,
}
use session_service.Common.Dict.{lookup}
use session_service.Common.Int.{pos, ltb_ℤ}
use session_service.Common.Time.{Time, unix}
use session_service.Services.{Claim, Claims, str, num, strs, Header, Token, Jwt}
use session_service.Auth.Validator.Straddled.{SignatureLaws}
use session_service.Services.Laws.{rs256, kid_claim, IsLive, JwtLaws}

-- The claims of the one token.
abbrev pub claims : Claims
claims =
    ("iss", str "session-service")
    ∷ ("aud", str "api")
    ∷ ("exp", num (pos 1764406800))
    ∷ ("iat", num (pos 1764403200))
    ∷ ("jti", str "id-2")
    ∷ ("sub", str "u1")
    ∷ ("oid", str "u1")
    ∷ ("tid", str "t1")
    ∷ ("roles", strs ("admin" ∷ []))
    ∷ []

abbrev same_strings : List String → List String → Bool
same_strings [] [] = true
same_strings (s ∷ ss) (t ∷ ts) = s == t && same_strings ss ts
same_strings _ _ = false

abbrev same_claim : Claim → Claim → Bool
same_claim (str s) (str t) = s == t
same_claim (num (pos n)) (num (pos m)) = nat_eq n m
same_claim (strs ss) (strs ts) = same_strings ss ts
same_claim _ _ = false

abbrev same_claims : Claims → Claims → Bool
same_claims [] [] = true
same_claims ((i, c) ∷ cs) ((j, d) ∷ ds) = i == j && same_claim c d && same_claims cs ds
same_claims _ _ = false

same_strings-eq : (ss ts : List String) → same_strings ss ts ≡ true → ss ≡ ts
same_strings-eq [] [] e = refl
same_strings-eq (s ∷ ss) (t ∷ ts) e = ground (arith, eq_iff s t, same_strings-eq ss ts)
same_strings-eq [] (_ ∷ _) e = cc
same_strings-eq (_ ∷ _) [] e = cc

same_claim-eq : (c d : Claim) → same_claim c d ≡ true → c ≡ d
same_claim-eq (str s) (str t) e = ground (arith, eq_iff s t)
same_claim-eq (num (pos n)) (num (pos m)) e = ground arith
same_claim-eq (strs ss) (strs ts) e = ground (arith, same_strings-eq ss ts)
same_claim-eq _ _ e = cc

same_claims-eq : (cs ds : Claims) → same_claims cs ds ≡ true → cs ≡ ds
same_claims-eq [] [] e = refl
same_claims-eq ((i, c) ∷ cs) ((j, d) ∷ ds) e =
    ground (arith, eq_iff i j, same_claim-eq c d, same_claims-eq cs ds)
same_claims-eq [] (_ ∷ _) e = cc
same_claims-eq (_ ∷ _) [] e = cc

abbrev pub public_of : ℕ → ℕ
public_of k = k

-- The library that signs with that key only.
module _ (signer : ℕ) where
  abbrev signed_by : Option String → Claims → Option ℕ → Result String
  signed_by (some kid) cs (some k) =
      if kid == "k1" && same_claims cs claims && nat_eq k signer
      then ok "signed"
      else err (failure "not signed here")
  signed_by _ _ _ = err (failure "no key")

  abbrev checked_with : Time → Result ℕ → Result Token
  checked_with now (err e) = err e
  checked_with now (ok key) =
      if nat_eq key signer && ltb_ℤ (unix now) (pos 1764406800)
      then ok
          (record { header = rs256 (kid_claim (some "k1")); valid = true; claims = some claims })
      else err (failure "token is expired or unverifiable")

  abbrev pub jwt_of : Jwt ℕ ℕ
  jwt_of = record {
    signed_string = signed_by;
    parse = λ methods now s key.
        if s == "signed"
        then checked_with now (key (rs256 (kid_claim (some "k1"))))
        else err (failure "token is malformed");
  }

  signed_by-ok :
      (kid : Option String) (cs : Claims) (k : ℕ) (s : String)
      → signed_by kid cs (some k) ≡ ok s
      → (kid ≡ some "k1") × (cs ≡ claims) × (k ≡ signer) × (s ≡ "signed")
  signed_by-ok none cs k s e = cc
  signed_by-ok (some kid) cs k s e = (
    ground (arith, eq_iff kid "k1"),
    same_claims-eq cs claims (ground arith),
    ground arith,
    ground arith,
  )

  -- A good parse is of the signed text, under the key of its signer.
  pub parsed :
      (now : Time) (r : Result ℕ) {t : Token}
      → checked_with now r ≡ ok t
      → (r ≡ ok signer) × (t.header ≡ rs256 (kid_claim (some "k1")))
  parsed now (err e) h = cc
  parsed now (ok key) h = (ground arith, ground arith)

  pub parse-eq-ok :
      (methods : List String) (now : Time) (s : String) (key : Header → Result ℕ) (t : Token)
      → jwt_of.parse methods now s key ≡ ok t
      → (k : ℕ) × (key t.header ≡ ok k) × ((s ≡ "signed") × (k ≡ signer))
  parse-eq-ok methods now s key t e =
      let (verifies, header) =
        parsed now (key (rs256 (kid_claim (some "k1")))) {t = t} (ground arith) in
      (signer, rw header verifies, (ground (arith, eq_iff s "signed"), refl))

  same_header :
      (kid : Option String) (cs : Claims) (k : ℕ) (s : String) (now : Time)
      (key : Header → Result ℕ) (t : Token)
      → signed_by kid cs (some k) ≡ ok s
      → (if s == "signed"
          then checked_with now (key (rs256 (kid_claim (some "k1"))))
          else err (failure "token is malformed"))
        ≡ ok t
      → t.header ≡ rs256 (kid_claim kid)
  same_header kid cs k s now key t signed e =
      let (_, header) = parsed now (key (rs256 (kid_claim (some "k1")))) {t = t} (ground arith) in
      rw (signed_by-ok kid cs k s signed).0 header

  pub parse-signed_by :
      (kid : Option String) (cs : Claims) (k : ℕ) (s : String) (now : Time)
      (key : Header → Result ℕ)
      → signed_by kid cs (some k) ≡ ok s
      → key (rs256 (kid_claim kid)) ≡ ok k
      → IsLive now cs
      → jwt_of.parse ("RS256" ∷ []) now s key
        ≡ ok (record { header = rs256 (kid_claim kid); valid = true; claims = some cs })
  parse-signed_by kid cs k s now key e known (exp, found, live) =
      let (kid_eq, cs_eq, k_eq, s_eq) = signed_by-ok kid cs k s e in
      let known' : key (rs256 (kid_claim (some "k1"))) ≡ ok signer = cc in
      let found' : lookup "exp" claims ≡ some (num exp) = cc in
      let exp_eq : exp ≡ pos 1764406800 = cc in
      let live' : ltb_ℤ (unix now) (pos 1764406800) ≡ true = rw exp_eq at live in
      let own : nat_eq signer signer ≡ true = ground arith in
      rw (kid_eq, cs_eq, s_eq, known', live', own) refl

  abbrev pub laws_of : JwtLaws public_of jwt_of
  laws_of = record {
    Signed = λ p s. (s ≡ "signed") × (p ≡ signer);
    parse_sound = parse-eq-ok;
    parse_signed = parse-signed_by;
  }

abbrev pub jwt : Jwt ℕ ℕ
jwt = jwt_of 7

abbrev pub jwt_laws : JwtLaws public_of jwt
jwt_laws = laws_of 7

-- A signed text has one header, and verifies under its signer's key alone.
pub signature_laws : (signer : ℕ) → SignatureLaws public_of (jwt_of signer) (laws_of signer)
signature_laws signer = record {
  header = λ kid cs k s methods now key t signed parsed_ok.
      same_header signer kid cs k s now key t signed parsed_ok;
  signer = λ kid cs k s p signed (same, key). key ∙ sym (signed_by-ok signer kid cs k s signed).2;
}
