-- ===== src/Examples/Random.antt =====
-- Refresh tokens from a random source, at concrete inputs.
use session_service.Common.{
  ℕ, zero, suc, ◌+◌, ◌*◌, ◌/◌, ◌%◌, String, ◌≡◌, refl, List, [], ◌∷◌, ok, err, failure, arith,
}
use Prim.Native.String.{count}
use session_service.Services.{System}
use session_service.Auth.Generator.{generate_refresh_token}
use session_service.Auth.Generator.Base64.{url_encode}
use session_service.Auth.Generator.Base64.Distinct.{AreBytes, size}
use session_service.Auth.Generator.RefreshTokens.{RandomLaws, generate_refresh_token_distinct}
use session_service.Examples.Services.{generator, t₀}

-- A source that counts its calls and fills the slice with the number.
abbrev filled : ℕ → ℕ → List ℕ
filled zero s = []
filled (suc n) s = s % 256 ∷ filled n s

abbrev counter : System ℕ ℕ
counter = record {
  now = λ s. (t₀, s);
  new_uuid = λ s. ("id", s);
  generate_key = λ bits s. (err (failure "no key"), s);
  random_bytes = λ n s. (ok (filled n s), s + 1);
}

filled-AreBytes : (n s : ℕ) → AreBytes (filled n s)
filled-AreBytes zero s = tt
filled-AreBytes (suc n) s = (omega arith, filled-AreBytes n s)

size-filled : (n s : ℕ) → size (filled n s) ≡ n
size-filled zero s = refl
size-filled (suc n) s = let rest = size-filled n s in omega arith

random_laws : RandomLaws counter
random_laws = record {
  fills = λ n s bytes read.
      let same : filled n s ≡ bytes = ground arith in
      rw⁻¹ same (filled-AreBytes n s, size-filled n s);
}

abbrev first : String
first = "BQUF"

abbrev second : String
second = "BgYG"

generate_refresh_token_distinct_example :
    (count first ≡ (3 + 2) / 3 * 4)
    × (first ≡ second → (counter.random_bytes 3 5).0 ≡ (counter.random_bytes 3 6).0)
unfolding generate_refresh_token url_encode
generate_refresh_token_distinct_example =
    generate_refresh_token_distinct counter generator 5 6 first second random_laws refl refl
