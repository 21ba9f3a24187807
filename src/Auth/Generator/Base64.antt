-- ===== src/Auth/Generator/Base64.antt =====
-- encoding/base64: `URLEncoding.EncodeToString`, with padding.
pub mod Symbols
pub mod Distinct
use session_service.Common.{ℕ, ◌+◌, ◌*◌, ◌/◌, ◌%◌, String, ◌≡◌, refl, List, [], ◌∷◌}
use Prim.Native.String

abbrev alphabet : String
alphabet = "ABCDEFGHIJKLMNOPQRSTUVWXYZabcdefghijklmnopqrstuvwxyz0123456789-_"

-- The symbol of a six-bit value.
unfoldable symbol : ℕ → String
symbol n = String.slice alphabet n (n + 1)

-- The characters of the encoding, each a text of one character.
unfoldable symbols : List ℕ → List String
symbols [] = []
symbols (a ∷ []) = symbol (a / 4) ∷ symbol (a % 4 * 16) ∷ "=" ∷ "=" ∷ []
symbols (a ∷ b ∷ []) =
    symbol (a / 4) ∷ symbol (a % 4 * 16 + b / 16) ∷ symbol (b % 16 * 4) ∷ "=" ∷ []
symbols (a ∷ b ∷ c ∷ rest) =
    symbol (a / 4)
    ∷ symbol (a % 4 * 16 + b / 16)
    ∷ symbol (b % 16 * 4 + c / 64)
    ∷ symbol (c % 64)
    ∷ symbols rest

unfoldable join : List String → String
join [] = ""
join (s ∷ rest) = String.◌++◌ s (join rest)

unfoldable pub url_encode : List ℕ → String
unfolding symbols symbol join
url_encode bytes = join (symbols bytes)

url_encode_short : url_encode (102 ∷ 111 ∷ 111 ∷ 98 ∷ []) ≡ "Zm9vYg=="
unfolding url_encode
url_encode_short = refl

url_encode_url_alphabet : url_encode (251 ∷ 255 ∷ 254 ∷ []) ≡ "-__-"
unfolding url_encode
url_encode_url_alphabet = refl
