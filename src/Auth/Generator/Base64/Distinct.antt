-- ===== src/Auth/Generator/Base64/Distinct.antt =====
-- encoding/base64: a text is read back as the bytes that it was made of, and how long it is.
use session_service.Common.{
  ℕ, ◌+◌, ◌*◌, ◌/◌, ◌%◌, ◌<◌, String, ◌≡◌, refl, false, List, [], ◌∷◌, nat_eq, arith, ap, ◌∙◌,
  if◌then◌else◌,
}
use Prim.Native.String.{count, ◌++◌}
use text.Mathlib.TextLemmas.{length-eq-one_iff, length-append, cons-append, nil-append}
use session_service.Auth.Generator.Base64.{symbol, symbols, join, url_encode}
use session_service.Auth.Generator.Base64.Symbols.{value_from, value-symbol, count-symbol}

-- The bytes of a group of four symbols, and those that follow.
read_group : ℕ → ℕ → ℕ → ℕ → List ℕ → List ℕ
read_group p q r s rest =
    if nat_eq r 64
    then (p * 4 + q / 16) ∷ []
    else if nat_eq s 64
    then (p * 4 + q / 16) ∷ (q % 16 * 16 + r / 4) ∷ []
    else (p * 4 + q / 16) ∷ (q % 16 * 16 + r / 4) ∷ (r % 4 * 64 + s) ∷ rest

read_groups : List ℕ → List ℕ
read_groups (p ∷ q ∷ r ∷ s ∷ rest) = read_group p q r s (read_groups rest)
read_groups (p ∷ q ∷ r ∷ []) = []
read_groups (p ∷ q ∷ []) = []
read_groups (p ∷ []) = []
read_groups [] = []

-- The values of the characters of a text.
values : String → List ℕ
values String.[] = []
values (String.◌∷◌ c s) = value_from 64 0 (String.◌∷◌ c String.[]) ∷ values s

-- `DecodeString`, on what `EncodeToString` gives
pub url_decode : String → List ℕ
url_decode s = read_groups (values s)

abbrev pub AreBytes : List ℕ → Type 0
AreBytes [] = Unit
AreBytes (b ∷ rest) = (b < 256) × AreBytes rest

values-one : (s t : String) → count s ≡ 1 → values (s ++ t) ≡ value_from 64 0 s ∷ values t
unfolding values
values-one s t e =
    let (c, one) = length-eq-one_iff.0 e in rw (one, cons-append c "" t, nil-append t) refl

values-symbol : (n : ℕ) (t : String) → n < 64 → values (symbol n ++ t) ≡ n ∷ values t
values-symbol n t p =
    values-one (symbol n) t (count-symbol n p) ∙ ap (λ v. v ∷ values t) (value-symbol n p)

value-pad : value_from 64 0 "=" ≡ 64
unfolding value_from symbol
value-pad = refl

read-one : (a : ℕ) → a < 256 → read_group (a / 4) (a % 4 * 16) 64 64 [] ≡ a ∷ []
unfolding read_group
read-one a p = ap (λ x. x ∷ []) (omega arith)

first_byte : (a b : ℕ) → a < 256 → b < 256 → a / 4 * 4 + (a % 4 * 16 + b / 16) / 16 ≡ a
first_byte a b p q = omega arith

second_byte :
    (a b c : ℕ)
    → a < 256
    → b < 256
    → c < 256
    → (a % 4 * 16 + b / 16) % 16 * 16 + (b % 16 * 4 + c / 64) / 4 ≡ b
second_byte a b c p q r = omega arith

third_byte : (b c : ℕ) → b < 256 → c < 256 → (b % 16 * 4 + c / 64) % 4 * 64 + c % 64 ≡ c
third_byte b c q r = omega arith

below-no_pad : (n : ℕ) → n < 64 → nat_eq n 64 ≡ false
below-no_pad n p = ground arith

read-two :
    (a b : ℕ)
    → a < 256
    → b < 256
    → read_group (a / 4) (a % 4 * 16 + b / 16) (b % 16 * 4) 64 [] ≡ a ∷ b ∷ []
unfolding read_group
read-two a b p q =
    let last : (a % 4 * 16 + b / 16) % 16 * 16 + b % 16 * 4 / 4 ≡ b = omega arith in
    rw (below-no_pad (b % 16 * 4) (omega arith), first_byte a b p q, last) refl

read-three :
    (a b c : ℕ) (rest : List ℕ)
    → a < 256
    → b < 256
    → c < 256
    → read_group (a / 4) (a % 4 * 16 + b / 16) (b % 16 * 4 + c / 64) (c % 64) rest
      ≡ a ∷ b ∷ c ∷ rest
unfolding read_group
read-three a b c rest p q r =
    rw
      (
        below-no_pad (b % 16 * 4 + c / 64) (omega arith),
        below-no_pad (c % 64) (omega arith),
        first_byte a b p q,
        second_byte a b c p q r,
        third_byte b c q r,
      )
      refl

-- The encoding is read back.
pub url_decode-url_encode :
    (bytes : List ℕ) → AreBytes bytes → url_decode (url_encode bytes) ≡ bytes
unfolding url_decode url_encode symbols join read_groups values
url_decode-url_encode [] h = refl
url_decode-url_encode (a ∷ []) (p, _) =
    rw
      (
        values-symbol (a / 4) (join (symbol (a % 4 * 16) ∷ "=" ∷ "=" ∷ [])) (omega arith),
        values-symbol (a % 4 * 16) (join ("=" ∷ "=" ∷ [])) (omega arith),
        value-pad,
      )
      (read-one a p)
url_decode-url_encode (a ∷ b ∷ []) (p, (q, _)) =
    rw
      (
        values-symbol (a / 4) (join (symbol (a % 4 * 16 + b / 16) ∷ symbol (b % 16 * 4) ∷ "=" ∷ []))
            (omega arith),
        values-symbol (a % 4 * 16 + b / 16) (join (symbol (b % 16 * 4) ∷ "=" ∷ [])) (omega arith),
        values-symbol (b % 16 * 4) (join ("=" ∷ [])) (omega arith),
        value-pad,
      )
      (read-two a b p q)
url_decode-url_encode (a ∷ b ∷ c ∷ rest) (p, (q, (r, h))) =
    rw
      (
        values-symbol (a / 4)
            (join (
              symbol (a % 4 * 16 + b / 16)
              ∷ symbol (b % 16 * 4 + c / 64)
              ∷ symbol (c % 64)
              ∷ symbols rest))
            (omega arith),
        values-symbol (a % 4 * 16 + b / 16)
            (join (symbol (b % 16 * 4 + c / 64) ∷ symbol (c % 64) ∷ symbols rest)) (omega arith),
        values-symbol (b % 16 * 4 + c / 64) (join (symbol (c % 64) ∷ symbols rest)) (omega arith),
        values-symbol (c % 64) (join (symbols rest)) (omega arith),
        url_decode-url_encode rest h,
      )
      (read-three a b c rest p q r)

-- `len(bytes)`
abbrev pub size : List ℕ → ℕ
size [] = 0
size (b ∷ rest) = size rest + 1

count-join : (n : ℕ) (t : String) → n < 64 → count (symbol n ++ t) ≡ 1 + count t
count-join n t p = length-append (symbol n) t ∙ ap (λ c. c + count t) (count-symbol n p)

-- Every three bytes that are begun take four characters.
pub count-url_encode :
    (bytes : List ℕ) → AreBytes bytes → count (url_encode bytes) ≡ (size bytes + 2) / 3 * 4
unfolding url_encode symbols join
count-url_encode [] h = refl
count-url_encode (a ∷ []) (p, _) =
    rw
      (
        count-join (a / 4) (join (symbol (a % 4 * 16) ∷ "=" ∷ "=" ∷ [])) (omega arith),
        count-join (a % 4 * 16) (join ("=" ∷ "=" ∷ [])) (omega arith),
      )
      refl
count-url_encode (a ∷ b ∷ []) (p, (q, _)) =
    rw
      (
        count-join (a / 4) (join (symbol (a % 4 * 16 + b / 16) ∷ symbol (b % 16 * 4) ∷ "=" ∷ []))
            (omega arith),
        count-join (a % 4 * 16 + b / 16) (join (symbol (b % 16 * 4) ∷ "=" ∷ [])) (omega arith),
        count-join (b % 16 * 4) (join ("=" ∷ [])) (omega arith),
      )
      refl
count-url_encode (a ∷ b ∷ c ∷ rest) (p, (q, (r, h))) =
    let others = count-url_encode rest h in
    rw
      (
        count-join (a / 4)
            (join (
              symbol (a % 4 * 16 + b / 16)
              ∷ symbol (b % 16 * 4 + c / 64)
              ∷ symbol (c % 64)
              ∷ symbols rest))
            (omega arith),
        count-join (a % 4 * 16 + b / 16)
            (join (symbol (b % 16 * 4 + c / 64) ∷ symbol (c % 64) ∷ symbols rest)) (omega arith),
        count-join (b % 16 * 4 + c / 64) (join (symbol (c % 64) ∷ symbols rest)) (omega arith),
        count-join (c % 64) (join (symbols rest)) (omega arith),
        others,
      )
      (omega arith)
