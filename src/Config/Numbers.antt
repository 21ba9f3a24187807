-- ===== src/Config/Numbers.antt =====
-- internal/config/config.go: the numbers of the environment, by `strconv.Atoi`, and the products of
-- `time.Duration`, which wrap around at 64 bits.
use session_service.Common.{
  ℕ, zero, suc, ◌+◌, ◌-◌, ◌*◌, ◌/◌, ◌%◌, ◌≤◌, String, ◌≡◌, refl, ◌&&◌, Option, none, some, arith,
  ltb, leb, nat_eq, if◌then◌else◌,
}
use session_service.Common.Int.{ℤ, pos, negsuc, word, signed}
use session_service.Common.Time.{Duration, second}
use Prim.Native.Char.{code}
use Prim.Native.String

-- The value of the decimal digits behind `acc`; `none` at any other character.
digits_from : ℕ → String → Option ℕ
digits_from acc String.[] = some acc
digits_from acc (String.◌∷◌ c s) =
    let rest = digits_from (acc * 10 + (code c - b'0')) s in
    if leb b'0' (code c) && leb (code c) b'9' then rest else none

-- At least one digit.
unsigned : String → Option ℕ
unfolding digits_from
unsigned String.[] = none
unsigned (String.◌∷◌ c s) = digits_from 0 (String.◌∷◌ c s)

-- The values of an `int`.
positive : Option ℕ → Option ℤ
positive none = none
positive (some n) = if ltb n 9223372036854775808 then some (pos n) else none

negative : Option ℕ → Option ℤ
negative none = none
negative (some zero) = some (pos 0)
negative (some (suc n)) = if ltb n 9223372036854775808 then some (negsuc n) else none

-- `strconv.Atoi`: an optional sign, then digits; an error is `none`
unfoldable pub atoi : String → Option ℤ
unfolding unsigned positive negative
atoi String.[] = none
atoi (String.◌∷◌ c s) =
    if nat_eq (code c) b'-'
    then negative (unsigned s)
    else if nat_eq (code c) b'+'
    then positive (unsigned s)
    else positive (unsigned (String.◌∷◌ c s))

-- `%d` of a number below 10 ^ 20; a length is below 2 ^ 63
show_from : ℕ → ℕ → String
show_from zero n = ""
show_from (suc fuel) n =
    let rest = show_from fuel (n / 10) in
    let digit = String.slice "0123456789" (n % 10) (n % 10 + 1) in
    if ltb n 10 then digit else String.◌++◌ rest digit

unfoldable pub show : ℕ → String
unfolding show_from
show n = show_from 20 n

-- `time.Duration(n) * time.Second`
unfoldable pub seconds : ℤ → Duration
seconds (pos n) = signed (n * second % word)
seconds (negsuc n) = signed ((word - suc n * second % word) % word)

-- A number of seconds is exact up to 292 years, the most that a `time.Duration` holds.
seconds_exact : (n : ℕ) → n ≤ 9223372036 → seconds (pos n) ≡ pos (n * second)
unfolding seconds
seconds_exact n h = ground arith

seconds_wraps : seconds (pos 9223372037) ≡ negsuc 9223372036709551615
unfolding seconds
seconds_wraps = refl

atoi_tests : (atoi "-12" ≡ some (negsuc 11)) × (atoi "+7" ≡ some (pos 7)) × (atoi "7x" ≡ none)
unfolding atoi
atoi_tests = (refl, refl, refl)

show_tests : (show 0 ≡ "0") × (show 1704 ≡ "1704")
unfolding show
show_tests = (refl, refl)
