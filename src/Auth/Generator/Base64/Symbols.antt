-- ===== src/Auth/Generator/Base64/Symbols.antt =====
-- encoding/base64: the value of a symbol is read off it.
use session_service.Common.{
  ℕ, zero, suc, ◌+◌, ◌<◌, String, ◌≡◌, refl, true, false, Bool, ◌&&◌, nat_eq, arith, ◌==◌, inl, inr,
  Bool-cases,
}
use Prim.Native.String.{count}
use session_service.Auth.Generator.Base64.{symbol}

-- The value of a symbol: its place among the `more` symbols from the `n`th on, or the number after them.
unfoldable pub value_from : ℕ → ℕ → String → ℕ
value_from zero n s = n
value_from (suc more) n s =
    let rest = value_from more (n + 1) s in (elim (symbol n == s) [ true ↦ n | false ↦ rest ])

-- The symbol stands in the alphabet under its number, and is one character.
is_read : ℕ → Bool
is_read n = nat_eq (value_from 64 0 (symbol n)) n && nat_eq (count (symbol n)) 1

are_read : ℕ → Bool
are_read zero = true
are_read (suc n) = is_read n && are_read n

all_read : are_read 64 ≡ true
unfolding are_read is_read value_from symbol
all_read = refl

is_read-below : (m n : ℕ) → are_read m ≡ true → n < m → is_read n ≡ true
unfolding are_read
is_read-below zero n e p = absurd (omega arith)
is_read-below (suc m) n e p = elim (Bool-cases (nat_eq n m)) [
  | inl same ↦ let at : n ≡ m = ground arith in rw at (ground arith)
  | inr other ↦ is_read-below m n (ground arith) (ground arith)
]

pub value-symbol : (n : ℕ) → n < 64 → value_from 64 0 (symbol n) ≡ n
unfolding is_read
value-symbol n p = let read = is_read-below 64 n all_read p in ground arith

pub count-symbol : (n : ℕ) → n < 64 → count (symbol n) ≡ 1
unfolding is_read
count-symbol n p = let read = is_read-below 64 n all_read p in ground arith
