-- ===== src/Json.antt =====
-- encoding/json, as far as the structs kept in Redis use it. Values are trees; their text, and the
-- RFC 3339 text of an instant, are the library's and a parameter. Members are found by their exact
-- names, and a number is a whole one.
pub mod Records
use session_service.Common.{
  ℕ, String, Option, none, some, List, [], ◌∷◌, Slice, Result, ok, err, failure, ◌>>=◌, ◌==◌, ◌≡◌,
  if◌then◌else◌,
}
use session_service.Common.Int.{ℤ}
use session_service.Common.Time.{Time, zero_time}

mutual
  pub data Json : Type 0 where
    null : Json
    str : String → Json
    int : ℤ → Json
    arr : Items → Json
    obj : Members → Json

  pub data Items : Type 0 where
    nil : Items
    item : Json → Items → Items

  pub data Members : Type 0 where
    end : Members
    member : String → Json → Members → Members

-- The text of a value, and of an instant (`time.Time` fails outside the years 0 to 9999).
pub record JsonText : Type 0 where
  pub render : Json → Result String
  pub parse : String → Result Json
  pub format_time : Time → Result String
  pub parse_time : String → Result Time

pub record JsonTextLaws (text : JsonText) : Type 0 where
  pub parse-render : (v : Json) {s : String} → text.render v ≡ ok s → text.parse s ≡ ok v
  pub parse_time-format_time :
      (t : Time) {s : String} → text.format_time t ≡ ok s → text.parse_time s ≡ ok t

-- `[]string`: nil is `null`.
abbrev pub items : List String → Items
items [] = nil
items (s ∷ rest) = item (str s) (items rest)

abbrev pub of_slice : Slice String → Json
of_slice none = null
of_slice (some xs) = arr (items xs)

abbrev pub find : String → Members → Json
find name end = null
find name (member key v rest) = if key == name then v else find name rest

-- Decoding into a field: `null`, which a missing member counts as, leaves the zero value.
abbrev pub mismatch {ℓ} : {A : Type ℓ} → Result A
mismatch = err (failure "json: cannot unmarshal value into Go struct field")

abbrev pub to_string : Json → Result String
to_string null = ok ""
to_string (str s) = ok s
to_string _ = mismatch

abbrev pub to_int : ℤ → Json → Result ℤ
to_int zero_value null = ok zero_value
to_int zero_value (int n) = ok n
to_int zero_value _ = mismatch

-- The elements of a `[]string`; a `null` among them is the empty string.
abbrev pub to_strings : Items → Result (List String)
to_strings nil = ok []
to_strings (item v rest) = to_string v >>= λ s. to_strings rest >>= λ ss. ok (s ∷ ss)

abbrev pub to_slice : Json → Result (Slice String)
to_slice null = ok none
to_slice (arr xs) = to_strings xs >>= λ ss. ok (some ss)
to_slice _ = mismatch

abbrev pub to_time : JsonText → Json → Result Time
to_time text null = ok zero_time
to_time text (str s) = text.parse_time s
to_time text _ = mismatch
