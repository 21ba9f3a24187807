-- ===== src/Handlers/Token/Roles.antt =====
-- internal/handlers/token.go: the comma-separated roles of a request, by `strings.Split` and
-- `strings.TrimSpace`, over the characters of the text.
pub mod Clean
pub mod Joined
use session_service.Common.{
  ℕ, String, Bool, ◌&&◌, ◌||◌, List, [], ◌∷◌, Slice, none, some, ◌==◌, leb, nat_eq, if◌then◌else◌,
  ◌≡◌, refl,
}
use Prim.Native.Char.{Char, code}

-- `unicode.IsSpace`
unfoldable pub is_space : ℕ → Bool
is_space c =
    (leb 9 c && leb c 13)
    || nat_eq c 0x20
    || nat_eq c 0x85
    || nat_eq c 0xa0
    || nat_eq c 0x1680
    || (leb 0x2000 c && leb c 0x200a)
    || nat_eq c 0x2028
    || nat_eq c 0x2029
    || nat_eq c 0x202f
    || nat_eq c 0x205f
    || nat_eq c 0x3000

trim_left : String → String
trim_left String.[] = ""
trim_left (String.◌∷◌ c s) =
    let rest = trim_left s in if is_space (code c) then rest else String.◌∷◌ c s

trim_right : String → String
trim_right String.[] = ""
trim_right (String.◌∷◌ c s) =
    let rest = trim_right s in if rest == "" && is_space (code c) then "" else String.◌∷◌ c rest

-- `strings.TrimSpace`
trim_space : String → String
unfolding trim_left trim_right is_space
trim_space s = trim_right (trim_left s)

-- The part before the first comma, and the parts behind it.
abbrev push_char : Char → List String → List String
push_char c [] = String.◌∷◌ c "" ∷ []
push_char c (part ∷ parts) = String.◌∷◌ c part ∷ parts

-- `strings.Split(s, ",")`
split_comma : String → List String
split_comma String.[] = "" ∷ []
split_comma (String.◌∷◌ c s) =
    let parts = split_comma s in if nat_eq (code c) b',' then "" ∷ parts else push_char c parts

-- the loop that appends the roles that are not empty
pub trimmed : List String → List String
unfolding trim_space
trimmed [] = []
trimmed (part ∷ parts) =
    let rest = trimmed parts in if trim_space part == "" then rest else trim_space part ∷ rest

-- `var roles []string` stays nil until the first append.
abbrev slice_of : List String → Slice String
slice_of [] = none
slice_of (r ∷ rs) = some (r ∷ rs)

unfoldable pub parse_roles : String → Slice String
unfolding split_comma trimmed
parse_roles raw = if raw == "" then none else slice_of (trimmed (split_comma raw))

parse_roles_spaces : parse_roles " admin,, reader ,\t" ≡ some ("admin" ∷ "reader" ∷ [])
unfolding parse_roles
parse_roles_spaces = refl

parse_roles_blank : parse_roles " , " ≡ none
unfolding parse_roles
parse_roles_blank = refl
