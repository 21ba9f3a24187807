-- ===== src/Handlers/Token/Roles/Clean.antt =====
-- internal/handlers/token.go: what the roles of a request look like.
use session_service.Common.{
  String, Bool, true, false, not, List, [], ◌∷◌, some, ◌==◌, nat_eq, if◌then◌else◌, ◌≡◌, refl,
  arith, eq_iff, ◌&&◌, Bool-cases, inl, inr, ◌≢◌,
}
use session_service.Handlers.Token.Roles.{
  is_space, trim_left, trim_right, trim_space, push_char, split_comma, trimmed, slice_of,
  parse_roles,
}
use Prim.Native.Char.{Char, code}

unfoldable pub has_comma : String → Bool
has_comma String.[] = false
has_comma (String.◌∷◌ c s) = let rest = has_comma s in if nat_eq (code c) b',' then true else rest

-- No white space before and none behind.
unfoldable pub starts_clean : String → Bool
starts_clean String.[] = true
starts_clean (String.◌∷◌ c s) = not (is_space (code c))

unfoldable pub ends_clean : String → Bool
ends_clean String.[] = true
ends_clean (String.◌∷◌ c s) =
    let rest = ends_clean s in if s == "" then not (is_space (code c)) else rest

pub record IsClean (role : String) : Type 0 where
  pub given : role ≢ ""
  pub no_comma : has_comma role ≡ false
  pub starts : starts_clean role ≡ true
  pub ends : ends_clean role ≡ true

pub data All (P : String → Type 0) : List String → Type 0 where
  nil : All P []
  cons : {s : String} {ss : List String} → P s → All P ss → All P (s ∷ ss)

trim_left-starts : (s : String) → starts_clean (trim_left s) ≡ true
unfolding trim_left starts_clean
trim_left-starts String.[] = refl
trim_left-starts (String.◌∷◌ c s) = ground (arith, trim_left-starts s)

trim_left-comma : (s : String) → has_comma s ≡ false → has_comma (trim_left s) ≡ false
unfolding trim_left has_comma
trim_left-comma String.[] h = refl
trim_left-comma (String.◌∷◌ c s) h = ground (arith, trim_left-comma s)

trim_right-ends : (s : String) → ends_clean (trim_right s) ≡ true
unfolding trim_right ends_clean
trim_right-ends String.[] = refl
trim_right-ends (String.◌∷◌ c s) =
    let rest = trim_right-ends s in
    elim (Bool-cases (trim_right s == "" && is_space (code c))) [
      | inl blank ↦ rw blank refl
      | inr kept ↦ rw kept (ground arith)
    ]

trim_right-starts : (s : String) → starts_clean s ≡ true → starts_clean (trim_right s) ≡ true
unfolding trim_right starts_clean
trim_right-starts String.[] h = refl
trim_right-starts (String.◌∷◌ c s) h = ground arith

trim_right-comma : (s : String) → has_comma s ≡ false → has_comma (trim_right s) ≡ false
unfolding trim_right has_comma
trim_right-comma String.[] h = refl
trim_right-comma (String.◌∷◌ c s) h =
    let none_behind : has_comma s ≡ false = ground arith in
    let rest = trim_right-comma s none_behind in
    elim (Bool-cases (trim_right s == "" && is_space (code c))) [
      | inl blank ↦ rw blank refl
      | inr kept ↦ rw kept (ground arith)
    ]

trim_space-comma : (s : String) → has_comma s ≡ false → has_comma (trim_space s) ≡ false
unfolding trim_space
trim_space-comma s h = trim_right-comma (trim_left s) (trim_left-comma s h)

trim_space-IsClean : (s : String) → has_comma s ≡ false → trim_space s ≢ "" → IsClean (trim_space s)
unfolding trim_space
trim_space-IsClean s h given = record {
  given = given;
  no_comma = trim_space-comma s h;
  starts = trim_right-starts (trim_left s) (trim_left-starts s);
  ends = trim_right-ends (trim_left s);
}

NoComma : String → Type 0
NoComma s = has_comma s ≡ false

push_char-All :
    (c : Char) (parts : List String)
    → nat_eq (code c) b',' ≡ false
    → All NoComma parts
    → All NoComma (push_char c parts)
unfolding NoComma has_comma
push_char-All c [] h nil = cons (ground arith) nil
push_char-All c (part ∷ parts) h (cons p ps) = cons (ground arith) ps

split_comma-All : (s : String) → All NoComma (split_comma s)
unfolding split_comma NoComma has_comma
split_comma-All String.[] = cons refl nil
split_comma-All (String.◌∷◌ c s) = elim (Bool-cases (nat_eq (code c) b',')) [
  | inl comma ↦ rw comma (cons refl (split_comma-All s))
  | inr other ↦ rw other (push_char-All c (split_comma s) other (split_comma-All s))
]

trimmed-All : (parts : List String) → All NoComma parts → All IsClean (trimmed parts)
unfolding trimmed NoComma
trimmed-All [] nil = nil
trimmed-All (part ∷ parts) (cons p ps) = elim (Bool-cases (trim_space part == "")) [
  | inl blank ↦ rw blank (trimmed-All parts ps)
  | inr given ↦ rw given (
      cons (trim_space-IsClean part p (ground (arith, eq_iff (trim_space part) "")))
        (trimmed-All parts ps))
]

slice_of-some :
    (parts roles : List String) → slice_of parts ≡ some roles → (roles ≢ []) × (parts ≡ roles)
slice_of-some [] roles e = absurd (cc)
slice_of-some (r ∷ rs) roles e = let same : (r ∷ rs) ≡ roles = cc in (λ empty. absurd (cc), same)

-- The roles of a request are not empty, hold no comma, and have no white space around them; a list
-- without any is nil.
pub parse_roles-IsClean :
    (raw : String) (roles : List String)
    → parse_roles raw ≡ some roles
    → (roles ≢ []) × All IsClean roles
unfolding parse_roles
parse_roles-IsClean raw roles e =
    let clean = trimmed-All (split_comma raw) (split_comma-All raw) in
    elim (Bool-cases (raw == "")) [
      | inl blank ↦ (let never = rw (blank, parse_roles) at e in absurd (cc))
      | inr given ↦
          let (some_left, same) =
            slice_of-some (trimmed (split_comma raw)) roles (rw (given, parse_roles) at e) in
          (some_left, rw same at clean)
    ]
