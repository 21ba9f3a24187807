-- ===== src/Handlers/Token/Roles/Joined.antt =====
-- internal/handlers/token.go: a list of roles that is written with commas is read back.
use session_service.Common.{
  String, true, false, List, [], ◌∷◌, ◌==◌, nat_eq, ◌≡◌, ◌≢◌, refl, arith, eq_iff, Bool-cases, inl,
  inr, ap, ◌∙◌,
}
use session_service.Handlers.Token.Roles.{
  is_space, trim_left, trim_right, trim_space, split_comma, trimmed, slice_of, parse_roles,
}
use session_service.Handlers.Token.Roles.Clean.{
  has_comma, starts_clean, ends_clean, IsClean, All, nil, cons,
}
use Prim.Native.Char.{code}

-- `strings.Join(roles, ",")`
with_comma : String → String → String
with_comma String.[] rest = String.◌∷◌ "," rest
with_comma (String.◌∷◌ c s) rest = String.◌∷◌ c (with_comma s rest)

unfoldable pub join : List String → String
unfolding with_comma
join [] = ""
join (r ∷ []) = r
join (r ∷ r' ∷ rs) = with_comma r (join (r' ∷ rs))

split_comma-with_comma :
    (r rest : String) → has_comma r ≡ false → split_comma (with_comma r rest) ≡ r ∷ split_comma rest
unfolding split_comma with_comma has_comma
split_comma-with_comma String.[] rest h = refl
split_comma-with_comma (String.◌∷◌ c s) rest h =
    let behind : has_comma s ≡ false = ground arith in
    let here : nat_eq (code c) b',' ≡ false = ground arith in
    rw (here, split_comma-with_comma s rest behind) refl

split_comma-one : (r : String) → has_comma r ≡ false → split_comma r ≡ r ∷ []
unfolding split_comma has_comma
split_comma-one String.[] h = refl
split_comma-one (String.◌∷◌ c s) h =
    let behind : has_comma s ≡ false = ground arith in
    let here : nat_eq (code c) b',' ≡ false = ground arith in
    rw (here, split_comma-one s behind) refl

split_comma-join :
    (r : String) (rs : List String) → All IsClean (r ∷ rs) → split_comma (join (r ∷ rs)) ≡ r ∷ rs
unfolding join
split_comma-join r [] (cons p nil) = split_comma-one r (p.no_comma)
split_comma-join r (r' ∷ rs) (cons p ps) =
    split_comma-with_comma r (join (r' ∷ rs)) (p.no_comma)
    ∙ ap (λ parts. r ∷ parts) (split_comma-join r' rs ps)

trim_left-clean : (s : String) → starts_clean s ≡ true → trim_left s ≡ s
unfolding trim_left starts_clean
trim_left-clean String.[] h = refl
trim_left-clean (String.◌∷◌ c s) h = ground arith

trim_right-clean : (s : String) → ends_clean s ≡ true → trim_right s ≡ s
unfolding trim_right ends_clean
trim_right-clean String.[] h = refl
trim_right-clean (String.◌∷◌ c s) h = elim (Bool-cases (s == "")) [
  | inl last ↦
      let empty : s ≡ "" = (eq_iff s "").0 last in
      let dark : is_space (code c) ≡ false = ground arith in rw (empty, dark) refl
  | inr more ↦
      let behind : ends_clean s ≡ true = ground arith in
      let ih = trim_right-clean s behind in rw (ih, more) refl
]

trim_space-clean : (s : String) → IsClean s → trim_space s ≡ s
unfolding trim_space
trim_space-clean s p = ap trim_right (trim_left-clean s (p.starts)) ∙ trim_right-clean s (p.ends)

trimmed-clean : (rs : List String) → All IsClean rs → trimmed rs ≡ rs
unfolding trimmed
trimmed-clean [] nil = refl
trimmed-clean (r ∷ rs) (cons p ps) =
    let given = p.given in
    let here = trim_space-clean r p in let ih = trimmed-clean rs ps in ground (arith, eq_iff r "")

join-given : (r : String) (rs : List String) → r ≢ "" → join (r ∷ rs) ≢ ""
unfolding join with_comma
join-given r [] given = given
join-given String.[] (r' ∷ rs) given = absurd (given refl)
join-given (String.◌∷◌ c s) (r' ∷ rs) given = λ e. absurd (cc)

-- A list of roles that are not empty, hold no comma, and have no white space around them, written with
-- commas, is read as it was; the empty list is read as nil.
pub parse_roles-join :
    (roles : List String) → All IsClean roles → parse_roles (join roles) ≡ slice_of roles
unfolding parse_roles join
parse_roles-join [] nil = refl
parse_roles-join (r ∷ rs) (cons p ps) =
    let given = join-given r rs (p.given) in
    let parts = split_comma-join r rs (cons p ps) in
    let kept = trimmed-clean (r ∷ rs) (cons p ps) in
    let test : (join (r ∷ rs) == "") ≡ false = ground (arith, eq_iff (join (r ∷ rs)) "") in
    rw test (ap (λ ps. slice_of (trimmed ps)) parts ∙ ap slice_of kept)
