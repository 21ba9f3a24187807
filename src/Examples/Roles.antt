-- ===== src/Examples/Roles.antt =====
-- The roles of a request at concrete texts.
use session_service.Common.{◌≡◌, refl, some, [], ◌∷◌, arith, eq_iff}
use session_service.Handlers.Token.Roles.{parse_roles, is_space}
use session_service.Handlers.Token.Roles.Clean.{
  has_comma, starts_clean, ends_clean, IsClean, nil, cons,
}
use session_service.Handlers.Token.Roles.Joined.{join, parse_roles-join}

reads : parse_roles " admin,, read all ,\t" ≡ some ("admin" ∷ "read all" ∷ [])
unfolding parse_roles
reads = refl

admin-IsClean : IsClean "admin"
unfolding has_comma starts_clean ends_clean is_space
admin-IsClean = record {
  given = ground (arith, eq_iff "admin" "");
  no_comma = refl;
  starts = refl;
  ends = refl;
}

read_all-IsClean : IsClean "read all"
unfolding has_comma starts_clean ends_clean is_space
read_all-IsClean = record {
  given = ground (arith, eq_iff "read all" "");
  no_comma = refl;
  starts = refl;
  ends = refl;
}

parse_roles-join_example : parse_roles "admin,read all" ≡ some ("admin" ∷ "read all" ∷ [])
unfolding join
parse_roles-join_example =
    parse_roles-join ("admin" ∷ "read all" ∷ []) (cons admin-IsClean (cons read_all-IsClean nil))
