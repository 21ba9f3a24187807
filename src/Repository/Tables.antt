-- ===== src/Repository/Tables.antt =====
-- What the repository holds of users and their roles, as the interface promises it.
use session_service.Common.{
  String, Bool, false, ◌||◌, ◌≡◌, Option, none, some, List, [], ◌∷◌, Slice, ◌==◌, if◌then◌else◌,
}
use session_service.Common.Time.{Time}
use session_service.Models.{User}

-- What the table `users` has of a user, but for the times.
pub record UserRow : Type 0 where
  pub tenant_id : String
  pub email : Option String
  pub full_name : String
  pub phone_number : String

-- `NULLIF(s, '')`
abbrev pub null_if_empty : String → Option String
null_if_empty s = if s == "" then none else some s

abbrev pub row_of : User → UserRow
row_of user = record {
  tenant_id = user.tenant_id;
  email = null_if_empty user.email;
  full_name = user.full_name;
  phone_number = user.phone_number;
}

abbrev pub or_empty : Option String → String
or_empty none = ""
or_empty (some s) = s

-- The user that a row gives.
abbrev pub user_with : String → UserRow → Time → Time → User
user_with id row created updated = record {
  id = id;
  tenant_id = row.tenant_id;
  email = or_empty row.email;
  full_name = row.full_name;
  phone_number = row.phone_number;
  created_at = created;
  updated_at = updated;
}

-- The tables `users` and `user_roles`: the row under an id, and the pairs.
pub record Tables : Type 0 where
  pub user_row : String → Option UserRow
  pub has_role : String → String → Bool

abbrev pub is_member : String → List String → Bool
is_member role [] = false
is_member role (r ∷ rest) = r == role || is_member role rest

-- The roles of a user once they are replaced, or not if there are none to replace them.
abbrev pub roles_after : Slice String → (String → Bool) → String → Bool
roles_after none before role = before role
roles_after (some roles) before role = is_member role roles

-- What the tables are after an upsert: the user has the given row, the given roles if there are
-- any to replace the old ones, and nothing else has changed.
pub record Upserted (user : User) (roles : Slice String) (before after : Tables) : Type 0 where
  pub user_rows :
      (id : String)
      → after.user_row id ≡ (if user.id == id then some (row_of user) else before.user_row id)
  pub assignments :
      (id role : String)
      → after.has_role id role ≡ (
          if user.id == id
          then roles_after roles (before.has_role id) role
          else before.has_role id role)
