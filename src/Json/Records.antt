-- ===== src/Json/Records.antt =====
-- internal/models/models.go: the JSON of the records that the cache keeps. `Client` and
-- `TokenSubject` have no json tags, so their members are named as their fields.
use session_service.Common.{
  String, ◌≡◌, refl, Option, none, some, List, [], ◌∷◌, Slice, Result, ok, ◌>>=◌, >>=-eq-ok,
  Option-cases, inl, inr, arith,
}
use session_service.Common.Int.{pos}
use session_service.Common.Time.{zero_time}
use session_service.Models.{Client, TokenSubject, RefreshTokenData}
use session_service.Json.{
  Json, null, str, int, obj, Members, end, member, JsonText, JsonTextLaws, items, of_slice, find,
  mismatch, to_string, to_int, to_strings, to_slice, to_time,
}

of_subject : TokenSubject → Json
of_subject s = obj (
    member "UserID" (str s.user_id) (
      member "TenantID" (str s.tenant_id)
        (member "Roles" (of_slice s.roles) (member "Scopes" (of_slice s.scopes) end))))

to_subject : Json → Result (Option TokenSubject)
to_subject null = ok none
to_subject (obj ms) = do
  user_id ← to_string (find "UserID" ms)
  tenant_id ← to_string (find "TenantID" ms)
  roles ← to_slice (find "Roles" ms)
  scopes ← to_slice (find "Scopes" ms)
  ok (some (record { user_id = user_id; tenant_id = tenant_id; roles = roles; scopes = scopes }))
to_subject _ = mismatch

-- `omitempty`: no member for a nil subject
subject_member : Option TokenSubject → Members → Members
unfolding of_subject
subject_member none rest = rest
subject_member (some s) rest = member "subject" (of_subject s) rest

module _ (text : JsonText) where
  of_client : Client → Result Json
  of_client c = do
    created_at ← text.format_time c.created_at
    updated_at ← text.format_time c.updated_at
    ok (
        obj (
          member "ID" (int c.id) (
            member "ClientID" (str c.client_id) (
              member "ClientSecretHash" (str c.client_secret_hash) (
                member "RateLimit" (int c.rate_limit) (
                  member "TenantID" (str c.tenant_id) (
                    member "UserID" (str c.user_id) (
                      member "CreatedAt" (str created_at)
                        (member "UpdatedAt" (str updated_at) end)))))))))

  to_client : Json → Result Client
  to_client (obj ms) = do
    id ← to_int (pos 0) (find "ID" ms)
    client_id ← to_string (find "ClientID" ms)
    client_secret_hash ← to_string (find "ClientSecretHash" ms)
    rate_limit ← to_int (pos 0) (find "RateLimit" ms)
    tenant_id ← to_string (find "TenantID" ms)
    user_id ← to_string (find "UserID" ms)
    created_at ← to_time text (find "CreatedAt" ms)
    updated_at ← to_time text (find "UpdatedAt" ms)
    ok (record {
      id = id;
      client_id = client_id;
      client_secret_hash = client_secret_hash;
      rate_limit = rate_limit;
      tenant_id = tenant_id;
      user_id = user_id;
      created_at = created_at;
      updated_at = updated_at;
    })
  to_client null = ok (record {
    id = pos 0;
    client_id = "";
    client_secret_hash = "";
    rate_limit = pos 0;
    tenant_id = "";
    user_id = "";
    created_at = zero_time;
    updated_at = zero_time;
  })
  to_client _ = mismatch

  of_refresh_token_data : RefreshTokenData → Result Json
  unfolding subject_member
  of_refresh_token_data d = do
    expires_at ← text.format_time d.expires_at
    ok (
        obj (
          member "client_id" (str d.client_id)
            (subject_member d.subject (member "expires_at" (str expires_at) end))))

  to_refresh_token_data : Json → Result RefreshTokenData
  unfolding to_subject
  to_refresh_token_data (obj ms) = do
    client_id ← to_string (find "client_id" ms)
    subject ← to_subject (find "subject" ms)
    expires_at ← to_time text (find "expires_at" ms)
    ok (record { client_id = client_id; subject = subject; expires_at = expires_at })
  to_refresh_token_data null =
      ok (record { client_id = ""; subject = none; expires_at = zero_time })
  to_refresh_token_data _ = mismatch

  -- `json.Marshal` and `json.Unmarshal` at the two types
  unfoldable pub marshal_client : Client → Result String
  unfolding of_client
  marshal_client c = of_client c >>= text.render

  unfoldable pub unmarshal_client : String → Result Client
  unfolding to_client
  unmarshal_client s = text.parse s >>= to_client

  unfoldable pub marshal_refresh_token_data : RefreshTokenData → Result String
  unfolding of_refresh_token_data
  marshal_refresh_token_data d = of_refresh_token_data d >>= text.render

  unfoldable pub unmarshal_refresh_token_data : String → Result RefreshTokenData
  unfolding to_refresh_token_data
  unmarshal_refresh_token_data s = text.parse s >>= to_refresh_token_data

to_strings-items : (xs : List String) → to_strings (items xs) ≡ ok xs
to_strings-items [] = refl
to_strings-items (x ∷ xs) = rw (to_strings-items xs)

to_slice-of_slice : (xs : Slice String) → to_slice (of_slice xs) ≡ ok xs
to_slice-of_slice none = refl
to_slice-of_slice (some xs) = rw (to_strings-items xs)

to_subject-of_subject : (s : TokenSubject) → to_subject (of_subject s) ≡ ok (some s)
unfolding to_subject of_subject
to_subject-of_subject s = simp to_slice-of_slice

module _ (text : JsonText) (laws : JsonTextLaws text) where
  to_client-of_client : (c : Client) {v : Json} → of_client text c ≡ ok v → to_client text v ≡ ok c
  unfolding of_client to_client
  to_client-of_client c {v} h =
      let (created_at, formatted, h') = >>=-eq-ok (text.format_time c.created_at) _ h in
      let (updated_at, formatted', h'') = >>=-eq-ok (text.format_time c.updated_at) _ h' in
      ground (
        arith,
        laws.parse_time-format_time c.created_at formatted,
        laws.parse_time-format_time c.updated_at formatted',
        h'',
      )

  -- A client that can be encoded is decoded as it was.
  unmarshal_client-marshal_client :
      (c : Client) {s : String} → marshal_client text c ≡ ok s → unmarshal_client text s ≡ ok c
  unfolding marshal_client unmarshal_client
  unmarshal_client-marshal_client c h =
      let (v, encoded, rendered) = >>=-eq-ok (of_client text c) _ h in
      ground (arith, laws.parse-render v rendered, to_client-of_client c encoded)

  to_data-of_data :
      (d : RefreshTokenData) {v : Json}
      → of_refresh_token_data text d ≡ ok v
      → to_refresh_token_data text v ≡ ok d
  unfolding of_refresh_token_data to_refresh_token_data
  to_data-of_data d h =
      let (expires_at, formatted, h') = >>=-eq-ok (text.format_time d.expires_at) _ h in
      let parsed = laws.parse_time-format_time d.expires_at formatted in
      elim (Option-cases d.subject) [
        | inl missing ↦ ground arith
        | inr (s, present) ↦ ground (arith, to_slice-of_slice s.roles, to_slice-of_slice s.scopes)
      ]

  -- Refresh token data that can be encoded is decoded as it was: a nil subject as nil, and nil and
  -- empty roles and scopes apart.
  pub unmarshal-marshal_refresh_token_data :
      (d : RefreshTokenData) {s : String}
      → marshal_refresh_token_data text d ≡ ok s
      → unmarshal_refresh_token_data text s ≡ ok d
  unfolding marshal_refresh_token_data unmarshal_refresh_token_data
  unmarshal-marshal_refresh_token_data d h =
      let (v, encoded, rendered) = >>=-eq-ok (of_refresh_token_data text d) _ h in
      ground (arith, laws.parse-render v rendered, to_data-of_data d encoded)
