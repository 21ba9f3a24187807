-- ===== src/Examples/Encoding.antt =====
-- The properties of the records in Redis at a concrete text of JSON, which has a text for one value.
use session_service.Common.{
  ◌≡◌, refl, true, false, some, ok, err, failure, arith, String, ◌==◌, eq_iff, if◌then◌else◌, Bool,
  ◌&&◌, nat_eq,
}
use session_service.Common.Int.{pos}
use session_service.Common.Time.{Time}
use session_service.Models.{RefreshTokenData}
use session_service.Json.{
  Json, Items, Members, null, str, int, arr, obj, nil, item, end, member, JsonText, JsonTextLaws,
}
use session_service.Json.Records.{
  marshal_refresh_token_data, unmarshal_refresh_token_data, unmarshal-marshal_refresh_token_data,
}
use session_service.Examples.Services.{subject}

mutual
  same : Json → Json → Bool
  same null null = true
  same (str s) (str t) = s == t
  same (int (pos n)) (int (pos m)) = nat_eq n m
  same (arr xs) (arr ys) = same_items xs ys
  same (obj ms) (obj ns) = same_members ms ns
  same _ _ = false

  same_items : Items → Items → Bool
  same_items nil nil = true
  same_items (item v vs) (item w ws) = same v w && same_items vs ws
  same_items _ _ = false

  same_members : Members → Members → Bool
  same_members end end = true
  same_members (member i v ms) (member j w ns) = i == j && same v w && same_members ms ns
  same_members _ _ = false

both : (p q : Bool) → (p && q) ≡ true → (p ≡ true) × (q ≡ true)
both p q e = ground arith

mutual
  unfolding same same_items same_members

  same-eq : (v w : Json) → same v w ≡ true → v ≡ w
  same-eq null null e = refl
  same-eq (str s) (str t) e = ground (arith, eq_iff s t)
  same-eq (int (pos n)) (int (pos m)) e = ground arith
  same-eq (arr xs) (arr ys) e = ground (arith, same_items-eq xs ys)
  same-eq (obj ms) (obj ns) e = ground (arith, same_members-eq ms ns)
  same-eq _ _ e = cc

  same_items-eq : (vs ws : Items) → same_items vs ws ≡ true → vs ≡ ws
  same_items-eq nil nil e = refl
  same_items-eq (item v vs) (item w ws) e =
      let (first, rest) = both (same v w) (same_items vs ws) e in
      cc (same-eq v w first, same_items-eq vs ws rest)
  same_items-eq _ _ e = cc

  same_members-eq : (ms ns : Members) → same_members ms ns ≡ true → ms ≡ ns
  same_members-eq end end e = refl
  same_members-eq (member i v ms) (member j w ns) e =
      let (heads, rest) = both (i == j && same v w) (same_members ms ns) e in
      let (names, values) = both (i == j) (same v w) heads in
      cc ((eq_iff i j).0 names, same-eq v w values, same_members-eq ms ns rest)
  same_members-eq _ _ e = cc

-- The text of that value, and of the fifth nanosecond.
text_of : Json → JsonText
unfolding same
text_of doc = record {
  render = λ v. if same v doc then ok "doc" else err (failure "no text");
  parse = λ s. if s == "doc" then ok doc else err (failure "no value");
  format_time = λ t. if nat_eq t 5 then ok "T5" else err (failure "no text");
  parse_time = λ s. if s == "T5" then ok 5 else err (failure "no instant");
}

rendered :
    (doc v : Json) {s : String} → (text_of doc).render v ≡ ok s → (text_of doc).parse s ≡ ok v
unfolding text_of
rendered doc v {s} e = ground (arith, same-eq v doc, eq_iff s "doc")

formatted :
    (doc : Json) (t : Time) {s : String}
    → (text_of doc).format_time t ≡ ok s
    → (text_of doc).parse_time s ≡ ok t
unfolding text_of
formatted doc t {s} e = ground (arith, eq_iff s "T5")

text_laws : (doc : Json) → JsonTextLaws (text_of doc)
text_laws doc = record {
  parse-render = λ v {s} e. rendered doc v e;
  parse_time-format_time = λ t {s} e. formatted doc t e;
}

abbrev stored : RefreshTokenData
stored = record { client_id = "c1"; subject = some subject; expires_at = 5 }

abbrev stored_doc : Json
stored_doc = obj (
    member "client_id" (str "c1") (
      member "subject"
        (obj (
          member "UserID" (str "u1") (
            member "TenantID" (str "t1")
              (member "Roles" (arr (item (str "admin") nil)) (member "Scopes" null end)))))
        (member "expires_at" (str "T5") end)))

marshals : marshal_refresh_token_data (text_of stored_doc) stored ≡ ok "doc"
unfolding marshal_refresh_token_data text_of
marshals = refl

unmarshal-marshal_refresh_token_data_example :
    unmarshal_refresh_token_data (text_of stored_doc) "doc" ≡ ok stored
unmarshal-marshal_refresh_token_data_example =
    unmarshal-marshal_refresh_token_data (text_of stored_doc) (text_laws stored_doc) stored marshals
