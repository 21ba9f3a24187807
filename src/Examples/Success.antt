-- ===== src/Examples/Success.antt =====
-- The `client_credentials` grant at a concrete input at which nothing fails.
use session_service.Common.{◌≡◌, refl, false, some, [], ◌∷◌, ok, arith, eq_iff, inr, inl, ℕ}
use session_service.Common.Int.{pos}
use session_service.Common.Time.{minute}
use session_service.Handlers.Token.Authenticate.{AfterLoad}
use session_service.Models.{TokenResponse}
use session_service.Examples.Services.{
  Store, client, user, handler, cache_laws, backend, empty_store, world_at, keys,
}
use session_service.Examples.Signing.{jwt}
use session_service.Examples.Tokens.{user_form}
use session_service.Handlers.Action.{Backend, accept}
use session_service.Handlers.Token.{handle_client_credentials}
use session_service.Handlers.Token.Succeeds.{
  CanIssue, CanAuthenticate, handle_client_credentials-succeeds,
}

-- The services with a JWT library that signs whatever it is given.
abbrev signing : Backend Store (Unit {0}) (Unit {0}) ℕ ℕ
signing = record backend { jwt = record jwt { signed_string = λ kid claims k. ok "signed" } }

abbrev can_issue : CanIssue signing handler cache_laws keys
can_issue = record {
  signs = λ claims. ("signed", refl);
  reads = λ s. (1 ∷ 2 ∷ 3 ∷ [], refl);
  storable = λ d. tt;
  positive = omega arith;
}

within :
    (s : Store)
    → AfterLoad signing handler client empty_store s
    → (signing.cache.check_rate_limit "c1" client.rate_limit (pos minute) s).0 ≡ ok false
within s (inl same) = rw same refl
within s (inr same) = rw same refl

abbrev can_authenticate :
    CanAuthenticate signing handler cache_laws "c1" "s1" client (world_at empty_store)
can_authenticate = record {
  named = ground (arith, eq_iff "c1" "");
  given = ground (arith, eq_iff "s1" "");
  known = inr (refl, refl);
  proven = refl;
  within = within;
}

handle_client_credentials-succeeds_example :
    (response : TokenResponse) × ((handle_client_credentials signing handler user_form "t1"
        (world_at empty_store)).0
      ≡ accept response)
handle_client_credentials-succeeds_example =
    handle_client_credentials-succeeds signing handler cache_laws user_form "t1" client user
      (some ("admin" ∷ [])) (world_at empty_store) tt can_authenticate
      (ground (arith, eq_iff "u1" "")) refl refl refl refl can_issue
