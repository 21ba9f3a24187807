-- ===== src/Examples/Routing.antt =====
-- The properties of the router, at a concrete match.
use session_service.Common.{String, ◌≡◌, ap, Bool, true, false, none, eq_iff, ◌==◌, arith}
use session_service.Handlers.Oidc.{token_path, jwks_path}
use session_service.Router.{Template, path, prefix, routes, find_route}
use session_service.Router.Served.{MatchLaws, slashes, find_route-discovery}

-- A router whose paths match only themselves, and whose prefixes match nothing.
abbrev literal : Template → String → Bool
literal (path t) p = p == t
literal (prefix t) p = false

same_slashes : (t p : String) → literal (path t) p ≡ true → slashes p ≡ slashes t
same_slashes t p e = ap slashes (ground (arith, eq_iff p t))

abbrev literal_laws : MatchLaws literal
literal_laws = record { path_slashes = same_slashes; prefix-eq = λ t p e. absurd (cc) }

find_route-discovery_example :
    (find_route literal token_path routes ≡ none) × (find_route literal jwks_path routes ≡ none)
find_route-discovery_example = find_route-discovery literal literal_laws
