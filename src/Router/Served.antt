-- ===== src/Router/Served.antt =====
-- cmd/server/router.go with internal/handlers/oidc.go: which of the advertised paths are served.
use session_service.Common.{
  ℕ, suc, String, ◌≡◌, ◌≢◌, refl, Bool, true, false, none, arith, nat_eq, if◌then◌else◌, Bool-cases,
  ◌∙◌, inl, inr,
}
use session_service.Common.Text.{apart}
use session_service.Handlers.Oidc.{token_path, jwks_path}
use session_service.Router.{Template, path, prefix, routes, find_route}
use Prim.Native.Char.{code}
use Prim.Native.String.{◌++◌}
use text.Mathlib.TextLemmas.{append_assoc}

-- The number of slashes of a path.
unfoldable pub slashes : String → ℕ
slashes String.[] = 0
slashes (String.◌∷◌ c s) = if nat_eq (code c) b'/' then suc (slashes s) else slashes s

-- What the router's documentation promises of a match: a variable holds no slash, so that a path has
-- as many slashes as its template, and a prefix is one.
pub record MatchLaws (matches : Template → String → Bool) : Type 0 where
  pub path_slashes : (t p : String) → matches (path t) p ≡ true → slashes p ≡ slashes t
  pub prefix-eq : (t p : String) → matches (prefix t) p ≡ true → (s : String) × (p ≡ t ++ s)

module _ (matches : Template → String → Bool) (laws : MatchLaws matches) where
  unmatched : (t p : String) → nat_eq (slashes p) (slashes t) ≡ false → matches (path t) p ≡ false
  unmatched t p differ = ground (arith, laws.path_slashes t p)

  -- The table serves no path with three slashes, unless it begins with /swagger/.
  unserved :
      (p : String)
      → slashes p ≡ 3
      → ((s : String) → p ≢ "/swagger/" ++ s)
      → find_route matches p routes ≡ none
  unfolding find_route routes slashes
  unserved p three other = elim (Bool-cases (matches (prefix "/swagger/") p)) [
    | inl begins ↦ let (s, e) = laws.prefix-eq "/swagger/" p begins in absurd (other s e)
    | inr not_there ↦
        rw
          (
            unmatched "/.well-known/openid-configuration" p (rw three refl),
            unmatched "/{tenant_id}/oauth2/v2.0/token" p (rw three refl),
            unmatched "/{tenant_id}/discovery/v1.0/keys" p (rw three refl),
            unmatched "/{tenant_id}/oauth2/v1.0/verify" p (rw three refl),
            unmatched "/{tenant_id}/health" p (rw three refl),
            not_there,
          )
          refl
  ]

  -- The token and key paths of the discovery document are served by no route, when they stand behind
  -- a base URL with no path.
  pub find_route-discovery :
      (find_route matches token_path routes ≡ none) × (find_route matches jwks_path routes ≡ none)
  unfolding slashes
  find_route-discovery = (
    unserved token_path refl (λ s e.
        apart "/o" "/s" "auth2/v1.0/token" ("wagger/" ++ s) refl refl
          (e ∙ append_assoc "/s" "wagger/" s)),
    unserved jwks_path refl (λ s e.
        apart "/d" "/s" "iscovery/v1.0/keys" ("wagger/" ++ s) refl refl
          (e ∙ append_assoc "/s" "wagger/" s)),
  )
