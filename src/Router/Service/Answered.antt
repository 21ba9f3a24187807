-- ===== src/Router/Service/Answered.antt =====
-- cmd/server/router.go with internal/handlers: how the server answers every request.
use session_service.Common.{
  String, ◌≡◌, ◌≢◌, refl, none, some, List, ◌∷◌, ok, err, arith, eq_iff, ap, ◌⊎◌, inl, inr,
  Option-cases, ◌++◌, ◌==◌, false,
}
use session_service.Common.Int.{sub_ℕ}
use session_service.Common.Dict.{Dict}
use session_service.Common.Time.{Time}
use session_service.Errors.{wrap, err_invalid_request}
use session_service.Http.{Request, Response, var}
use session_service.Auth.Keys.{Jwk}
use session_service.Middleware.{Handler}
use session_service.Middleware.Logging.Handled.{Logged, logged}
use session_service.Handlers.Action.{World, Backend, respond, send_error}
use session_service.Handlers.Token.{TokenHandler, handle_form, handle_token}
use session_service.Handlers.Verify.{VerifyHandler, check_body, handle_verify}
use session_service.Handlers.Jwks.{send_keys, send_document, handle_jwks}
use session_service.Handlers.Oidc.{OidcConfigurationHandler, discovery, handle_oidc_configuration}
use session_service.Router.{
  Endpoint, openid_configuration, token, keys, verify, health, swagger, routes, cors, cors_headers,
}
use session_service.Router.Service.{
  Payload, tokens, key_set, verification, configuration, relabel, Libraries, handler_of, clock,
  serve,
}
use session_service.Router.Service.Guarded.{MuxLaws, IsPathOf, Fits, routes-Fits}

module _ {Server Database State PrivateKey PublicKey : Type 0}
    (b : Backend Server Database State PrivateKey PublicKey)
    (lib : Libraries (World Server Database State PrivateKey PublicKey) PublicKey)
    (token_handler : TokenHandler) (verify_handler : VerifyHandler)
    (oidc_handler : OidcConfigurationHandler) where
  abbrev W : Type 0
  W = World Server Database State PrivateKey PublicKey

  -- The key set of a tenant that exists.
  abbrev published : String → W → Response (List (Jwk PublicKey)) × W
  published t w = elim (b.repo.ensure_tenant_exists t w.db) [
    | err e ↦ (send_error (wrap e err_invalid_request), w)
    | ok _ ↦ send_keys b lib.is_importable lib.marshal_keys w
  ]

  handle_jwks-published :
      (t : String) (r : Request) (w : W)
      → r.method ≡ "GET"
      → var r "tenant_id" ≡ t
      → t ≢ ""
      → handle_jwks b lib.is_importable lib.marshal_keys r w ≡ published t w
  unfolding handle_jwks
  handle_jwks-published t r w get same named =
      rw (same, handle_jwks) (ground (arith, eq_iff r.method "GET", eq_iff t ""))

  -- What an endpoint does for a tenant, once the request has the right method and a tenant.
  abbrev pub unguarded : Endpoint → String → Handler W (Payload PublicKey)
  unguarded openid_configuration t r w = (
    relabel configuration (
        send_document (discovery oidc_handler.base_url oidc_handler.issuer)
          (lib.marshal_configuration (discovery oidc_handler.base_url oidc_handler.issuer))),
    w,
  )
  unguarded token t r w =
      let (response, w') = respond (handle_form b token_handler r.form t) w in
      (relabel tokens response, w')
  unguarded keys t r w = let (response, w') = published t w in (relabel key_set response, w')
  unguarded verify t r w =
      let (response, w') = check_body b verify_handler.validator t r.json_body w in
      (relabel verification response, w')
  unguarded health t r w = handler_of b lib token_handler verify_handler oidc_handler health r w
  unguarded swagger t r w = handler_of b lib token_handler verify_handler oidc_handler swagger r w

  -- The guards of a handler let through what fits it.
  handler_of-unguarded :
      (e : Endpoint) (r : Request) (vars : Dict String) (w : W)
      → Fits e r.method vars r.path
      → (t : String) × IsPathOf e t r.path
        × (handler_of b lib token_handler verify_handler oidc_handler e (record r { vars = vars }) w
            ≡ unguarded e t (record r { vars = vars }) w)
  unfolding handler_of handle_token handle_verify handle_jwks handle_oidc_configuration
  handler_of-unguarded openid_configuration r vars w get =
      ("", tt, ground (arith, eq_iff r.method "GET"))
  handler_of-unguarded token r vars w (post, (t, found, (named, same))) =
      (t, (named, same), ground (arith, eq_iff r.method "POST", eq_iff t ""))
  handler_of-unguarded keys r vars w (get, (t, found, (named, same))) = (
    t,
    (named, same),
    ap (λ (p : Response (List (Jwk PublicKey)) × W). (relabel key_set p.0, p.1))
        (handle_jwks-published t (record r { vars = vars }) w get (ground arith) named),
  )
  handler_of-unguarded verify r vars w (post, (t, found, (named, same))) =
      (t, (named, same), ground (arith, eq_iff r.method "POST", eq_iff t ""))
  handler_of-unguarded health r vars w fits = ("", tt, refl)
  handler_of-unguarded swagger r vars w fits = ("", tt, refl)

  abbrev Serving : Type 0
  Serving = Handler (Logged W) (Payload PublicKey)

  -- The router, with its handlers.
  abbrev pub server : String → Serving
  server = serve b lib token_handler verify_handler oidc_handler

  -- A request that no route takes, and a preflight, change nothing and are not logged.
  pub serve_unchanged :
      (remote_addr : String) (r : Request) (w : Logged W)
      → (lib.mux routes r ≡ none) ⊎ (r.method ≡ "OPTIONS")
      → (server remote_addr r w).1 ≡ w
  unfolding serve cors
  serve_unchanged remote_addr r w (inl missed) = rw (missed, serve) refl
  serve_unchanged remote_addr r w (inr preflight) = elim (Option-cases (lib.mux routes r)) [
    | inl missed ↦ rw (missed, serve) refl
    | inr ((e, vars), found) ↦ rw (found, serve) (ground (arith, eq_iff r.method "OPTIONS"))
  ]

  -- The server after the reading of the clock by the logging middleware.
  abbrev pub ticked : W → W
  ticked w = (clock b lib token_handler verify_handler oidc_handler w).1

  abbrev time_at : W → Time
  time_at w = (clock b lib token_handler verify_handler oidc_handler w).0

  -- The answer of an endpoint, sent: the CORS headers stand before its own, and the log has one line
  -- more, with its status.
  abbrev pub finished :
      String
      → Request
      → Logged W
      → Response (Payload PublicKey) × W
      → Response (Payload PublicKey) × Logged W
  finished remote_addr r w answer = (
    record (answer.0) { headers = cors_headers ++ answer.0.headers },
    record {
      world = ticked answer.1;
      log =
          (record {
            method = r.method;
            path = r.path;
            status = answer.0.status;
            duration = sub_ℕ (time_at answer.1) (time_at w.world);
            remote_addr = remote_addr;
          })
          ∷ w.log;
    },
  )

  -- A request that a route takes, and that is no preflight, is answered as its endpoint answers the
  -- tenant of its path, with the CORS headers, and logged: the handler's own guards, on the method and
  -- on the tenant, never refuse it.
  pub serve-unguarded :
      (laws : MuxLaws lib.mux) (remote_addr : String) (r : Request) (w : Logged W) (e : Endpoint)
      (vars : Dict String)
      → lib.mux routes r ≡ some (e, vars)
      → r.method ≢ "OPTIONS"
      → (t : String) × IsPathOf e t r.path
        × (server remote_addr r w
            ≡ finished remote_addr r w (unguarded e t (record r { vars = vars }) (ticked w.world)))
  unfolding serve cors logged
  serve-unguarded laws remote_addr r w e vars found other =
      let fits = routes-Fits lib.mux laws r e vars (laws.chosen routes r e vars found) other in
      let (t, path, same) = handler_of-unguarded e r vars (ticked w.world) fits in
      let no_preflight : (r.method == "OPTIONS") ≡ false =
        ground (arith, eq_iff r.method "OPTIONS") in
      (t, path, rw (found, serve, no_preflight) (ap (finished remote_addr r w) same))
