-- ===== src/Middleware/Logging/Handled.antt =====
-- internal/middleware/logging.go: `LoggingMiddleware` around a handler that answers with a whole response,
-- as all the handlers of the service do.
use session_service.Common.{String, ◌≡◌, refl, List, [], ◌∷◌}
use session_service.Common.Int.{sub_ℕ}
use session_service.Common.Time.{Time}
use session_service.Http.{Request, Response, Body}
use session_service.Middleware.{Handler}
use session_service.Middleware.Logging.{
  Writer, Call, write_header, write, Entry, perform, logging_middleware,
}

-- The state of the service with the lines that were logged, the last first.
pub record Logged (W : Type 0) : Type 0 where
  pub world : W
  pub log : List Entry

-- `LoggingMiddleware`
unfoldable pub logged :
    {W A : Type 0} → (W → Time × W) → String → Handler W A → Handler (Logged W) A
logged now remote_addr next r w =
    let (start, w₁) = now w.world in
    let (response, w₂) = next r w₁ in
    let (end, w₃) = now w₂ in
    (
      response,
      record {
        world = w₃;
        log =
            (record {
              method = r.method;
              path = r.path;
              status = response.status;
              duration = sub_ℕ end start;
              remote_addr = remote_addr;
            })
            ∷ w.log;
      },
    )

-- The calls that send a response.
abbrev pub sent : {A : Type 0} → (Body A → String) → Response A → List Call
sent render response = write_header response.status ∷ write (render response.body) ∷ []

-- Call by call, the middleware logs the line that it logs of the whole response, ends in the same state,
-- and the connection gets the calls that send the response.
pub logging_middleware-logged :
    {W A Connection : Type 0} (now : W → Time × W) (render : Body A → String)
    (writer : Writer Connection) (next : Handler W A) (r : Request) (remote_addr : String)
    (c : Connection) (w : Logged W)
    → logging_middleware now writer
        (λ r w. (sent render (next r w).0, (next r w).1))
        r
        remote_addr
        c
        w.world
      ≡ (
        record {
          method = r.method;
          path = r.path;
          status = (next r (now w.world).1).0.status;
          duration = sub_ℕ (now (next r (now w.world).1).1).0 (now w.world).0;
          remote_addr = remote_addr;
        },
        perform writer (sent render (next r (now w.world).1).0) c,
        (logged now remote_addr next r w).1.world,
      )
unfolding logging_middleware logged
logging_middleware-logged now render writer next r remote_addr c w = refl
