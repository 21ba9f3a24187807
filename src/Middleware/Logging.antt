-- ===== src/Middleware/Logging.antt =====
-- internal/middleware/logging.go: `LoggingMiddleware`, on the calls that a handler makes of its writer.
pub mod Handled
use session_service.Common.{
  ℕ, String, ◌≡◌, refl, ◌≤◌, ap, sym, ◌∙◌, Option, none, some, List, [], ◌∷◌,
}
use session_service.Common.Int.{sub_ℕ}
use session_service.Common.Time.{Time, Duration}
use session_service.Http.{Request}

-- The methods of an `http.ResponseWriter` that send, over the state of the connection.
pub record Writer (Connection : Type 0) : Type 0 where
  pub write_header : ℕ → Connection → Connection
  pub write : String → Connection → Connection

-- A call that a handler makes of its writer.
pub data Call : Type 0 where
  write_header : ℕ → Call
  write : String → Call

-- `responseWriter`
record Recorder (Connection : Type 0) : Type 0 where
  pub response_writer : Connection
  pub status_code : ℕ

-- A line of the log.
pub record Entry : Type 0 where
  pub method : String
  pub path : String
  pub status : ℕ
  pub duration : Duration
  pub remote_addr : String

module _ {Connection : Type 0} (w : Writer Connection) where
  -- The calls of a handler, in order.
  unfoldable pub perform : List Call → Connection → Connection
  perform [] c = c
  perform (write_header code ∷ calls) c = perform calls (w.write_header code c)
  perform (write text ∷ calls) c = perform calls (w.write text c)

  -- `responseWriter` as a writer: its own `WriteHeader`, and the other methods of the one inside
  abbrev recording : Writer (Recorder Connection)
  recording = record {
    write_header = λ code rw. record {
      response_writer = w.write_header code rw.response_writer;
      status_code = code;
    };
    write = λ text rw. record rw { response_writer = w.write text rw.response_writer };
  }

-- `LoggingMiddleware`: what is left of the connection, and the line that is logged. The handler's
-- calls depend on the request and the state, as `time.Now` does.
unfoldable pub logging_middleware :
    {Connection S : Type 0}
    → (S → Time × S)
    → Writer Connection
    → (Request → S → List Call × S)
    → Request
    → String
    → Connection
    → S
    → Entry × Connection × S
unfolding perform
logging_middleware now w next r remote_addr c s =
    let (start, s₁) = now s in
    let (calls, s₂) = next r s₁ in
    let wrapped = perform (recording w) calls (record { response_writer = c; status_code = 200 }) in
    let (end, s₃) = now s₂ in
    (
      record {
        method = r.method;
        path = r.path;
        status = wrapped.status_code;
        duration = sub_ℕ end start;
        remote_addr = remote_addr;
      },
      wrapped.response_writer,
      s₃,
    )

-- The documented behaviour of the writer of net/http: the first `WriteHeader` with a final status fixes
-- it, and a body without one fixes 200.
pub record WriterLaws {Connection : Type 0} (w : Writer Connection) : Type 0 where
  pub status : Connection → Option ℕ
  pub header-first :
      (code : ℕ) (c : Connection)
      → 200 ≤ code
      → status c ≡ none
      → status (w.write_header code c) ≡ some code
  pub write-first :
      (text : String) (c : Connection) → status c ≡ none → status (w.write text c) ≡ some 200
  pub write-later :
      (text : String) (sent : ℕ) (c : Connection)
      → status c ≡ some sent
      → status (w.write text c) ≡ some sent

-- No call of `WriteHeader` is among the calls.
pub data IsBody : List Call → Type 0 where
  empty : IsBody []
  text : (s : String) {calls : List Call} → IsBody calls → IsBody (write s ∷ calls)

-- A final status and then the body, or a body alone.
pub data IsResponse : List Call → Type 0 where
  explicit :
      (code : ℕ) {calls : List Call}
      → 200 ≤ code
      → IsBody calls
      → IsResponse (write_header code ∷ calls)
  implicit : (s : String) {calls : List Call} → IsBody calls → IsResponse (write s ∷ calls)

module _ {Connection : Type 0} (w : Writer Connection) where
  -- The calls go through.
  perform-recording :
      (calls : List Call) (rw : Recorder Connection)
      → (perform (recording w) calls rw).response_writer ≡ perform w calls rw.response_writer
  unfolding perform
  perform-recording [] rw = refl
  perform-recording (write_header code ∷ calls) rw =
      perform-recording calls
        (record { response_writer = w.write_header code rw.response_writer; status_code = code })
  perform-recording (write t ∷ calls) rw =
      perform-recording calls (record rw { response_writer = w.write t rw.response_writer })

  body-recorded :
      {calls : List Call} (rw : Recorder Connection)
      → IsBody calls
      → (perform (recording w) calls rw).status_code ≡ rw.status_code
  unfolding perform
  body-recorded rw empty = refl
  body-recorded rw (text s body) =
      body-recorded (record rw { response_writer = w.write s rw.response_writer }) body

  module _ (laws : WriterLaws w) where
    body-status :
        {calls : List Call} (sent : ℕ) (c : Connection)
        → IsBody calls
        → laws.status c ≡ some sent
        → laws.status (perform w calls c) ≡ some sent
    unfolding perform
    body-status sent c empty e = e
    body-status sent c (text s body) e =
        body-status sent (w.write s c) body (laws.write-later s sent c e)

    response-status :
        {calls : List Call} (c : Connection)
        → IsResponse calls
        → laws.status c ≡ none
        → laws.status (perform w calls c)
          ≡ some
              (perform
                (recording w)
                calls
                (record { response_writer = c; status_code = 200 })).status_code
    unfolding perform
    response-status c (explicit code final body) unsent =
        body-status code (w.write_header code c) body (laws.header-first code c final unsent)
        ∙ ap some (
            sym (
              body-recorded (record { response_writer = w.write_header code c; status_code = code })
                body))
    response-status c (implicit s body) unsent =
        body-status 200 (w.write s c) body (laws.write-first s c unsent)
        ∙ ap some
            (sym (body-recorded (record { response_writer = w.write s c; status_code = 200 }) body))

    -- At a connection on which nothing was sent, if the handler sends a final status and a body, or a
    -- body alone, the middleware passes all of its calls through to the connection, and the status in
    -- the log is the one that was sent.
    pub logging_middleware-transparent :
        {S : Type 0} (now : S → Time × S) (next : Request → S → List Call × S) (r : Request)
        (remote_addr : String) (c : Connection) (s : S)
        → laws.status c ≡ none
        → IsResponse (next r (now s).1).0
        → ((logging_middleware now w next r remote_addr c s).1 ≡ perform w (next r (now s).1).0 c)
          × (laws.status (perform w (next r (now s).1).0 c)
              ≡ some (logging_middleware now w next r remote_addr c s).0.status)
    unfolding logging_middleware
    logging_middleware-transparent now next r remote_addr c s unsent good =
        let calls = (next r (now s).1).0 in
        let rw : Recorder Connection = record { response_writer = c; status_code = 200 } in
        (perform-recording calls rw, response-status c good unsent)
