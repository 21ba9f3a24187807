-- ===== src/Handlers/Token/Authenticate.antt =====
-- internal/handlers/token.go: what a client has shown when the grants go on.
use session_service.Common.{
  ◌*◌, String, ◌≡◌, ◌≢◌, ◌⊎◌, inl, inr, true, false, none, some, ok, arith, Result-cases, eq_iff,
}
use session_service.Common.Int.{pos}
use session_service.Common.Time.{minute}
use session_service.Models.{Client}
use session_service.Handlers.Action.{World, Backend, accept, Outcome-cases}
use session_service.Handlers.Token.{cached_client, load_client, limit_rate, authenticate}
use session_service.Handlers.Token

module _ {Server Database State PrivateKey PublicKey : Type 0}
    (b : Backend Server Database State PrivateKey PublicKey) (h : Token.TokenHandler) where
  abbrev W : Type 0
  W = World Server Database State PrivateKey PublicKey

  -- The server at which a client's limit is checked: as it was, or with the client put into the cache.
  abbrev pub AfterLoad : Client → Server → Server → Type 0
  AfterLoad client s s' = (s' ≡ s) ⊎ (s' ≡ (b.cache.set_client client (pos (15 * minute)) s).1)

  -- The client is one that the cache or the database holds under the id, the secret matches its
  -- hash, and the limit of that client, which this request counts against, is not exceeded.
  pub record Authenticated (client_id secret : String) (w : W) (client : Client) (w' : W)
      : Type 0 where
    pub named : client_id ≢ ""
    pub given : secret ≢ ""
    pub known :
        (b.cache.get_client client_id w.server ≡ ok (some client))
        ⊎ (b.repo.get_client_by_id client_id w.db ≡ ok (some client))
    pub proven : b.bcrypt_matches client.client_secret_hash secret ≡ true
    pub server : Server
    pub loaded : AfterLoad client w.server server
    pub within :
        b.cache.check_rate_limit client_id client.rate_limit (pos minute) server
        ≡ (ok false, w'.server)
    pub same_db : w'.db ≡ w.db
    same_sys : w'.sys ≡ w.sys
    pub same_keys : w'.keys ≡ w.keys

  -- The state but for the cache server is as before.
  pub record KeepsRest (w w' : W) : Type 0 where
    pub db : w'.db ≡ w.db
    pub sys : w'.sys ≡ w.sys
    pub keys : w'.keys ≡ w.keys

  load_client-none :
      (client_id : String) (w : W) {client : Client} {w' : W}
      → load_client b h client_id none w ≡ (accept client, w')
      → ((b.cache.get_client client_id w.server ≡ ok (some client))
          ⊎ (b.repo.get_client_by_id client_id w.db ≡ ok (some client)))
        × AfterLoad client w.server w'.server
        × KeepsRest w w'
  unfolding load_client
  load_client-none client_id w e = elim (Result-cases (b.repo.get_client_by_id client_id w.db)) [
    | inr (_, failed) ↦ absurd (ground arith)
    | inl (none, missed) ↦ absurd (ground arith)
    | inl (some c, found) ↦ (inr (ground arith), inr (ground arith), ground arith)
  ]

  load_client-accept :
      (client_id : String) (w : W) {client : Client} {w' : W}
      → load_client b h client_id (cached_client b h client_id w) w ≡ (accept client, w')
      → ((b.cache.get_client client_id w.server ≡ ok (some client))
          ⊎ (b.repo.get_client_by_id client_id w.db ≡ ok (some client)))
        × AfterLoad client w.server w'.server
        × KeepsRest w w'
  unfolding load_client
  load_client-accept client_id w {client} {w'} e =
      elim (Result-cases (b.cache.get_client client_id w.server)) [
        | inr (_, failed) ↦
            load_client-none client_id w {client = client} {w' = w'}
              (rw (failed, cached_client) at e)
        | inl (none, missed) ↦
            load_client-none client_id w {client = client} {w' = w'}
              (rw (missed, cached_client) at e)
        | inl (some c, hit) ↦ (inl (ground arith), inl (ground arith), ground arith)
      ]

  pub limit_rate-accept :
      (client_id : String) (client : Client) (w : W) {w' : W}
      → limit_rate b h client_id client w ≡ (accept tt, w')
      → (b.cache.check_rate_limit client_id client.rate_limit (pos minute) w.server
          ≡ (ok false, w'.server))
        × KeepsRest w w'
  unfolding limit_rate
  limit_rate-accept client_id client w e = (ground arith, ground arith)

  -- A client that passes is named with a secret, is known to the cache or the database, has shown its
  -- secret, and was counted within its limit; database, clock and keys are as before.
  pub authenticate-Authenticated :
      (client_id secret : String) (w : W) {client : Client} {w' : W}
      → authenticate b h client_id secret w ≡ (accept client, w')
      → Authenticated client_id secret w client w'
  unfolding authenticate
  authenticate-Authenticated client_id secret w {client} {w'} e =
      elim (Outcome-cases (load_client b h client_id (cached_client b h client_id w) w)) [
        | inr (_, _, unknown) ↦ absurd (ground arith)
        | inl (c, w₁, loading) ↦ elim (Outcome-cases (limit_rate b h client_id c w₁)) [
          | inr (_, _, limited) ↦ absurd (ground arith)
          | inl (_, w₂, limiting) ↦
              let (known, loaded, kept) = load_client-accept client_id w loading in
              let (within, kept') = limit_rate-accept client_id c w₁ limiting in
              let same : c ≡ client = ground arith in
              let ends : w₂ ≡ w' = ground arith in
              record {
                named = ground (arith, eq_iff client_id "");
                given = ground (arith, eq_iff secret "");
                known = rw (← same) known;
                proven = ground arith;
                server = w₁.server;
                loaded = rw (← same) loaded;
                within = rw (← same, ← ends) within;
                same_db = ground arith;
                same_sys = ground arith;
                same_keys = ground arith;
              }
        ]
      ]
