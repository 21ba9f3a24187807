-- ===== src/Main/Serving.antt =====
-- cmd/server/main.go: the service that has started accepts the tokens that it issues.
use session_service.Common.{String, ◌≡◌, ◌≢◌, Option, none, some, ok, true, false, ap, sym, ◌∙◌}
use session_service.Common.Int.{ℤ, pos, negsuc, ltb_ℤ}
use session_service.Common.Time.{Duration, unix, add}
use session_service.Config.{Config, read}
use session_service.Config.Loaded.{load-IsUsable}
use session_service.Services.{Crypto}
use session_service.Services.Laws.{JwtLaws}
use session_service.Models.{TokenResponse}
use session_service.Http.{Request, var}
use session_service.Auth.Keys.{KeyManager, parse_rsa_private_key, parse_rsa_public_key}
use session_service.Auth.Keys.Initial.{Initial-lookups}
use session_service.Auth.Validator.{TokenValidator}
use session_service.Auth.Validator.Lifetime.{validator_of, IsUnrevoked}
use session_service.Repository.Postgres.Connect.{Driver}
use session_service.Cache.Redis.Connect.{RedisDriver}
use session_service.Handlers.Action.{World, Backend}
use session_service.Handlers.Token.{TokenHandler}
use session_service.Handlers.Token.Minted.{Minted}
use session_service.Handlers.Verify.{handle_verify}
use session_service.Handlers.Verify.Tenant.{time_of, tick}
use session_service.Handlers.Verify.Issued.{verified, handle_verify-Minted}
use session_service.Main.{
  App, running, Outside, new_token_generator, new_token_validator, new_token_handler, wire, start,
}
use session_service.Main.Started.{Started, start-Started}

some-inj : {A : Type 0} {a b : A} → some a ≡ some b → a ≡ b
some-inj e = cc

validator_of_handler : Option TokenHandler → Option TokenValidator
validator_of_handler none = none
validator_of_handler (some h) = some (validator_of h.token_gen)

-- The validator beside a generator checks for what the generator writes.
new_token_handler-validator :
    (issuer audience : String) (expiry : Duration) (length : ℤ) (cfg : Config) (h : TokenHandler)
    → new_token_handler (new_token_generator issuer audience expiry length) cfg ≡ some h
    → new_token_validator issuer audience ≡ validator_of h.token_gen
unfolding validator_of_handler
new_token_handler-validator issuer audience expiry (pos n) cfg h made =
    some-inj (ap validator_of_handler made)
new_token_handler-validator issuer audience expiry (negsuc n) cfg h made = absurd (cc)

pub wire-validator :
    {Handle Client PrivateKey PublicKey : Type 0} (cfg : Config) (db : Option Handle)
    (client : Client) (km : KeyManager PrivateKey PublicKey) (h : TokenHandler)
    → (wire cfg db client km).token_handler ≡ some h
    → (wire cfg db client km).token_validator ≡ validator_of h.token_gen
unfolding wire
wire-validator cfg db client km h made =
    new_token_handler-validator cfg.jwt_issuer cfg.jwt_audience cfg.jwt_expiry
      cfg.refresh_token_length cfg h made

module _ {Handle Options Client Net Server Database State PrivateKey PublicKey : Type 0}
    (env : String → String) (parse_duration : String → Option Duration) (driver : Driver Handle Net)
    (redis : RedisDriver Options Client Net) (crypto : Crypto PrivateKey PublicKey)
    (b : Backend Server Database State PrivateKey PublicKey) (public_of : PrivateKey → PublicKey)
    (laws : JwtLaws public_of b.jwt) where
  -- The configured public key is that of the configured private key.
  abbrev pub ArePaired : String → String → Type 0
  ArePaired private_pem public_pem =
      (k : PrivateKey) (p : PublicKey)
      → parse_rsa_private_key crypto private_pem ≡ ok k
      → parse_rsa_public_key crypto public_pem ≡ ok p
      → p ≡ public_of k

  -- The validator of a service that runs checks for what its generator writes.
  pub same_validator :
      (o o' : Outside Net State) (app : App Handle Client PrivateKey PublicKey) (h : TokenHandler)
      → Started env parse_duration driver redis crypto b.system o app o'
      → app.token_handler ≡ some h
      → app.token_validator ≡ validator_of h.token_gen
  same_validator o o' app h s handles =
      ap (λ (a : App Handle Client PrivateKey PublicKey). a.token_validator) s.built
      ∙ wire-validator s.cfg app.db app.cache_client app.key_manager h (
          ap (λ (a : App Handle Client PrivateKey PublicKey). a.token_handler) (sym s.built)
          ∙ handles)

  -- The first keys of a service that has started from a configured pair are that pair.
  pub first_keys_paired :
      (o o' : Outside Net State) (app : App Handle Client PrivateKey PublicKey)
      (s : Started env parse_duration driver redis crypto b.system o app o')
      → ArePaired (read env parse_duration).jwt_private_key (read env parse_duration).jwt_public_key
      → s.initial.public_key ≡ public_of s.initial.private_key
  first_keys_paired o o' app s paired =
      let same_cfg = (load-IsUsable env parse_duration s.cfg s.loads).0 in
      paired s.initial.private_key s.initial.public_key
        (ap (λ (c : Config). parse_rsa_private_key crypto c.jwt_private_key) (sym same_cfg)
          ∙ s.initial.private_parsed)
        (ap (λ (c : Config). parse_rsa_public_key crypto c.jwt_public_key) (sym same_cfg)
          ∙ s.initial.public_parsed)

  -- A service that has started from a configured pair of keys accepts at its verification endpoint,
  -- in their own tenant and with the claims of their subject, the access tokens that its token endpoint
  -- has issued with its first keys, as long as these are its keys, the token has not expired, and its
  -- id is not revoked; in every other tenant it refuses them.
  pub start-handle_verify :
      (o o' : Outside Net State) (app : App Handle Client PrivateKey PublicKey) (h : TokenHandler)
      (tenant : String) (response : TokenResponse) (m : Minted b h tenant app.key_manager response)
      (r : Request) (w : World Server Database State PrivateKey PublicKey)
      → start env parse_duration driver redis crypto b.system o ≡ (running app, o')
      → ArePaired (read env parse_duration).jwt_private_key (read env parse_duration).jwt_public_key
      → (b.system.new_uuid o.sys).0 ≢ ""
      → app.token_handler ≡ some h
      → w.keys ≡ app.key_manager
      → r.method ≡ "POST"
      → var r "tenant_id" ≢ ""
      → r.json_body ≡ ok (record { token = response.access_token })
      → response.access_token ≢ ""
      → ltb_ℤ (unix (time_of b w.sys)) (unix (add (time_of b m.at) h.token_gen.access_token_expiry))
        ≡ true
      → ltb_ℤ
          (unix (add (time_of b m.at) h.token_gen.access_token_expiry))
          (unix (time_of b (tick b (tick b w.sys))))
        ≡ false
      → IsUnrevoked b.cache w.server m.jti
      → (handle_verify b app.token_validator r w).0
        ≡ verified b h public_of laws m tenant (var r "tenant_id")
  start-handle_verify o o' app h tenant response m r w started paired drawn handles same_keys post
        path body given live unexpired unrevoked =
      let s = start-Started env parse_duration driver redis crypto b.system o app o' started in
      let cfg = s.cfg in
      let i = s.initial in
      let now = time_of b (tick b w.sys) in
      let (id, private, known) =
        Initial-lookups crypto b.system cfg.jwt_private_key cfg.jwt_public_key o.sys app.key_manager
          i now in
      let pair : i.public_key ≡ public_of i.private_key = first_keys_paired o o' app s paired in
      let same_tv : app.token_validator ≡ validator_of h.token_gen =
        same_validator o o' app h s handles in
      rw same_tv (
        handle_verify-Minted b h public_of laws tenant app.key_manager response m i.private_key r w
          post path body given private (rw id drawn) (rw (same_keys, ← pair) known) live unexpired
          unrevoked)
