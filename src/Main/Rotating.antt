-- ===== src/Main/Rotating.antt =====
-- cmd/server/main.go: the service goes on to accept the tokens that it issues, while it rotates its keys.
use session_service.Common.{String, ◌≡◌, ◌≢◌, ◌≤◌, ◌<◌, Option, some, ok, true, false, arith}
use session_service.Common.Int.{ltb_ℤ, ◌≤ℤ◌}
use session_service.Common.Time.{Time, Duration, unix, add}
use session_service.Config.{read}
use session_service.Services.{Crypto}
use session_service.Services.Laws.{JwtLaws}
use session_service.Models.{TokenResponse}
use session_service.Http.{Request, var}
use session_service.Auth.Keys.{KeyManager}
use session_service.Auth.Keys.Initial.{Initial-IsSound}
use session_service.Auth.Keys.Evolution.{Evolution, IsSound, Evolution-IsSound}
use session_service.Auth.Keys.Evolution.Lasting.{
  get_public_key_by_id-Evolution, get_private_key-IsValid,
}
use session_service.Auth.Validator.Lifetime.{IsUnrevoked, unix-lt}
use session_service.Auth.Validator.Rotations.{expiry-le-grace}
use session_service.Repository.Postgres.Connect.{Driver}
use session_service.Cache.Redis.Connect.{RedisDriver}
use session_service.Handlers.Action.{World, Backend}
use session_service.Handlers.Token.{TokenHandler}
use session_service.Handlers.Token.Minted.{Minted}
use session_service.Handlers.Verify.{handle_verify}
use session_service.Handlers.Verify.Tenant.{time_of, tick}
use session_service.Handlers.Verify.Issued.{verified, handle_verify-Minted}
use session_service.Main.{App, running, Outside, start}
use session_service.Main.Started.{Started, start-Started}
use session_service.Main.Serving.{ArePaired, same_validator, first_keys_paired}

module _ {Handle Options Client Net Server Database State PrivateKey PublicKey : Type 0}
    (env : String → String) (parse_duration : String → Option Duration) (driver : Driver Handle Net)
    (redis : RedisDriver Options Client Net) (crypto : Crypto PrivateKey PublicKey)
    (b : Backend Server Database State PrivateKey PublicKey) (public_of : PrivateKey → PublicKey)
    (laws : JwtLaws public_of b.jwt) where
  -- The keys of a service that has started from a configured pair stay sound.
  key_manager-IsSound :
      (o o' : Outside Net State) (app : App Handle Client PrivateKey PublicKey)
      (km : KeyManager PrivateKey PublicKey) (since until : Time)
      → Started env parse_duration driver redis crypto b.system o app o'
      → ArePaired env parse_duration driver redis crypto b public_of laws
          (read env parse_duration).jwt_private_key
          (read env parse_duration).jwt_public_key
      → (b.system.new_uuid o.sys).0 ≢ ""
      → Evolution public_of app.grace_period since until app.key_manager km
      → IsSound public_of km
  key_manager-IsSound o o' app km since until s paired drawn evolution =
      Evolution-IsSound public_of app.grace_period since until evolution (
        Initial-IsSound crypto b.system public_of s.cfg.jwt_private_key s.cfg.jwt_public_key o.sys
          app.key_manager s.initial
          (first_keys_paired env parse_duration driver redis crypto b public_of laws o o' app s
            paired)
          drawn)

  -- A service that has started from a configured pair of keys accepts at its verification endpoint, in
  -- their tenant and with their claims, the access tokens that its token endpoint has issued, and refuses
  -- them in every other tenant, whatever rotations to new ids and cleanups there have been before and
  -- since, while the token has not expired and its id is not revoked, if tokens live no longer than the
  -- grace period.
  pub start-handle_verify-Evolution :
      (o o' : Outside Net State) (app : App Handle Client PrivateKey PublicKey) (h : TokenHandler)
      (tenant : String) (km : KeyManager PrivateKey PublicKey) (response : TokenResponse)
      (m : Minted b h tenant km response) (r : Request)
      (w : World Server Database State PrivateKey PublicKey) (since until : Time)
      → start env parse_duration driver redis crypto b.system o ≡ (running app, o')
      → ArePaired env parse_duration driver redis crypto b public_of laws
          (read env parse_duration).jwt_private_key
          (read env parse_duration).jwt_public_key
      → (b.system.new_uuid o.sys).0 ≢ ""
      → app.token_handler ≡ some h
      → Evolution public_of app.grace_period since (time_of b m.at) app.key_manager km
      → Evolution public_of app.grace_period (time_of b m.at) until km w.keys
      → h.token_gen.access_token_expiry ≤ℤ app.grace_period
      → r.method ≡ "POST"
      → var r "tenant_id" ≢ ""
      → r.json_body ≡ ok (record { token = response.access_token })
      → response.access_token ≢ ""
      → until ≤ time_of b (tick b w.sys)
      → ltb_ℤ (unix (time_of b w.sys)) (unix (add (time_of b m.at) h.token_gen.access_token_expiry))
        ≡ true
      → ltb_ℤ
          (unix (time_of b (tick b w.sys)))
          (unix (add (time_of b m.at) h.token_gen.access_token_expiry))
        ≡ true
      → ltb_ℤ
          (unix (add (time_of b m.at) h.token_gen.access_token_expiry))
          (unix (time_of b (tick b (tick b w.sys))))
        ≡ false
      → IsUnrevoked b.cache w.server m.jti
      → (handle_verify b app.token_validator r w).0
        ≡ verified b h public_of laws m tenant (var r "tenant_id")
  start-handle_verify-Evolution o o' app h tenant km response m r w since until started paired drawn
        handles before after short post path body given up_to live key_live unexpired unrevoked =
      let s = start-Started env parse_duration driver redis crypto b.system o app o' started in
      let sound = key_manager-IsSound o o' app km since (time_of b m.at) s paired drawn before in
      let deadline : Time = add (time_of b m.at) h.token_gen.access_token_expiry in
      let key_time : Time = time_of b (tick b w.sys) in
      let in_time : key_time < deadline = unix-lt key_time deadline key_live in
      rw
        (same_validator env parse_duration driver redis crypto b public_of laws o o' app h s
          handles)
        (handle_verify-Minted b h public_of laws tenant km response m
          sound.valid.current.private_key r w post path body given
          (get_private_key-IsValid km sound.valid) sound.named
          (get_public_key_by_id-Evolution public_of app.grace_period (time_of b m.at) until deadline
            sound key_time after
            (expiry-le-grace (time_of b m.at) h.token_gen.access_token_expiry app.grace_period
              short)
            (omega (arith, in_time)) in_time)
          live unexpired unrevoked)
