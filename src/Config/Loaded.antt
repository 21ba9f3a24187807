-- ===== src/Config/Loaded.antt =====
-- internal/config/config.go: what a configuration that loads has been checked for.
use session_service.Common.{
  String, ◌≡◌, ◌≢◌, Bool, true, false, Option, arith, eq_iff, if◌then◌else◌,
}
use session_service.Common.Time.{Duration}
use session_service.Config.{
  Config, ConfigError, Loading, loaded, failed, contains, read, check, load,
}
use session_service.Config.Settings.{IsGiven, read-IsGiven}

-- Both keys are set, look like PEM blocks, and are no placeholders.
pub record IsUsable (cfg : Config) : Type 0 where
  pub private_set : cfg.jwt_private_key ≢ ""
  pub public_set : cfg.jwt_public_key ≢ ""
  pub private_begins : contains cfg.jwt_private_key "BEGIN" ≡ true
  pub private_ends : contains cfg.jwt_private_key "END" ≡ true
  pub public_begins : contains cfg.jwt_public_key "BEGIN" ≡ true
  pub public_ends : contains cfg.jwt_public_key "END" ≡ true
  pub private_real : contains cfg.jwt_private_key "..." ≡ false
  pub public_real : contains cfg.jwt_public_key "..." ≡ false

past_guard :
    (test : Bool) (e : ConfigError) {rest : Loading} {cfg : Config}
    → (if test then failed e else rest) ≡ loaded cfg
    → rest ≡ loaded cfg
past_guard true e h = absurd (cc)
past_guard false e h = h

module _ (env : String → String) (parse_duration : String → Option Duration) where
  check-IsUsable :
      (cfg result : Config)
      → check env parse_duration cfg ≡ loaded result
      → (result ≡ cfg) × IsUsable cfg
  unfolding check
  check-IsUsable cfg result e = (
    ground arith,
    record {
      private_set = ground (arith, eq_iff cfg.jwt_private_key "");
      public_set = ground (arith, eq_iff cfg.jwt_public_key "");
      private_begins = ground arith;
      private_ends = ground arith;
      public_begins = ground arith;
      public_ends = ground arith;
      private_real = ground arith;
      public_real = ground arith;
    },
  )

  -- A configuration that loads is the one that the environment gives: every setting comes from its own
  -- variable, or is its default; both keys are set, look like PEM blocks and are no placeholders.
  pub load-IsUsable :
      (cfg : Config)
      → load env parse_duration ≡ loaded cfg
      → (cfg ≡ read env parse_duration) × IsGiven env parse_duration cfg × IsUsable cfg
  unfolding load
  load-IsUsable cfg e =
      let (same, usable) = check-IsUsable (read env parse_duration) cfg (past_guard _ _ e) in
      (same, rw same (read-IsGiven env parse_duration), rw same usable)
