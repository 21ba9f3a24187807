-- ===== src/Cache/Redis/Keys.antt =====
-- internal/cache/redis.go: the keys of the five families, and that they are apart.
use session_service.Common.{String, ◌≡◌, ◌≢◌, ◌==◌, eq_iff, refl, false, arith, ◌∙◌, sym, ap}
use session_service.Common.Text.{apart}
use Prim.Native.String.{◌++◌}
use text.Mathlib.TextLemmas.{append_assoc, append_cancel_left}

unfoldable pub client_key : String → String
client_key client_id = "client:" ++ client_id

unfoldable pub rate_limit_key : String → String
rate_limit_key client_id = "rate_limit:" ++ client_id

unfoldable pub refresh_token_key : String → String
refresh_token_key token_id = "refresh_token:" ++ token_id

unfoldable pub revoked_jti_key : String → String
revoked_jti_key jti = "revoked:jti:" ++ jti

unfoldable pub revoked_refresh_key : String → String
revoked_refresh_key token_id = "revoked:refresh:" ++ token_id

module _ (a b : String) where
  client-ne-rate_limit : client_key a ≢ rate_limit_key b
  unfolding client_key rate_limit_key
  client-ne-rate_limit e =
      apart "c" "r" ("lient:" ++ a) ("ate_limit:" ++ b) refl refl
        (sym (append_assoc "c" "lient:" a) ∙ e ∙ append_assoc "r" "ate_limit:" b)

  pub client-ne-refresh_token : client_key a ≢ refresh_token_key b
  unfolding client_key refresh_token_key
  client-ne-refresh_token e =
      apart "c" "r" ("lient:" ++ a) ("efresh_token:" ++ b) refl refl
        (sym (append_assoc "c" "lient:" a) ∙ e ∙ append_assoc "r" "efresh_token:" b)

  pub client-ne-revoked_jti : client_key a ≢ revoked_jti_key b
  unfolding client_key revoked_jti_key
  client-ne-revoked_jti e =
      apart "c" "r" ("lient:" ++ a) ("evoked:jti:" ++ b) refl refl
        (sym (append_assoc "c" "lient:" a) ∙ e ∙ append_assoc "r" "evoked:jti:" b)

  pub client-ne-revoked_refresh : client_key a ≢ revoked_refresh_key b
  unfolding client_key revoked_refresh_key
  client-ne-revoked_refresh e =
      apart "c" "r" ("lient:" ++ a) ("evoked:refresh:" ++ b) refl refl
        (sym (append_assoc "c" "lient:" a) ∙ e ∙ append_assoc "r" "evoked:refresh:" b)

  pub rate_limit-ne-refresh_token : rate_limit_key a ≢ refresh_token_key b
  unfolding rate_limit_key refresh_token_key
  rate_limit-ne-refresh_token e =
      apart "ra" "re" ("te_limit:" ++ a) ("fresh_token:" ++ b) refl refl
        (sym (append_assoc "ra" "te_limit:" a) ∙ e ∙ append_assoc "re" "fresh_token:" b)

  pub rate_limit-ne-revoked_jti : rate_limit_key a ≢ revoked_jti_key b
  unfolding rate_limit_key revoked_jti_key
  rate_limit-ne-revoked_jti e =
      apart "ra" "re" ("te_limit:" ++ a) ("voked:jti:" ++ b) refl refl
        (sym (append_assoc "ra" "te_limit:" a) ∙ e ∙ append_assoc "re" "voked:jti:" b)

  pub rate_limit-ne-revoked_refresh : rate_limit_key a ≢ revoked_refresh_key b
  unfolding rate_limit_key revoked_refresh_key
  rate_limit-ne-revoked_refresh e =
      apart "ra" "re" ("te_limit:" ++ a) ("voked:refresh:" ++ b) refl refl
        (sym (append_assoc "ra" "te_limit:" a) ∙ e ∙ append_assoc "re" "voked:refresh:" b)

  pub refresh_token-ne-revoked_jti : refresh_token_key a ≢ revoked_jti_key b
  unfolding refresh_token_key revoked_jti_key
  refresh_token-ne-revoked_jti e =
      apart "ref" "rev" ("resh_token:" ++ a) ("oked:jti:" ++ b) refl refl
        (sym (append_assoc "ref" "resh_token:" a) ∙ e ∙ append_assoc "rev" "oked:jti:" b)

  pub refresh_token-ne-revoked_refresh : refresh_token_key a ≢ revoked_refresh_key b
  unfolding refresh_token_key revoked_refresh_key
  refresh_token-ne-revoked_refresh e =
      apart "ref" "rev" ("resh_token:" ++ a) ("oked:refresh:" ++ b) refl refl
        (sym (append_assoc "ref" "resh_token:" a) ∙ e ∙ append_assoc "rev" "oked:refresh:" b)

  pub revoked_jti-ne-revoked_refresh : revoked_jti_key a ≢ revoked_refresh_key b
  unfolding revoked_jti_key revoked_refresh_key
  revoked_jti-ne-revoked_refresh e =
      apart "revoked:j" "revoked:r" ("ti:" ++ a) ("efresh:" ++ b) refl refl
        (sym (append_assoc "revoked:j" "ti:" a) ∙ e ∙ append_assoc "revoked:r" "efresh:" b)

  pub refresh_token_key_injective : refresh_token_key a ≡ refresh_token_key b → a ≡ b
  unfolding refresh_token_key
  refresh_token_key_injective e = append_cancel_left "refresh_token:" a b e

  revoked_refresh_key_injective : revoked_refresh_key a ≡ revoked_refresh_key b → a ≡ b
  unfolding revoked_refresh_key
  revoked_refresh_key_injective e = append_cancel_left "revoked:refresh:" a b e

  client_key_injective : client_key a ≡ client_key b → a ≡ b
  unfolding client_key
  client_key_injective e = append_cancel_left "client:" a b e

  rate_limit_key_injective : rate_limit_key a ≡ rate_limit_key b → a ≡ b
  unfolding rate_limit_key
  rate_limit_key_injective e = append_cancel_left "rate_limit:" a b e

  revoked_jti_key_injective : revoked_jti_key a ≡ revoked_jti_key b → a ≡ b
  unfolding revoked_jti_key
  revoked_jti_key_injective e = append_cancel_left "revoked:jti:" a b e

-- The keys of two families are never the same, whatever the ids in them.
families_apart :
    (a b : String)
    → (client_key a ≢ rate_limit_key b)
      × (client_key a ≢ refresh_token_key b)
      × (client_key a ≢ revoked_jti_key b)
      × (client_key a ≢ revoked_refresh_key b)
      × (rate_limit_key a ≢ refresh_token_key b)
      × (rate_limit_key a ≢ revoked_jti_key b)
      × (rate_limit_key a ≢ revoked_refresh_key b)
      × (refresh_token_key a ≢ revoked_jti_key b)
      × (refresh_token_key a ≢ revoked_refresh_key b)
      × (revoked_jti_key a ≢ revoked_refresh_key b)
families_apart a b = (
  client-ne-rate_limit a b,
  client-ne-refresh_token a b,
  client-ne-revoked_jti a b,
  client-ne-revoked_refresh a b,
  rate_limit-ne-refresh_token a b,
  rate_limit-ne-revoked_jti a b,
  rate_limit-ne-revoked_refresh a b,
  refresh_token-ne-revoked_jti a b,
  refresh_token-ne-revoked_refresh a b,
  revoked_jti-ne-revoked_refresh a b,
)

-- The tests that a lookup after a write makes: the keys of two ids of one family, and of two families.
pub refresh_token_key_eq : (a b : String) → (refresh_token_key a == refresh_token_key b) ≡ (a == b)
refresh_token_key_eq a b = ground (
  arith,
  eq_iff (refresh_token_key a) (refresh_token_key b),
  eq_iff a b,
  refresh_token_key_injective a b,
  λ (e : a ≡ b). ap refresh_token_key e,
)

pub revoked_refresh_key_eq :
    (a b : String) → (revoked_refresh_key a == revoked_refresh_key b) ≡ (a == b)
revoked_refresh_key_eq a b = ground (
  arith,
  eq_iff (revoked_refresh_key a) (revoked_refresh_key b),
  eq_iff a b,
  revoked_refresh_key_injective a b,
  λ (e : a ≡ b). ap revoked_refresh_key e,
)

pub eq_of_ne : (s t : String) → s ≢ t → (s == t) ≡ false
eq_of_ne s t h = ground (arith, eq_iff s t)
