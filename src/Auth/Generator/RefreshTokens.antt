-- ===== src/Auth/Generator/RefreshTokens.antt =====
-- internal/auth/token.go: what the random source makes of the refresh tokens.
use session_service.Common.{
  ℕ, ◌+◌, ◌*◌, ◌/◌, String, ◌≡◌, List, ok, arith, ap, sym, ◌∙◌, Result-cases, inl, inr,
}
use Prim.Native.String.{count}
use session_service.Services.{System}
use session_service.Auth.Generator.{TokenGenerator, generate_refresh_token}
use session_service.Auth.Generator.Base64.{url_encode}
use session_service.Auth.Generator.Base64.Distinct.{
  AreBytes, size, url_decode-url_encode, count-url_encode, url_decode,
}

module _ {PrivateKey State : Type 0} (sys : System PrivateKey State) where
  -- `rand.Read` fills the slice.
  pub record RandomLaws : Type 0 where
    pub fills :
        (n : ℕ) (s : State) (bytes : List ℕ)
        → (sys.random_bytes n s).0 ≡ ok bytes
        → AreBytes bytes × (size bytes ≡ n)

  -- The bytes that a refresh token was made of.
  made_of :
      (tg : TokenGenerator) (s : State) (token : String)
      → (generate_refresh_token sys tg s).0 ≡ ok token
      → (bytes : List ℕ) × ((sys.random_bytes tg.refresh_token_length s).0 ≡ ok bytes)
        × (token ≡ url_encode bytes)
  unfolding generate_refresh_token
  made_of tg s token e = elim (Result-cases (sys.random_bytes tg.refresh_token_length s).0) [
    | inl (bytes, read) ↦ (bytes, read, ground arith)
    | inr (_, failed) ↦ absurd (ground arith)
  ]

  -- With a random source that fills the slice, every refresh token has four characters for every three
  -- bytes of its length that are begun, and two refresh tokens are the same only if the same random bytes
  -- were read.
  pub generate_refresh_token_distinct :
      (tg : TokenGenerator) (s s' : State) (token token' : String)
      → RandomLaws
      → (generate_refresh_token sys tg s).0 ≡ ok token
      → (generate_refresh_token sys tg s').0 ≡ ok token'
      → (count token ≡ (tg.refresh_token_length + 2) / 3 * 4)
        × (token ≡ token'
            → (sys.random_bytes tg.refresh_token_length s).0
              ≡ (sys.random_bytes tg.refresh_token_length s').0)
  generate_refresh_token_distinct tg s s' token token' laws e e' =
      let (bytes, read, text) = made_of tg s token e in
      let (bytes', read', text') = made_of tg s' token' e' in
      let (are, filled) = laws.fills tg.refresh_token_length s bytes read in
      let (are', _) = laws.fills tg.refresh_token_length s' bytes' read' in
      (
        ap count text ∙ count-url_encode bytes are ∙ ap (λ n. (n + 2) / 3 * 4) filled,
        λ same.
            read
            ∙ ap ok (
                sym (url_decode-url_encode bytes are)
                ∙ ap url_decode (sym text ∙ same ∙ text')
                ∙ url_decode-url_encode bytes' are')
            ∙ sym read',
      )
