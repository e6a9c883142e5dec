-- ===== src/Service/Auth/Tokens.antt =====
-- Tokens that the service signs are those that it accepts.
use geo_note.Common.{ℕ, ◌/◌, ◌≡◌, ap, String, true, Option, some, arith, inl, inr, Option-cases}
use mathlib.Core.Path.{subst}
use geo_note.Service.Auth.{
  Claims, Jwt, key_of, subject, checked, validate_token, generate_token, unix,
}
use geo_note.Common.Int.{ℤ, pos, ◌+ℤ◌, ltb_ℤ}

-- What the JWT library documents: a parsed token has passed the key function with a key that
-- verifies it, and a token signed with a key parses back, before it expires, under every key
-- function that gives HMAC tokens that key.
pub record IsJwt (jwt : Jwt) (Verifies : String → jwt.Token → Type 0) : Type 0 where
  pub parse_verifies :
      (now : ℕ) (key : jwt.Token → Option String) (s : String) (token : jwt.Token)
      → jwt.parse now key s ≡ some token
      → (k : String) × (key token ≡ some k) × Verifies k token
  pub parse_signed :
      (now : ℕ) (key : jwt.Token → Option String) (k s : String) (c : Claims)
      → jwt.signed_string k c ≡ some s
      → ltb_ℤ (pos now) c.exp ≡ true
      → ((token : jwt.Token) → jwt.is_hmac token ≡ true → key token ≡ some k)
      → (token : jwt.Token) × (jwt.parse now key s ≡ some token)
        × (jwt.valid token ≡ true)
        × (jwt.sub token ≡ some c.sub)

key_of-eq :
    (jwt : Jwt) (secret k : String) (token : jwt.Token)
    → key_of jwt secret token ≡ some k
    → (jwt.is_hmac token ≡ true) × (k ≡ secret)
unfolding key_of
key_of-eq jwt secret k token h = ground arith

subject-eq :
    (jwt : Jwt) (secret u : String) (token : jwt.Token)
    → subject jwt secret token ≡ some u
    → (jwt.valid token ≡ true) × (jwt.sub token ≡ some u)
unfolding subject
subject-eq jwt secret u token h = ground arith

module _ (jwt : Jwt) (Verifies : String → jwt.Token → Type 0) (law : IsJwt jwt Verifies)
    (secret : String) where
  -- Under the laws of the library, a token that was signed for a user validates as that user until the
  -- second in which it expires.
  pub validate-generate :
      (expiry : ℤ) (now later : ℕ) (user_id s : String)
      → generate_token jwt secret expiry now user_id ≡ some s
      → ltb_ℤ (pos later) (unix (pos now +ℤ expiry)) ≡ true
      → validate_token jwt secret later s ≡ some user_id
  unfolding generate_token validate_token
  validate-generate expiry now later user_id s signed h =
      let c : Claims = record {
        sub = user_id;
        iat = now / 1000000000;
        exp = unix (pos now +ℤ expiry);
      } in
      let (token, parsed, valid, sub) =
        law.parse_signed later (key_of jwt secret) secret s c signed h
          (λ t hmac. unfold key_of in rw hmac) in
      rw (parsed, valid) sub

  accepted_token :
      (now : ℕ) (s user_id : String) (token : jwt.Token)
      → jwt.parse now (key_of jwt secret) s ≡ some token
      → subject jwt secret token ≡ some user_id
      → (token : jwt.Token) × (jwt.parse now (key_of jwt secret) s ≡ some token)
        × (jwt.is_hmac token ≡ true)
        × Verifies secret token
        × (jwt.valid token ≡ true)
        × (jwt.sub token ≡ some user_id)
  accepted_token now s user_id token parsed named =
      let (k, keyed, verified) = law.parse_verifies now (key_of jwt secret) s token parsed in
      let (hmac, same) = key_of-eq jwt secret k token keyed in
      let (valid, sub) = subject-eq jwt secret user_id token named in
      (token, parsed, hmac, subst (λ k. Verifies k token) same verified, valid, sub)

  -- Under the laws of the library, a user is accepted only where the text that is presented parses to
  -- a token that verifies under the secret by HMAC, is valid, and names that user.
  pub validate_token_sound :
      (now : ℕ) (s user_id : String)
      → validate_token jwt secret now s ≡ some user_id
      → (token : jwt.Token) × (jwt.parse now (key_of jwt secret) s ≡ some token)
        × (jwt.is_hmac token ≡ true)
        × Verifies secret token
        × (jwt.valid token ≡ true)
        × (jwt.sub token ≡ some user_id)
  unfolding validate_token
  validate_token_sound now s user_id h = elim (Option-cases (jwt.parse now (key_of jwt secret) s)) [
    | inl e ↦ absurd (cc (h, ap (checked jwt secret) e))
    | inr (token, parsed) ↦
        accepted_token now s user_id token parsed (cc (h, ap (checked jwt secret) parsed))
  ]
