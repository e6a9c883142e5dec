-- ===== src/Tests/Tokens.antt =====
-- Tokens of backend/internal/service/auth_service.go under a JWT library that knows one token.
use geo_note.Common.{
  ℕ, ◌≡◌, refl, String, true, Option, none, some, ◌&&◌, arith, eq_iff, str_eq, ltb, if◌then◌else◌,
}
use geo_note.Service.Auth.{Jwt, key_of, validate_token, generate_token, unix}
use geo_note.Common.Int.{pos, ◌+ℤ◌, leb_ℤ}
use geo_note.Service.Auth.Tokens.{IsJwt, validate-generate, validate_token_sound}

abbrev pub accept : ℕ → Option String → String → Option (Unit {0})
accept now none s = none
accept now (some k) s = if str_eq k "key" && str_eq s "tok" && ltb now 100 then some tt else none

abbrev pub one_token : Jwt
one_token = record {
  Token = Unit {0};
  parse = λ now key s. accept now (key tt) s;
  is_hmac = λ t. true;
  valid = λ t. true;
  sub = λ t. some "alice";
  signed_string = λ k c.
      if str_eq k "key" && str_eq c.sub "alice" && leb_ℤ c.exp (pos 100) && leb_ℤ (pos 100) c.exp
      then some "tok"
      else none;
}

abbrev pub Verified : String → Unit {0} → Type 0
Verified k t = k ≡ "key"

accept-eq :
    (now : ℕ) (o : Option String) (s : String) (t : Unit {0})
    → accept now o s ≡ some t
    → (k : String) × (o ≡ some k) × (k ≡ "key")
accept-eq now none s t h = absurd (cc)
accept-eq now (some k) s t h = (k, refl, ground (arith, eq_iff k "key"))

pub one_token-IsJwt : IsJwt one_token Verified
one_token-IsJwt = record {
  parse_verifies = λ now key s t h. accept-eq now (key tt) s t h;
  parse_signed = λ now key k s c signed later keyed. (
    tt,
    rw (keyed tt refl) (
        ground (
          arith,
          signed,
          later,
          eq_iff k "key",
          eq_iff c.sub "alice",
          eq_iff s "tok",
          eq_iff "tok" s,
        )),
    refl,
    ground (arith, signed, eq_iff c.sub "alice"),
  );
}

pub alice_signed : generate_token one_token "key" (pos 60000000000) 40000000000 "alice" ≡ some "tok"
unfolding generate_token ◌+ℤ◌ unix
alice_signed = refl

validate-generate_example : validate_token one_token "key" 50 "tok" ≡ some "alice"
unfolding ◌+ℤ◌ unix
validate-generate_example =
    validate-generate one_token Verified one_token-IsJwt "key" (pos 60000000000) 40000000000 50
      "alice" "tok" alice_signed refl

pub alice_validates : validate_token one_token "key" 50 "tok" ≡ some "alice"
unfolding ◌+ℤ◌ unix
alice_validates =
    validate-generate one_token Verified one_token-IsJwt "key" (pos 60000000000) 40000000000 50
      "alice" "tok" alice_signed refl

validate_token_sound_example :
    (token : one_token.Token) × (one_token.parse 50 (key_of one_token "key") "tok" ≡ some token)
    × (one_token.is_hmac token ≡ true)
    × Verified "key" token
    × (one_token.valid token ≡ true)
    × (one_token.sub token ≡ some "alice")
validate_token_sound_example =
    validate_token_sound one_token Verified one_token-IsJwt "key" 50 "tok" "alice" alice_validates
