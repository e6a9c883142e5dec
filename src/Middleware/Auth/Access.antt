-- ===== src/Middleware/Auth/Access.antt =====
-- Who gets past the two authentication middlewares.
use Prim.Native.String
use text.Mathlib.TextLemmas.{length-append}
use geo_note.Common.{
  String, ◌≡◌, ◌≢◌, ap, sym, ◌∙◌, ◌↔◌, inl, inr, Option, none, some, Option-cases, Bool-cases,
  str_eq, arith, eq_iff,
}
use geo_note.Common.Text.{trim_prefix, trim_prefix-append, append-ne_self, trim_prefix-eq}
use geo_note.Http.{Response, OnLeft, unauthorized}
use geo_note.Middleware.Auth.{admit, auth, optional_auth}

carried_token :
    (header token : String)
    → header ≡ String.◌++◌ "Bearer " token
    → (header ≢ "")
      × (trim_prefix header "Bearer " ≡ token)
      × (trim_prefix header "Bearer " ≢ header)
carried_token header token e = (
  λ e0. omega (arith, ap String.count (sym e ∙ e0), length-append "Bearer " token),
  rw e (trim_prefix-append "Bearer " token),
  rw e (rw trim_prefix-append (append-ne_self "Bearer " token (omega arith))),
)

module _ (validate_token : String → Option String) where
  -- The header carries a token that validates as the user.
  abbrev pub Carries : String → String → Type 0
  Carries header user_id =
      (token : String) × (header ≡ String.◌++◌ "Bearer " token)
      × (validate_token token ≡ some user_id)

  auth_sound :
      (header user_id : String)
      → auth validate_token header ≡ inr (some user_id)
      → Carries header user_id
  unfolding auth
  auth_sound header user_id h = (
    trim_prefix header "Bearer ",
    trim_prefix-eq header "Bearer "
        (λ e. ground (arith, eq_iff (trim_prefix header "Bearer ") header)),
    ground arith,
  )

  auth_complete :
      (header user_id : String)
      → Carries header user_id
      → auth validate_token header ≡ inr (some user_id)
  unfolding auth
  auth_complete header user_id (token, e, valid) = ground (
    arith,
    eq_iff header "",
    eq_iff (trim_prefix header "Bearer ") header,
    carried_token header token e,
  )

  -- A request gets past `Auth` as a user exactly when its header is "Bearer " and a token that
  -- validates as that user.
  pub auth_iff :
      (header user_id : String)
      → (auth validate_token header ≡ inr (some user_id)) ↔ Carries header user_id
  auth_iff header user_id = (auth_sound header user_id, auth_complete header user_id)

  -- A request that `Auth` lets through has a user.
  pub auth_names : (header : String) → auth validate_token header ≢ inr none
  unfolding auth
  auth_names header h = elim (Option-cases (validate_token (trim_prefix header "Bearer "))) [
    | inl e ↦ ground (arith, e)
    | inr (user_id, e) ↦ ground (arith, e)
  ]

  optional_auth_sound :
      (header user_id : String)
      → optional_auth validate_token header ≡ some user_id
      → Carries header user_id
  unfolding optional_auth
  optional_auth_sound header user_id h = (
    trim_prefix header "Bearer ",
    trim_prefix-eq header "Bearer "
        (λ e. ground (arith, eq_iff (trim_prefix header "Bearer ") header)),
    ground arith,
  )

  optional_auth_complete :
      (header user_id : String)
      → Carries header user_id
      → optional_auth validate_token header ≡ some user_id
  unfolding optional_auth
  optional_auth_complete header user_id (token, e, valid) = ground (
    arith,
    eq_iff header "",
    eq_iff (trim_prefix header "Bearer ") header,
    carried_token header token e,
  )

  -- `OptionalAuth` names a user in exactly the requests that `Auth` lets through as that user.
  optional_auth_iff :
      (header user_id : String)
      → (optional_auth validate_token header ≡ some user_id)
        ↔ (auth validate_token header ≡ inr (some user_id))
  optional_auth_iff header user_id = (
    λ h. auth_complete header user_id (optional_auth_sound header user_id h),
    λ h. optional_auth_complete header user_id (auth_sound header user_id h),
  )

-- The answer of a request that `Auth` stops.
module _ (validate_token : String → Option String) (header : String) (P : Response → Type 0)
    (p : (code message : String) → P (unauthorized code message)) where
  admit_refusal : (o : Option String) → OnLeft P (admit validate_token o)
  unfolding admit
  admit_refusal none = p "AUTH_INVALID" "Token invalide"
  admit_refusal (some user_id) = tt

  pub auth-refusal : OnLeft P (auth validate_token header)
  unfolding auth
  auth-refusal = elim (Bool-cases (str_eq header "")) [
    | inl empty ↦ rw empty (p _ _)
    | inr given ↦ rw given (elim (Bool-cases (str_eq (trim_prefix header "Bearer ") header)) [
      | inl bare ↦ rw bare (p _ _)
      | inr prefixed ↦ rw prefixed (admit_refusal (validate_token (trim_prefix header "Bearer ")))
    ])
  ]
