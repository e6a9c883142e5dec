-- ===== src/Model/Validation.antt =====
-- The `Validate` methods of backend/internal/model: the errors by field, none for a good request.
use geo_note.Common.{
  String, Bool, List, [], ◌∷◌, ◌||◌, ◌&&◌, not, ltb, str_eq, exists, if◌then◌else◌,
}
use geo_note.Common.Int.{pos, negsuc, ltb_ℤ}
use geo_note.Common.Text.{bytes}
use geo_note.Model.{CreateMessageRequest, ReportRequest, RegisterRequest, LoginRequest}

abbrev pub Errors : Type 0
Errors = List (String × String)

-- The `if`s of a `Validate` in order: whether the field is wrong, its name and the message.
abbrev pub Check : Type 0
Check = Bool × String × String

unfoldable pub errors : List Check → Errors
errors [] = []
errors ((wrong, name, message) ∷ checks) =
    let rest = errors checks in if wrong then (name, message) ∷ rest else rest

-- The switch over the values that a field admits.
abbrev pub among : List String → String → Bool
among allowed s = exists (λ a. str_eq a s) allowed

abbrev pub visibilities : List String
visibilities = "public" ∷ "friends" ∷ "private" ∷ "" ∷ []

abbrev pub message_types : List String
message_types = "standard" ∷ "mystery" ∷ "capsule" ∷ "" ∷ []

abbrev pub message_checks : CreateMessageRequest → List Check
message_checks r =
    (str_eq r.content "" || ltb 500 (bytes r.content), "content", "entre 1 et 500 caracteres")
    ∷ (
      ltb_ℤ r.latitude (negsuc 899999999) || ltb_ℤ (pos 900000000) r.latitude,
      "latitude",
      "doit etre entre -90 et 90",
    )
    ∷ (
      ltb_ℤ r.longitude (negsuc 1799999999) || ltb_ℤ (pos 1800000000) r.longitude,
      "longitude",
      "doit etre entre -180 et 180",
    )
    ∷ (not (among visibilities r.visibility), "visibility", "public, friends ou private")
    ∷ (not (among message_types r.message_type), "message_type", "standard, mystery ou capsule")
    ∷ (
      str_eq r.message_type "mystery" && ltb_ℤ (pos 500) r.mystery_radius,
      "mystery_radius",
      "max 500 metres",
    )
    ∷ (
      str_eq r.message_type "capsule" && str_eq r.scheduled_at "",
      "scheduled_at",
      "date requise pour une capsule",
    )
    ∷ []

-- `CreateMessageRequest.Validate`; latitudes and longitudes are in 10^-7 degrees.
unfoldable pub validate_message : CreateMessageRequest → Errors
unfolding errors
validate_message r = errors (message_checks r)

abbrev pub comment_checks : String → List Check
comment_checks content =
    (str_eq content "" || ltb 300 (bytes content), "content", "entre 1 et 300 caracteres") ∷ []

-- `CreateCommentRequest.Validate`
unfoldable pub validate_comment : String → Errors
unfolding errors
validate_comment content = errors (comment_checks content)

abbrev pub reasons : List String
reasons = "spam" ∷ "harassment" ∷ "inappropriate" ∷ "misinformation" ∷ "other" ∷ []

-- `if r.Reason == "" { … } else if !validReasons[r.Reason] { … }` is a check for each branch.
abbrev pub report_checks : ReportRequest → List Check
report_checks r =
    (str_eq r.reason "", "reason", "raison requise")
    ∷ (
      not (str_eq r.reason "") && not (among reasons r.reason),
      "reason",
      "raison invalide (spam, harassment, inappropriate, misinformation, other)",
    )
    ∷ (ltb 500 (bytes r.description), "description", "500 caracteres maximum")
    ∷ []

-- `ReportRequest.Validate`
unfoldable pub validate_report : ReportRequest → Errors
unfolding errors
validate_report r = errors (report_checks r)

abbrev pub emojis : List String
emojis = "❤\u{fe0f}" ∷ "😂" ∷ "😮" ∷ "😢" ∷ "🔥" ∷ "👏" ∷ []

abbrev pub reaction_checks : String → List Check
reaction_checks emoji =
    (str_eq emoji "", "emoji", "emoji requis")
    ∷ (not (str_eq emoji "") && not (among emojis emoji), "emoji", "emoji non autorise")
    ∷ []

-- `ReactionRequest.Validate`
unfoldable pub validate_reaction : String → Errors
unfolding errors
validate_reaction emoji = errors (reaction_checks emoji)

abbrev pub register_checks : RegisterRequest → List Check
register_checks r =
    (
      ltb (bytes r.username) 3 || ltb 30 (bytes r.username),
      "username",
      "doit contenir entre 3 et 30 caracteres",
    )
    ∷ (str_eq r.email "", "email", "requis")
    ∷ (ltb (bytes r.password) 8, "password", "8 caracteres minimum")
    ∷ []

-- `RegisterRequest.Validate`
unfoldable pub validate_register : RegisterRequest → Errors
unfolding errors
validate_register r = errors (register_checks r)

abbrev pub login_checks : LoginRequest → List Check
login_checks r =
    (str_eq r.email "", "email", "requis") ∷ (str_eq r.password "", "password", "requis") ∷ []

-- `LoginRequest.Validate`
unfoldable pub validate_login : LoginRequest → Errors
unfolding errors
validate_login r = errors (login_checks r)
