-- ===== src/Http.antt =====
-- The HTTP answers that the handlers and the middlewares write:
-- backend/internal/handler/helpers.go and backend/internal/model/response.go.
use geo_note.Common.{ℕ, String, Bool, true, false, Option, none, some, List, [], ◌⊎◌, inl, inr}

-- `APIError`; `fields` is absent but for a validation error.
pub record ApiError : Type 0 where
  pub code : String
  pub message : String
  pub fields : List (String × String)

-- What a client receives: the status, and the two fields of `APIResponse` that tell a success from
-- an error.
pub record Response : Type 0 where
  pub status : ℕ
  pub success : Bool
  pub error : Option ApiError

unfoldable pub write_error : ℕ → String → String → Response
write_error status code message = record {
  status = status;
  success = false;
  error = some (record { code = code; message = message; fields = [] });
}

unfoldable pub write_validation_error : List (String × String) → Response
write_validation_error fields = record {
  status = 400;
  success = false;
  error =
      some (record { code = "VALIDATION_ERROR"; message = "Donnees invalides"; fields = fields });
}

unfoldable pub write_json : ℕ → Response
write_json status = record { status = status; success = true; error = none }

-- The answers of the middlewares that stop a request.
unfoldable pub too_many : String → String → Response
unfolding write_error
too_many = write_error 429

unfoldable pub unauthorized : String → String → Response
unfolding write_error
unauthorized = write_error 401

-- What holds of the refusal, where there is one.
abbrev pub OnSome : (Response → Type 0) → Option Response → Type 0
OnSome P none = Unit
OnSome P (some r) = P r

abbrev pub OnLeft : {A : Type 0} → (Response → Type 0) → Response ⊎ A → Type 0
OnLeft P (inl r) = P r
OnLeft P (inr a) = Unit
