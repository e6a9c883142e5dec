-- ===== src/Handler/Interactions.antt =====
-- backend/internal/handler/interaction_handler.go.
use geo_note.Common.{ℕ, String, Bool, length}
use geo_note.External.{External}
use geo_note.Http.{write_error}
use geo_note.Model.{Report}
use geo_note.Model.Validation.{validate_comment, validate_reaction, validate_report}
use geo_note.Service.Interactions as Service
use geo_note.Service.Moderation
use geo_note.Service.State.{on_db}
use geo_note.Handler.Replies.{
  Request, Handler, send, validated, replied, server_error, or_missing, liked, comments, commented,
  reacted, note,
}

module _ (x : External) where
  -- `ToggleLike`
  unfoldable pub toggle_like : String → ℕ → String → Request → Handler x
  toggle_like new_id now message_id r s =
      replied x (server_error "LIKE_ERROR") (λ resp. send 200 (liked resp))
        (on_db x (Service.toggle_like new_id now message_id r.user_id) s)

  -- `GetComments`
  unfoldable pub get_comments : String → Handler x
  get_comments message_id s =
      replied x (server_error "FETCH_ERROR") (λ cs. send 200 (comments cs (length cs)))
        (on_db x (Service.get_comments message_id) s)

  -- `AddComment`
  unfoldable pub add_comment : String → ℕ → String → Request → Handler x
  add_comment new_id now message_id r =
      validated x (x.decode_comment r.body) validate_comment λ content s.
        replied x (server_error "COMMENT_ERROR") (λ c. send 201 (commented c))
          (on_db x (Service.add_comment new_id now message_id r.user_id content) s)

  -- `DeleteComment`
  unfoldable pub delete_comment : String → Request → Handler x
  delete_comment comment_id r s =
      replied x
        (or_missing (write_error 404 "NOT_FOUND" "Commentaire introuvable ou non autorise")
          (write_error 500 "DELETE_ERROR" "Erreur serveur"))
        (λ _. send 200 (note "Commentaire supprime"))
        (on_db x (Service.delete_comment comment_id r.user_id) s)

  -- `ToggleReaction`
  unfoldable pub toggle_reaction : String → String → Request → Handler x
  toggle_reaction new_id message_id r =
      validated x (x.decode_reaction r.body) validate_reaction λ emoji s.
        replied x (server_error "REACTION_ERROR") (λ resp. send 200 (reacted resp))
          (on_db x (Service.toggle_reaction new_id message_id r.user_id emoji) s)

  -- `ReportMessage`, with the conflicts that the table of reports knows.
  unfoldable pub report_message : (Report → Report → Bool) → String → Request → Handler x
  report_message conflicts message_id r =
      validated x (x.decode_report r.body) validate_report λ req s.
        replied x (server_error "REPORT_ERROR") (λ _. send 201 (note "Signalement enregistre"))
          (on_db x
            (Moderation.report_message conflicts message_id r.user_id req.reason req.description) s)
