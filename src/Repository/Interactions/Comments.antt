-- ===== src/Repository/Interactions/Comments.antt =====
-- `GetComments` of backend/internal/repository/interaction_repo.go.
use geo_note.Common.{
  String, Bool, Option, none, some, List, [], ◌∷◌, ◌&&◌, leb, str_eq, select, if◌then◌else◌,
}
use geo_note.Repository.Messages.Rows.{author}
use geo_note.Model.{User, Interaction, comment}
use geo_note.Repository.Query.{ok, Db, Query, read_rows}
use geo_note.Repository.Interactions.{is_kind}

-- An interaction with the name of its author, as `Interaction` of the source holds it.
pub record Comment : Type 0 where
  pub row : Interaction
  pub username : String

abbrev pub is_on : String → Interaction → Bool
is_on message_id i = str_eq i.message_id message_id && is_kind i.kind comment

abbrev named : Interaction → Option User → List Comment → List Comment
named i none cs = cs
named i (some u) cs = record { row = i; username = u.username } ∷ cs

-- The JOIN with `users`.
unfoldable pub with_names : List User → List Interaction → List Comment
with_names users [] = []
with_names users (i ∷ is) = named i (author i.user_id users) (with_names users is)

-- ORDER BY created_at ASC by insertion.
unfoldable pub insert_comment : Comment → List Comment → List Comment
insert_comment c [] = c ∷ []
insert_comment c (d ∷ ds) =
    let rest = insert_comment c ds in
    if leb c.row.created_at d.row.created_at then c ∷ d ∷ ds else d ∷ rest

unfoldable pub oldest_first : List Comment → List Comment
unfolding insert_comment
oldest_first [] = []
oldest_first (c ∷ cs) = insert_comment c (oldest_first cs)

unfoldable pub comments_of : String → Db → List Comment
unfolding with_names oldest_first
comments_of message_id db =
    oldest_first (with_names db.users (select (is_on message_id) db.interactions))

-- `GetComments`
unfoldable pub get_comments : String → Query (List Comment)
unfolding comments_of
get_comments message_id = read_rows (λ db. ok (comments_of message_id db))
