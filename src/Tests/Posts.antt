-- ===== src/Tests/Posts.antt =====
-- Posts and searches on the small database, with an empty hub.
use geo_note.Common.{◌≡◌, refl, ap, none}
use geo_note.Common.Int.{pos}
use geo_note.Common.Text.{bytes, trim_space}
use geo_note.Model.{Message, CreateMessageRequest, SearchQuery}
use geo_note.Model.Validation.{validate_message}
use geo_note.Repository.Query.{Result, ok}
use geo_note.Repository.Query.Rules.{steady}
use geo_note.Repository.Messages.Hashtags.{extract_hashtags}
use geo_note.Service.Publishing.{create}
use geo_note.Service.Publishing.Secrecy.{made, Posted, create-Posted, create-secret}
use geo_note.Service.Publishing.Success.{create-succeeds}
use geo_note.Service.Search.{search}
use geo_note.Service.Search.Pages.{IsPage, search-IsPage}
use geo_note.Service.State.{State}
use geo_note.Ws.Hub.{new_hub, serve_ws}
use geo_note.Ws.Hub.Safety.{new_hub-IsSafe, serve_ws-IsSafe}
use geo_note.Tests.Data.{plain, two_users, hello}

abbrev pub quiet : State plain
quiet = record { conn = steady two_users; cache = none; hub = serve_ws new_hub }

create-Posted_example :
    Posted plain
      (made plain "m2" 50 "alice" hello two_users)
      quiet
      (create plain "m2" 50 "alice" hello quiet)
create-Posted_example =
    create-Posted plain "m2" 50 "alice" hello quiet (serve_ws-IsSafe new_hub new_hub-IsSafe)

abbrev riddle : CreateMessageRequest
riddle = record hello { content = "Look behind you #Paris"; message_type = "mystery" }

abbrev other_riddle : CreateMessageRequest
other_riddle = record riddle { content = "Look up #Paris" }

riddle_posted : create plain "m2" 50 "alice" riddle quiet ≡ (
  ok (made plain "m2" 50 "alice" riddle two_users),
  (create plain "m2" 50 "alice" riddle quiet).1,
)
unfolding validate_message bytes trim_space
riddle_posted =
    ap (λ (r : Result Message). (r, (create plain "m2" 50 "alice" riddle quiet).1))
      (create-succeeds plain 50 "alice" riddle "m2" quiet two_users refl
        (serve_ws-IsSafe new_hub new_hub-IsSafe) refl refl refl refl refl).0

other_posted : create plain "m2" 50 "alice" other_riddle quiet ≡ (
  ok (made plain "m2" 50 "alice" other_riddle two_users),
  (create plain "m2" 50 "alice" other_riddle quiet).1,
)
unfolding validate_message bytes trim_space
other_posted =
    ap (λ (r : Result Message). (r, (create plain "m2" 50 "alice" other_riddle quiet).1))
      (create-succeeds plain 50 "alice" other_riddle "m2" quiet two_users refl
        (serve_ws-IsSafe new_hub new_hub-IsSafe) refl refl refl refl refl).0

same_tags : extract_hashtags "Look behind you #Paris" ≡ extract_hashtags "Look up #Paris"
unfolding extract_hashtags
same_tags = refl

create-secret_example :
    (create plain "m2" 50 "alice" riddle quiet).1.hub
    ≡ (create plain "m2" 50 "alice" other_riddle quiet).1.hub
create-secret_example =
    create-secret plain "m2" 50 "alice" riddle "Look up #Paris" quiet
      (create plain "m2" 50 "alice" riddle quiet).1
      (create plain "m2" 50 "alice" other_riddle quiet).1
      (made plain "m2" 50 "alice" riddle two_users)
      (made plain "m2" 50 "alice" other_riddle two_users) (serve_ws-IsSafe new_hub new_hub-IsSafe)
      refl same_tags riddle_posted other_posted

abbrev secrets : SearchQuery
secrets = record { query = "#secret"; kind = "hashtag"; limit = pos 100; offset = pos 0 }

search-IsPage_example :
    IsPage plain 50 secrets two_users (search plain 50 secrets (steady two_users))
search-IsPage_example = search-IsPage plain 50 secrets two_users
