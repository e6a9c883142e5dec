-- ===== src/Tests/Comments.antt =====
-- A comment on the small database.
use geo_note.Common.{◌≡◌, refl, Bool, false, some, ◌∷◌, tally}
use geo_note.Model.{User}
use geo_note.Repository.Query.{ok, Db}
use geo_note.Repository.Query.Rules.{steady}
use geo_note.Repository.Messages.Rows.{author}
use geo_note.Repository.Interactions.{add_comment, violates}
use geo_note.Repository.Interactions.Comments.{Comment, comments_of, get_comments}
use geo_note.Repository.Interactions.Listing.{added, with_comment, get_comments-add_comment}
use geo_note.Tests.Data.{two_users}

abbrev commented : Db
commented = with_comment "c1" 60 "m1" "alice" "found it" two_users

fits : violates (added "c1" 60 "m1" "alice" "found it") two_users ≡ false
unfolding violates
fits = refl

get_comments-add_comment_example :
    (add_comment "c1" 60 "m1" "alice" "found it" (steady two_users)
      ≡ (ok (added "c1" 60 "m1" "alice" "found it"), steady commented))
    × ((u : User) × (author "alice" two_users.users ≡ some u)
        × (get_comments "m1" (steady commented)
            ≡ (ok (comments_of "m1" commented), steady commented))
        × ((p : Comment → Bool)
            → tally p (comments_of "m1" commented)
              ≡ tally p (
                  record { row = added "c1" 60 "m1" "alice" "found it"; username = u.username }
                  ∷ comments_of "m1" two_users)))
get_comments-add_comment_example =
    get_comments-add_comment "c1" 60 "m1" "alice" "found it" two_users fits
