-- ===== src/Tests/Services.antt =====
-- The services of backend/internal/service on a small database, with libraries that do nothing.
use geo_note.Common.{◌≡◌, refl, ◌&&◌, Bool, none, some, [], tally, str_eq}
use geo_note.Model.{Report, NearbyQuery}
use geo_note.Repository.Query.{ok, Conn}
use geo_note.Repository.Query.Rules.{Ensures}
use geo_note.Service.Messages.{get_nearby, lookup, clamp}
use geo_note.Service.Messages.Caching.{Cached, get_nearby-Cached}
use geo_note.Service.Messages.Privacy.{leaks, get_nearby-privacy}
use geo_note.Service.Moderation.{Moderated, report_message, report_message-hides}
use geo_note.Tests.Data.{plain, two_users, by_hashtag}

abbrev steady : Conn
steady = record { db = two_users; faults = [] }

by_hashtag_misses : lookup plain (clamp by_hashtag) none ≡ ok none
unfolding lookup clamp
by_hashtag_misses = refl

get_nearby-privacy_example :
    Ensures
      (λ ms d. (tally (leaks "alice" two_users) ms ≡ 0) × (d ≡ two_users))
      (get_nearby plain 50 by_hashtag none steady).0
get_nearby-privacy_example =
    get_nearby-privacy plain (λ less ms p. refl) 50 by_hashtag none steady by_hashtag_misses

-- A client without a token, and a cache.
abbrev by_anyone : NearbyQuery
by_anyone = record by_hashtag { hashtag = ""; user_id = "" }

get_nearby-Cached_example :
    Cached plain
      (clamp by_anyone)
      (some tt)
      two_users
      (get_nearby plain 50 by_anyone (some tt) steady)
get_nearby-Cached_example =
    get_nearby-Cached plain (λ less ms p. refl) 50 by_anyone (some tt) steady

abbrev same_reporter : Report → Report → Bool
same_reporter r s = str_eq r.message_id s.message_id && str_eq r.reporter_id s.reporter_id

report_message-hides_example :
    Moderated "m1" two_users
      (report_message same_reporter "m1" "alice" "spam" "" (record { db = two_users; faults = [] }))
report_message-hides_example =
    report_message-hides same_reporter "m1" "alice" "spam" "" two_users refl refl
