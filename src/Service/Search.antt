-- ===== src/Service/Search.antt =====
-- `SearchService` of backend/internal/service/search_service.go.
pub mod Pages
use geo_note.Common.{ℕ, String, List, [], map, ◌||◌, str_eq, if◌then◌else◌}
use geo_note.Common.Int.{ℤ, pos, ltb_ℤ, leb_ℤ}
use geo_note.External.{External}
use geo_note.Model.{Message, HashtagResult, SearchQuery, SearchResult}
use geo_note.Repository.Query.{Query, pure, ◌>>=◌}
use geo_note.Repository.Messages.Reads.{search_by_hashtag}
use geo_note.Repository.Messages.Clusters as Rows
use geo_note.Repository.Users.{search_by_username}
use geo_note.Service.Messages.Masking.{is_mystery, mask}

-- The bounds that `Search` puts on limit and offset.
unfoldable pub bounded : SearchQuery → SearchQuery
bounded q = record q {
  limit = if leb_ℤ q.limit (pos 0) || ltb_ℤ (pos 50) q.limit then pos 20 else q.limit;
  offset = if ltb_ℤ q.offset (pos 0) then pos 0 else q.offset;
}

abbrev pub hidden : Message → Message
hidden m = if is_mystery m then mask m else m

module _ (x : External) where
  -- `searchHashtags`
  unfoldable pub search_hashtags : ℕ → SearchQuery → Query SearchResult
  search_hashtags now q = do
    (messages, total) ← search_by_hashtag x.to_lower now q.query q.limit q.offset
    pure (record { messages = map hidden messages; users = []; total = total })

  -- `searchUsers`
  unfoldable pub search_users : SearchQuery → Query SearchResult
  search_users q = do
    (users, total) ← search_by_username x q.query q.limit q.offset
    pure (record { messages = []; users = users; total = total })

  -- `Search`
  unfoldable pub search : ℕ → SearchQuery → Query SearchResult
  unfolding bounded search_hashtags search_users
  search now q =
      let q = bounded q in if str_eq q.kind "user" then search_users q else search_hashtags now q

-- `GetPopularHashtags`
unfoldable pub get_popular_hashtags : ℕ → ℤ → Query (List HashtagResult)
get_popular_hashtags now limit =
    Rows.get_popular_hashtags now
      (if leb_ℤ limit (pos 0) || ltb_ℤ (pos 50) limit then pos 10 else limit)
