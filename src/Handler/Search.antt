-- ===== src/Handler/Search.antt =====
-- backend/internal/handler/search_handler.go.
use geo_note.Common.{ℕ, length, str_eq, ◌&&◌, not, if◌then◌else◌}
use geo_note.Common.Int.{pos}
use geo_note.External.{External}
use geo_note.Http.{write_error}
use geo_note.Model.{SearchQuery}
use geo_note.Repository.Messages.Writes.{or_default}
use geo_note.Service.Search as Service
use geo_note.Service.State.{on_db}
use geo_note.Handler.Replies.{
  Request, Handler, send, refuse, replied, server_error, parse_int, capped_int, found, hashtags,
}

module _ (x : External) where
  unfoldable pub search_query : Request → SearchQuery
  search_query r = record {
    query = r.query "q";
    kind = or_default (r.query "type") "hashtag";
    limit = capped_int x r "limit" (pos 20) (pos 50);
    offset = parse_int x r "offset" (pos 0);
  }

  -- `Search`
  unfoldable pub search : ℕ → Request → Handler x
  search now r s =
      let q = search_query r in
      if str_eq q.query ""
      then (refuse (write_error 400 "MISSING_QUERY" "Le parametre q est requis"), s)
      else if not (str_eq q.kind "hashtag") && not (str_eq q.kind "user")
      then (refuse (write_error 400 "INVALID_TYPE" "type doit etre hashtag ou user"), s)
      else replied x (λ e. write_error 500 "SEARCH_ERROR" "Erreur de recherche")
          (λ result. send 200 (found result)) (on_db x (Service.search x now q) s)

  -- `PopularHashtags`
  unfoldable pub popular_hashtags : ℕ → Request → Handler x
  popular_hashtags now r s =
      replied x (server_error "HASHTAG_ERROR") (λ tags. send 200 (hashtags tags (length tags)))
        (on_db x (Service.get_popular_hashtags now (capped_int x r "limit" (pos 10) (pos 50))) s)
