-- ===== src/Server/Feeds.antt =====
-- The queries of the feeds only read: nearby messages, searches and aggregates.
use geo_note.Common.{ℕ, Bool, Option, none, some, List, [], str_eq, map, length, select}
use geo_note.Common.Int.{ℤ}
use geo_note.Common.Text.{trim_prefix}
use geo_note.External.{External}
use geo_note.Model.{Message, SearchQuery, NearbyQuery}
use geo_note.Repository.Query.{Result, ok, err, Conn, Db, pure, read, read_rows, ◌>>=◌}
use geo_note.Repository.Query.Frames.{Frame, Stays, read-Stays, rows-Stays, if-Stays, bind-Stays}
use geo_note.Repository.Messages as Rows
use geo_note.Repository.Messages.{get_nearby_messages, asking, with_hashtag}
use geo_note.Repository.Messages.Clusters
use geo_note.Repository.Messages.Events
use geo_note.Repository.Messages.Reads.{search_by_hashtag, page, tagged, has_tag}
use geo_note.Repository.Users.{search_by_username, user_page, matching}
use geo_note.Service.Messages as Feed
use geo_note.Service.Messages.{fetch, keep, clamp, lookup}
use geo_note.Service.Messages.Masking.{mask_all, enrich, finish, rank}
use geo_note.Server.Readers.{mask_all-Stays, enrich-Stays}
use geo_note.Service.Publishing
use geo_note.Service.Search as Searching
use geo_note.Service.Search.{search_hashtags, search_users, bounded, hidden}

module _ (F : Frame) (x : External) where
  pub heatmap-Stays :
      (now : ℕ) (latitude longitude radius : ℤ)
      → Stays F (Publishing.get_heatmap x now latitude longitude radius)
  unfolding Publishing.get_heatmap Clusters.get_heatmap
  heatmap-Stays now latitude longitude radius = rows-Stays F _

  pub leaderboard-Stays :
      (now : ℕ) (latitude longitude radius limit : ℤ)
      → Stays F (Publishing.get_leaderboard x now latitude longitude radius limit)
  unfolding Publishing.get_leaderboard Clusters.get_leaderboard
  leaderboard-Stays now latitude longitude radius limit = rows-Stays F _

  pub events-Stays :
      (now : ℕ) (latitude longitude radius : ℤ)
      → Stays F (Publishing.detect_events x now latitude longitude radius)
  unfolding Publishing.detect_events Events.detect_events
  events-Stays now latitude longitude radius = rows-Stays F _

  hashtags-Stays : (now : ℕ) (q : SearchQuery) → Stays F (search_hashtags x now q)
  unfolding search_hashtags search_by_hashtag
  hashtags-Stays now q =
      let tag = x.to_lower (trim_prefix q.query "#") in
      let rows = λ (db : Db). page q.limit q.offset (tagged now tag db) in
      bind-Stays F (search_by_hashtag x.to_lower now q.query q.limit q.offset)
        (λ (ms, total). pure (record { messages = map hidden ms; users = []; total = total }))
        (bind-Stays F (read (λ db. ok (length (select (has_tag now tag) db.messages))))
          (λ total. read_rows rows >>= λ ms. pure (ms, total)) (read-Stays F _)
          (λ total.
            bind-Stays F (read_rows rows) (λ ms. pure (ms, total)) (rows-Stays F rows)
              (λ ms c. F.same c.db)))
        (λ (ms, total) c. F.same c.db)

  users-Stays : (q : SearchQuery) → Stays F (search_users x q)
  unfolding search_users search_by_username
  users-Stays q =
      let rows = user_page x q.query q.limit q.offset in
      bind-Stays F (search_by_username x q.query q.limit q.offset)
        (λ (users, total). pure (record { messages = []; users = users; total = total }))
        (bind-Stays F (read (λ db. ok (length (matching x q.query db))))
          (λ total. read_rows rows >>= λ users. pure (users, total)) (read-Stays F _)
          (λ total.
            bind-Stays F (read_rows rows) (λ users. pure (users, total)) (rows-Stays F rows)
              (λ users c. F.same c.db)))
        (λ (users, total) c. F.same c.db)

  pub search-Stays : (now : ℕ) (q : SearchQuery) → Stays F (Searching.search x now q)
  unfolding Searching.search
  search-Stays now q =
      let q = bounded q in
      if-Stays F (str_eq q.kind "user") (search_users x q) (search_hashtags x now q) (users-Stays q)
        (hashtags-Stays now q)

  finish-Stays : (now : ℕ) (q : NearbyQuery) (ms : List Message) → Stays F (finish x now q ms)
  unfolding finish
  finish-Stays now q ms =
      bind-Stays F (mask_all q.user_id ms)
        (λ (ns, masked).
          enrich q.user_id ns >>= λ enriched. pure (rank x now q.sort enriched, masked))
        (mask_all-Stays F q.user_id ms)
        (λ (ns, masked).
          bind-Stays F (enrich q.user_id ns) (λ enriched. pure (rank x now q.sort enriched, masked))
            (enrich-Stays F q.user_id ns) (λ enriched c. F.same c.db))

  pub nearby_rows-Stays : (now : ℕ) (q : NearbyQuery) → Stays F (Rows.get_nearby x now q)
  unfolding Rows.get_nearby
  nearby_rows-Stays now q =
      bind-Stays F (read_rows (get_nearby_messages x now q (asking q)))
        (λ ms. pure (with_hashtag x q.hashtag ms)) (rows-Stays F _) (λ ms c. F.same c.db)

  fetch-Stays : (now : ℕ) (q : NearbyQuery) → Stays F (fetch x now q)
  unfolding fetch
  fetch-Stays now q =
      bind-Stays F (Rows.get_nearby x now q) (finish x now q) (nearby_rows-Stays now q)
        (λ ms. finish-Stays now q ms)

  keep-Stays :
      (q : NearbyQuery) (cache : Option x.Store) (before : Db)
      (r : Result (List Message × Bool) × Conn)
      → F.Change before r.1.db
      → F.Change before (keep x q cache r).0.1.db
  keep-Stays q cache before (ok (ms, masked), c) h = h
  keep-Stays q cache before (err e, c) h = h

  answer-Stays :
      (now : ℕ) (q : NearbyQuery) (cache : Option x.Store) (seen : Result (Option (List Message)))
      (c : Conn)
      → F.Change c.db (Feed.answer x now q cache seen c).0.1.db
  answer-Stays now q cache (ok none) c =
      keep-Stays q cache c.db (fetch x now q c) (fetch-Stays now q c)
  answer-Stays now q cache (ok (some ms)) c = F.same c.db
  answer-Stays now q cache (err e) c = F.same c.db

  pub get_nearby-Stays :
      (now : ℕ) (q : NearbyQuery) (cache : Option x.Store) (c : Conn)
      → F.Change c.db (Feed.get_nearby x now q cache c).0.1.db
  unfolding Feed.get_nearby
  get_nearby-Stays now q cache c = answer-Stays now (clamp q) cache (lookup x (clamp q) cache) c
