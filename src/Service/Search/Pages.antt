-- ===== src/Service/Search/Pages.antt =====
-- What a search answers: it always does on a database that answers, never more than a page, and never
-- the content of a mystery message.
use geo_note.Common.{
  ◌≡◌, ◌≤◌, refl, ℕ, String, Bool, true, false, List, [], ◌∷◌, ◌&&◌, not, map, take, drop, length,
  tally, select, str_eq, if◌then◌else◌, Bool-cases, inl, inr, arith, length-take,
}
use geo_note.Common.Int.{ℤ, pos, pos_part, ltb_ℤ}
use geo_note.Common.Text.{trim_prefix}
use geo_note.External.{External}
use geo_note.Model.{Message, UserSummary, SearchQuery, SearchResult}
use geo_note.Repository.Query.{Result, ok, err, Conn, Db, read_rows, pure}
use geo_note.Repository.Query.Rules.{>>=-ok, steady, rows-steady}
use geo_note.Repository.Messages.Reads.{search_by_hashtag, tagged, has_tag, page}
use geo_note.Repository.Users.{search_by_username, user_page, matching, summary, by_name}
use geo_note.Service.Messages.Masking.{is_mystery, mask}
use geo_note.Service.Search.{bounded, hidden, search, search_hashtags, search_users}

-- The bounds are from 1 to 50 for the limit, and 0 or more for the offset.
bounded_lem :
    (q : SearchQuery)
    → (ltb_ℤ (bounded q).limit (pos 0) ≡ false)
      × (ltb_ℤ (bounded q).offset (pos 0) ≡ false)
      × (pos_part (bounded q).limit ≤ 50)
unfolding bounded
bounded_lem q = (ground arith, ground arith, ground arith)

abbrev pub tells : Message → Bool
tells m = is_mystery m && not (str_eq m.content "???")

hidden-tells_one : (m : Message) → tells (hidden m) ≡ false
unfolding mask
hidden-tells_one m = elim (Bool-cases (is_mystery m)) [
  | inl e ↦ rw (e, e) refl
  | inr e ↦ rw (e, e) refl
]

hidden-tells : (ms : List Message) → tally tells (map hidden ms) ≡ 0
hidden-tells [] = refl
hidden-tells (m ∷ ms) = rw (hidden-tells_one m) (omega (arith, hidden-tells ms))

map-length : {A B : Type 0} (f : A → B) (xs : List A) → length (map f xs) ≡ length xs
map-length f [] = refl
map-length f (y ∷ xs) = omega (arith, map-length f xs)

-- How many rows a search matches.
abbrev pub matches : External → ℕ → SearchQuery → Db → ℕ
matches x now q db =
    if str_eq q.kind "user"
    then length (matching x q.query db)
    else length (select (has_tag now (x.to_lower (trim_prefix q.query "#"))) db.messages)

abbrev pub IsPage : External → ℕ → SearchQuery → Db → Result SearchResult × Conn → Type 0
IsPage x now q db (err e, c) = ⊥
IsPage x now q db (ok r, c) =
    (length r.messages ≤ 50)
    × (length r.users ≤ 50)
    × (tally tells r.messages ≡ 0)
    × (r.total ≡ matches x now q db)
    × (c.db ≡ db)

page-ok :
    (limit offset : ℤ) (ms : List Message)
    → ltb_ℤ limit (pos 0) ≡ false
    → ltb_ℤ offset (pos 0) ≡ false
    → page limit offset ms ≡ ok (take (pos_part limit) (drop (pos_part offset) ms))
unfolding page
page-ok limit offset ms l o = rw (l, o) refl

length-page :
    {A : Type 0} (limit : ℤ) (xs : List A)
    → pos_part limit ≤ 50
    → length (take (pos_part limit) xs) ≤ 50
length-page limit xs h = omega (arith, length-take (pos_part limit) xs)

module _ (x : External) where
  user_page-ok :
      (query : String) (limit offset : ℤ) (db : Db)
      → ltb_ℤ limit (pos 0) ≡ false
      → ltb_ℤ offset (pos 0) ≡ false
      → user_page x query limit offset db
        ≡ ok (
            map
              (summary x)
              (take (pos_part limit) (drop (pos_part offset) (by_name x (matching x query db)))))
  unfolding user_page
  user_page-ok query limit offset db l o = rw (l, o) refl

  module _ (now : ℕ) (q : SearchQuery) (db : Db) (low : ltb_ℤ q.limit (pos 0) ≡ false)
      (start : ltb_ℤ q.offset (pos 0) ≡ false) (short : pos_part q.limit ≤ 50) where
    abbrev users_found : List UserSummary
    users_found =
        map (summary x)
          (take (pos_part q.limit) (drop (pos_part q.offset) (by_name x (matching x q.query db))))

    search_users-ok : search_users x q (steady db) ≡ (
      ok (record { messages = []; users = users_found; total = length (matching x q.query db) }),
      steady db,
    )
    unfolding search_users search_by_username
    search_users-ok =
        let total = length (matching x q.query db) in
        >>=-ok (search_by_username x q.query q.limit q.offset)
          (λ (users, total). pure (record { messages = []; users = users; total = total }))
          (steady db) (steady db) (users_found, total)
          (>>=-ok (read_rows (user_page x q.query q.limit q.offset)) (λ users. pure (users, total))
            (steady db) (steady db) users_found
            (rows-steady (user_page x q.query q.limit q.offset) db users_found
              (user_page-ok q.query q.limit q.offset db low start)))

    abbrev tag : String
    tag = x.to_lower (trim_prefix q.query "#")

    abbrev found : List Message
    found = take (pos_part q.limit) (drop (pos_part q.offset) (tagged now tag db))

    search_hashtags-ok : search_hashtags x now q (steady db) ≡ (
      ok (record {
        messages = map hidden found;
        users = [];
        total = length (select (has_tag now tag) db.messages);
      }),
      steady db,
    )
    unfolding search_hashtags search_by_hashtag
    search_hashtags-ok =
        let total = length (select (has_tag now tag) db.messages) in
        let read_page = λ (db : Db). page q.limit q.offset (tagged now tag db) in
        >>=-ok (search_by_hashtag x.to_lower now q.query q.limit q.offset)
          (λ (ms, total). pure (record { messages = map hidden ms; users = []; total = total }))
          (steady db) (steady db) (found, total)
          (>>=-ok (read_rows read_page) (λ ms. pure (ms, total)) (steady db) (steady db) found
            (rows-steady read_page db found
              (page-ok q.limit q.offset (tagged now tag db) low start)))

    users_search-IsPage :
        str_eq q.kind "user" ≡ true → IsPage x now q db (search_users x q (steady db))
    users_search-IsPage e =
        let us = drop (pos_part q.offset) (by_name x (matching x q.query db)) in
        rw (search_users-ok, e)
          (
            omega arith,
            omega (
              arith,
              map-length (summary x) (take (pos_part q.limit) us),
              length-page q.limit us short,
            ),
            refl,
            refl,
            refl,
          )

    tags_search-IsPage :
        str_eq q.kind "user" ≡ false → IsPage x now q db (search_hashtags x now q (steady db))
    tags_search-IsPage e =
        let ms = drop (pos_part q.offset) (tagged now tag db) in
        rw (search_hashtags-ok, e)
          (
            omega (arith, map-length hidden found, length-page q.limit ms short),
            omega arith,
            hidden-tells found,
            refl,
            refl,
          )

  -- `Search` on a database that answers, for any query: it succeeds, with at most 50 messages and 50
  -- users, no content of a mystery message, and the number of all rows that match as the total; the
  -- tables are as before.
  pub search-IsPage :
      (now : ℕ) (q : SearchQuery) (db : Db) → IsPage x now q db (search x now q (steady db))
  unfolding search bounded
  search-IsPage now q db =
      let (low, start, short) = bounded_lem q in
      elim (Bool-cases (str_eq q.kind "user")) [
        | inl e ↦ rw e (users_search-IsPage now (bounded q) db low start short e)
        | inr e ↦ rw e (tags_search-IsPage now (bounded q) db low start short e)
      ]
