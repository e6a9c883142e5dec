-- ===== src/Repository/Users.antt =====
-- `UserRepo` of backend/internal/repository/user_repo.go over the table `users`, less the columns
-- `avatar_url` and `is_anonymous`, which the backend only passes on.
use Prim.Native.String
use Prim.Native.String.{[], ◌∷◌, count}
use mathlib.Core.List
use geo_note.Common.{
  ℕ, String, Bool, true, false, Option, none, some, ◌&&◌, ◌||◌, not, map, leb, str_eq, exists,
  first, select, take, drop, length, code, if◌then◌else◌,
}
use geo_note.Common as Common
use geo_note.Common.Int.{ℤ, pos, pos_part, ltb_ℤ}
use geo_note.External.{External}
use geo_note.Model.{User, UserSummary}
use geo_note.Repository.Query.{
  no_rows, failed, Result, ok, err, Db, Query, pure, statement, read, read_rows, ◌>>=◌,
}
use geo_note.Repository.Messages.Hashtags.{is_word}

-- The class `[a-zA-Z0-9_]*`.
unfoldable pub all_words : String → Bool
all_words [] = true
all_words (c ∷ s) = is_word (code c) && all_words s

-- What an INSERT into `users` violates: UNIQUE on the name and the mail, the primary key, the
-- constraint `username_format`, and VARCHAR(255).
unfoldable pub user_violates : User → Db → Bool
unfolding all_words
user_violates u db =
    exists (λ (v : User). str_eq v.username u.username) db.users
    || exists (λ (v : User). str_eq v.email u.email) db.users
    || exists (λ (v : User). str_eq v.id u.id) db.users
    || not (all_words u.username && leb 3 (count u.username) && leb (count u.username) 30)
    || not (leb (count u.email) 255)

unfoldable pub insert_user : User → Db → Result User × Db
unfolding user_violates
insert_user u db =
    if user_violates u db
    then (err failed, db)
    else (ok u, record db { users = Common.◌∷◌ u db.users })

-- `Create`, which fills in the id and the time.
unfoldable pub create : String → ℕ → User → Query User
unfolding insert_user
create new_id now u = statement (insert_user (record u { id = new_id; created_at = now }))

abbrev pub user_or_error : Option User → Result User
user_or_error none = err no_rows
user_or_error (some u) = ok u

abbrev pub with_email : String → Db → Option User
with_email email db = first (λ (u : User). str_eq u.email email) db.users

-- `GetByEmail`
unfoldable pub get_by_email : String → Query User
get_by_email email = read (λ db. user_or_error (with_email email db))

abbrev pub without_hash : Option User → Result User
without_hash none = err no_rows
without_hash (some u) = ok (record u { password_hash = "" })

-- `GetByID`, which does not select the hash.
unfoldable pub get_by_id : String → Query User
get_by_id id = read (λ db. without_hash (first (λ (u : User). str_eq u.id id) db.users))

module _ (x : External) where
  -- ORDER BY username by insertion.
  insert_name : User → List.List User → List.List User
  insert_name u List.[] = List.◌∷◌ u List.[]
  insert_name u (List.◌∷◌ v vs) =
      let rest = insert_name u vs in
      if x.collates u.username v.username then List.◌∷◌ u (List.◌∷◌ v vs) else List.◌∷◌ v rest

  unfoldable pub by_name : List.List User → List.List User
  unfolding insert_name
  by_name List.[] = List.[]
  by_name (List.◌∷◌ u us) = insert_name u (by_name us)

  abbrev pub matching : String → Db → List.List User
  matching query db =
      select (λ (u : User). x.ilike u.username (String.◌++◌ "%" (String.◌++◌ query "%"))) db.users

  abbrev pub summary : User → UserSummary
  summary u = record { id = u.id; username = u.username }

  -- A negative LIMIT or OFFSET is an error.
  unfoldable pub user_page : String → ℤ → ℤ → Db → Result (List.List UserSummary)
  unfolding by_name
  user_page query limit offset db =
      if ltb_ℤ limit (pos 0)
      then err failed
      else if ltb_ℤ offset (pos 0)
      then err failed
      else ok (
          map summary
            (take (pos_part limit) (drop (pos_part offset) (by_name (matching query db)))))

  -- `SearchByUsername`: the page, and the number of all matches.
  unfoldable pub search_by_username : String → ℤ → ℤ → Query (List.List UserSummary × ℕ)
  unfolding user_page
  search_by_username query limit offset = do
    total ← read (λ db. ok (length (matching query db)))
    users ← read_rows (user_page query limit offset)
    pure (users, total)
