-- ===== src/Server/Within.antt =====
-- What the handlers of requests that read do to the database, and the handler of a registration.
use geo_note.Common.{
  ◌≡◌, refl, inl, inr, String, Bool, true, false, Option, none, some, List, [], ◌∷◌, ◌&&◌, not,
  str_eq, if◌then◌else◌, Bool-cases, arith,
}
use geo_note.External.{External}
use geo_note.Model.{User}
use geo_note.Model.Validation.{validate_login, validate_register}
use geo_note.Repository.Query.{ok, Db, ◌>>=◌}
use geo_note.Repository.Query.Frames.{
  Frame, only_users, OnlyUsers, statement-Stays, bind-Stays, read-Stays,
}
use geo_note.Repository.Users.{insert_user, user_violates}
use geo_note.Repository.Users
use geo_note.Service.Accounts as Auth
use geo_note.Service.Accounts.{Bcrypt, or_failed, signed_in, new_user}
use geo_note.Service.State.{State}
use geo_note.Handler.Accounts
use geo_note.Handler.Messages
use geo_note.Handler.Interactions
use geo_note.Handler.Search
use geo_note.Handler.Replies.{Reply, Request, Handler, validated, checked}
use geo_note.Server.{Config, Draw, endpoint}
use geo_note.Server.Readers.{
  or_failed-Stays, signed_in-Stays, login-Stays, get_user-Stays, get_profile-Stays,
  get_comments-Stays, get_by_user-Stays, popular-Stays,
}
use geo_note.Server.Feeds.{
  heatmap-Stays, leaderboard-Stays, events-Stays, search-Stays, get_nearby-Stays,
}
use geo_note.Server.Routes.{
  Endpoint, health, register, login, nearby, heatmap, leaderboard, events, search, popular,
  user_messages, user_profile, me, my_profile, create, delete, unlock, like, react, add_comment,
  report, delete_comment, get_comments,
}

-- The endpoints whose handlers only read.
abbrev pub is_reader : Endpoint → Bool
is_reader health = true
is_reader login = true
is_reader nearby = true
is_reader heatmap = true
is_reader leaderboard = true
is_reader events = true
is_reader search = true
is_reader popular = true
is_reader user_messages = true
is_reader user_profile = true
is_reader me = true
is_reader my_profile = true
is_reader get_comments = true
is_reader _ = false

abbrev pub is_register : Endpoint → Bool
is_register register = true
is_register _ = false

pub only_register : (e : Endpoint) → is_register e ≡ true → e ≡ register
only_register register h = refl
only_register e h = absurd (cc)

module _ (F : Frame) {x : External} where
  abbrev pub Within : Handler x → Type 0
  Within h = (s : State x) → F.Change s.conn.db (h s).1.conn.db

  checked-Within :
      (errors : List (String × String)) (h : Handler x) → Within h → Within (checked x errors h)
  checked-Within [] h w = w
  checked-Within (e ∷ errors) h w = λ s. F.same s.conn.db

  pub validated-Within :
      {A : Type 0} (o : Option A) (validate : A → List (String × String)) (next : A → Handler x)
      → ((a : A) → Within (next a))
      → Within (validated x o validate next)
  validated-Within none validate next w = λ s. F.same s.conn.db
  validated-Within (some a) validate next w = checked-Within (validate a) (next a) (w a)

  if-Within :
      (b : Bool) (db : Db) (u v : Reply × State x)
      → F.Change db u.1.conn.db
      → F.Change db v.1.conn.db
      → F.Change db (if b then u else v).1.conn.db
  if-Within true db u v h k = h
  if-Within false db u v h k = k

module _ (x : External) (cfg : Config) (d : Draw) where
  module _ (F : Frame) where
    search-Within : (r : Request) → Within F (Search.search x d.now r)
    unfolding Search.search
    search-Within r s =
        let q = Search.search_query x r in
        if-Within F (str_eq q.query "") s.conn.db _ _ (F.same s.conn.db) (
          if-Within F (not (str_eq q.kind "hashtag") && not (str_eq q.kind "user")) s.conn.db _ _
            (F.same s.conn.db) (search-Stays F x d.now q s.conn))

    pub reader-Within :
        (e : Endpoint) (id : String) (r : Request)
        → is_reader e ≡ true
        → Within F (endpoint x cfg d e id r)
    unfolding endpoint Accounts.health_check Accounts.login Messages.get_nearby Messages.get_heatmap
        Messages.get_leaderboard Messages.detect_events Search.popular_hashtags Messages.get_by_user
        Accounts.get_user_profile Accounts.me Accounts.get_my_profile Interactions.get_comments
    reader-Within health id r h = λ s. read-Stays F (λ db. ok tt) s.conn
    reader-Within login id r h =
        validated-Within F (x.decode_login r.body) validate_login _
          (λ req s. login-Stays F cfg.jwt cfg.bcrypt cfg.secret cfg.expiry d.now req s.conn)
    reader-Within nearby id r h =
        λ s. get_nearby-Stays F x d.now (Messages.nearby_query x r) s.cache s.conn
    reader-Within heatmap id r h = λ s. heatmap-Stays F x d.now _ _ _ s.conn
    reader-Within leaderboard id r h = λ s. leaderboard-Stays F x d.now _ _ _ _ s.conn
    reader-Within events id r h = λ s. events-Stays F x d.now _ _ _ s.conn
    reader-Within search id r h = search-Within r
    reader-Within popular id r h = λ s. popular-Stays F d.now _ s.conn
    reader-Within user_messages id r h = λ s. get_by_user-Stays F id s.conn
    reader-Within user_profile id r h = λ s. get_profile-Stays F id s.conn
    reader-Within me id r h = λ s. get_user-Stays F r.user_id s.conn
    reader-Within my_profile id r h = λ s. get_profile-Stays F r.user_id s.conn
    reader-Within get_comments id r h = λ s. get_comments-Stays F id s.conn
    reader-Within register id r h = absurd (cc)
    reader-Within create id r h = absurd (cc)
    reader-Within delete id r h = absurd (cc)
    reader-Within unlock id r h = absurd (cc)
    reader-Within like id r h = absurd (cc)
    reader-Within react id r h = absurd (cc)
    reader-Within add_comment id r h = absurd (cc)
    reader-Within report id r h = absurd (cc)
    reader-Within delete_comment id r h = absurd (cc)

  pub register-Within :
      (F : Frame) (id : String) (r : Request)
      → ((u : User) (db : Db) → F.Change db (insert_user u db).1)
      → Within F (endpoint x cfg d register id r)
  unfolding endpoint Accounts.register Auth.register Users.create
  register-Within F id r inserts =
      validated-Within F (x.decode_register r.body) validate_register _ (λ req s.
        let salted = cfg.bcrypt.generate d.salt req.password in
        let enter = signed_in cfg.jwt cfg.bcrypt cfg.secret cfg.expiry d.now in
        bind-Stays F (or_failed salted)
          (λ hash. Users.create d.new_id d.now (new_user req hash) >>= enter)
          (or_failed-Stays F salted)
          (λ hash.
            bind-Stays F (Users.create d.new_id d.now (new_user req hash)) enter
              (statement-Stays F _ (inserts _))
              (signed_in-Stays F cfg.jwt cfg.bcrypt cfg.secret cfg.expiry d.now))
          s.conn)

pub insert_user-OnlyUsers : (u : User) (db : Db) → OnlyUsers db (insert_user u db).1
unfolding insert_user
insert_user-OnlyUsers u db = elim (Bool-cases (user_violates u db)) [
  | inl e ↦ rw e (only_users.same db)
  | inr e ↦ rw e ((refl, refl, refl, refl, refl, refl, refl), λ p. omega arith)
]
