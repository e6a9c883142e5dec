-- ===== src/Server/Readers.antt =====
-- The queries that only read: they stay within every frame.
use geo_note.Common.{
  ℕ, String, true, false, Option, none, some, List, [], ◌∷◌, ◌||◌, not, str_eq, Bool-cases, inl,
  inr, map, if◌then◌else◌,
}
use geo_note.Common.Int.{ℤ}
use geo_note.Model.{Message, User, LoginRequest}
use geo_note.Repository.Query.{Result, ok, err, pure, attempt, ◌>>=◌}
use geo_note.Repository.Query.Frames.{
  Frame, Stays, read-Stays, rows-Stays, attempt-Stays, if-Stays, bind-Stays,
}
use geo_note.Repository.Messages.Clusters
use geo_note.Repository.Messages.Reads
use geo_note.Repository.Messages.Reads.{is_unlocked, search_by_hashtag, page, tagged, has_tag}
use geo_note.Repository.Interactions.Comments
use geo_note.Repository.Gamification.{get_streak, get_badges}
use geo_note.Repository.Gamification.Quiet.{get_streak-Stays, get_badges-Stays}
use geo_note.Repository.Reactions.{get_reactions_by_messages}
use geo_note.Repository.Reactions.Batch.{get_reactions_by_messages-Stays}
use geo_note.Repository.Users.{get_by_email, get_by_id}
use geo_note.Service.Accounts as Auth
use geo_note.Service.Accounts.{Bcrypt, or_failed, checked_login, signed_in}
use geo_note.Service.Auth.{Jwt, generate_token}
use geo_note.Service.Interactions
use geo_note.Service.Messages.Masking.{
  mask_one, mask_all, enrich, is_mystery, is_own, mask, shown, add_reactions,
}
use geo_note.Service.Publishing
use geo_note.Service.Search as Searching
use geo_note.Service.Search.{search_hashtags, search_users, bounded, hidden}

module _ (F : Frame) where
  pub or_failed-Stays : {A : Type 0} (o : Option A) → Stays F (or_failed o)
  or_failed-Stays none c = F.same c.db
  or_failed-Stays (some a) c = F.same c.db

  module _ (jwt : Jwt) (bcrypt : Bcrypt) (secret : String) (expiry : ℤ) where
    pub signed_in-Stays : (now : ℕ) (u : User) → Stays F (signed_in jwt bcrypt secret expiry now u)
    unfolding signed_in
    signed_in-Stays now u =
        bind-Stays F (or_failed (generate_token jwt secret expiry now u.id))
          (λ token. pure (record { token = token; user = u }))
          (or_failed-Stays (generate_token jwt secret expiry now u.id)) (λ token c. F.same c.db)

    checked_login-Stays :
        (now : ℕ) (password : String) (r : Result User)
        → Stays F (checked_login jwt bcrypt secret expiry now password r)
    unfolding checked_login
    checked_login-Stays now password (err e) c = F.same c.db
    checked_login-Stays now password (ok u) c =
        elim (Bool-cases (bcrypt.compare_hash u.password_hash password)) [
          | inl e ↦ rw e (signed_in-Stays now u c)
          | inr e ↦ rw e (F.same c.db)
        ]

    pub login-Stays :
        (now : ℕ) (req : LoginRequest) → Stays F (Auth.login jwt bcrypt secret expiry now req)
    unfolding Auth.login get_by_email
    login-Stays now req =
        bind-Stays F (attempt (get_by_email req.email))
          (checked_login jwt bcrypt secret expiry now req.password)
          (attempt-Stays F (get_by_email req.email) (read-Stays F _))
          (checked_login-Stays now req.password)

  pub get_user-Stays : (id : String) → Stays F (Auth.get_user id)
  unfolding Auth.get_user get_by_id
  get_user-Stays id = read-Stays F _

  pub get_profile-Stays : (id : String) → Stays F (Interactions.get_profile id)
  unfolding Interactions.get_profile
  get_profile-Stays id =
      bind-Stays F (get_streak id) (λ streak. get_badges id >>= λ badges. pure (streak, badges))
        (get_streak-Stays F id)
        (λ streak.
          bind-Stays F (get_badges id) (λ badges. pure (streak, badges)) (get_badges-Stays F id)
            (λ badges c. F.same c.db))

  pub get_comments-Stays : (id : String) → Stays F (Interactions.get_comments id)
  unfolding Interactions.get_comments Comments.get_comments
  get_comments-Stays id = rows-Stays F _

  pub get_by_user-Stays : (id : String) → Stays F (Publishing.get_by_user id)
  unfolding Publishing.get_by_user Reads.get_by_user
  get_by_user-Stays id = rows-Stays F _

  pub popular-Stays : (now : ℕ) (limit : ℤ) → Stays F (Searching.get_popular_hashtags now limit)
  unfolding Searching.get_popular_hashtags Clusters.get_popular_hashtags
  popular-Stays now limit = rows-Stays F _

  mask_one-Stays : (user_id : String) (m : Message) → Stays F (mask_one user_id m)
  unfolding mask_one is_unlocked
  mask_one-Stays user_id m =
      let looked = attempt (is_unlocked m.id user_id) >>= λ r. pure (shown m r) in
      if-Stays F (not (is_mystery m) || is_own user_id m) (pure (m, false))
        (if str_eq user_id "" then pure (mask m, true) else looked) (λ c. F.same c.db)
        (if-Stays F (str_eq user_id "") (pure (mask m, true)) looked (λ c. F.same c.db)
          (bind-Stays F (attempt (is_unlocked m.id user_id)) (λ r. pure (shown m r))
            (attempt-Stays F (is_unlocked m.id user_id) (read-Stays F _)) (λ r c. F.same c.db)))

  pub mask_all-Stays : (user_id : String) (ms : List Message) → Stays F (mask_all user_id ms)
  unfolding mask_all
  mask_all-Stays user_id [] = λ c. F.same c.db
  mask_all-Stays user_id (m ∷ ms) =
      bind-Stays F (mask_one user_id m)
        (λ (n, masked). mask_all user_id ms >>= λ (ns, others). pure (n ∷ ns, masked || others))
        (mask_one-Stays user_id m)
        (λ (n, masked).
          bind-Stays F (mask_all user_id ms) (λ (ns, others). pure (n ∷ ns, masked || others))
            (mask_all-Stays user_id ms) (λ (ns, others) c. F.same c.db))

  pub enrich-Stays : (user_id : String) (ms : List Message) → Stays F (enrich user_id ms)
  unfolding enrich
  enrich-Stays user_id ms =
      let get = get_reactions_by_messages (map (λ m. m.id) ms) user_id in
      bind-Stays F (attempt get) (λ r. pure (add_reactions ms r))
        (attempt-Stays F get (get_reactions_by_messages-Stays F (map (λ m. m.id) ms) user_id))
        (λ r c. F.same c.db)
