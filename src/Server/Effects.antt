-- ===== src/Server/Effects.antt =====
-- What the calls of the services do to the database, where every statement that writes stays within a
-- frame.
use geo_note.Common.{
  ℕ, ◌/◌, String, Bool, true, false, Option, none, some, str_eq, leb, not, if◌then◌else◌, first,
}
use geo_note.Common.Int.{ℤ}
use geo_note.Common.Text.{trim_space}
use geo_note.External.{External}
use geo_note.Model.{Message, Report, CreateMessageRequest}
use geo_note.Repository.Query.{Result, ok, err, Conn, Query, pure, ◌>>=◌, ◌>>◌, attempt}
use geo_note.Repository.Query.Frames.{
  Frame, Stays, read-Stays, rows-Stays, attempt-Stays, if-Stays, bind-Stays,
}
use geo_note.Repository.Gamification.{
  award_badge, record_post, record_unlock, check_and_award_badges,
}
use geo_note.Repository.Messages as Nearby
use geo_note.Repository.Messages.Reads.{get_message_content}
use geo_note.Repository.Messages.Writes
use geo_note.Repository.Messages.Writes.{day}
use geo_note.Repository.Reactions as Emojis
use geo_note.Repository.Reports
use geo_note.Repository.Reports.{get_report_count, hide_message}
use geo_note.Repository.Writers.{
  Respects, create-Stays, delete-Stays, unlock_mystery-Stays, toggle_reaction-Stays,
  report_message-Stays, get_report_count-Stays, hide_message-Stays, record_post-Stays,
  record_unlock-Stays, attempt_award-Stays, check_and_award_badges-Stays,
}
use geo_note.Service.Interactions as Service
use geo_note.Service.Messages as Feed
use geo_note.Service.Messages.{count_unlock, unlock_target, around, with_content, is_far}
use geo_note.Service.Messages.Masking.{is_mystery}
use geo_note.Service.Moderation
use geo_note.Service.Moderation.{hide_reported}
use geo_note.Service.Cache.{invalidate_zone}
use geo_note.Service.Publishing
use geo_note.Service.Publishing.{count_post, published, counted, announce, public_view, removed}
use geo_note.Service.State.{State}
use geo_note.Ws.Hub.{Hub}
use geo_note.Server.Feeds.{nearby_rows-Stays}

module _ (F : Frame) (x : External) (u : String) (w : Respects u F) where
  count_post-Stays : (now : ℕ) (req : CreateMessageRequest) → Stays F (count_post now u req)
  unfolding count_post
  count_post-Stays now req =
      let award = attempt (award_badge u now "capsule_creator") >> pure tt in
      let check = attempt (check_and_award_badges u now) in
      let end = if str_eq req.message_type "capsule" then award else pure tt in
      bind-Stays F (attempt (record_post u (now / day)) >> check) (λ _. end)
        (bind-Stays F (attempt (record_post u (now / day))) (λ _. check)
          (attempt-Stays F (record_post u (now / day)) (record_post-Stays u F w (now / day)))
          (λ _.
            attempt-Stays F (check_and_award_badges u now)
              (check_and_award_badges-Stays u F w now)))
        (λ _.
          if-Stays F (str_eq req.message_type "capsule") award (pure tt)
            (attempt_award-Stays u F w now "capsule_creator") (λ c. F.same c.db))

  counted-Within :
      (now : ℕ) (req : CreateMessageRequest) (m : Message) (s : State x) (o : Option Hub)
      → F.Change s.conn.db (counted x now u req m s o).1.conn.db
  counted-Within now req m s none = F.same s.conn.db
  counted-Within now req m s (some h) =
      bind-Stays F (count_post now u req) (λ _. pure m) (count_post-Stays now req)
        (λ _ c. F.same c.db) s.conn

  published-Within :
      (now : ℕ) (req : CreateMessageRequest) (s : State x) (r : Result Message) (c : Conn)
      → F.Change s.conn.db c.db
      → F.Change s.conn.db (published x now u req s (r, c)).1.conn.db
  published-Within now req s (ok m) c h = F.compose s.conn.db c.db _ h (
      counted-Within now req m (record s { conn = c; cache = invalidate_zone x s.cache })
        (announce x (public_view m) s.hub))
  published-Within now req s (err e) c h = h

  pub publish-Within :
      (new_id : String) (now : ℕ) (req : CreateMessageRequest) (s : State x)
      → F.Change s.conn.db (Publishing.create x new_id now u req s).1.conn.db
  unfolding Publishing.create
  publish-Within new_id now req s =
      let (r, c) = Writes.create x.parse_rfc3339 new_id now u req s.conn in
      published-Within now req s r c (create-Stays u F w x.parse_rfc3339 new_id now req s.conn)

  removed-Within :
      (s : State x) (r : Result (Unit {0})) (c : Conn)
      → F.Change s.conn.db c.db
      → F.Change s.conn.db (removed x s (r, c)).1.conn.db
  removed-Within s (ok a) c h = h
  removed-Within s (err e) c h = h

  pub remove-Within :
      (id : String) (s : State x) → F.Change s.conn.db (Publishing.delete x id u s).1.conn.db
  unfolding Publishing.delete
  remove-Within id s =
      let (r, c) = Writes.delete id u s.conn in removed-Within s r c (delete-Stays u F w id s.conn)

  count_unlock-Stays : (now : ℕ) (newly : Bool) → Stays F (count_unlock x u now newly)
  unfolding count_unlock
  count_unlock-Stays now true =
      bind-Stays F (attempt (record_unlock u) >> attempt (check_and_award_badges u now))
        (λ _. pure tt)
        (bind-Stays F (attempt (record_unlock u)) (λ _. attempt (check_and_award_badges u now))
          (attempt-Stays F (record_unlock u) (record_unlock-Stays u F w))
          (λ _.
            attempt-Stays F (check_and_award_badges u now)
              (check_and_award_badges-Stays u F w now)))
        (λ _ c. F.same c.db)
  count_unlock-Stays now false = λ c. F.same c.db

  -- What follows an unlock that went through.
  abbrev show : Message → Bool → Result String → Query (Message × Bool)
  show m newly content = pure (with_content x m content, newly)

  abbrev look_up : String → Message → Bool → Query (Message × Bool)
  look_up message_id m newly = attempt (get_message_content message_id) >>= show m newly

  abbrev unlocked : ℕ → String → Message → Bool → Query (Message × Bool)
  unlocked now message_id m newly = count_unlock x u now newly >> look_up message_id m newly

  unlocked-Stays :
      (now : ℕ) (message_id : String) (m : Message) (newly : Bool)
      → Stays F (unlocked now message_id m newly)
  unfolding get_message_content
  unlocked-Stays now message_id m newly =
      bind-Stays F (count_unlock x u now newly) (λ _. look_up message_id m newly)
        (count_unlock-Stays now newly)
        (λ _.
          bind-Stays F (attempt (get_message_content message_id)) (show m newly)
            (attempt-Stays F (get_message_content message_id) (read-Stays F _))
            (λ _ c. F.same c.db))

  unlock_target-Stays :
      (now : ℕ) (message_id : String) (o : Option Message)
      → Stays F (unlock_target x now message_id u o)
  unfolding unlock_target
  unlock_target-Stays now message_id none = λ c. F.same c.db
  unlock_target-Stays now message_id (some m) =
      let stop : Query (Message × Bool) = pure (m, false) in
      let proceed = Writes.unlock_mystery message_id u >>= unlocked now message_id m in
      if-Stays F (not (is_mystery m)) stop (if is_far x m then stop else proceed) (λ c. F.same c.db)
        (if-Stays F (is_far x m) stop proceed (λ c. F.same c.db)
          (bind-Stays F (Writes.unlock_mystery message_id u) (unlocked now message_id m)
            (unlock_mystery-Stays u F w message_id) (unlocked-Stays now message_id m)))

  pub unlock-Stays :
      (now : ℕ) (message_id : String) (latitude longitude : ℤ)
      → Stays F (Feed.unlock_mystery x now message_id u latitude longitude)
  unfolding Feed.unlock_mystery
  unlock-Stays now message_id latitude longitude =
      bind-Stays F (Nearby.get_nearby x now (around x u latitude longitude))
        (λ ms. unlock_target x now message_id u (first (λ m. str_eq m.id message_id) ms))
        (nearby_rows-Stays F x now (around x u latitude longitude))
        (λ ms. unlock_target-Stays now message_id _)

  pub react-Stays :
      (new_id message_id emoji : String)
      → Stays F (Service.toggle_reaction new_id message_id u emoji)
  unfolding Service.toggle_reaction Emojis.get_reactions_by_message
  react-Stays new_id message_id emoji =
      bind-Stays F (Emojis.toggle_reaction new_id message_id u (trim_space emoji))
        (λ reacted. Emojis.get_reactions_by_message message_id u >>= λ reactions.
          pure (record { reacted = reacted; reactions = reactions }))
        (toggle_reaction-Stays u F w new_id message_id u (trim_space emoji))
        (λ reacted.
          bind-Stays F (Emojis.get_reactions_by_message message_id u)
            (λ reactions. pure (record { reacted = reacted; reactions = reactions }))
            (rows-Stays F _) (λ _ c. F.same c.db))

  hide_reported-Stays : (message_id : String) (r : Result ℕ) → Stays F (hide_reported message_id r)
  unfolding hide_reported
  hide_reported-Stays message_id (ok count) =
      let hide = attempt (hide_message message_id) >> pure tt in
      if-Stays F (leb 3 count) hide (pure tt)
        (bind-Stays F (attempt (hide_message message_id)) (λ _. pure tt)
          (attempt-Stays F (hide_message message_id) (hide_message-Stays u F w message_id))
          (λ _ c. F.same c.db))
        (λ c. F.same c.db)
  hide_reported-Stays message_id (err e) = λ c. F.same c.db

  pub report-Stays :
      (conflicts : Report → Report → Bool) (message_id reason description : String)
      → Stays F (Moderation.report_message conflicts message_id u reason description)
  unfolding Moderation.report_message
  report-Stays conflicts message_id reason description =
      let look = attempt (get_report_count message_id) in
      bind-Stays F (Reports.report_message conflicts message_id u reason description)
        (λ _. look >>= hide_reported message_id)
        (report_message-Stays u F w conflicts message_id u reason description)
        (λ _.
          bind-Stays F look (hide_reported message_id)
            (attempt-Stays F (get_report_count message_id)
              (get_report_count-Stays u F w message_id))
            (hide_reported-Stays message_id))
