-- ===== src/Server/Writers.antt =====
-- What the handlers do to the database, where every statement that writes stays within a frame.
use geo_note.Common.{◌≡◌, inl, inr, Bool-cases, String, false, []}
use geo_note.Common.Text.{trim_space}
use geo_note.External.{External}
use geo_note.Model.Validation.{
  validate_message, validate_comment, validate_reaction, validate_report,
}
use geo_note.Repository.Query.Frames.{Frame}
use geo_note.Repository.Writers.{
  Respects, add_comment-Stays, delete_comment-Stays, toggle_like-Stays,
}
use geo_note.Service.Interactions as Service
use geo_note.Handler.Messages
use geo_note.Handler.Interactions
use geo_note.Handler.Replies.{Request}
use geo_note.Server.{Config, Draw, endpoint}
use geo_note.Server.Within.{Within, is_reader, validated-Within, reader-Within, register-Within}
use geo_note.Server.Routes.{
  Endpoint, health, register, login, nearby, heatmap, leaderboard, events, search, popular,
  user_messages, user_profile, me, my_profile, create, delete, unlock, like, react, add_comment,
  report, delete_comment, get_comments,
}
use geo_note.Server.Effects.{publish-Within, remove-Within, unlock-Stays, react-Stays, report-Stays}

module _ (F : Frame) (x : External) (u : String) (w : Respects u F) where
  -- Every endpoint stays within a frame that the statements of its user respect.
  module _ (cfg : Config) (d : Draw) where
    writer-Within :
        (e : Endpoint) (id : String) (r : Request)
        → r.user_id ≡ u
        → is_reader e ≡ false
        → Within F (endpoint x cfg d e id r)
    unfolding endpoint Messages.create Messages.delete Messages.unlock_mystery
        Interactions.toggle_like Interactions.toggle_reaction Interactions.add_comment
        Interactions.report_message Interactions.delete_comment Service.toggle_like
        Service.add_comment Service.delete_comment
    writer-Within register id r own h = register-Within x cfg d F id r w.user
    writer-Within create id r own h = rw own (
        validated-Within F (x.decode_message r.body) validate_message _
          (λ req s. publish-Within F x u w d.new_id d.now req s))
    writer-Within delete id r own h = rw own (λ s. remove-Within F x u w id s)
    writer-Within unlock id r own h = rw own (
        validated-Within F (x.decode_position r.body) (λ _. []) _
          (λ (latitude, longitude) s. unlock-Stays F x u w d.now id latitude longitude s.conn))
    writer-Within like id r own h = λ s. toggle_like-Stays u F w d.new_id d.now id r.user_id s.conn
    writer-Within react id r own h = rw own (
        validated-Within F (x.decode_reaction r.body) validate_reaction _
          (λ emoji s. react-Stays F x u w d.new_id id emoji s.conn))
    writer-Within add_comment id r own h =
        validated-Within F (x.decode_comment r.body) validate_comment _ (λ content s.
          add_comment-Stays u F w d.new_id d.now id r.user_id (trim_space content) s.conn)
    writer-Within report id r own h = rw own (
        validated-Within F (x.decode_report r.body) validate_report _
          (λ req s. report-Stays F x u w cfg.conflicts id req.reason req.description s.conn))
    writer-Within delete_comment id r own h = λ s. delete_comment-Stays u F w id r.user_id s.conn
    writer-Within health id r own h = absurd (cc)
    writer-Within login id r own h = absurd (cc)
    writer-Within nearby id r own h = absurd (cc)
    writer-Within heatmap id r own h = absurd (cc)
    writer-Within leaderboard id r own h = absurd (cc)
    writer-Within events id r own h = absurd (cc)
    writer-Within search id r own h = absurd (cc)
    writer-Within popular id r own h = absurd (cc)
    writer-Within user_messages id r own h = absurd (cc)
    writer-Within user_profile id r own h = absurd (cc)
    writer-Within me id r own h = absurd (cc)
    writer-Within my_profile id r own h = absurd (cc)
    writer-Within get_comments id r own h = absurd (cc)

    pub endpoint-Within :
        (e : Endpoint) (id : String) (r : Request)
        → r.user_id ≡ u
        → Within F (endpoint x cfg d e id r)
    endpoint-Within e id r own = elim (Bool-cases (is_reader e)) [
      | inl reads ↦ reader-Within x cfg d F e id r reads
      | inr writes ↦ writer-Within e id r own writes
    ]
