-- ===== src/Repository/Reactions/Batch.antt =====
-- The reactions of a list of messages are read, and nothing is written.
use geo_note.Common.{String, List, [], ◌∷◌}
use geo_note.Repository.Query.{ok, Db, pure, read_rows}
use geo_note.Repository.Query.Frames.{Frame, Stays, bind-Stays, rows-Stays}
use geo_note.Repository.Reactions.{batch, gathered, get_reactions_by_messages}

pub get_reactions_by_messages-Stays :
    (F : Frame) (ids : List String) (user_id : String)
    → Stays F (get_reactions_by_messages ids user_id)
unfolding get_reactions_by_messages
get_reactions_by_messages-Stays F [] user_id = λ c. F.same c.db
get_reactions_by_messages-Stays F (i ∷ ids) user_id =
    let look = λ (db : Db). ok (batch user_id db (i ∷ ids)) in
    bind-Stays F (read_rows look) (λ rows. pure (gathered rows)) (rows-Stays F look)
      (λ rows c. F.same c.db)
