-- ===== src/Tests/Clusters.antt =====
-- The aggregates of message_repo.go on one message.
use geo_note.Common.{[], ◌∷◌, ◌&&◌, tally}
use geo_note.Common.Int.{pos}
use geo_note.Repository.Messages.Clusters.{heat, same_cell, cell, on_heatmap}
use geo_note.Repository.Messages.Clusters.Counting.{Counted, count_of-heat}
use geo_note.Tests.Data.{plain, mystery}

count_of-heat_example :
    Counted
      (pos 48857, pos 2352)
      (heat plain 50 (pos 488566000, pos 23522000) (pos 1000) (mystery ∷ []))
      (tally
        (λ m.
          on_heatmap plain 50 (pos 488566000, pos 23522000) (pos 1000) m
          && same_cell (pos 48857, pos 2352) (cell m))
        (mystery ∷ []))
count_of-heat_example =
    count_of-heat plain 50 (pos 488566000, pos 23522000) (pos 1000) (mystery ∷ [])
      (pos 48857, pos 2352)
