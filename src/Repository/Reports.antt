-- ===== src/Repository/Reports.antt =====
-- Reports and moderation in interaction_repo.go: `ReportMessage`, `GetReportCount` and
-- `HideMessage`. No migration of the repository creates `content_reports`: which new report
-- conflicts with one that is there is a parameter, and what the table refuses is one of the database.
use geo_note.Common.{
  ℕ, String, Bool, true, List, [], ◌∷◌, ◌||◌, not, map, str_eq, exists, tally, if◌then◌else◌,
}
use geo_note.Model.{MessageRow, Report}
use geo_note.Repository.Query.{failed, Result, ok, err, Db, Query, statement, read}
use geo_note.Repository.Messages.Writes.{one_of}

abbrev pub on_message : String → Report → Bool
on_message message_id r = str_eq r.message_id message_id

-- The constraint `valid_report_reason`.
abbrev pub reasons : List String
reasons = "spam" ∷ "harassment" ∷ "inappropriate" ∷ "misinformation" ∷ "other" ∷ []

unfoldable pub insert_report : (Report → Report → Bool) → Report → Db → Result (Unit {0}) × Db
insert_report conflicts r db =
    if not (one_of reasons r.reason) || db.report_rules.refuses r db.users db.messages
    then (err failed, db)
    else if exists (conflicts r) db.reports
    then (ok tt, db)
    else (ok tt, record db { reports = r ∷ db.reports })

-- `ReportMessage`
unfoldable pub report_message :
    (Report → Report → Bool) → String → String → String → String → Query (Unit {0})
unfolding insert_report
report_message conflicts message_id user_id reason description = statement (
    insert_report conflicts (record {
      reporter_id = user_id;
      message_id = message_id;
      reason = reason;
      description = description;
    }))

-- `GetReportCount`
unfoldable pub get_report_count : String → Query ℕ
get_report_count message_id = read (λ db. ok (tally (on_message message_id) db.reports))

unfoldable pub hide : String → MessageRow → MessageRow
hide message_id m = if str_eq m.id message_id then record m { is_hidden = true } else m

unfoldable pub hide_row : String → Db → Result (Unit {0}) × Db
unfolding hide
hide_row message_id db = (ok tt, record db { messages = map (hide message_id) db.messages })

-- `HideMessage`
unfoldable pub hide_message : String → Query (Unit {0})
unfolding hide_row
hide_message message_id = statement (hide_row message_id)
