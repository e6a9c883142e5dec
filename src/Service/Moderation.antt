-- ===== src/Service/Moderation.antt =====
-- `ReportMessage` of backend/internal/service/interaction_service.go: the third report hides.
use geo_note.Common.{
  ◌≡◌, refl, ap, eq_iff, inl, inr, ℕ, String, Bool, true, false, List, [], ◌∷◌, map, tally, exists,
  leb, str_eq, ◌&&◌, not, if◌then◌else◌, arith, Bool-cases,
}
use geo_note.Model.{MessageRow, Report}
use geo_note.Repository.Query.{
  Result, ok, err, Conn, Db, Query, pure, statement, ◌>>=◌, ◌>>◌, attempt,
}
use geo_note.Repository.Reports
use geo_note.Repository.Reports.{
  on_message, hide_message, get_report_count, hide_row, hide, insert_report, reasons,
}
use geo_note.Repository.Messages.Writes.{one_of}

-- An error of the count or of the update does not fail the report.
unfoldable pub hide_reported : String → Result ℕ → Query (Unit {0})
hide_reported message_id (ok count) =
    if leb 3 count then attempt (hide_message message_id) >> pure tt else pure tt
hide_reported message_id (err e) = pure tt

-- `ReportMessage`
unfoldable pub report_message :
    (Report → Report → Bool) → String → String → String → String → Query (Unit {0})
report_message conflicts message_id user_id reason description = do
  Reports.report_message conflicts message_id user_id reason description
  count ← attempt (get_report_count message_id)
  hide_reported message_id count

abbrev pub is_shown : String → MessageRow → Bool
is_shown message_id m = str_eq m.id message_id && not m.is_hidden

hide-is_shown :
    (message_id id : String) (ms : List MessageRow)
    → exists (is_shown id) (map (hide message_id) ms)
      ≡ (if str_eq message_id id then false else exists (is_shown id) ms)
unfolding hide
hide-is_shown message_id id [] = ground arith
hide-is_shown message_id id (m ∷ ms) = ground (
  arith,
  hide-is_shown message_id id ms,
  eq_iff m.id message_id,
  eq_iff m.id id,
  eq_iff message_id id,
)

-- What a report leads to: the message is shown no more where it has three reports, and any other
-- message is shown where it was.
abbrev pub Moderated : String → Db → Result (Unit {0}) × Conn → Type 0
Moderated message_id before (r, c) =
    (r ≡ ok tt)
    × ((id : String)
        → exists (is_shown id) c.db.messages ≡ (
            if leb 3 (tally (on_message message_id) c.db.reports) && str_eq message_id id
            then false
            else exists (is_shown id) before.messages))

hide_reported-Moderated :
    (message_id : String) (before db : Db)
    → db.messages ≡ before.messages
    → Moderated message_id before (
        hide_reported message_id
          (ok (tally (on_message message_id) db.reports))
          (record { db = db; faults = [] }))
unfolding hide_reported hide_message hide_row
hide_reported-Moderated message_id before db e =
    let n = tally (on_message message_id) db.reports in
    elim (Bool-cases (leb 3 n)) [
      | inl many ↦
          rw many (refl, λ id. rw (← e) (rw many (hide-is_shown message_id id db.messages)))
      | inr few ↦ rw few (refl, λ id. rw few (ap (exists (is_shown id)) e))
    ]

insert_report-ok :
    (conflicts : Report → Report → Bool) (r : Report) (db : Db)
    → one_of reasons r.reason ≡ true
    → db.report_rules.refuses r db.users db.messages ≡ false
    → ((insert_report conflicts r db).0 ≡ ok tt)
      × ((insert_report conflicts r db).1.messages ≡ db.messages)
unfolding insert_report
insert_report-ok conflicts r db valid admitted =
    elim (Bool-cases (exists (conflicts r) db.reports)) [
      | inl old ↦ rw (valid, admitted, old) (refl, refl)
      | inr fresh ↦ rw (valid, admitted, fresh) (refl, refl)
    ]

after_report :
    (message_id : String) (before : Db) (saved : Result (Unit {0}) × Db)
    → saved.0 ≡ ok tt
    → saved.1.messages ≡ before.messages
    → Moderated message_id before (
        (statement (λ db. saved) >>= λ _.
        attempt (get_report_count message_id) >>= hide_reported message_id)
          (record { db = before; faults = [] }))
unfolding get_report_count
after_report message_id before (ok tt, db) e same =
    hide_reported-Moderated message_id before db same
after_report message_id before (err e, db) h same = absurd (cc)

-- `ReportMessage` on a database that answers, with a reason that the constraint
-- admits and a report that the table does not refuse, succeeds, and from three reports of the message on, that message is not shown: no row of its id is left
-- unhidden. Every other message is shown where it was before, and so is this one below three reports.
pub report_message-hides :
    (conflicts : Report → Report → Bool) (message_id user_id reason description : String) (db : Db)
    → one_of reasons reason ≡ true
    → db.report_rules.refuses
        (record {
          reporter_id = user_id;
          message_id = message_id;
          reason = reason;
          description = description;
        })
        db.users
        db.messages
      ≡ false
    → Moderated message_id db (
        report_message conflicts message_id user_id reason description
          (record { db = db; faults = [] }))
unfolding report_message Reports.report_message get_report_count
report_message-hides conflicts message_id user_id reason description db valid admitted =
    let r : Report = record {
      reporter_id = user_id;
      message_id = message_id;
      reason = reason;
      description = description;
    } in
    let (saved, same) = insert_report-ok conflicts r db valid admitted in
    after_report message_id db (insert_report conflicts r db) saved same
