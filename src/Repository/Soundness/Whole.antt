-- ===== src/Repository/Soundness/Whole.antt =====
-- Every statement that writes keeps the tables sound: those on the other tables, and all together.
use geo_note.Common.{
  ℕ, ◌≡◌, refl, String, Bool, [], ◌∷◌, not, ◌||◌, map, exists, str_eq, arith, Bool-cases, inl, inr,
}
use geo_note.Model.{User, MessageRow, Reaction, Report, UserStreak}
use geo_note.Repository.Query.{Db, ReportRules}
use geo_note.Repository.Users.{insert_user, user_violates}
use geo_note.Repository.Messages.Writes.{owned, one_of}
use geo_note.Repository.Reactions.{insert_reaction, delete_reaction, violates, has_id}
use geo_note.Repository.Reports.{insert_report, hide_row, hide, reasons}
use geo_note.Repository.Gamification.{
  upsert, post_row, posted, first_post, unlock_row, unlocked, no_streak, badge_row, has_user,
  has_badge,
}
use geo_note.Repository.Gamification.Zones.{total_zones}
use geo_note.Repository.Writers.{Respects}
use geo_note.Repository.Soundness.{IsSound, sound}
use geo_note.Repository.Soundness.Keys.{known-map}
use geo_note.Repository.Soundness.Names.{
  Registered-react, Registered-unreact, Registered-user, Registered-streaks, Registered-award,
  Named-update, who-reacts,
}
use geo_note.Repository.Soundness.Owners.{
  Accounts-insert, Authored-user, Authored-map, Profiled-update, Profiled-insert, Profiled-award,
}
use geo_note.Repository.Soundness.Reactions.{Reacted-grows, Reacted-insert, Reacted-delete}
use geo_note.Repository.Soundness.Likes.{Interacted-map}
use geo_note.Repository.Soundness.Unlocks.{Unlocked-map}
use geo_note.Repository.Soundness.Statements.{
  insert_message-IsSound, delete_messages-IsSound, insert_unlock-IsSound,
  insert_interaction-IsSound, delete_interactions-IsSound,
}

insert_reaction-IsSound : (r : Reaction) (db : Db) → IsSound db → IsSound (insert_reaction r db).1
unfolding insert_reaction
insert_reaction-IsSound r db s = elim (Bool-cases (violates r db)) [
  | inl e ↦ rw e s
  | inr e ↦ rw e (record {
    accounts = s.accounts;
    authored = s.authored;
    interacted = s.interacted;
    reacted = Reacted-insert r db e s.reacted;
    unlocked = s.unlocked;
    profiled = s.profiled;
    registered =
        Registered-react db.users db.interactions db.unlocks db.reactions db.streaks db.badges
          s.registered r (who-reacts r db e);
  })
]

delete_reaction-IsSound : (id : String) (db : Db) → IsSound db → IsSound (delete_reaction id db).1
unfolding delete_reaction
delete_reaction-IsSound id db s = record {
  accounts = s.accounts;
  authored = s.authored;
  interacted = s.interacted;
  reacted = Reacted-delete (has_id id) db.messages db.reactions s.reacted;
  unlocked = s.unlocked;
  profiled = s.profiled;
  registered =
      Registered-unreact db.users db.interactions db.unlocks db.reactions db.streaks db.badges
        s.registered (λ r. not (has_id id r));
}

insert_report-IsSound :
    (conflicts : Report → Report → Bool) (r : Report) (db : Db)
    → IsSound db
    → IsSound (insert_report conflicts r db).1
unfolding insert_report
insert_report-IsSound conflicts r db s =
    elim (Bool-cases
      (not (one_of reasons r.reason) || db.report_rules.refuses r db.users db.messages)) [
        | inl e ↦ rw e s
        | inr e ↦ elim (Bool-cases (exists (conflicts r) db.reports)) [
          | inl f ↦ rw (e, f) s
          | inr f ↦
              rw (e, f)
                (record {
                  accounts = s.accounts;
                  authored = s.authored;
                  interacted = s.interacted;
                  reacted = s.reacted;
                  unlocked = s.unlocked;
                  profiled = s.profiled;
                  registered = s.registered;
                })
        ]
      ]

hide-keeps :
    (id : String) (m : MessageRow)
    → ((hide id m).id ≡ m.id)
      × ((hide id m).user_id ≡ m.user_id)
      × ((hide id m).likes_count ≡ m.likes_count)
      × ((hide id m).comments_count ≡ m.comments_count)
      × ((hide id m).unlocks_count ≡ m.unlocks_count)
unfolding hide
hide-keeps id m = (ground arith, ground arith, ground arith, ground arith, ground arith)

hide_row-IsSound : (id : String) (db : Db) → IsSound db → IsSound (hide_row id db).1
unfolding hide_row
hide_row-IsSound id db s =
    let keeps = hide-keeps id in
    record {
      accounts = s.accounts;
      authored =
          Authored-map (hide id) db.users db.messages (λ m. ((keeps m).0, (keeps m).1)) s.authored;
      interacted =
          Interacted-map (hide id) db.messages db.interactions
            (λ m. ((keeps m).0, (keeps m).2, (keeps m).3)) s.interacted;
      reacted =
          Reacted-grows db.messages (map (hide id) db.messages) db.reactions
            (λ k was. rw (known-map (hide id) (λ m. (keeps m).0) k db.messages) was) s.reacted;
      unlocked =
          Unlocked-map (hide id) db.messages db.unlocks (λ m. ((keeps m).0, (keeps m).4))
            s.unlocked;
      profiled = s.profiled;
      registered = s.registered;
    }

upsert-IsSound :
    (u : String) (new : UserStreak) (update : UserStreak → UserStreak) (db : Db)
    → new.user_id ≡ u
    → ((row : UserStreak) → (update row).user_id ≡ row.user_id)
    → IsSound db
    → IsSound (upsert u new update db).1
upsert-IsSound u new update db own keeps s =
    elim (Bool-cases (exists (λ (row : UserStreak). str_eq row.user_id u) db.streaks)) [
      | inl e ↦ rw e (record {
        accounts = s.accounts;
        authored = s.authored;
        interacted = s.interacted;
        reacted = s.reacted;
        unlocked = s.unlocked;
        profiled = Profiled-update u update db.streaks db.badges keeps s.profiled;
        registered =
            Registered-streaks db.users db.interactions db.unlocks db.reactions db.streaks db.badges
              s.registered _
              (Named-update u update db.users db.streaks keeps s.registered.by_streak);
      })
      | inr e ↦ rw e (elim (Bool-cases (has_user u db)) [
        | inl f ↦ rw f (record {
          accounts = s.accounts;
          authored = s.authored;
          interacted = s.interacted;
          reacted = s.reacted;
          unlocked = s.unlocked;
          profiled = Profiled-insert new db.streaks db.badges (rw own e) s.profiled;
          registered =
              Registered-streaks db.users db.interactions db.unlocks db.reactions db.streaks
                db.badges s.registered (new ∷ db.streaks) (rw own f, s.registered.by_streak);
        })
        | inr f ↦ rw f s
      ])
    ]

badge_row-IsSound :
    (u : String) (now : ℕ) (badge : String) (db : Db)
    → IsSound db
    → IsSound (badge_row u now badge db).1
unfolding badge_row
badge_row-IsSound u now badge db s = elim (Bool-cases (has_badge u badge db)) [
  | inl e ↦ rw e s
  | inr e ↦ rw e (elim (Bool-cases (has_user u db)) [
    | inl f ↦ rw f (record {
      accounts = s.accounts;
      authored = s.authored;
      interacted = s.interacted;
      reacted = s.reacted;
      unlocked = s.unlocked;
      profiled =
          Profiled-award (record { user_id = u; badge_type = badge; earned_at = now }) db.streaks
            db.badges e s.profiled;
      registered =
          Registered-award db.users db.interactions db.unlocks db.reactions db.streaks db.badges
            s.registered (record { user_id = u; badge_type = badge; earned_at = now }) f;
    })
    | inr f ↦ rw f s
  ])
]

pub insert_user-IsSound : (u : User) (db : Db) → IsSound db → IsSound (insert_user u db).1
unfolding insert_user
insert_user-IsSound u db s = elim (Bool-cases (user_violates u db)) [
  | inl e ↦ rw e s
  | inr e ↦ rw e (record {
    accounts = Accounts-insert u db e s.accounts;
    authored = Authored-user u db.users db.messages s.authored;
    interacted = s.interacted;
    reacted = s.reacted;
    unlocked = s.unlocked;
    profiled = s.profiled;
    registered =
        Registered-user db.users db.interactions db.unlocks db.reactions db.streaks db.badges
          s.registered u;
  })
]

-- Whoever writes, the tables stay sound.
pub all-sound : (u : String) → Respects u sound
unfolding post_row unlock_row posted first_post unlocked
all-sound u = record {
  message =
      λ parse_rfc3339 new_id now req db. insert_message-IsSound parse_rfc3339 new_id now u req db;
  no_message = λ id db. delete_messages-IsSound (owned id u) db;
  unlock = λ id db. insert_unlock-IsSound id u db;
  interaction = insert_interaction-IsSound;
  no_interaction = delete_interactions-IsSound;
  reaction = insert_reaction-IsSound;
  no_reaction = delete_reaction-IsSound;
  report = insert_report-IsSound;
  hidden = hide_row-IsSound;
  post = λ today db.
      let zones = total_zones u db.messages in
      upsert-IsSound u (first_post u today zones) (posted today zones) db refl (λ row. refl);
  opening = λ db. upsert-IsSound u (unlocked (no_streak u)) unlocked db refl (λ row. refl);
  award = λ now badge db. badge_row-IsSound u now badge db;
  user = insert_user-IsSound;
}

-- What the migrations leave: tables without rows, which are sound.
abbrev pub new_db : ReportRules → Db
new_db rules = record {
  users = [];
  messages = [];
  interactions = [];
  unlocks = [];
  reports = [];
  reactions = [];
  streaks = [];
  badges = [];
  report_rules = rules;
}

pub new_db-IsSound : (rules : ReportRules) → IsSound (new_db rules)
new_db-IsSound rules = record {
  accounts = record {
    one_id = λ k. omega arith;
    one_name = λ k. omega arith;
    one_mail = λ k. omega arith;
  };
  authored = record { one_id = λ k. omega arith; author = tt };
  interacted = record {
    one_like = λ m u. omega arith;
    one_id = λ k. omega arith;
    counted = tt;
    refers = tt;
  };
  reacted = record { one_each = λ m u e. omega arith; one_id = λ k. omega arith; refers = tt };
  unlocked = record { one_each = λ m u. omega arith; refers = tt; counted = tt };
  profiled = record { one_streak = λ u. omega arith; one_badge = λ u b. omega arith };
  registered = record {
    by_interaction = tt;
    by_unlock = tt;
    by_reaction = tt;
    by_streak = tt;
    by_badge = tt;
  };
}
