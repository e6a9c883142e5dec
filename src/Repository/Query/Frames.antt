-- ===== src/Repository/Query/Frames.antt =====
-- What a query does to the tables at most, whatever statements fail: a frame is a relation between
-- the tables before and after that holds where nothing changes and of two changes in a row.
use geo_note.Common.{
  ◌≡◌, refl, ◌∙◌, Bool, true, false, List, [], ◌∷◌, if◌then◌else◌, ◌≤◌, tally, arith,
}
use geo_note.Model.{User}
use geo_note.Repository.Query.{
  Result, ok, err, Db, Conn, Query, pure, statement, read, read_rows, receive, ◌>>=◌, attempt,
  transaction, settle, roll_back,
}

pub record Frame : Type 1 where
  pub Change : Db → Db → Type 0
  pub same : (db : Db) → Change db db
  pub compose : (a b c : Db) → Change a b → Change b c → Change a c

-- A part of the tables stays.
abbrev pub keeping : {B : Type 0} → (Db → B) → Frame
keeping f = record { Change = λ a b. f b ≡ f a; same = λ db. refl; compose = λ a b c h k. k ∙ h }

-- The tables but for `users`.
abbrev pub Others : Db → Db → Type 0
Others a b =
    (b.messages ≡ a.messages)
    × (b.interactions ≡ a.interactions)
    × (b.unlocks ≡ a.unlocks)
    × (b.reports ≡ a.reports)
    × (b.reactions ≡ a.reactions)
    × (b.streaks ≡ a.streaks)
    × (b.badges ≡ a.badges)

-- Nothing changes but that users are added.
abbrev pub OnlyUsers : Db → Db → Type 0
OnlyUsers a b = Others a b × ((p : User → Bool) → tally p a.users ≤ tally p b.users)

abbrev pub only_users : Frame
only_users = record {
  Change = OnlyUsers;
  same = λ db. ((refl, refl, refl, refl, refl, refl, refl), λ p. omega arith);
  compose = λ a b c ((h1, h2, h3, h4, h5, h6, h7), h) ((k1, k2, k3, k4, k5, k6, k7), k). (
    (k1 ∙ h1, k2 ∙ h2, k3 ∙ h3, k4 ∙ h4, k5 ∙ h5, k6 ∙ h6, k7 ∙ h7),
    λ p. omega (arith, h p, k p),
  );
}

module _ (F : Frame) where
  abbrev pub Stays : {A : Type 0} → Query A → Type 0
  Stays q = (c : Conn) → F.Change c.db (q c).1.db

  module _ {A : Type 0} where
    statement_split :
        (run : Db → Result A × Db)
        → ((db : Db) → F.Change db (run db).1)
        → (db : Db) (faults : List Bool)
        → F.Change db (statement run (record { db = db; faults = faults })).1.db
    statement_split run h db [] = h db
    statement_split run h db (true ∷ faults) = F.same db
    statement_split run h db (false ∷ faults) = h db

    pub statement-Stays :
        (run : Db → Result A × Db) → ((db : Db) → F.Change db (run db).1) → Stays (statement run)
    statement-Stays run h c = statement_split run h c.db c.faults

    pub read-Stays : (run : Db → Result A) → Stays (read run)
    read-Stays run = statement-Stays (λ db. (run db, db)) F.same

    pub pure-Stays : (a : A) → Stays (pure a)
    pure-Stays a c = F.same c.db

    pub attempt-Stays : (q : Query A) → Stays q → Stays (attempt q)
    attempt-Stays q h c = h c

    pub if-Stays : (b : Bool) (q r : Query A) → Stays q → Stays r → Stays (if b then q else r)
    if-Stays true q r h k = h
    if-Stays false q r h k = k

  bind_split :
      {A C : Type 0} (before : Db) (k : A → Query C) (r : Result A) (c : Conn)
      → F.Change before c.db
      → ((a : A) → Stays (k a))
      → F.Change before (((λ _. (r, c)) >>= k) c).1.db
  bind_split before k (ok a) c moved h = F.compose before c.db (k a c).1.db moved (h a c)
  bind_split before k (err e) c moved h = moved

  pub bind-Stays :
      {A C : Type 0} (m : Query A) (k : A → Query C)
      → Stays m
      → ((a : A) → Stays (k a))
      → Stays (m >>= k)
  bind-Stays m k h next c = let (r, c') = m c in bind_split c.db k r c' (h c) next

  pub rows-Stays : {A : Type 0} (run : Db → Result (List A)) → Stays (read_rows run)
  rows-Stays run = bind-Stays (read run) receive (read-Stays run) (λ rows c. F.same c.db)

-- A transaction stays within a frame where its body does.
module _ (F : Frame) {A : Type 0} where
  commit-Stays :
      (before : Db) (a : A) (db : Db) (faults : List Bool)
      → F.Change before db
      → F.Change before
          (roll_back before a (read (λ _. ok tt) (record { db = db; faults = faults }))).1.db
  commit-Stays before a db [] h = h
  commit-Stays before a db (true ∷ faults) h = F.same before
  commit-Stays before a db (false ∷ faults) h = h

  settle-Stays :
      (before : Db) (r : Result A) (c : Conn)
      → F.Change before c.db
      → F.Change before (settle before (r, c)).1.db
  settle-Stays before (ok a) c h = commit-Stays before a c.db c.faults h
  settle-Stays before (err e) c h = F.same before

  transaction_split :
      (body : Query A) (db : Db) (faults : List Bool)
      → Stays F body
      → F.Change db (transaction body (record { db = db; faults = faults })).1.db
  transaction_split body db [] h =
      let c : Conn = record { db = db; faults = [] } in
      let (r, c') = body c in settle-Stays db r c' (h c)
  transaction_split body db (true ∷ faults) h = F.same db
  transaction_split body db (false ∷ faults) h =
      let c : Conn = record { db = db; faults = faults } in
      let (r, c') = body c in settle-Stays db r c' (h c)

  pub transaction-Stays : (body : Query A) → Stays F body → Stays F (transaction body)
  transaction-Stays body h c = transaction_split body c.db c.faults h
