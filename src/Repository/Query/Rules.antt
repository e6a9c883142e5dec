-- ===== src/Repository/Query/Rules.antt =====
-- Rules for what holds after a query, whatever statements fail.
use geo_note.Common.{
  ℕ, suc, take, ◌≡◌, sym, ap, ◌⊎◌, inl, inr, refl, Bool, true, false, List, [], ◌∷◌,
}
use geo_note.Repository.Query.{
  Result, ok, err, failed, Db, Conn, Query, statement, read, read_rows, receive, fetch, ◌>>=◌,
  settle, transaction, roll_back, attempt,
}

module _ {A : Type 0} where
  -- Where the query returns a value, it and the tables then satisfy `post`.
  abbrev pub Ensures : (A → Db → Type 0) → Result A × Conn → Type 0
  Ensures post (ok a, c) = post a c.db
  Ensures post (err e, c) = Unit

  -- The same of one statement on the tables.
  abbrev pub OnOk : (A → Db → Type 0) → Result A × Db → Type 0
  OnOk post (ok a, db) = post a db
  OnOk post (err e, db) = Unit

  -- Where the query fails, the tables are as before.
  abbrev pub Atomic : Db → (A → Db → Type 0) → Result A × Conn → Type 0
  Atomic before post (ok a, c) = post a c.db
  Atomic before post (err e, c) = c.db ≡ before

  lift_ok :
      (post : A → Db → Type 0) (r : Result A) (db : Db) (faults : List Bool)
      → OnOk post (r, db)
      → Ensures post (r, record { db = db; faults = faults })
  lift_ok post (ok a) db faults h = h
  lift_ok post (err e) db faults h = h

  statement-split :
      (post : A → Db → Type 0) (run : Db → Result A × Db) (db : Db) (faults : List Bool)
      → OnOk post (run db)
      → Ensures post (statement run (record { db = db; faults = faults }))
  statement-split post run db [] h = let (r, db') = run db in lift_ok post r db' [] h
  statement-split post run db (true ∷ faults) h = tt
  statement-split post run db (false ∷ faults) h =
      let (r, db') = run db in lift_ok post r db' faults h

  pub statement-Ensures :
      (post : A → Db → Type 0) (run : Db → Result A × Db) (c : Conn)
      → OnOk post (run c.db)
      → Ensures post (statement run c)
  statement-Ensures post run c h = statement-split post run c.db c.faults h

-- What a read shows is what the tables say, and they are left alone.
module _ {A : Type 0} (P : Db → Type 0) (f : Db → Result A) where
  read_split :
      (db : Db) (faults : List Bool)
      → P db
      → Ensures (λ a d. (ok a ≡ f d) × P d) (read f (record { db = db; faults = faults }))
  read_split db [] p = show_ok (f db) refl
    where
      show_ok :
          (r : Result A)
          → f db ≡ r
          → Ensures (λ a d. (ok a ≡ f d) × P d) (r, record { db = db; faults = [] })
      show_ok (ok a) e = (sym e, p)
      show_ok (err e) h = tt
  read_split db (true ∷ faults) p = tt
  read_split db (false ∷ faults) p = show_ok (f db) refl
    where
      show_ok :
          (r : Result A)
          → f db ≡ r
          → Ensures (λ a d. (ok a ≡ f d) × P d) (r, record { db = db; faults = faults })
      show_ok (ok a) e = (sym e, p)
      show_ok (err e) h = tt

  pub read-Ensures : (c : Conn) → P c.db → Ensures (λ a d. (ok a ≡ f d) × P d) (read f c)
  read-Ensures c p = read_split c.db c.faults p

module _ {A B : Type 0} where
  bind-split :
      (mid : A → Db → Type 0) (post : B → Db → Type 0) (f : A → Query B) (r : Result A) (c : Conn)
      → Ensures mid (r, c)
      → ((a : A) (c : Conn) → mid a c.db → Ensures post (f a c))
      → Ensures post (((λ _. (r, c)) >>= f) c)
  bind-split mid post f (ok a) c h next = next a c h
  bind-split mid post f (err e) c h next = tt

  pub bind-Ensures :
      (mid : A → Db → Type 0) (post : B → Db → Type 0) (m : Query A) (f : A → Query B) (c : Conn)
      → Ensures mid (m c)
      → ((a : A) (c : Conn) → mid a c.db → Ensures post (f a c))
      → Ensures post ((m >>= f) c)
  bind-Ensures mid post m f c h next = let (r, c') = m c in bind-split mid post f r c' h next

-- Rows that are received are the first ones of those that the tables have.
fetch-take :
    {A : Type 0} (faults : List Bool) (rows : List A)
    → (n : ℕ) × ((fetch faults rows).0 ≡ take n rows)
fetch-take [] [] = (0, refl)
fetch-take [] (row ∷ rows) = let (n, e) = fetch-take [] rows in (suc n, ap (λ xs. row ∷ xs) e)
fetch-take (fault ∷ faults) [] = (0, refl)
fetch-take (true ∷ faults) (row ∷ rows) = (0, refl)
fetch-take (false ∷ faults) (row ∷ rows) =
    let (n, e) = fetch-take faults rows in (suc n, ap (λ xs. row ∷ xs) e)

module _ {A : Type 0} (P : Db → Type 0) (f : Db → Result (List A)) where
  abbrev pub FirstOf : List A → Db → Type 0
  FirstOf rows d = ((all : List A) × (ok all ≡ f d) × ((n : ℕ) × (rows ≡ take n all))) × P d

  pub rows-Ensures : (c : Conn) → P c.db → Ensures FirstOf (read_rows f c)
  rows-Ensures c p =
      bind-Ensures (λ all d. (ok all ≡ f d) × P d) FirstOf (read f) receive c (read-Ensures P f c p)
        (λ all c' (e, p'). ((all, e, fetch-take c'.faults all), p'))

-- What a query that is known to succeed passes on.
pub >>=-ok :
    {A B : Type 0} (m : Query A) (f : A → Query B) (c c' : Conn) (a : A)
    → m c ≡ (ok a, c')
    → (m >>= f) c ≡ f a c'
>>=-ok {A} {B} m f c c' a e = ap (λ (p : Result A × Conn). ((λ _. p) >>= f) c) e

-- A database on which no statement fails for a reason outside the tables.
abbrev pub steady : Db → Conn
steady db = record { db = db; faults = [] }

pub read-steady :
    {A : Type 0} (f : Db → Result A) (db : Db) (a : A)
    → f db ≡ ok a
    → read f (steady db) ≡ (ok a, steady db)
read-steady f db a e = ap (λ r. (r, steady db)) e

pub rows-steady :
    {A : Type 0} (f : Db → Result (List A)) (db : Db) (rows : List A)
    → f db ≡ ok rows
    → read_rows f (steady db) ≡ (ok rows, steady db)
rows-steady {A} f db rows e =
    ap (λ (r : Result (List A)). ((λ _. (r, steady db)) >>= receive) (steady db)) e

-- A read leaves the tables alone, also where it fails.
module _ {A : Type 0} (f : Db → Result A) where
  read-db_split :
      (db : Db) (faults : List Bool) → (read f (record { db = db; faults = faults })).1.db ≡ db
  read-db_split db [] = refl
  read-db_split db (true ∷ faults) = refl
  read-db_split db (false ∷ faults) = refl

  pub read-db : (c : Conn) → (read f c).1.db ≡ c.db
  read-db c = read-db_split c.db c.faults

-- A read whose error the code looks at.
module _ {A : Type 0} (P : Db → Type 0) (f : Db → Result A) where
  abbrev pub Looked : Result A → Db → Type 0
  Looked r db = P db × ((r ≡ f db) ⊎ (r ≡ err failed))

  attempt_split :
      (db : Db) (faults : List Bool)
      → P db
      → Ensures Looked (attempt (read f) (record { db = db; faults = faults }))
  attempt_split db [] p = (p, inl refl)
  attempt_split db (true ∷ faults) p = (p, inr refl)
  attempt_split db (false ∷ faults) p = (p, inl refl)

  pub attempt-read-Ensures : (c : Conn) → P c.db → Ensures Looked (attempt (read f) c)
  attempt-read-Ensures c p = attempt_split c.db c.faults p

module _ {A : Type 0} (post : A → Db → Type 0) where
  commit_split :
      (before : Db) (a : A) (db : Db) (faults : List Bool)
      → post a db
      → Atomic before post
          (roll_back before a (read (λ _. ok tt) (record { db = db; faults = faults })))
  commit_split before a db [] h = h
  commit_split before a db (true ∷ faults) h = refl
  commit_split before a db (false ∷ faults) h = h

  settle-Atomic :
      (before : Db) (r : Result A) (c : Conn)
      → Ensures post (r, c)
      → Atomic before post (settle before (r, c))
  settle-Atomic before (ok a) c h = commit_split before a c.db c.faults h
  settle-Atomic before (err e) c h = refl

  transaction_split :
      (body : Query A) (db : Db) (faults : List Bool)
      → ((c : Conn) → c.db ≡ db → Ensures post (body c))
      → Atomic db post (transaction body (record { db = db; faults = faults }))
  transaction_split body db [] h =
      let c : Conn = record { db = db; faults = [] } in
      let (r, c') = body c in settle-Atomic db r c' (h c refl)
  transaction_split body db (true ∷ faults) h = refl
  transaction_split body db (false ∷ faults) h =
      let c : Conn = record { db = db; faults = faults } in
      let (r, c') = body c in settle-Atomic db r c' (h c refl)

  -- A transaction does all of its body or nothing.
  pub transaction-Atomic :
      (body : Query A) (c : Conn)
      → ((c' : Conn) → c'.db ≡ c.db → Ensures post (body c'))
      → Atomic c.db post (transaction body c)
  transaction-Atomic body c h = transaction_split body c.db c.faults h
