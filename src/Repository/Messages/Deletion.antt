-- ===== src/Repository/Messages/Deletion.antt =====
-- What `Delete` of the repository takes away.
use geo_note.Common.{
  ◌≡◌, refl, inl, inr, ◌⊎◌, arith, ◌==◌, String, Bool, true, false, List, [], ◌∷◌, ◌&&◌, not,
  select, length, tally, exists, str_eq, Bool-cases, Option, none, some,
}
use geo_note.Model.{MessageRow, Report}
use geo_note.Repository.Query.{Result, ok, err, failed, Conn, Db, ◌>>=◌}
use geo_note.Repository.Messages.Writes.{
  delete, delete_messages, cascade, reports_left, affected, owned,
}

-- A message of another user, or with another id.
abbrev pub is_other : String → String → String → MessageRow → Bool
is_other id user_id k m = str_eq m.id k && not (owned id user_id m)

abbrev pub refused : Result (Unit {0}) → Bool
refused (ok a) = false
refused (err e) = true

module _ (id user_id : String) where
  rest-others :
      (k : String) (ms : List MessageRow)
      → tally (is_other id user_id k) (select (λ m. not (owned id user_id m)) ms)
        ≡ tally (is_other id user_id k) ms
  rest-others k [] = refl
  rest-others k (m ∷ ms) = ground (arith, rest-others k ms)

  rest-owned :
      (ms : List MessageRow)
      → exists (owned id user_id) (select (λ m. not (owned id user_id m)) ms) ≡ false
  rest-owned [] = refl
  rest-owned (m ∷ ms) = ground (arith, rest-owned ms)

  none-owned :
      (ms : List MessageRow)
      → (length (select (owned id user_id) ms) == 0) ≡ not (exists (owned id user_id) ms)
  none-owned [] = refl
  none-owned (m ∷ ms) = ground (arith, none-owned ms)

  -- What a call did to the messages.
  abbrev pub Deleted : Db → Result (Unit {0}) × Conn → Type 0
  Deleted before (r, c) =
      ((k : String)
        → tally (is_other id user_id k) c.db.messages
          ≡ tally (is_other id user_id k) before.messages)
      × (exists (owned id user_id) c.db.messages
          ≡ exists (owned id user_id) before.messages && refused r)
      × ((r ≡ err failed) ⊎ (refused r ≡ not (exists (owned id user_id) before.messages)))

  counted-Deleted :
      (db : Db) (faults : List Bool) (left : Option (List Report))
      → Deleted db (
          ((λ (c : Conn).
                let (r, db') = cascade (owned id user_id) db left in (r, record c { db = db' }))
              >>= affected)
            (record { db = db; faults = faults }))
  unfolding cascade affected
  counted-Deleted db faults none = (λ k. refl, ground arith, inl refl)
  counted-Deleted db faults (some reports) =
      let n = length (select (owned id user_id) db.messages) in
      elim (Bool-cases (n == 0)) [
        | inl e ↦ rw e (
          λ k. rest-others k db.messages,
          ground (arith, e, rest-owned db.messages, none-owned db.messages),
          inr (ground (arith, e, none-owned db.messages)),
        )
        | inr e ↦ rw e (
          λ k. rest-others k db.messages,
          ground (arith, rest-owned db.messages),
          inr (ground (arith, e, none-owned db.messages)),
        )
      ]

  delete-split :
      (db : Db) (faults : List Bool)
      → Deleted db (delete id user_id (record { db = db; faults = faults }))
  unfolding delete delete_messages
  delete-split db [] = counted-Deleted db [] (reports_left (owned id user_id) db)
  delete-split db (true ∷ faults) = (λ k. refl, ground arith, inl refl)
  delete-split db (false ∷ faults) = counted-Deleted db faults (reports_left (owned id user_id) db)

  -- `Delete`, whatever statements fail: every message of another user or with another id stays; where
  -- it succeeds no message of the user has the id any more, and where it fails those are as before;
  -- but for a statement that fails, it succeeds exactly when the user had a message with the id.
  pub delete-Deleted : (c : Conn) → Deleted c.db (delete id user_id c)
  delete-Deleted c = delete-split c.db c.faults
