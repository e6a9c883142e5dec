-- ===== src/Repository/Soundness/Owners.antt =====
-- Users, the authors of messages, streaks and badges, through the statements that touch them.
use geo_note.Common.{
  ◌≤◌, ◌≡◌, refl, String, Bool, true, false, List, [], ◌∷◌, map, not, select, tally, exists, str_eq,
  arith, eq_iff, Bool-cases, inl, inr, if◌then◌else◌,
}
use geo_note.Common.Rows.{exists-tally, All-imp, All-map}
use geo_note.Model.{User, MessageRow, UserStreak, Badge}
use geo_note.Repository.Query.{Db}
use geo_note.Repository.Users.{user_violates}
use geo_note.Repository.Gamification.{is_badge}
use geo_note.Repository.Soundness.{Accounts, Authored, Profiled}
use geo_note.Repository.Soundness.Keys.{known, tally-map, Unique-select, All-select}

abbrev is_user : String → User → Bool
is_user k u = str_eq u.id k

-- A column that no row has yet stays unique with one more row.
one_more :
    {A : Type 0} (column : A → String) (a : A) (rows : List A) (k : String)
    → exists (λ b. str_eq (column b) (column a)) rows ≡ false
    → tally (λ b. str_eq (column b) k) rows ≤ 1
    → tally (λ b. str_eq (column b) k) (a ∷ rows) ≤ 1
one_more column a rows k new h = elim (Bool-cases (str_eq (column a) k)) [
  | inl e ↦
      let none : tally (λ b. str_eq (column b) k) rows ≡ 0 =
        rw (← (eq_iff (column a) k).0 e)
          (exists-tally (λ b. str_eq (column b) (column a)) rows new) in
      ground (arith, none)
  | inr e ↦ ground (arith, h)
]

pub Accounts-insert :
    (u : User) (db : Db) → user_violates u db ≡ false → Accounts db.users → Accounts (u ∷ db.users)
unfolding user_violates
Accounts-insert u db fine h = record {
  one_id = λ k. one_more (λ (v : User). v.id) u db.users k (ground arith) (h.one_id k);
  one_name = λ k. one_more (λ (v : User). v.username) u db.users k (ground arith) (h.one_name k);
  one_mail = λ k. one_more (λ (v : User). v.email) u db.users k (ground arith) (h.one_mail k);
}

pub Authored-user :
    (u : User) (users : List User) (ms : List MessageRow)
    → Authored users ms
    → Authored (u ∷ users) ms
Authored-user u users ms h = record {
  one_id = h.one_id;
  author =
      All-imp (λ (m : MessageRow). exists (is_user m.user_id) users ≡ true)
        (λ m. exists (is_user m.user_id) (u ∷ users) ≡ true) ms (λ m there. ground (arith, there))
        h.author;
}

pub Authored-insert :
    (m : MessageRow) (users : List User) (ms : List MessageRow)
    → known m.id ms ≡ false
    → exists (is_user m.user_id) users ≡ true
    → Authored users ms
    → Authored users (m ∷ ms)
Authored-insert m users ms new there h = record {
  one_id = λ k. one_more (λ (n : MessageRow). n.id) m ms k new (h.one_id k);
  author = (there, h.author);
}

pub Authored-map :
    (f : MessageRow → MessageRow) (users : List User) (ms : List MessageRow)
    → ((m : MessageRow) → ((f m).id ≡ m.id) × ((f m).user_id ≡ m.user_id))
    → Authored users ms
    → Authored users (map f ms)
Authored-map f users ms keeps h = record {
  one_id = λ k. rw (tally-map f (λ m. (keeps m).0) k ms) (h.one_id k);
  author =
      All-map (λ (m : MessageRow). exists (is_user m.user_id) users ≡ true)
        (λ m. exists (is_user m.user_id) users ≡ true) f ms (λ m there. rw (keeps m).1 there)
        h.author;
}

pub Authored-delete :
    (p : MessageRow → Bool) (users : List User) (ms : List MessageRow)
    → Authored users ms
    → Authored users (select (λ m. not (p m)) ms)
Authored-delete p users ms h = record {
  one_id = Unique-select p ms h.one_id;
  author =
      All-select (λ (m : MessageRow). exists (is_user m.user_id) users ≡ true) (λ m. not (p m)) ms
        h.author;
}

abbrev of_user : String → UserStreak → Bool
of_user k s = str_eq s.user_id k

abbrev updated : String → (UserStreak → UserStreak) → List UserStreak → List UserStreak
updated user_id update = map (λ s. if str_eq s.user_id user_id then update s else s)

tally-updated :
    (user_id k : String) (update : UserStreak → UserStreak) (rows : List UserStreak)
    → ((s : UserStreak) → (update s).user_id ≡ s.user_id)
    → tally (of_user k) (updated user_id update rows) ≡ tally (of_user k) rows
tally-updated user_id k update [] keeps = refl
tally-updated user_id k update (s ∷ rows) keeps =
    ground (arith, keeps s, tally-updated user_id k update rows keeps)

pub Profiled-update :
    (user_id : String) (update : UserStreak → UserStreak) (rows : List UserStreak)
    (badges : List Badge)
    → ((s : UserStreak) → (update s).user_id ≡ s.user_id)
    → Profiled rows badges
    → Profiled (updated user_id update rows) badges
Profiled-update user_id update rows badges keeps h = record {
  one_streak = λ u. rw (tally-updated user_id u update rows keeps) (h.one_streak u);
  one_badge = h.one_badge;
}

pub Profiled-insert :
    (new : UserStreak) (rows : List UserStreak) (badges : List Badge)
    → exists (of_user new.user_id) rows ≡ false
    → Profiled rows badges
    → Profiled (new ∷ rows) badges
Profiled-insert new rows badges fresh h = record {
  one_streak = λ u. one_more (λ (s : UserStreak). s.user_id) new rows u fresh (h.one_streak u);
  one_badge = h.one_badge;
}

same-badge :
    (b : Badge) (u kind : String) (rows : List Badge)
    → is_badge u kind b ≡ true
    → exists (is_badge b.user_id b.badge_type) rows ≡ false
    → tally (is_badge u kind) rows ≡ 0
same-badge b u kind rows same absent =
    let eu : b.user_id ≡ u = ground (arith, eq_iff b.user_id u) in
    let ek : b.badge_type ≡ kind = ground (arith, eq_iff b.badge_type kind) in
    rw (← eu, ← ek) (exists-tally (is_badge b.user_id b.badge_type) rows absent)

pub Profiled-award :
    (b : Badge) (streaks : List UserStreak) (rows : List Badge)
    → exists (is_badge b.user_id b.badge_type) rows ≡ false
    → Profiled streaks rows
    → Profiled streaks (b ∷ rows)
Profiled-award b streaks rows new h = record {
  one_streak = h.one_streak;
  one_badge = λ u kind. ground (arith, h.one_badge u kind, new, same-badge b u kind rows);
}
