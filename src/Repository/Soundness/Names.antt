-- ===== src/Repository/Soundness/Names.antt =====
-- The references to users, through the statements that touch `users` or a table that refers to it.
use geo_note.Common.{
  ◌≡◌, String, Bool, true, false, List, [], ◌∷◌, map, select, str_eq, arith, if◌then◌else◌,
  Bool-cases, inl, inr,
}
use geo_note.Common.Rows.{All-imp}
use geo_note.Model.{User, Interaction, Unlock, Reaction, UserStreak, Badge}
use geo_note.Repository.Query.{Db}
use geo_note.Repository.Interactions as Likes
use geo_note.Repository.Reactions as Emojis
use geo_note.Repository.Soundness.{Registered, Named, is_named}
use geo_note.Repository.Soundness.Keys.{All-select}

Named-user :
    {A : Type 0} (key : A → String) (u : User) (users : List User) (rows : List A)
    → Named key users rows
    → Named key (u ∷ users) rows
Named-user key u users rows h =
    All-imp (λ a. is_named (key a) users ≡ true) (λ a. is_named (key a) (u ∷ users) ≡ true) rows
      (λ a there. ground (arith, there)) h

Named-select :
    {A : Type 0} (key : A → String) (p : A → Bool) (users : List User) (rows : List A)
    → Named key users rows
    → Named key users (select p rows)
Named-select key p users rows h = All-select (λ a. is_named (key a) users ≡ true) p rows h

-- The tables that refer to `users`.
module _ (users : List User) (interactions : List Interaction) (unlocks : List Unlock)
    (reactions : List Reaction) (streaks : List UserStreak) (badges : List Badge)
    (h : Registered users interactions unlocks reactions streaks badges) where
  pub Registered-user :
      (u : User) → Registered (u ∷ users) interactions unlocks reactions streaks badges
  Registered-user u = record {
    by_interaction =
        Named-user (λ (i : Interaction). i.user_id) u users interactions h.by_interaction;
    by_unlock = Named-user (λ (o : Unlock). o.user_id) u users unlocks h.by_unlock;
    by_reaction = Named-user (λ (r : Reaction). r.user_id) u users reactions h.by_reaction;
    by_streak = Named-user (λ (s : UserStreak). s.user_id) u users streaks h.by_streak;
    by_badge = Named-user (λ (b : Badge). b.user_id) u users badges h.by_badge;
  }

  pub Registered-select :
      (p : Interaction → Bool) (q : Unlock → Bool) (r : Reaction → Bool)
      → Registered users
          (select p interactions)
          (select q unlocks)
          (select r reactions)
          streaks
          badges
  Registered-select p q r = record {
    by_interaction =
        Named-select (λ (i : Interaction). i.user_id) p users interactions h.by_interaction;
    by_unlock = Named-select (λ (o : Unlock). o.user_id) q users unlocks h.by_unlock;
    by_reaction = Named-select (λ (e : Reaction). e.user_id) r users reactions h.by_reaction;
    by_streak = h.by_streak;
    by_badge = h.by_badge;
  }

  pub Registered-withdraw :
      (p : Interaction → Bool)
      → Registered users (select p interactions) unlocks reactions streaks badges
  Registered-withdraw p = record {
    by_interaction =
        Named-select (λ (i : Interaction). i.user_id) p users interactions h.by_interaction;
    by_unlock = h.by_unlock;
    by_reaction = h.by_reaction;
    by_streak = h.by_streak;
    by_badge = h.by_badge;
  }

  pub Registered-unreact :
      (p : Reaction → Bool)
      → Registered users interactions unlocks (select p reactions) streaks badges
  Registered-unreact p = record {
    by_interaction = h.by_interaction;
    by_unlock = h.by_unlock;
    by_reaction = Named-select (λ (e : Reaction). e.user_id) p users reactions h.by_reaction;
    by_streak = h.by_streak;
    by_badge = h.by_badge;
  }

  pub Registered-interact :
      (i : Interaction)
      → is_named i.user_id users ≡ true
      → Registered users (i ∷ interactions) unlocks reactions streaks badges
  Registered-interact i there = record {
    by_interaction = (there, h.by_interaction);
    by_unlock = h.by_unlock;
    by_reaction = h.by_reaction;
    by_streak = h.by_streak;
    by_badge = h.by_badge;
  }

  pub Registered-unlock :
      (o : Unlock)
      → is_named o.user_id users ≡ true
      → Registered users interactions (o ∷ unlocks) reactions streaks badges
  Registered-unlock o there = record {
    by_interaction = h.by_interaction;
    by_unlock = (there, h.by_unlock);
    by_reaction = h.by_reaction;
    by_streak = h.by_streak;
    by_badge = h.by_badge;
  }

  pub Registered-react :
      (r : Reaction)
      → is_named r.user_id users ≡ true
      → Registered users interactions unlocks (r ∷ reactions) streaks badges
  Registered-react r there = record {
    by_interaction = h.by_interaction;
    by_unlock = h.by_unlock;
    by_reaction = (there, h.by_reaction);
    by_streak = h.by_streak;
    by_badge = h.by_badge;
  }

  pub Registered-streaks :
      (rows : List UserStreak)
      → Named (λ (s : UserStreak). s.user_id) users rows
      → Registered users interactions unlocks reactions rows badges
  Registered-streaks rows named = record {
    by_interaction = h.by_interaction;
    by_unlock = h.by_unlock;
    by_reaction = h.by_reaction;
    by_streak = named;
    by_badge = h.by_badge;
  }

  pub Registered-award :
      (b : Badge)
      → is_named b.user_id users ≡ true
      → Registered users interactions unlocks reactions streaks (b ∷ badges)
  Registered-award b there = record {
    by_interaction = h.by_interaction;
    by_unlock = h.by_unlock;
    by_reaction = h.by_reaction;
    by_streak = h.by_streak;
    by_badge = (there, h.by_badge);
  }

pub Named-update :
    (user_id : String) (update : UserStreak → UserStreak) (users : List User)
    (rows : List UserStreak)
    → ((s : UserStreak) → (update s).user_id ≡ s.user_id)
    → Named (λ (s : UserStreak). s.user_id) users rows
    → Named
        (λ (s : UserStreak). s.user_id)
        users
        (map (λ s. if str_eq s.user_id user_id then update s else s) rows)
Named-update user_id update users [] keeps h = tt
Named-update user_id update users (s ∷ rows) keeps (there, h) =
    let rest = Named-update user_id update users rows keeps h in
    elim (Bool-cases (str_eq s.user_id user_id)) [
      | inl e ↦ rw (e, keeps s) (there, rest)
      | inr e ↦ rw e (there, rest)
    ]

pub who-interacts :
    (i : Interaction) (db : Db) → Likes.violates i db ≡ false → is_named i.user_id db.users ≡ true
unfolding Likes.violates
who-interacts i db h = ground arith

pub who-reacts :
    (r : Reaction) (db : Db) → Emojis.violates r db ≡ false → is_named r.user_id db.users ≡ true
unfolding Emojis.violates
who-reacts r db h = ground arith
