-- ===== src/Service/Messages/Privacy.antt =====
-- What a user reads of the mystery messages around, whatever fails below the service.
use geo_note.Common.{
  ◌≡◌, refl, ltb, ◌∙◌, inl, inr, ap, ◌⊎◌, ℕ, ◌+◌, String, Bool, false, Option, none, some, List, [],
  ◌∷◌, map, tally, str_eq, ◌&&◌, ◌||◌, not, arith, eq_iff, if◌then◌else◌, Bool-cases,
}
use geo_note.Common.Int.{ltb_ℤ}
use geo_note.External.{External, Rearranges}
use geo_note.Model.{Message, NearbyQuery, ReactionSummary}
use geo_note.Repository.Query.{Result, ok, err, failed, Conn, Db, pure, attempt, ◌>>=◌}
use geo_note.Repository.Query.Frames.{keeping}
use geo_note.Repository.Reactions.Batch.{get_reactions_by_messages-Stays}
use geo_note.Repository.Query.Rules.{Ensures, bind-Ensures, attempt-read-Ensures, Looked}
use geo_note.Repository.Messages as Rows
use geo_note.Repository.Messages.Nearby.{get_nearby-Ensures, IsShort}
use geo_note.Repository.Messages.Reads.{is_unlocked, is_unlocked_in}
use geo_note.Repository.Reactions.{get_reactions_by_messages}
use geo_note.Service.Messages.{get_nearby, lookup, clamp, fetch, keep}
use geo_note.Service.Messages.Masking.{
  is_mystery, is_own, mask, shown, mask_one, mask_all, with_reactions, set_reactions, add_reactions,
  enrich, rank, finish,
}

-- A user may read a message that is no mystery, that is the user's, or that the user has unlocked.
abbrev pub may_read : String → Db → Message → Bool
may_read user_id db m =
    not (is_mystery m)
    || is_own user_id m
    || (not (str_eq user_id "") && is_unlocked_in m.id user_id db)

-- A message whose content reaches a user who may not read it.
abbrev pub leaks : String → Db → Message → Bool
leaks user_id db m = not (may_read user_id db m) && not (str_eq m.content "???")

module _ (user_id : String) (before : Db) where
  abbrev IsSafe : List Message → Db → Type 0
  IsSafe ms d = (tally (leaks user_id before) ms ≡ 0) × (d ≡ before)

  abbrev IsSafeOne : Message × Bool → Db → Type 0
  IsSafeOne (m, masked) d = (leaks user_id before m ≡ false) × (d ≡ before)

  mask-leaks : (m : Message) → leaks user_id before (mask m) ≡ false
  unfolding mask
  mask-leaks m = ground (arith, eq_iff "???" "???")

  shown-IsSafe :
      (m : Message) (r : Result Bool) (d : Db)
      → str_eq user_id "" ≡ false
      → d ≡ before
      → (r ≡ ok (is_unlocked_in m.id user_id d)) ⊎ (r ≡ err failed)
      → leaks user_id before (shown m r).0 ≡ false
  shown-IsSafe m r d named same (inl e) = elim (Bool-cases (is_unlocked_in m.id user_id before)) [
    | inl opened ↦ rw (e, same, opened) (ground (arith, named, opened))
    | inr locked ↦ rw (e, same, locked) (mask-leaks m)
  ]
  shown-IsSafe m r d named same (inr e) = rw e (mask-leaks m)

  mask_one-IsSafe :
      (m : Message) (c : Conn) → c.db ≡ before → Ensures IsSafeOne (mask_one user_id m c)
  unfolding mask_one is_unlocked
  mask_one-IsSafe m c e = elim (Bool-cases (not (is_mystery m) || is_own user_id m)) [
    | inl readable ↦ rw readable (ground arith, e)
    | inr hidden ↦ rw hidden (elim (Bool-cases (str_eq user_id "")) [
      | inl nobody ↦ rw nobody (mask-leaks m, e)
      | inr named ↦ rw named (
          bind-Ensures (Looked (λ d. d ≡ before) (λ d. ok (is_unlocked_in m.id user_id d)))
            IsSafeOne (attempt (is_unlocked m.id user_id)) (λ r. pure (shown m r)) c
            (attempt-read-Ensures (λ d. d ≡ before) (λ d. ok (is_unlocked_in m.id user_id d)) c e)
            (λ r c' (same, seen). (shown-IsSafe m r c'.db named same seen, same)))
    ])
  ]

  mask_all-IsSafe :
      (ms : List Message) (c : Conn)
      → c.db ≡ before
      → Ensures (λ (ns, masked) d. IsSafe ns d) (mask_all user_id ms c)
  unfolding mask_all
  mask_all-IsSafe [] c e = (refl, e)
  mask_all-IsSafe (m ∷ ms) c e =
      bind-Ensures IsSafeOne (λ (ns, masked) d. IsSafe ns d) (mask_one user_id m)
        (λ (n, masked). mask_all user_id ms >>= λ (ns, others). pure (n ∷ ns, masked || others)) c
        (mask_one-IsSafe m c e)
        (λ (n, masked) c1 (safe, e1).
          bind-Ensures (λ (ns, others) d. IsSafe ns d) (λ (ns, others) d. IsSafe ns d)
            (mask_all user_id ms) (λ (ns, others). pure (n ∷ ns, masked || others)) c1
            (mask_all-IsSafe ms c1 e1) (λ (ns, others) c2 (all, e2). (rw (safe, all) refl, e2)))

  set_reactions-leaks :
      (m : Message) (r : Option (List ReactionSummary))
      → leaks user_id before (set_reactions m r) ≡ leaks user_id before m
  set_reactions-leaks m none = refl
  set_reactions-leaks m (some r) = refl

  with_reactions-leaks :
      (reactions : String → Option (List ReactionSummary)) (ms : List Message)
      → tally (leaks user_id before) (map (with_reactions reactions) ms)
        ≡ tally (leaks user_id before) ms
  with_reactions-leaks reactions [] = refl
  with_reactions-leaks reactions (m ∷ ms) =
      ap
        (λ b.
          (if b then 1 else 0) + tally (leaks user_id before) (map (with_reactions reactions) ms))
        (set_reactions-leaks m (reactions m.id))
      ∙ ap (λ n. (if leaks user_id before m then 1 else 0) + n) (with_reactions-leaks reactions ms)

  add_reactions-IsSafe :
      (ms : List Message) (r : Result (String → Option (List ReactionSummary)))
      → tally (leaks user_id before) ms ≡ 0
      → tally (leaks user_id before) (add_reactions ms r) ≡ 0
  add_reactions-IsSafe ms (ok reactions) h = with_reactions-leaks reactions ms ∙ h
  add_reactions-IsSafe ms (err e) h = h

  pub reactions-Ensures :
      (ids : List String) (c : Conn)
      → c.db ≡ before
      → Ensures (λ r d. d ≡ before) (attempt (get_reactions_by_messages ids user_id) c)
  reactions-Ensures ids c e = get_reactions_by_messages-Stays (keeping (λ db. db)) ids user_id c ∙ e

  enrich-IsSafe :
      (ms : List Message) (c : Conn)
      → tally (leaks user_id before) ms ≡ 0
      → c.db ≡ before
      → Ensures IsSafe (enrich user_id ms c)
  unfolding enrich
  enrich-IsSafe ms c h e =
      bind-Ensures (λ r d. d ≡ before) IsSafe
        (attempt (get_reactions_by_messages (map (λ m. m.id) ms) user_id))
        (λ r. pure (add_reactions ms r)) c (reactions-Ensures (map (λ m. m.id) ms) c e)
        (λ r c' e'. (add_reactions-IsSafe ms r h, e'))

module _ (x : External) (rearranges : Rearranges x.sort_slice) where
  pub rank-leaks :
      (now : ℕ) (sort : String) (ms : List Message) (p : Message → Bool)
      → tally p (rank x now sort ms) ≡ tally p ms
  unfolding rank
  rank-leaks now sort ms p = elim (Bool-cases (str_eq sort "recent")) [
    | inl e ↦ rw e (rearranges (λ m n. ltb n.created_at m.created_at) ms p)
    | inr e ↦ rw e (elim (Bool-cases (str_eq sort "popular")) [
      | inl f ↦ rw f (rearranges (λ m n. ltb_ℤ n.likes_count m.likes_count) ms p)
      | inr f ↦ rw f (rearranges (x.ranks_above now) ms p)
    ])
  ]

  finish-IsSafe :
      (now : ℕ) (q : NearbyQuery) (ms : List Message) (c : Conn) (before : Db)
      → c.db ≡ before
      → Ensures (λ (ns, masked) d. IsSafe q.user_id before ns d) (finish x now q ms c)
  unfolding finish
  finish-IsSafe now q ms c before e =
      bind-Ensures (λ (ns, masked) d. IsSafe q.user_id before ns d)
        (λ (ns, masked) d. IsSafe q.user_id before ns d) (mask_all q.user_id ms)
        (λ (ns, masked).
          enrich q.user_id ns >>= λ enriched. pure (rank x now q.sort enriched, masked))
        c (mask_all-IsSafe q.user_id before ms c e)
        (λ (ns, masked) c1 (safe, e1).
          bind-Ensures (IsSafe q.user_id before) (λ (ns, masked) d. IsSafe q.user_id before ns d)
            (enrich q.user_id ns) (λ enriched. pure (rank x now q.sort enriched, masked)) c1
            (enrich-IsSafe q.user_id before ns c1 safe e1)
            (λ rs c2 (safe2, e2). (rank-leaks now q.sort rs (leaks q.user_id before) ∙ safe2, e2)))

  fetch-IsSafe :
      (now : ℕ) (q : NearbyQuery) (c : Conn)
      → Ensures (λ (ns, masked) d. IsSafe q.user_id c.db ns d) (fetch x now q c)
  unfolding fetch
  fetch-IsSafe now q c =
      bind-Ensures (λ ms d. IsShort x now q ms × (d ≡ c.db))
        (λ (ns, masked) d. IsSafe q.user_id c.db ns d) (Rows.get_nearby x now q) (finish x now q) c
        (get_nearby-Ensures x now q (λ d. d ≡ c.db) c refl)
        (λ ms c1 (short, e). finish-IsSafe now q ms c1 c.db e)

  keep-IsSafe :
      (q : NearbyQuery) (cache : Option x.Store) (before : Db)
      (r : Result (List Message × Bool) × Conn)
      → Ensures (λ (ns, masked) d. IsSafe q.user_id before ns d) r
      → Ensures (IsSafe q.user_id before) (keep x q cache r).0
  keep-IsSafe q cache before (ok (ms, masked), c) h = h
  keep-IsSafe q cache before (err e, c) h = tt

  -- `GetNearby`, where its answer comes from the database: whatever statements fail, each mystery
  -- message in an answer that the user neither wrote nor has unlocked has "???" in place of its
  -- content, and the database is left as it was. A sort that rearranges is assumed.
  pub get_nearby-privacy :
      (now : ℕ) (q : NearbyQuery) (cache : Option x.Store) (c : Conn)
      → lookup x (clamp q) cache ≡ ok none
      → Ensures
          (λ ms d. (tally (leaks q.user_id c.db) ms ≡ 0) × (d ≡ c.db))
          (get_nearby x now q cache c).0
  unfolding get_nearby clamp
  get_nearby-privacy now q cache c miss =
      rw miss
        (keep-IsSafe (clamp q) cache c.db (fetch x now (clamp q) c) (fetch-IsSafe now (clamp q) c))
