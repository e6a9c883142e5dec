-- ===== src/Service/Messages/Caching.antt =====
-- What `GetNearby` puts in the cache: nothing that had to be masked.
use geo_note.Common.{
  ◌≡◌, refl, ◌∙◌, ap, inl, inr, ◌⊎◌, ℕ, ◌+◌, String, Bool, true, false, Option, none, some, List,
  [], ◌∷◌, map, tally, str_eq, ◌&&◌, ◌||◌, not, arith, if◌then◌else◌, Bool-cases,
}
use geo_note.External.{External, Rearranges}
use geo_note.Model.{Message, NearbyQuery, ReactionSummary}
use geo_note.Repository.Query.{Result, ok, err, failed, Conn, Db, pure, attempt, ◌>>=◌}
use geo_note.Repository.Query.Rules.{Ensures, bind-Ensures, attempt-read-Ensures, Looked}
use geo_note.Repository.Messages as Rows
use geo_note.Repository.Messages.Nearby.{get_nearby-Ensures, IsShort}
use geo_note.Repository.Messages.Reads.{is_unlocked, is_unlocked_in}
use geo_note.Repository.Reactions.{get_reactions_by_messages}
use geo_note.Service.Messages.{
  get_nearby, lookup, clamp, fetch, keep, answer, store, key_of, is_cacheable,
}
use geo_note.Service.Messages.Masking.{
  is_mystery, is_own, shown, mask_one, mask_all, with_reactions, set_reactions, add_reactions,
  enrich, finish, rank,
}
use geo_note.Service.Messages.Privacy.{may_read, rank-leaks, reactions-Ensures}

-- A message that the user may not read.
abbrev pub barred : String → Db → Message → Bool
barred user_id db m = not (may_read user_id db m)

module _ (user_id : String) (before : Db) where
  -- Where nothing was masked, the user may read all.
  abbrev Open : List Message → Bool → Type 0
  Open ms masked = masked ≡ false → tally (barred user_id before) ms ≡ 0

  abbrev OpenOne : Message × Bool → Db → Type 0
  OpenOne (m, masked) d = (masked ≡ false → may_read user_id before m ≡ true) × (d ≡ before)

  shown-Open :
      (m : Message) (r : Result Bool) (d : Db)
      → str_eq user_id "" ≡ false
      → d ≡ before
      → (r ≡ ok (is_unlocked_in m.id user_id d)) ⊎ (r ≡ err failed)
      → (shown m r).1 ≡ false
      → may_read user_id before (shown m r).0 ≡ true
  shown-Open m r d named same (inl e) = elim (Bool-cases (is_unlocked_in m.id user_id before)) [
    | inl opened ↦ rw (e, same, opened) (λ h. ground (arith, named, opened))
    | inr locked ↦ rw (e, same, locked) (λ h. absurd (cc))
  ]
  shown-Open m r d named same (inr e) = rw e (λ h. absurd (cc))

  mask_one-Open : (m : Message) (c : Conn) → c.db ≡ before → Ensures OpenOne (mask_one user_id m c)
  unfolding mask_one is_unlocked
  mask_one-Open m c e = elim (Bool-cases (not (is_mystery m) || is_own user_id m)) [
    | inl readable ↦ rw readable (λ h. ground (arith, readable), e)
    | inr hidden ↦ rw hidden (elim (Bool-cases (str_eq user_id "")) [
      | inl nobody ↦ rw nobody (λ h. absurd (cc), e)
      | inr named ↦ rw named (
          bind-Ensures (Looked (λ d. d ≡ before) (λ d. ok (is_unlocked_in m.id user_id d))) OpenOne
            (attempt (is_unlocked m.id user_id)) (λ r. pure (shown m r)) c
            (attempt-read-Ensures (λ d. d ≡ before) (λ d. ok (is_unlocked_in m.id user_id d)) c e)
            (λ r c' (same, seen). (shown-Open m r c'.db named same seen, same)))
    ])
  ]

  mask_all-Open :
      (ms : List Message) (c : Conn)
      → c.db ≡ before
      → Ensures (λ (ns, masked) d. Open ns masked × (d ≡ before)) (mask_all user_id ms c)
  unfolding mask_all
  mask_all-Open [] c e = (λ h. refl, e)
  mask_all-Open (m ∷ ms) c e =
      bind-Ensures OpenOne (λ (ns, masked) d. Open ns masked × (d ≡ before)) (mask_one user_id m)
        (λ (n, masked). mask_all user_id ms >>= λ (ns, others). pure (n ∷ ns, masked || others)) c
        (mask_one-Open m c e)
        (λ (n, masked) c1 (may, e1).
          bind-Ensures (λ (ns, others) d. Open ns others × (d ≡ before))
            (λ (ns, others) d. Open ns others × (d ≡ before)) (mask_all user_id ms)
            (λ (ns, others). pure (n ∷ ns, masked || others)) c1 (mask_all-Open ms c1 e1)
            (λ (ns, others) c2 (all, e2). (λ h. one_more n masked ns others may all h, e2)))
    where
      one_more :
          (n : Message) (masked : Bool) (ns : List Message) (others : Bool)
          → (masked ≡ false → may_read user_id before n ≡ true)
          → Open ns others
          → Open (n ∷ ns) (masked || others)
      one_more n true ns others may all h = absurd (cc)
      one_more n false ns others may all h = rw (may refl, all h) refl

  set_reactions-barred :
      (m : Message) (r : Option (List ReactionSummary))
      → barred user_id before (set_reactions m r) ≡ barred user_id before m
  set_reactions-barred m none = refl
  set_reactions-barred m (some r) = refl

  with_reactions-barred :
      (reactions : String → Option (List ReactionSummary)) (ms : List Message)
      → tally (barred user_id before) (map (with_reactions reactions) ms)
        ≡ tally (barred user_id before) ms
  with_reactions-barred reactions [] = refl
  with_reactions-barred reactions (m ∷ ms) =
      ap
        (λ b.
          (if b then 1 else 0) + tally (barred user_id before) (map (with_reactions reactions) ms))
        (set_reactions-barred m (reactions m.id))
      ∙ ap (λ n. (if barred user_id before m then 1 else 0) + n)
          (with_reactions-barred reactions ms)

  add_reactions-barred :
      (ms : List Message) (r : Result (String → Option (List ReactionSummary)))
      → tally (barred user_id before) (add_reactions ms r) ≡ tally (barred user_id before) ms
  add_reactions-barred ms (ok reactions) = with_reactions-barred reactions ms
  add_reactions-barred ms (err e) = refl

  enrich-barred :
      (ms : List Message) (c : Conn)
      → c.db ≡ before
      → Ensures
          (λ ns d.
            (tally (barred user_id before) ns ≡ tally (barred user_id before) ms) × (d ≡ before))
          (enrich user_id ms c)
  unfolding enrich
  enrich-barred ms c e =
      bind-Ensures (λ r d. d ≡ before)
        (λ ns d.
          (tally (barred user_id before) ns ≡ tally (barred user_id before) ms) × (d ≡ before))
        (attempt (get_reactions_by_messages (map (λ m. m.id) ms) user_id))
        (λ r. pure (add_reactions ms r)) c
        (reactions-Ensures user_id before (map (λ m. m.id) ms) c e)
        (λ r c' e'. (add_reactions-barred ms r, e'))

-- What a call does to the cache.
module _ (x : External) where
  abbrev pub Cached :
      NearbyQuery → Option x.Store → Db → (Result (List Message) × Conn) × Option x.Store → Type 0
  Cached q cache before ((ok ms, c), cache') =
      (cache' ≡ cache)
      ⊎ ((cache' ≡ store x cache ms (key_of x q)) × (tally (barred q.user_id before) ms ≡ 0))
  Cached q cache before ((err e, c), cache') = cache' ≡ cache

module _ (x : External) (rearranges : Rearranges x.sort_slice) where
  finish-Open :
      (now : ℕ) (q : NearbyQuery) (ms : List Message) (c : Conn) (before : Db)
      → c.db ≡ before
      → Ensures
          (λ (ns, masked) d. Open q.user_id before ns masked × (d ≡ before))
          (finish x now q ms c)
  unfolding finish
  finish-Open now q ms c before e =
      let post =
        λ (r : List Message × Bool) (d : Db). Open q.user_id before r.0 r.1 × (d ≡ before) in
      bind-Ensures post post (mask_all q.user_id ms)
        (λ (ns, masked).
          enrich q.user_id ns >>= λ enriched. pure (rank x now q.sort enriched, masked))
        c (mask_all-Open q.user_id before ms c e)
        (λ (ns, masked) c1 (may, e1).
          bind-Ensures
            (λ rs d.
              (tally (barred q.user_id before) rs ≡ tally (barred q.user_id before) ns)
              × (d ≡ before))
            post (enrich q.user_id ns) (λ enriched. pure (rank x now q.sort enriched, masked)) c1
            (enrich-barred q.user_id before ns c1 e1)
            (λ rs c2 (same, e2). (
              λ h. rank-leaks x rearranges now q.sort rs (barred q.user_id before) ∙ same ∙ may h,
              e2,
            )))

  fetch-Open :
      (now : ℕ) (q : NearbyQuery) (c : Conn)
      → Ensures (λ (ns, masked) d. Open q.user_id c.db ns masked × (d ≡ c.db)) (fetch x now q c)
  unfolding fetch
  fetch-Open now q c =
      bind-Ensures (λ ms d. IsShort x now q ms × (d ≡ c.db))
        (λ (ns, masked) d. Open q.user_id c.db ns masked × (d ≡ c.db)) (Rows.get_nearby x now q)
        (finish x now q) c (get_nearby-Ensures x now q (λ d. d ≡ c.db) c refl)
        (λ ms c' (short, e). finish-Open now q ms c' c.db e)

  keep-Cached :
      (q : NearbyQuery) (cache : Option x.Store) (before : Db) (r : Result (List Message × Bool))
      (c : Conn)
      → Ensures (λ (ns, masked) d. Open q.user_id before ns masked × (d ≡ before)) (r, c)
      → Cached x q cache before (keep x q cache (r, c))
  keep-Cached q cache before (ok (ms, masked)) c (may, e) =
      elim (Bool-cases (is_cacheable q && not masked)) [
        | inl kept ↦ rw kept (inr (refl, may (ground (arith, kept))))
        | inr left ↦ rw left (inl refl)
      ]
  keep-Cached q cache before (err e) c h = refl

  answer-Cached :
      (now : ℕ) (q : NearbyQuery) (cache : Option x.Store) (seen : Result (Option (List Message)))
      (c : Conn)
      → Cached x q cache c.db (answer x now q cache seen c)
  answer-Cached now q cache (ok none) c =
      let (r, c') = fetch x now q c in keep-Cached q cache c.db r c' (fetch-Open now q c)
  answer-Cached now q cache (ok (some ms)) c = inl refl
  answer-Cached now q cache (err e) c = refl

  -- With a sort that rearranges, whatever statements fail: GetNearby leaves the cache as it is, or puts
  -- its answer under the key of the query, and then the user may read every message of it; where it
  -- fails the cache is as before.
  pub get_nearby-Cached :
      (now : ℕ) (q : NearbyQuery) (cache : Option x.Store) (c : Conn)
      → Cached x (clamp q) cache c.db (get_nearby x now q cache c)
  unfolding get_nearby
  get_nearby-Cached now q cache c = answer-Cached now (clamp q) cache (lookup x (clamp q) cache) c
