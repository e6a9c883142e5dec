-- ===== src/Server/Histories.antt =====
-- Histories of the server: any sequence of requests, of passes of the cleanup goroutines and of moves
-- of the hub's sockets, where the users of the requests' tokens are those of a predicate.
use geo_note.Common.{ℕ, ◌*◌, ◌≡◌, ◌≢◌, refl, sym, String, Bool, true, false, Option, none, some}
use mathlib.Core.Path.{subst}
use geo_note.External.{External}
use geo_note.Http.{Response}
use geo_note.Middleware.AntiSpam as Spam
use geo_note.Middleware.RateLimit as Limit
use geo_note.Middleware.RateLimit.{second, rate_limit, Visitors}
use geo_note.Model.{User}
use geo_note.Repository.Query.{Db}
use geo_note.Repository.Query.Frames.{Frame}
use geo_note.Repository.Users.{insert_user}
use geo_note.Repository.Writers.{Respects}
use geo_note.Repository.Authorship.{written_by, authored, others-authored, user-authored}
use geo_note.Repository.Growth.{growing, Grown, all-growing}
use geo_note.Repository.Soundness.{IsSound, sound}
use geo_note.Repository.Soundness.Whole.{all-sound, insert_user-IsSound}
use geo_note.Server.{Config, Draw, Incoming, Server, serve, serve_socket, upgraded_after}
use geo_note.Server.Guards.{Named}
use geo_note.Server.Hubs.{serve-IsSafe}
use geo_note.Server.Requests.{serve-Change}
use geo_note.Ws.Hub.{Hub, Event}
use geo_note.Ws.Hub.Safety.{Action, act, act-GoesOn, serve_ws-IsSafe, IsSafe, GoesOn}

module _ (x : External) (cfg : Config) (Acts : String → Type 0) where
  pub data Step : Server x → Server x → Type 0 where
    answers :
        (d : Draw) (i : Incoming) (s : Server x)
        → ((u : String) → Named x cfg d i u → Acts u)
        → Step s (serve x cfg d i s).1
    joins :
        (d : Draw) (upgraded : Bool) (i : Incoming) (s : Server x)
        → Step s (serve_socket x cfg d upgraded i s).1
    forgets_visitors :
        (now : ℕ) (s : Server x) → Step s (record s { visitors = Limit.cleanup now s.visitors })
    forgets_actions :
        (now : ℕ) (s : Server x)
        → Step s (record s { last_action = Spam.cleanup (5 * second) now s.last_action })
    moves :
        (a : Action) (h : Hub) (s : Server x)
        → act (λ e. x.marshal_event e.kind e.payload) a s.state.hub ≡ some h
        → Step s (record s { state = record s.state { hub = h } })

  pub data Reach (s : Server x) : Server x → Type 0 where
    here : Reach s s
    next : {t u : Server x} → Reach s t → Step t u → Reach s u

  upgraded-db :
      (d : Draw) (upgraded : Bool) (o : Option Response × Visitors) (s : Server x)
      → (upgraded_after x cfg d upgraded o s).1.state.conn.db ≡ s.state.conn.db
  upgraded-db d upgraded (some refusal, visitors) s = refl
  upgraded-db d true (none, visitors) s = refl
  upgraded-db d false (none, visitors) s = refl

  socket-db :
      (d : Draw) (upgraded : Bool) (i : Incoming) (s : Server x)
      → (serve_socket x cfg d upgraded i s).1.state.conn.db ≡ s.state.conn.db
  unfolding serve_socket
  socket-db d upgraded i s = upgraded-db d upgraded (rate_limit 10 20 i.addr d.now s.visitors) s

  upgraded-IsSafe :
      (d : Draw) (upgraded : Bool) (o : Option Response × Visitors) (s : Server x)
      → IsSafe s.state.hub
      → IsSafe (upgraded_after x cfg d upgraded o s).1.state.hub
  upgraded-IsSafe d upgraded (some refusal, visitors) s safe = safe
  upgraded-IsSafe d true (none, visitors) s safe = serve_ws-IsSafe s.state.hub safe
  upgraded-IsSafe d false (none, visitors) s safe = safe

  -- What a frame allows of each statement, it allows of a history.
  module _ (F : Frame) (inserts : (v : User) (db : Db) → F.Change db (insert_user v db).1)
      (writes : (u : String) → Acts u → Respects u F) where
    Step-Change : {s t : Server x} → Step s t → F.Change s.state.conn.db t.state.conn.db
    Step-Change (answers d i s named) =
        serve-Change x cfg d F inserts i s (λ u n. writes u (named u n))
    Step-Change (joins d upgraded i s) =
        subst (F.Change s.state.conn.db) (sym (socket-db d upgraded i s)) (F.same s.state.conn.db)
    Step-Change (forgets_visitors now s) = F.same s.state.conn.db
    Step-Change (forgets_actions now s) = F.same s.state.conn.db
    Step-Change (moves a h s e) = F.same s.state.conn.db

    Reach-Change : {s t : Server x} → Reach s t → F.Change s.state.conn.db t.state.conn.db
    Reach-Change {s} here = F.same s.state.conn.db
    Reach-Change {s} (next {t} {u} r st) =
        F.compose s.state.conn.db t.state.conn.db u.state.conn.db (Reach-Change r) (Step-Change st)

  Step-IsSafe : {s t : Server x} → Step s t → IsSafe s.state.hub → IsSafe t.state.hub
  unfolding serve_socket
  Step-IsSafe (answers d i s named) safe = serve-IsSafe x cfg d i s safe
  Step-IsSafe (joins d upgraded i s) safe =
      upgraded-IsSafe d upgraded (rate_limit 10 20 i.addr d.now s.visitors) s safe
  Step-IsSafe (forgets_visitors now s) safe = safe
  Step-IsSafe (forgets_actions now s) safe = safe
  Step-IsSafe (moves a h s e) safe =
      let marshal : Event → Option String = λ e. x.marshal_event e.kind e.payload in
      subst GoesOn e (act-GoesOn marshal a s.state.hub safe)

  Reach-IsSafe : {s t : Server x} → Reach s t → IsSafe s.state.hub → IsSafe t.state.hub
  Reach-IsSafe here safe = safe
  Reach-IsSafe (next r st) safe = Step-IsSafe st (Reach-IsSafe r safe)

  -- From sound tables and a safe hub, after any history the tables are sound and the hub is safe:
  -- keys are unique, references point to messages and users that are there (those of
  -- `content_reports`, which no migration states, left aside), every counter is its number of rows,
  -- and no move of a socket makes the hub panic.
  pub Reach-IsSound :
      {s t : Server x}
      → Reach s t
      → IsSound s.state.conn.db
      → IsSafe s.state.hub
      → IsSound t.state.conn.db × IsSafe t.state.hub
  Reach-IsSound r fine safe = (
    Reach-Change sound (λ v db. insert_user-IsSound v db) (λ u _. all-sound u) r fine,
    Reach-IsSafe r safe,
  )

  -- No history takes an account or a badge away.
  pub Reach-Grown : {s t : Server x} → Reach s t → Grown s.state.conn.db t.state.conn.db
  Reach-Grown = Reach-Change growing (λ v db. (all-growing "").user v db) (λ u _. all-growing u)

  -- After a history in which no token of a request names the user `v`, the messages of `v` are those
  -- from before, in their order, and in every column but the counters and `is_hidden` as they were.
  pub Reach-written :
      (v : String) {s t : Server x}
      → ((u : String) → Acts u → u ≢ v)
      → Reach s t
      → written_by v t.state.conn.db.messages ≡ written_by v s.state.conn.db.messages
  Reach-written v others =
      Reach-Change (authored v) (user-authored v) (λ u acts. others-authored v u (others u acts))
