-- ===== src/Server/Routes.antt =====
-- The routes of backend/cmd/server/main.go, lines 85 to 130.
use geo_note.Common.{
  String, Bool, true, false, Option, none, some, List, [], ◌∷◌, str_eq, if◌then◌else◌,
}

-- The groups: without `Auth`, with `OptionalAuth` and with `Auth`.
pub data Access : Type 0 where
  public optional required : Access

pub data Endpoint : Type 0 where
  health register login nearby heatmap leaderboard events search popular user_messages user_profile
        me my_profile create delete unlock like react add_comment report delete_comment
        get_comments :
      Endpoint

-- A segment of a pattern: a literal, or a parameter in braces.
pub data Segment : Type 0 where
  word : String → Segment
  param : Segment

pub record Route : Type 0 where
  pub method : String
  pub path : List Segment
  pub access : Access
  pub endpoint : Endpoint

abbrev route : String → List Segment → Access → Endpoint → Route
route method path access endpoint = record {
  method = method;
  path = word "api" ∷ word "v1" ∷ path;
  access = access;
  endpoint = endpoint;
}

abbrev on_message : String → List Segment
on_message action = word "messages" ∷ param ∷ word action ∷ []

unfoldable pub routes : List Route
routes =
    route "GET" (word "health" ∷ []) public health
    ∷ route "POST" (word "auth" ∷ word "register" ∷ []) public register
    ∷ route "POST" (word "auth" ∷ word "login" ∷ []) public login
    ∷ route "GET" (word "messages" ∷ word "nearby" ∷ []) optional nearby
    ∷ route "GET" (word "heatmap" ∷ []) optional heatmap
    ∷ route "GET" (word "leaderboard" ∷ []) optional leaderboard
    ∷ route "GET" (word "events" ∷ []) optional events
    ∷ route "GET" (word "search" ∷ []) public search
    ∷ route "GET" (word "search" ∷ word "hashtags" ∷ word "popular" ∷ []) public popular
    ∷ route "GET" (word "users" ∷ param ∷ word "messages" ∷ []) public user_messages
    ∷ route "GET" (word "users" ∷ param ∷ word "profile" ∷ []) public user_profile
    ∷ route "GET" (word "auth" ∷ word "me" ∷ []) required me
    ∷ route "GET" (word "me" ∷ word "profile" ∷ []) required my_profile
    ∷ route "POST" (word "messages" ∷ []) required create
    ∷ route "DELETE" (word "messages" ∷ param ∷ []) required delete
    ∷ route "POST" (on_message "unlock") required unlock
    ∷ route "POST" (on_message "like") required like
    ∷ route "POST" (on_message "react") required react
    ∷ route "POST" (on_message "comments") required add_comment
    ∷ route "POST" (on_message "report") required report
    ∷ route "DELETE" (word "comments" ∷ param ∷ []) required delete_comment
    ∷ route "GET" (on_message "comments") public get_comments
    ∷ []

pub data Match : Type 0 where
  matched : Access → Endpoint → String → Match
  wrong_method unknown : Match

abbrev pub kept : String → Option String → Option String
kept id none = none
kept id (some rest) = some id

-- The parameter of a path that matches, the empty text where the pattern has none; a parameter is
-- not empty.
unfoldable pub parameter : List Segment → List String → Option String
parameter [] [] = some ""
parameter [] (s ∷ ss) = none
parameter (p ∷ ps) [] = none
parameter (word w ∷ ps) (s ∷ ss) = let rest = parameter ps ss in if str_eq w s then rest else none
parameter (param ∷ ps) (s ∷ ss) =
    let rest = parameter ps ss in if str_eq s "" then none else kept s rest

abbrev pub prefer : Route → Bool → Option String → Match → Match
prefer r same none rest = rest
prefer r true (some id) rest = matched r.access r.endpoint id
prefer r false (some id) (matched a e i) = matched a e i
prefer r false (some id) wrong_method = wrong_method
prefer r false (some id) unknown = wrong_method

-- The first route that matches; `wrong_method` where only the path does.
unfoldable pub find : String → List String → List Route → Match
unfolding parameter
find method segments [] = unknown
find method segments (r ∷ rs) =
    prefer r (str_eq r.method method) (parameter r.path segments) (find method segments rs)

-- What chi makes of the routes: no two of them match one method and path.
unfoldable pub match : String → List String → Match
unfolding find routes
match method segments = find method segments routes
