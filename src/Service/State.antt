-- ===== src/Service/State.antt =====
-- What the services share: the database, the cache and the hub. A service call is a step on them.
use geo_note.Common.{Option}
use geo_note.External.{External}
use geo_note.Repository.Query.{Result, Conn, Query}
use geo_note.Ws.Hub.{Hub}

pub record State (x : External) : Type 0 where
  pub conn : Conn
  pub cache : Option x.Store
  pub hub : Hub

module _ (x : External) where
  abbrev pub Action : Type 0 → Type 0
  Action A = State x → Result A × State x

  abbrev put_conn : {A : Type 0} → State x → Result A × Conn → Result A × State x
  put_conn s (r, c) = (r, record s { conn = c })

  -- A call that works on the database only.
  abbrev pub on_db : {A : Type 0} → Query A → Action A
  on_db q s = put_conn s (q s.conn)
