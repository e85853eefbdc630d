-- ===== src/ControlSender/Pending.antt =====
-- The connections and disconnections of CAmControlSenderBase.cpp that wait for the routing side:
-- connect, disconnect, and the search of cbAckConnect and cbAckDisconnect.
pub mod Waiting
use audio_manager_plugins.Base.{
  ℕ, List, [], ◌∷◌, ◌++◌, Option, none, some, Bool, true, false, ◌==◌, ◌&&◌, if◌then◌else◌,
}
use audio_manager_plugins.HandleStore.{Handle}
use audio_manager_plugins.ControlSender.{
  Error, e_ok, MainConnection, RoutingElement, Asked, ControlReceive, HandleStatus,
  MainConnectionSet, ControlSender, Sys,
}

abbrev pub is_ok : Error → Bool
is_ok e_ok = true
is_ok _ = false

-- findHandle compares the numbers only. The first entry with the number is marked.
unfoldable pub mark : Handle → List HandleStatus → Option (List HandleStatus)
mark h [] = none
mark h (x ∷ xs) =
    let rest = mark h xs in
    if x.handle.handle == h.handle
    then some (record x { status = true } ∷ xs)
    else elim rest [ none ↦ none | some ys ↦ some (x ∷ ys) ]

-- No entry passes checkHandle.
unfoldable pub all_done : List HandleStatus → Bool
all_done [] = true
all_done (x ∷ xs) = x.status && all_done xs

-- The sets that are left, and the connection whose set was erased.
pub record Acked : Type 0 where
  pub sets : List MainConnectionSet
  pub done : Option ℕ

abbrev pub keep : MainConnectionSet → Acked → Acked
keep s a = record a { sets = s ∷ a.sets }

-- A set in front of others, with its marked entries if it has the handle and with what becomes of the
-- others if the search goes on.
unfoldable pub ack_set :
    MainConnectionSet → List MainConnectionSet → Acked → Option (List HandleStatus) → Acked
unfolding all_done
ack_set s ss rest none = keep s rest
ack_set s ss rest (some l) =
    if all_done l
    then record { sets = ss; done = some s.connection_id }
    else keep (record s { list_handle_status = l }) rest

-- Every set that has the handle is marked, up to the first that is then done, which is erased.
unfoldable pub ack_sets : Handle → List MainConnectionSet → Acked
unfolding mark ack_set
ack_sets h [] = record { sets = []; done = none }
ack_sets h (s ∷ ss) = ack_set s ss (ack_sets h ss) (mark h s.list_handle_status)

-- What the requests to the routing side leave behind: the handles to wait for, the connections that
-- were made, and the world.
pub record Segments (W : Type 0) : Type 0 where
  pub statuses : List HandleStatus
  pub ids : List ℕ
  pub world : W

module _ {W : Type 0} (rec : ControlReceive W) where
  unfoldable pub connect_segments : List RoutingElement → W → Segments W
  connect_segments [] w = record { statuses = []; ids = []; world = w }
  connect_segments (e ∷ es) w =
      let (id, a) = rec.connect e w in
      let rest = connect_segments es a.world in
      record rest {
        statuses = record { status = false; handle = a.handle } ∷ rest.statuses;
        ids = id ∷ rest.ids;
      }

  -- An error is only logged.
  pub disconnect_segments : List ℕ → W → Segments W
  disconnect_segments [] w = record { statuses = []; ids = []; world = w }
  disconnect_segments (c ∷ cs) w =
      let a = rec.disconnect c w in
      let rest = disconnect_segments cs a.world in
      record rest {
        statuses = record { status = false; handle = a.handle } ∷ rest.statuses;
        ids = c ∷ rest.ids;
      }

  -- Without a route this reads the vector of routes out of bounds.
  unfoldable pub connect_along : List (List RoutingElement) → ℕ → Sys W → Option (Sys W)
  unfolding connect_segments
  connect_along [] main s = none
  connect_along (route ∷ others) main s =
      let segs = connect_segments route s.world in
      some (record {
        sender = record s.sender {
          list_open_connections =
              s.sender.list_open_connections
              ++ record { connection_id = main; list_handle_status = segs.statuses } ∷ [];
        };
        world = rec.change_main_connection_route main segs.ids segs.world;
      })

  unfoldable pub connect : ℕ → ℕ → ℕ → Sys W → Option (Sys W)
  unfolding connect_along
  connect source sink main s = connect_along (rec.get_route source sink s.world) main s

  unfoldable pub disconnect : ℕ → Sys W → Sys W
  unfolding disconnect_segments
  disconnect main s =
      let (error, connection) = rec.get_main_connection_info main s.world in
      let segs = disconnect_segments connection.list_connection_id s.world in
      if is_ok error
      then record {
        sender = record s.sender {
          list_open_disconnections =
              s.sender.list_open_disconnections
              ++ record { connection_id = main; list_handle_status = segs.statuses } ∷ [];
        };
        world = segs.world;
      }
      else s
