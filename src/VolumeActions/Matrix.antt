-- ===== src/VolumeActions/Matrix.antt =====
-- The volume matrix: _setupConnectionMap, _setupVolumeMatrix, _getElementVolumes and
-- _createActionSetElementVolume of CAmActionSetVolumeCore.cpp. A call that reads through a null pointer
-- of a route is `none`.
pub mod Keys
pub mod Rounds
use audio_manager_plugins.Base.{
  ℕ, zero, suc, ◌+◌, List, [], ◌∷◌, ◌++◌, Option, none, some, Bool, true, false, ltb, ◌&&◌,
  if◌then◌else◌, is_empty, length,
}
use audio_manager_plugins.Base.Maps.{lookup, insert}
use audio_manager_plugins.MainConnection.{
  Name, ConnectionState, cs_connected, cs_disconnected, cs_suspended, RoutePoint,
  MainConnectionElement,
}
use audio_manager_plugins.MainConnection.Filter.{ConnectionListFilter}
use audio_manager_plugins.MainConnection.Lists.{get_element, get_list_elements, o_oldest}
use audio_manager_plugins.MainConnection.Route.{
  get_volume_change_elements, sd_mainsink_to_mainsource,
}
use audio_manager_plugins.VolumeActions.{
  Elements, VolumeInfo, null_volume_info, same_volume_info, ConnectionInfo, MatrixColumn,
  SetVolumeCore, insert_key,
}
use audio_manager_plugins.VolumeActions.Limiting.{get_connection_volumes}

-- The parameters that select connections and elements; one that is not set is none.
pub record Selection : Type 0 where
  pub class_name : Option Name
  pub source_name : Option Name
  pub sink_name : Option Name
  pub connection_name : Option Name

abbrev pub is_set {ℓ} : {A : Type ℓ} → Option A → Bool
is_set none = false
is_set (some a) = true

-- What getParam leaves in a string that is empty before the call.
abbrev pub or_empty : Option Name → Name
or_empty none = []
or_empty (some n) = n

-- A filter for a class, the names of a source and of a sink, and states.
abbrev pub filter_for : Name → Name → Name → List ConnectionState → ConnectionListFilter
filter_for class_name source_name sink_name states = record {
  class_name = class_name;
  source_name = source_name;
  sink_name = sink_name;
  list_connection_states = states;
  list_except_sources = [];
  list_except_sinks = [];
  list_except_classes = [];
}

-- The character ':'.
abbrev pub colon : ℕ
colon = 58

pub one_of : Option MainConnectionElement → List MainConnectionElement
one_of none = []
one_of (some c) = c ∷ []

-- The connected connections, or else the inactive ones.
pub or_else :
    List MainConnectionElement
    → Option (List MainConnectionElement)
    → Option (List MainConnectionElement)
or_else [] inactive = inactive
or_else (c ∷ cs) inactive = some (c ∷ cs)

-- listMainConnections without its null pointers.
pub addressed : Elements → Selection → Option (List MainConnectionElement)
unfolding one_of or_else
addressed w p =
    if is_set p.connection_name
    then some (one_of (get_element (or_empty p.connection_name) w.connections.map_elements))
    else if is_set p.source_name && is_set p.sink_name
    then some (
        one_of (
          get_element (or_empty p.source_name ++ colon ∷ or_empty p.sink_name)
            w.connections.map_elements))
    else elim (get_list_elements
        (filter_for (or_empty p.class_name) [] (or_empty p.sink_name) (cs_connected ∷ [])) o_oldest
        w.connections) [
          | none ↦ none
          | some cs ↦ or_else cs (
              get_list_elements
                (filter_for (or_empty p.class_name) [] (or_empty p.sink_name)
                  (cs_disconnected ∷ cs_suspended ∷ []))
                o_oldest w.connections)
        ]

pub note_connections :
    Elements → List MainConnectionElement → List (ℕ × ConnectionInfo) → List (ℕ × ConnectionInfo)
note_connections w [] m = m
note_connections w (c ∷ cs) m =
    note_connections w cs (insert c.id (get_connection_volumes w c true) m)

pub setup_connection_map : Elements → Selection → SetVolumeCore → Option SetVolumeCore
unfolding addressed note_connections
setup_connection_map w p a = elim (addressed w p) [
  | none ↦ none
  | some cs ↦ some (record a { connection_map = note_connections w cs a.connection_map })
]

-- mMatrix[pElement], which makes a column where there is none.
unfoldable pub column_of : ℕ → List (ℕ × MatrixColumn) → MatrixColumn
column_of k m = elim (lookup k m) [
  | none ↦ record {
    actual = null_volume_info;
    target = null_volume_info;
    ordinal = 0;
    connections = [];
  }
  | some column ↦ column
]

-- _getElementVolumes for a pointer that is not null.
unfoldable pub get_element_volumes : RoutePoint → MatrixColumn → MatrixColumn
get_element_volumes p column =
    let now : VolumeInfo = record {
      mute_state = p.mute_state;
      volume = p.volume;
      offset = p.offset_volume;
    } in
    record column { actual = now; target = now }

-- The loop over the affected connections for one element.
pub link_connections : Elements → ℕ → List MainConnectionElement → SetVolumeCore → SetVolumeCore
unfolding column_of
link_connections w element [] a = a
link_connections w element (c ∷ cs) a =
    let column = column_of element a.matrix in
    link_connections w element cs (record a {
      connection_map = elim (lookup c.id a.connection_map) [
        | none ↦ insert c.id (get_connection_volumes w c false) a.connection_map
        | some known ↦ a.connection_map
      ];
      matrix =
          insert element (record column { connections = insert_key c.id column.connections })
            a.matrix;
    })

-- The connections in one of the states that use the element.
pub affected : Elements → List ConnectionState → RoutePoint → Option (List MainConnectionElement)
affected w states p =
    get_list_elements
      (if (w.points p.id).is_sink
        then filter_for [] [] p.name states
        else filter_for [] p.name [] states)
      o_oldest w.connections

-- One element of an addressed connection, with the ordinal for the next.
pub setup_column :
    Elements
    → List ConnectionState
    → ℕ
    → RoutePoint
    → ℕ × SetVolumeCore
    → Option (ℕ × SetVolumeCore)
unfolding column_of get_element_volumes affected link_connections
setup_column w states connection p (next, a) =
    let old = column_of p.id a.matrix in
    let ordinal = if is_empty old.connections then next else old.ordinal in
    let column =
      get_element_volumes p
        (record old { ordinal = ordinal; connections = insert_key connection old.connections }) in
    elim (affected w states p) [
      | none ↦ none
      | some cs ↦ some (
        suc ordinal,
        link_connections w p.id cs (record a { matrix = insert p.id column a.matrix }),
      )
    ]

pub setup_columns :
    Elements
    → List ConnectionState
    → ℕ
    → List RoutePoint
    → ℕ × SetVolumeCore
    → Option (ℕ × SetVolumeCore)
unfolding setup_column
setup_columns w states connection [] s = some s
setup_columns w states connection (p ∷ ps) s = elim (setup_column w states connection p s) [
  | none ↦ none
  | some s' ↦ setup_columns w states connection ps s'
]

-- The entry that follows a key in the map, from its beginning if there is no key yet.
pub next_entry : Option ℕ → List (ℕ × ConnectionInfo) → Option (ℕ × ConnectionInfo)
next_entry after [] = none
next_entry none (e ∷ m) = some e
next_entry (some k) (e ∷ m) = if ltb k e.0 then some e else next_entry (some k) m

-- The loop over the addressed connections. It runs over a std::map into which it inserts, so that an
-- entry behind the current one takes part. Each round moves to a greater key.
pub setup_rows :
    ℕ → Elements → List ConnectionState → Option ℕ → ℕ × SetVolumeCore → Option SetVolumeCore
unfolding next_entry setup_columns
setup_rows zero w states after s = none
setup_rows (suc rounds) w states after s = elim (next_entry after s.1.connection_map) [
  | none ↦ some s.1
  | some (k, info) ↦
      elim (setup_columns w states k
        (get_volume_change_elements sd_mainsink_to_mainsource info.connection.list_route_elements
          [])
        s) [ none ↦ none | some s' ↦ setup_rows rounds w states (some k) s' ]
]

-- The rounds: one for each connection of the map and of the factory, and the last test.
pub setup_volume_matrix : Elements → List ConnectionState → SetVolumeCore → Option SetVolumeCore
unfolding setup_rows
setup_volume_matrix w states a =
    setup_rows (suc (length a.connection_map + length w.connections.map_elements)) w states none
      (0, a)

-- The columns whose element gets an action, with the volume that the action asks for.
unfoldable pub create_actions : List (ℕ × MatrixColumn) → List (ℕ × VolumeInfo)
create_actions [] = []
create_actions ((k, column) ∷ m) =
    if same_volume_info column.target column.actual
    then create_actions m
    else (k, column.target) ∷ create_actions m
