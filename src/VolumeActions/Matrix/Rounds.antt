-- ===== src/VolumeActions/Matrix/Rounds.antt =====
-- The rounds of _setupVolumeMatrix, CAmActionSetVolumeCore.cpp.
use audio_manager_plugins.Base.{
  ℕ, zero, suc, ◌+◌, ◌<◌, List, [], ◌∷◌, ◌++◌, Option, none, some, true, false, ltb, ◌≡◌, refl, sym,
  subst, is_empty, if◌then◌else◌, length, length-append, All, arith, Bool-cases, inl, inr,
}
use audio_manager_plugins.Base.Maps.{lookup, insert}
use audio_manager_plugins.MainConnection.{ConnectionState, RoutePoint, MainConnectionElement}
use audio_manager_plugins.MainConnection.Lists.Answers.{IsComplete, get_list_elements-Answers}
use audio_manager_plugins.MainConnection.Route.States.{HasPoints}
use audio_manager_plugins.MainConnection.Route.{
  get_volume_change_elements, sd_mainsink_to_mainsource,
}
use audio_manager_plugins.VolumeActions.{ConnectionInfo, Elements, SetVolumeCore, insert_key}
use audio_manager_plugins.VolumeActions.Limiting.{get_connection_volumes}
use audio_manager_plugins.VolumeActions.Matrix.{
  filter_for, column_of, get_element_volumes, next_entry, link_connections, setup_column,
  setup_columns, affected, setup_rows, setup_volume_matrix,
}
use audio_manager_plugins.VolumeActions.Matrix.Keys.{
  has, is_after, remaining, remaining-length, remaining-less, KeysAreIn, insert_unless-KeysAreIn,
  keys_of, ids_of, length-keys_of, length-ids_of, has-append_left, has-append_right,
  KeysAreIn-keys_of,
}

-- An entry, if there is one, comes after the key, and its own key is among the known ones.
abbrev IsToCome : Option ℕ → List ℕ → Option (ℕ × ConnectionInfo) → Type 0
IsToCome after ks none = Unit
IsToCome after ks (some e) = (is_after after e.0 ≡ true) × (has e.0 ks ≡ true)

next_entry-IsToCome :
    (after : Option ℕ) (ks : List ℕ) (m : List (ℕ × ConnectionInfo))
    → KeysAreIn ks m
    → IsToCome after ks (next_entry after m)
unfolding next_entry
next_entry-IsToCome after ks [] h = tt
next_entry-IsToCome none ks (x ∷ m) (h, hs) = (refl, h)
next_entry-IsToCome (some k) ks (x ∷ m) (h, hs) = elim (Bool-cases (ltb k x.0)) [
  | inl y ↦ rw y (y, h)
  | inr n ↦ rw n (next_entry-IsToCome (some k) ks m hs)
]

-- The key of the connection is among the known ones.
abbrev pub IsKnown : List ℕ → MainConnectionElement → Type 0
IsKnown ks c = has c.id ks ≡ true

-- The matrix is set up, over connections whose keys are known.
abbrev pub IsSetUp : List ℕ → Option SetVolumeCore → Type 0
IsSetUp ks o = (a : SetVolumeCore) × (o ≡ some a) × KeysAreIn ks a.connection_map

module _ (w : Elements) (states : List ConnectionState) (ks : List ℕ)
    (complete : All (IsComplete (IsKnown ks)) w.connections.map_elements) where
  link_connections-KeysAreIn :
      (element : ℕ) (cs : List MainConnectionElement) (a : SetVolumeCore)
      → All (IsKnown ks) cs
      → KeysAreIn ks a.connection_map
      → KeysAreIn ks (link_connections w element cs a).connection_map
  unfolding link_connections
  link_connections-KeysAreIn element [] a h known = known
  link_connections-KeysAreIn element (c ∷ cs) a (h, hs) known =
      link_connections-KeysAreIn element cs _ hs (
        insert_unless-KeysAreIn ks c.id (get_connection_volumes w c false) a.connection_map
          (lookup c.id a.connection_map) h known)

  abbrev Proceeds : Option (ℕ × SetVolumeCore) → Type 0
  Proceeds o = (s : ℕ × SetVolumeCore) × (o ≡ some s) × KeysAreIn ks s.1.connection_map

  setup_column-Proceeds :
      (k : ℕ) (p : RoutePoint) (s : ℕ × SetVolumeCore)
      → KeysAreIn ks s.1.connection_map
      → Proceeds (setup_column w states k p s)
  unfolding setup_column affected
  setup_column-Proceeds k p (next, a) h =
      let (cs, at, all) =
        get_list_elements-Answers (IsKnown ks)
          (if (w.points p.id).is_sink
            then filter_for [] [] p.name states
            else filter_for [] p.name [] states)
          w.connections complete in
      subst (λ o. Proceeds (elim o [ none ↦ none | some found ↦ some (with_found found) ])) (sym at)
        (_, refl, link_connections-KeysAreIn p.id cs _ all h)
    where
      with_found : List MainConnectionElement → ℕ × SetVolumeCore
      with_found found =
          let old = column_of p.id a.matrix in
          let ordinal = if is_empty old.connections then next else old.ordinal in
          (
            suc ordinal,
            link_connections w p.id found (record a {
              matrix =
                  insert p.id
                    (get_element_volumes p (record old {
                      ordinal = ordinal;
                      connections = insert_key k old.connections;
                    }))
                    a.matrix;
            }),
          )

  setup_columns-Proceeds :
      (k : ℕ) (ps : List RoutePoint) (s : ℕ × SetVolumeCore)
      → KeysAreIn ks s.1.connection_map
      → Proceeds (setup_columns w states k ps s)
  unfolding setup_columns
  setup_columns-Proceeds k [] s h = (s, refl, h)
  setup_columns-Proceeds k (p ∷ ps) s h =
      let (s', at, known) = setup_column-Proceeds k p s h in
      subst
        (λ o. Proceeds (elim o [ none ↦ none | some later ↦ setup_columns w states k ps later ]))
        (sym at) (setup_columns-Proceeds k ps s' known)

  -- A round, if the rounds after it come to an end.
  round-IsSetUp :
      (rounds : ℕ) (after : Option ℕ) (s : ℕ × SetVolumeCore) (o : Option (ℕ × ConnectionInfo))
      → KeysAreIn ks s.1.connection_map
      → IsToCome after ks o
      → remaining after ks < suc rounds
      → ((k : ℕ) (s' : ℕ × SetVolumeCore)
          → KeysAreIn ks s'.1.connection_map
          → remaining (some k) ks < rounds
          → IsSetUp ks (setup_rows rounds w states (some k) s'))
      → IsSetUp ks (elim o [
        | none ↦ some s.1
        | some (k, info) ↦
            elim (setup_columns w states k
              (get_volume_change_elements sd_mainsink_to_mainsource
                info.connection.list_route_elements [])
              s) [ none ↦ none | some s' ↦ setup_rows rounds w states (some k) s' ]
      ])
  round-IsSetUp rounds after s none h to_come enough rest = (s.1, refl, h)
  round-IsSetUp rounds after s (some (k, info)) h (later, known) enough rest =
      let (s', at, known') =
        setup_columns-Proceeds k
          (get_volume_change_elements sd_mainsink_to_mainsource info.connection.list_route_elements
            [])
          s h in
      subst
        (λ o. IsSetUp ks (elim o [ none ↦ none | some t ↦ setup_rows rounds w states (some k) t ]))
        (sym at) (rest k s' known' (omega (arith, enough, remaining-less after k ks later known)))

  setup_rows-IsSetUp :
      (rounds : ℕ) (after : Option ℕ) (s : ℕ × SetVolumeCore)
      → KeysAreIn ks s.1.connection_map
      → remaining after ks < rounds
      → IsSetUp ks (setup_rows rounds w states after s)
  unfolding setup_rows
  setup_rows-IsSetUp zero after s h enough = absurd (omega (arith, enough))
  setup_rows-IsSetUp (suc rounds) after s h enough =
      round-IsSetUp rounds after s (next_entry after s.1.connection_map) h
        (next_entry-IsToCome after ks s.1.connection_map h) enough
        (λ k s'. setup_rows-IsSetUp rounds (some k) s')

All-IsComplete :
    (ks : List ℕ) (cs : List MainConnectionElement)
    → All (λ c. All HasPoints c.list_route_elements) cs
    → ((k : ℕ) → has k (ids_of cs) ≡ true → has k ks ≡ true)
    → All (IsComplete (IsKnown ks)) cs
All-IsComplete ks [] points sub = tt
All-IsComplete ks (c ∷ cs) (points, all) sub =
    ((points, sub c.id (ground arith)), All-IsComplete ks cs all (λ k h. sub k (ground (arith, h))))

-- If no connection of the factory has a null pointer on its route, _setupVolumeMatrix comes to its end,
-- although its loop inserts into the map over which it runs: one round for each connection of the map
-- and of the factory and the last test are enough. Every connection that it notes is one of these.
pub setup_volume_matrix-IsSetUp :
    (w : Elements) (states : List ConnectionState) (a : SetVolumeCore)
    → All (λ c. All HasPoints c.list_route_elements) w.connections.map_elements
    → IsSetUp
        (keys_of a.connection_map ++ ids_of w.connections.map_elements)
        (setup_volume_matrix w states a)
unfolding setup_volume_matrix
setup_volume_matrix-IsSetUp w states a points =
    let ids = ids_of w.connections.map_elements in
    let ks = keys_of a.connection_map ++ ids in
    setup_rows-IsSetUp w states ks
      (All-IsComplete ks w.connections.map_elements points
        (λ k. has-append_right k (keys_of a.connection_map) ids))
      (suc (length a.connection_map + length w.connections.map_elements)) none (0, a)
      (KeysAreIn-keys_of ks a.connection_map
        (λ k. has-append_left k (keys_of a.connection_map) ids))
      (omega (
        arith,
        remaining-length none ks,
        length-append (keys_of a.connection_map) ids,
        length-keys_of a.connection_map,
        length-ids_of w.connections.map_elements,
      ))
