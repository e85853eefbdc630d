-- ===== src/Classes/LastVolumes.antt =====
-- What a class remembers: volumes per sink and per main connection, and main sound properties. The
-- functions set... and getLast... of CAmClassElement.cpp; the getters leave a volume as it was handed
-- in where they find none.
use audio_manager_plugins.Base.{
  ℕ, List, [], ◌∷◌, Option, none, some, Bool, false, ◌&&◌, not, ◌==◌, if◌then◌else◌,
}
use audio_manager_plugins.Base.Int.{ℤ, pos, is_same}
use audio_manager_plugins.MainConnection.{Name, same_name}
use audio_manager_plugins.Classes.{asterisk}

-- The stored volumes, and what the configuration of the class says of them.
pub record ClassVolumes : Type 0 where
  pub class_properties : List (ℕ × ℤ)
  pub volume_persistency : Bool
  pub default_volume : ℤ
  pub sink_volumes : List (Name × ℤ)
  pub connection_volumes : List (Name × ℤ)

-- isPerSinkClassVolumeEnabled: the first property of the type decides.
unfoldable pub first_is_set : ℕ → List (ℕ × ℤ) → Bool
first_is_set key [] = false
first_is_set key ((k, v) ∷ ps) = if k == key then not (is_same v (pos 0)) else first_is_set key ps

unfoldable pub find_volume : Name → List (Name × ℤ) → Option ℤ
find_volume n [] = none
find_volume n ((m, v) ∷ vs) = if same_name m n then some v else find_volume n vs

-- The volume of the first entry of the name, or else a new entry at the end.
unfoldable pub store_volume : Name → ℤ → List (Name × ℤ) → List (Name × ℤ)
store_volume n v [] = (n, v) ∷ []
store_volume n v ((m, w) ∷ vs) =
    let rest = store_volume n v vs in if same_name m n then (m, v) ∷ vs else (m, w) ∷ rest

-- The name that a sink's volume goes by, with CP_PER_SINK_CLASS_VOLUME_SUPPORT.
unfoldable pub volume_name : ℕ → ClassVolumes → Name → Name
unfolding first_is_set
volume_name per_sink c sink = if first_is_set per_sink c.class_properties then sink else asterisk

-- _setLastClassVolume, without the sound property of the sink that follows the volume.
unfoldable pub set_last_class_volume : ℕ → Name → ℤ → ClassVolumes → ClassVolumes
unfolding volume_name store_volume first_is_set
set_last_class_volume per_sink sink v c =
    if not c.volume_persistency && not (first_is_set per_sink c.class_properties)
    then c
    else record c { sink_volumes = store_volume (volume_name per_sink c sink) v c.sink_volumes }

-- The sound property that _setLastClassVolume writes to the database: its value, where the sink exists
-- and has another value.
unfoldable pub sound_property_of : ℕ → ClassVolumes → Option ℤ → ℤ → Option ℤ
unfolding first_is_set
sound_property_of per_sink c none v = none
sound_property_of per_sink c (some old) v =
    if first_is_set per_sink c.class_properties && not (is_same old v) then some v else none

-- _setLastMainConnectionVolume for a connection whose source and sink exist; `persistent` if one of
-- them supports the persistency of volumes.
unfoldable pub set_last_connection_volume : Bool → Name → ℤ → ClassVolumes → ClassVolumes
unfolding store_volume
set_last_connection_volume persistent n v c =
    if persistent
    then record c { connection_volumes = store_volume n v c.connection_volumes }
    else c

-- setLastVolume for a connection, and for a sink that is named.
unfoldable pub set_last_volume :
    ℕ → Option (Bool × Name × Name × ℤ) → Name → ℤ → ClassVolumes → ClassVolumes
unfolding set_last_connection_volume set_last_class_volume
set_last_volume per_sink none [] v c = c
set_last_volume per_sink none (x ∷ n) v c = set_last_class_volume per_sink (x ∷ n) v c
set_last_volume per_sink (some (persistent, name, sink, main)) [] v c =
    set_last_class_volume per_sink sink main (set_last_connection_volume persistent name main c)
set_last_volume per_sink (some (persistent, name, sink, main)) (x ∷ n) v c =
    set_last_class_volume per_sink (x ∷ n) v
      (set_last_class_volume per_sink sink main (set_last_connection_volume persistent name main c))

-- getLastVolume of a sink; the default volume counts unless it is AM_MUTE.
unfoldable pub get_last_volume : ℕ → ℤ → Name → ℤ → ClassVolumes → ℤ
unfolding volume_name find_volume
get_last_volume per_sink am_mute sink before c =
    elim (find_volume (volume_name per_sink c sink) c.sink_volumes) [
      | some v ↦ v
      | none ↦ if is_same c.default_volume am_mute then before else c.default_volume
    ]

-- getLastVolume of a connection: its own volume, else that of its sink.
unfoldable pub get_last_connection_volume : ℕ → ℤ → Name → Name → ℤ → ClassVolumes → ℤ
unfolding find_volume get_last_volume
get_last_connection_volume per_sink am_mute name sink before c =
    elim (find_volume name c.connection_volumes) [
      | some v ↦ v
      | none ↦ get_last_volume per_sink am_mute sink before c
    ]

-- gc_LastMainSoundProperty_s: the properties of an element, by its type and name.
pub record LastSound : Type 0 where
  pub element_type : ℕ
  pub element_name : Name
  pub properties : List (ℕ × ℤ)

unfoldable pub store_property : ℕ → ℤ → List (ℕ × ℤ) → List (ℕ × ℤ)
store_property k v [] = (k, v) ∷ []
store_property k v ((j, w) ∷ ps) = if j == k then (k, v) ∷ ps else (j, w) ∷ store_property k v ps

abbrev pub is_element : ℕ → Name → LastSound → Bool
is_element t n s = s.element_type == t && same_name s.element_name n

-- setLastSoundProperty with _updateListLastMainSoundProperty
unfoldable pub set_last_sound_property : ℕ → Name → ℕ → ℤ → List LastSound → List LastSound
unfolding store_property
set_last_sound_property t n k v [] =
    record { element_type = t; element_name = n; properties = (k, v) ∷ [] } ∷ []
set_last_sound_property t n k v (s ∷ ss) =
    let rest = set_last_sound_property t n k v ss in
    if is_element t n s
    then record s { properties = store_property k v s.properties } ∷ ss
    else s ∷ rest

-- getLastSoundProperty: the properties of the element, or E_NON_EXISTENT.
unfoldable pub get_last_sound_property : ℕ → Name → List LastSound → Option (List (ℕ × ℤ))
get_last_sound_property t n [] = none
get_last_sound_property t n (s ∷ ss) =
    if is_element t n s then some s.properties else get_last_sound_property t n ss
