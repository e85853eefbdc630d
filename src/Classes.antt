-- ===== src/Classes.antt =====
-- The classes of the generic controller: PluginControlInterfaceGeneric/src/CAmClassElement.cpp.
pub mod Topology
pub mod LastVolumes
use audio_manager_plugins.Base.{
  ℕ, List, [], ◌∷◌, Option, none, some, Bool, true, false, ◌&&◌, ◌||◌, ◌==◌, if◌then◌else◌,
}
use audio_manager_plugins.Base.Int.{ℤ}
use audio_manager_plugins.MainConnection.{Name, same_name}

-- gc_ClassTopologyCodeID_e
pub data TopologyCode : Type 0 where
  general_element sink_element source_element gateway_element : TopologyCode
  equal_code exclusive_code shared_code lbracket_code rbracket_code null_code : TopologyCode

-- gc_TopologyElement_s
pub record TopologyElement : Type 0 where
  pub code_id : TopologyCode
  pub name : Name

-- gc_Class_e
pub data ClassType : Type 0 where
  c_unknown c_playback c_capture c_max : ClassType

-- am_RoutingElement_s
pub record RoutingElement : Type 0 where
  pub source_id : ℕ
  pub sink_id : ℕ
  pub domain_id : ℕ
  pub connection_format : ℕ

-- am_Route_s and gc_Route_s; the daemon's routes have no name.
pub record Route : Type 0 where
  pub source_id : ℕ
  pub sink_id : ℕ
  pub route : List RoutingElement

-- What the factories hold of sources, sinks and gateways.
pub record Gateway : Type 0 where
  pub source_id : ℕ
  pub sink_id : ℕ
  pub sink_domain_id : ℕ

pub record Registry : Type 0 where
  pub source_id : Name → Option ℕ
  pub sink : Name → Option (ℕ × ℕ)  -- with its domain
  pub gateway : Name → Option Gateway

-- CAmClassElement: its configuration, and the sources and sinks among its direct and indirect subjects.
pub record ClassElement : Type 0 where
  pub class_type : ClassType
  pub list_topologies : List (List TopologyElement)
  pub source_subjects : List Name
  pub sink_subjects : List Name

abbrev pub has_name : Name → List Name → Bool
has_name n [] = false
has_name n (x ∷ xs) = same_name x n || has_name n xs

-- TOPOLOGY_SYMBOL_ASTERISK
abbrev pub asterisk : Name
asterisk = 42 ∷ []

-- The two codes that a name is looked up by.
pub data EndPoint : Type 0 where
  source_end sink_end : EndPoint

abbrev pub has_code : EndPoint → TopologyCode → Bool
has_code source_end source_element = true
has_code sink_end sink_element = true
has_code _ _ = false

-- _checkElementInSubjectList
abbrev pub in_subject_list : ClassElement → EndPoint → Name → Bool
in_subject_list c source_end n = has_name n c.source_subjects
in_subject_list c sink_end n = has_name n c.sink_subjects

-- _checkElementPresentInTopology
unfoldable pub present_in_topology : ClassElement → EndPoint → Name → List TopologyElement → Bool
present_in_topology c end n [] = false
present_in_topology c end n (e ∷ es) =
    (has_code end e.code_id
      && (same_name e.name n || (same_name e.name asterisk && in_subject_list c end n)))
    || present_in_topology c end n es

abbrev pub present_in_any : ClassElement → EndPoint → Name → List (List TopologyElement) → Bool
present_in_any c end n [] = false
present_in_any c end n (t ∷ ts) = present_in_topology c end n t || present_in_any c end n ts

-- isElementBelongtoClass
unfoldable pub belongs_to_class : ClassElement → EndPoint → Name → Bool
belongs_to_class c end n = in_subject_list c end n || present_in_any c end n c.list_topologies

abbrev pub is_playback : ClassType → Bool
is_playback c_playback = true
is_playback _ = false

abbrev pub is_capture : ClassType → Bool
is_capture c_capture = true
is_capture _ = false

-- isSourceSinkPairBelongtoClass
unfoldable pub pair_belongs_to_class : ClassElement → Name → Name → Bool
unfolding belongs_to_class
pair_belongs_to_class c sink source =
    let source_in = belongs_to_class c source_end source in
    let sink_in = belongs_to_class c sink_end sink in
    (source_in && sink_in)
    || ((source_in && is_playback c.class_type) || (sink_in && is_capture c.class_type))

-- CAmClassFactory::getElement for a pair: the last class that it belongs to.
pub last_class_of_pair : Name → Name → List ClassElement → Option ClassElement → Option ClassElement
unfolding pair_belongs_to_class
last_class_of_pair source sink [] found = found
last_class_of_pair source sink (c ∷ cs) found =
    last_class_of_pair source sink cs
      (if pair_belongs_to_class c sink source then some c else found)

-- getElementsBySource and getElementsBySink
pub classes_with : EndPoint → Name → List ClassElement → List ClassElement
unfolding belongs_to_class
classes_with end n [] = []
classes_with end n (c ∷ cs) =
    let rest = classes_with end n cs in if belongs_to_class c end n then c ∷ rest else rest
