-- ===== src/Element.antt =====
-- The elements of the generic controller: PluginControlInterfaceGeneric/src/CAmElement.cpp and
-- CAmRoutePointElement.cpp.
pub mod Limits
pub mod Attachment
