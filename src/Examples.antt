-- ===== src/Examples.antt =====
-- Concrete runs of the modelled code, and the theorems at concrete inputs.
mod Transitions
mod Triggers
mod Handles
mod Commands
mod Containers
mod Control
mod Connections
mod Loop
mod Volumes
mod Classes
mod Routing
mod Elements
