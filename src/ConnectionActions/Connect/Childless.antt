-- ===== src/ConnectionActions/Connect/Childless.antt =====
-- The undo of a connect without children, CAmMainConnectionActionConnect.cpp in CAmActionContainer.cpp.
use audio_manager_plugins.Action.Container.{Container}
