-- ===== src/VolumeActions/ElementVolume/Rollback.antt =====
-- The undo of the volume of an element.
use audio_manager_plugins.VolumeActions.ElementVolume.{ElementVolume}
