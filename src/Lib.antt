-- ===== src/Lib.antt =====
-- AudioManagerPlugins: the plugins of the GENIVI AudioManager that decide about audio connections.
--
-- The generic controller (PluginControlInterfaceGeneric) turns triggers into trees of actions. A
-- trigger waits in a queue; the policy appends actions to the root action for it; the root executes its
-- children one after the other, undoes them if one fails, and cleans up. A leaf action that asks the
-- routing side for something waits until the request's handle is acknowledged, or until its timer ends.
-- The reference controller (PluginControlInterface) is a separate, smaller one: three state flows that
-- the acknowledgements of the routing side drive.
--
--   Base          names from the libraries, Boolean tests on native numbers, lists measured by native
--                 numbers, signed integers
--   TriggerQueue  PluginControlInterfaceGeneric/src/CAmTriggerQueue.cpp: queue, queue_with_priority,
--                 dequeue and get_snap_shot over the two lists
--   HandleStore   PluginControlInterfaceGeneric/src/CAmHandleStore.cpp: save_handle, clear_handle and
--                 notify_async_result over an association list from keys to observers
--   EventSubject  PluginControlInterfaceGeneric/src/CAmEventSubject.cpp: the observers of a subject and the
--                 one that notify calls, with setParent of leaf actions and of containers
--   Action        PluginControlInterfaceGeneric/include/IAmAction.h: the states, and the interface of an
--                 action as a record of operations (ActionCommand) with its contract (IsLawful)
--   Action.Timer  PluginControlInterfaceGeneric/src/CAmTimerEvent.cpp: set_timer, remove_timer and
--                 timer_callback over a socket handler that is a parameter
--   Action.Command
--                 PluginControlInterfaceGeneric/src/CAmActionCommand.cpp: execute, undo, update, timed_out
--                 and cleanup of a leaf action
--   Action.Container
--                 PluginControlInterfaceGeneric/src/CAmActionContainer.cpp: update, execute, undo, cleanup,
--                 append and insert of a container over any children behind the interface (a container is
--                 itself an action, Action.Container.Tree), and the cleanup of CAmRootAction.cpp
--   ControlSender PluginControlInterface/src/CAmControlSenderBase.cpp: Flow has callStateFlowHandler and
--                 the three handlers, Hooks the requests of the user, Events the acknowledgements and one
--                 step function for all of them; the audio manager is a parameter (ControlReceive)
--   MainConnection
--                 PluginControlInterfaceGeneric/src/CAmMainConnectionElement.cpp: Route has what a connection
--                 reads off its route, Filter the connection list filter, Lists the factory's ordered list,
--                 getListElements and permitsDispose, which looks into the queue of TriggerQueue
--   Element       PluginControlInterfaceGeneric/src/CAmElement.cpp: the volume limits of an element, each
--                 under a pattern of bits (Element.Limits), and which element observes which
--                 (Element.Attachment)
--   VolumeActions PluginControlInterfaceGeneric/src/CAmActionSetVolumeCore.cpp: Limiting has the settings of
--                 a connection under its limits, Matrix the table of the elements and the connections that
--                 use them, Balance the volumes that the elements get, ElementVolume the action that sends
--                 one to the routing side; Requests has the execution of the volume, the limit and the mute
--                 action (CAmActionSetVolume.cpp, CAmActionLimit.cpp, CAmActionMute.cpp), LimitStates the
--                 limits that the last two store and take back
--   Classes       PluginControlInterfaceGeneric/src/CAmClassElement.cpp: what belongs to a class, its routes
--                 (Classes.Topology), and the volumes and sound properties that it stores
--   RoutingActions
--                 PluginControlInterfaceGeneric/src/CAmRouteActionConnect.cpp, CAmRouteActionDisconnect.cpp
--                 and CAmSourceActionSetState.cpp: the actions that wait for the routing side
--   ConnectionActions
--                 PluginControlInterfaceGeneric/src/CAmMainConnectionActionConnect.cpp,
--                 CAmMainConnectionActionDisconnect.cpp and CAmMainConnectionActionSuspend.cpp: the container
--                 actions on a main connection, with the children that each appends, in a module of its
--                 own; Hooks has the calls that CAmActionContainer.cpp makes of them
--   Controller    PluginControlInterfaceGeneric/src/CAmControllerPlugin.cpp: iterateActions, the loop over the
--                 root action and the queue; the policy engine is a parameter
--   Examples      the theorems at concrete inputs
--
-- The volume actions keep a limit in the class element or in a source or sink (Element.Limits); the limits
-- of a connection are those of its class and of its volume elements, along the route that MainConnection
-- reads. The actions on a main connection append the actions for the routing side as data (Child), which
-- the model of containers runs; they register with the connection of MainConnection, set its state and
-- read its route. The actions for the routing side save their handle in the HandleStore and clear it in
-- their update.
--
-- A call that does not return, since it reads a vector out of bounds, a null pointer or an iterator beyond
-- its end, or aborts on an assertion, is `none`. iterate_actions runs on as many passes as it is given. The
-- loops of the containers run on fuel, one round more than there are children for execute and two for
-- undo: a round that goes on has moved the index past a child. The walk over a topology has one round for
-- each of its elements and one for the end; a round moves the iterator. The loop over the connections of
-- the volume matrix, into which it inserts connections of the factory, has one round for each entry and
-- for each connection of the factory, and the last test: a round moves to a greater key.
-- uint32_t, uint16_t and int16_t wrap around as in C++. The clock and the answers of the socket handler,
-- the routing side and the audio manager are parameters, and so are AM_MUTE and the error codes, which
-- headers of the daemon define.
--
-- A leaf action is updated with the result of a request only while it waits for it: settle of ElementVolume
-- and settle_connect of RoutingActions stand for the calls of CAmActionCommand.cpp around the concrete
-- actions.
--
-- What a concrete action does in _execute, _undo and _timeout is data of the model of leaf actions and
-- containers (Command and Script); the actions of VolumeActions, RoutingActions and ConnectionActions have
-- their own. Not modelled: the named parameters of actions other than by their values; main volumes, which
-- are converted through tables of floats and enter as parameters, or as a note that they are updated; the
-- creation and disposal of connections; the policy functions; logging; the parsers of the configuration
-- files; the persistence; and the bindings to D-Bus, CommonAPI and ALSA.
pub mod Base
pub mod TriggerQueue
pub mod HandleStore
pub mod EventSubject
pub mod Action
pub mod ControlSender
pub mod MainConnection
pub mod Element
pub mod VolumeActions
pub mod Classes
pub mod RoutingActions
pub mod ConnectionActions
pub mod Controller
mod Examples
