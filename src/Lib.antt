-- ===== src/Lib.antt =====
-- The SOME/IP gateway: the IPC binding of score/gateway_ipc_binding, the SOCom runtime of score/socom,
-- the serializer of score/serializer, and the handlers of events of the two daemons, score/gatewayd
-- and score/someipd.
--
-- A daemon has a SOCom runtime. A client connector and a server connector of one service find each
-- other in it; a service that has no server in the process is requested of the bridges, and the IPC
-- binding is one. A sample of a local application becomes a SOME/IP message in the gateway daemon,
-- goes through a server connector, the binding and a client connector to the SOME/IP daemon, and is
-- notified to the network there; a message of the network goes the other way.
--
-- - Runtime: `Runtime_impl` of score/socom/impl/runtime_impl.cpp and runtime_impl.hpp. Database is
--   the table of services, Bridges what the bridges are asked for, and Connectors how connectors
--   are made and registered.
-- - Connector: the two ends of a connection, score/socom/impl/server_connector_impl.cpp and
--   client_connector_impl.cpp: subscriptions and requests at the server, and how a connection
--   comes and goes. Table has the lemmas on the tables of the events.
-- - Someip: Payload is score/socom/payload.hpp; Samples is the gateway daemon
--   (gatewayd/impl/local_service_instance.cpp, remote_service_instance.cpp below score), Network
--   the SOME/IP daemon (someipd/impl/local_network_service.cpp, remote_network_service.cpp), Slots the
--   size of the slots of a service (gatewayd/main.cpp). Delivery and Reception follow an event
--   through both daemons.
--
-- The binding connects the SOCom runtimes of two processes over a message channel. A process offers
-- services, requests services of its peers, and passes on subscriptions and event updates; the
-- payloads of events lie in shared memory, and only their handles are sent. Its parts, and the
-- modules that model them:
--
-- - SlotManager: the shared memory of one service instance, cut into slots that are allocated,
--   shared and released by counting references. `Shared_memory_slot_manager_impl` of
--   score/gateway_ipc_binding/impl/shared_memory_slot_manager.cpp. An operation gives the manager
--   after it and its result.
-- - SlotManager/Guard: `Shared_memory_slot_guard` of the same file. Guard/Ownership holds a manager
--   with all its guards and the handles that were released from guards, and the steps of such a
--   system; Guard/Lifetime is about the states that they reach.
-- - SlotManager/Factory: `Shared_memory_manager_factory_impl` and the read-only manager.
-- - Allocations, MemoryManagers: score/gateway_ipc_binding/impl/shared_memory_managers.hpp. The
--   payloads that are kept alive for consumers, and the managers by key.
-- - Keys: score/gateway_ipc_binding/impl/key.hpp. A number for each pair of service and instance.
-- - ConnectionMetadata: score/gateway_ipc_binding/impl/connection_metadata.hpp. The connections of
--   each client, with an index by key.
-- - ServiceState, ServiceStates: score/gateway_ipc_binding/impl/service_state.hpp. What is offered,
--   requested and subscribed.
-- - Strings/Fixed: score/gateway_ipc_binding/fixed_size_container.hpp.
-- - Wire: the messages of score/gateway_ipc_binding/gateway_ipc_binding.hpp, their paths
--   (impl/gateway_ipc_binding.cpp) and the check of a received frame
--   (impl/gateway_ipc_binding_util.hpp).
-- - Binding: `Gateway_ipc_binding_base` of score/gateway_ipc_binding/impl/binding_base.cpp, with
--   connections.hpp and pending_connects.hpp: its state, made of the parts above, and one function
--   for each handler and each callback. A handler gives the state after it and the list of what it
--   does outside, in order: messages sent on reply channels and calls on connectors. Dispatch is
--   `on_receive_message`. Callbacks runs the callbacks that the runtime makes while the binding makes
--   a client connector.
--
-- - Channel: the server and the client around the binding,
--   score/gateway_ipc_binding/impl/gateway_ipc_binding_server.cpp and gateway_ipc_binding_client.cpp.
--
-- The serializer is the one that the gateway uses when applications hand over messages that are
-- serialized already:
--
-- - Serializer: score/serializer/null_serializer.cpp.
--
-- Base, Map and Strings hold what the parts share: lists, results and Boolean tests on native
-- numbers, tables as association lists with the laws of lookup, and strings as lists of bytes. An
-- `unordered_map` is a `Map`; no theorem depends on the order of its entries.
--
-- Machine integers: reference counts wrap at 2^32; handles, keys, sizes, offsets and addresses of
-- slots, and numbers of consumers at 2^64. Theorems that need no wrap-around have the bound among their hypotheses. The loops are
-- structural but for the rounds in which a new bridge is asked: they take fuel, as many rounds as
-- targets can be requested, and one more.
--
-- Parameters: the shared memory library is a `MemoryFactory`, the sizes and alignment of message
-- frames a `Layout`, `std::to_string` a function; whether a channel accepts a message is a Boolean
-- function of the channel, and the connectors that the runtime makes are numbers. What a bridge
-- returns for a request is a function, and what other threads do to the requests while the callbacks
-- of a bridge run is another. The messages of vsomeip, the samples of proxies and the events of
-- skeletons are arguments; what is handed to these libraries is a result.
--
-- A failed assertion is `none` in the result of a handler. The handlers hold one mutex and run to
-- their end, so that they are functions of the state; the server connector, which the code makes
-- outside the mutex, is split into two functions. Connectors and payloads that the code destroys
-- are part of the outputs or go with the state that held them.
--
-- A text of a string registry, an endpoint, a bridge and a connector are numbers. Calls of callbacks
-- are listed in their order. The connectors run one function after the other; the waiting of a
-- destructor for callbacks that run, and calls from within a callback, are left out.
--
-- Not modelled: hashing, logging, the threads of the client and the server around the binding and what
-- they send, messages of method calls, which the binding does not handle, the replies and the
-- credentials of method calls, the deadlock detection, the string registry, the reading of
-- configuration files, and the start of the daemons with the search for services.
pub mod Base
pub mod Map
pub mod Strings
pub mod Wire
pub mod Runtime
pub mod Channel
pub mod Connector
pub mod Someip
pub mod Allocations
pub mod Keys
pub mod ConnectionMetadata
pub mod ServiceState
pub mod ServiceStates
pub mod MemoryManagers
pub mod Binding
pub mod SlotManager
pub mod Serializer
