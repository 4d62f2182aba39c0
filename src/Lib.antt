-- ===== src/Lib.antt =====
-- The measurement hub of falcon-instrument-hub (runtime/internal): a Go service that takes
-- measurement and setting commands, plans them into Lua scripts, runs the scripts on an instrument
-- script server, and collects the shared-memory buffers that they return.
--
-- Buffer      runtime/internal/databuffer/buffer_management.go. DataBufferManager with one function
--             for each method; a state is the map of tracked buffers and the library's world.
-- Values      runtime/internal/instrumentserver/client.go. VariableValue, LuaType and the
--             conversions to and from the protobuf oneof.
-- Jobs        runtime/internal/instrumentserver/client.go. buildMeasureJobRequest,
--             waitForMeasureJob, measureJobResultToCallResults and the timeouts.
-- Dispatch    runtime/internal/dispatcher/dispatcher.go. ScriptPath, registerBuffers and
--             RunMeasurement as programs of calls; RunAll as the interleavings of such programs.
-- Ports       runtime/internal/settingrouter/portExists.go, with the ports of config and falconcore.
--             ResolvePort and PortExists over a catalog of connected ports.
-- Routing     runtime/internal/settingrouter/router.go. The router of setting requests over any
--             handlers, which are functions that change a world.
-- Devices     runtime/internal/devicestate. The device-state manager and its global instance.
-- Interpreter runtime/internal/interpreter/router.go. The router of measurement requests; a handler
--             is a program of updates, recorded entries and actions on the world.
-- Samples     runtime/internal/cartesianmeasure/measurement_decoder.go. The samples of one returned
--             value, and convertSamples.
-- Decoding    runtime/internal/cartesianmeasure/measurement_decoder.go. Decode and its helpers over the
--             calls of one measurement.
-- Primitives  runtime/internal/cartesianmeasure/planner.go. buildPrimitiveInput: the input of one
--             primitive measurement.
-- Planning    runtime/internal/cartesianmeasure/planner.go. BuildPlan, and Execute and Shape of plans.
-- Registry    runtime/internal/cartesianmeasure/primitiveMeasurementRegistry.go. The registry of
--             primitive scripts, and Run, the executor of the planner's measurements.
-- Queue       runtime/internal/measurementdb/global.go. The queue of inserts, its worker, Startup and
--             Close, as the events of a schedule.
-- Catalog     runtime/internal/config/connections.go and api.go. One signal of an instrument's API
--             and its port: addPort, addIOPort and the roles.
-- Expansion   runtime/internal/config/connections.go. BuildPortLibrary on what it reads of the
--             instruments.
-- Traits      runtime/internal/config/connections.go. The ports of an instrument's characteristics.
-- Wiring      runtime/internal/config/connections.go. ConnectWireMap, the partition of the connected
--             ports and ResolveConnectedPort.
-- Commands    runtime/internal/handlers/measure, handlers/setting and handlers/settingguard. What one
--             message does, with the busy flag and the write guard.
-- Prelude     shared types and lemmas: tests, lists, results, Go maps, integers, floats.
--
-- How the parts meet: a dispatcher's measurement runs a job of Jobs, whose results are Values, and
-- registers their buffers with the manager of Buffer. Dispatch.Examples runs a measurement over
-- that manager. A message of Commands reaches the router of Interpreter or of Routing through the
-- `route` of its services; the guard that Routing reads is the flag that Commands locks. Routing
-- and Decoding name ports and calls by the types of Ports and Jobs, and Interpreter updates the
-- manager of Devices.
--
-- Go maps are association lists whose order stands for the order in which `range` meets the
-- entries. Floating-point numbers are an abstract type with abstract operations. Integers keep
-- their widths where a conversion depends on them. The C library for buffers, the gRPC daemon, the
-- file system and the clock are parameters; what is assumed of the buffer library (Counting in
-- Buffer.Shared) is the documented effect of each call on the hub's reference counts.
-- waitForMeasureJob runs on fuel: two rounds more than the time left to the deadline are enough,
-- since each round sleeps. buildPlan runs on fuel: one level for each axis of the waveform and one
-- more are enough, since each level holds one more axis.
--
-- Not modelled: the primitive scripts and the storage of cartesianmeasure, the
-- handlers of settings, the manager of measurementdb, the reading and
-- validation of configurations, the handler manager;
-- the panics of fromGrpcVariableValue on a oneof that is not set and of a make that no memory holds;
-- generated protobuf code, logging, process start-up, NATS, the data viewer.
pub mod Prelude
pub mod Buffer
pub mod Values
pub mod Jobs
pub mod Dispatch
pub mod Ports
pub mod Routing
pub mod Devices
pub mod Interpreter
pub mod Samples
pub mod Decoding
pub mod Commands
pub mod Primitives
pub mod Planning
pub mod Queue
pub mod Catalog
pub mod Traits
pub mod Expansion
pub mod Wiring
pub mod Registry
