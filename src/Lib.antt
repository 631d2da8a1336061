-- ===== src/Lib.antt =====
-- The DNP3 stack in C++ (cpp/libs/src/opendnp3): the data link layer, the transport function, the router of
-- a channel, the headers and the parser of the application layer, the requests and the event buffer of the
-- outstation, and the lock and the scheduler of the master.
--
-- The channel's bytes are parsed into frames (LinkLayerParser), each frame goes to the link layer
-- (LinkLayer, LinkContext and the states of the primary and the secondary station), which passes user
-- data to the transport function (TransportLayer, TransportRx), which joins segments into a fragment for
-- the application. In the other direction a fragment is cut into segments (TransportTx), which the link
-- layer reads through the interface ITransportSegment, formats into frames (LinkFrame) and gives to the
-- router one at a time.
--
-- A fragment's objects are parsed twice (APDUParser): a first pass checks them and asks a white list, and a
-- second one gives their headers to a handler. The handler of a read selects events of the outstation's
-- event buffer, which holds what the measurements reported until a response with them is confirmed. On the
-- other side the master's scheduler chooses the next task, once the lock of the channel is the master's.
--
-- Prelude: shared names, Boolean tests, lists, exclusive or.
-- Openpal: SequenceNum (cpp/libs/include/openpal/util/SequenceNum.h) and 16-bit words
--   (cpp/libs/include/openpal/serialization/SerializationTemplatesLE.h).
-- App (cpp/libs/src/opendnp3/app): ClassField is ClassField.cpp with EventType.h, Range is Range.h, Objects
--   has the known objects and the tables of the parsers with the sizes of the objects, and Parser is
--   parsing/APDUParser.cpp with the parsers of counts, ranges and free formats; Parser/Twin compares the
--   passes over one header, Parser/TwoPass those over a message, and Parser/Contents has the bytes
--   that the objects are read from. FunctionCode is gen/FunctionCode.cpp, IinField is IINField.cpp, and FragmentHeader is
--   AppControlField.cpp, APDUHeader.h, APDUWrapper.cpp and parsing/APDUHeaderParser.cpp.
-- Outstation (cpp/libs/src/opendnp3/outstation): EventCount is EventCount.cpp, SoeRecord is SOERecord.cpp,
--   EventBufferConfig is EventBufferConfig.cpp, and EventBuffer is EventBuffer.cpp, with SelectMaxCount in
--   EventBuffer/Request; EventBuffer/Facts counts records, Invariant says what the counters hold, and
--   Removal, Update, Marking, Selection, Clearing, Unselection and Reports are about the operations.
--   ControlState is ControlState.h, RequestHistory is RequestHistory.cpp with OnReceiveSolRequest of
--   OutstationContext.cpp, and DeferredRequest is DeferredRequest.cpp.
-- Master (cpp/libs/src/opendnp3/master): TaskLock is MultidropTaskLock.cpp, with TaskLock/Turns, and
--   Scheduler is TaskComparison.cpp, MasterScheduler.cpp and the state of a task in IMasterTask.cpp, with
--   Scheduler/Compare and Scheduler/Choice.
-- Transport: Header is the header byte, Tx is TransportTx.cpp, Rx is TransportRx.cpp and Layer is
--   TransportLayer.cpp; Progress and RoundTrip follow a fragment from a transmitter to a receiver, RxSpec
--   has the specification of the receiver, and Sessions has sequences of calls.
-- Link: Crc is CRC.cpp, with its table, its laws and the errors that it finds in Crc/; Function is
--   LinkLayerConstants.h and LinkFunction.cpp, Header is LinkHeader.cpp, with HeaderLaws; Frame is
--   LinkFrame.cpp, with Blocks and InPlace; Buffer is ShiftableBuffer.cpp; Validation and Parser are
--   LinkLayerParser.cpp, with Parser/Invariant, Parser/Total and Parser/RoundTrip and its Steps; Context is
--   LinkContext.cpp, PriStates and SecStates are PriLinkLayerStates.cpp and SecLinkLayerStates.cpp, and
--   Layer is LinkLayer.cpp and the handlers of LinkContext.cpp, with Layer/Safety, Layer/Progress and
--   Layer/Delivery.
-- Channel (cpp/libs/src/asiodnp3): Router is LinkLayerRouter.cpp; Router/Distinct is about its records,
--   Router/Events has sequences of its calls, and Queue, Calls and Order are about them.
--
-- An operation takes the object's state and returns the new one. A call of a neighbour is an action in a
-- list of the result, or of the context's `output`; what the neighbour calls back is a later call. Words
-- keep their wrap-around. Memory is a list of bytes; a slice that stays valid is the bytes that it leads
-- to. A read through the null segment pointer is recorded in the context's `null_access`. A timer is a
-- flag: starting it sets the flag, and an expiry is an event that clears it.
--
-- The linked list of events is a list with a capacity, and a use of the node that a full list does not give
-- is the answer none. An array indexed by an enumeration is a function. A callback of the lock and a
-- context of the router are numbers. The times of a select are milliseconds that do not overflow.
-- The reading of an object of the free format and a white list are parameters.
--
-- The pass over the headers of a message takes the number of bytes as fuel, and each header consumes at
-- least three. Loops over blocks take the number of bytes as fuel, and each round consumes at least one.
-- The parser of frames takes 1200 steps for a read and 293 frames: its buffer has 292 bytes, and a step
-- either consumes a byte or moves on among four states.
--
-- Not modelled: logging, the counters of bytes of the channel, the other widths of the serializers,
-- the reading and the writing of objects, the writer of events, the response states of the outstation
-- and its database, the context and the tasks of the master, the monitor of the physical layer, secure
-- authentication, sockets and threads, the generated code but for LinkFunction, FunctionCode,
-- GroupVariation and QualifierCode, bindings and tests.
pub mod Prelude
pub mod Openpal
pub mod App
pub mod Outstation
pub mod Master
pub mod Transport
pub mod Link
pub mod Channel
