-- ===== src/Lib.antt =====
-- PuppetMaster: a runtime that executes components when their triggers fire, and carries messages
-- between them over exchangeable transports.
--
-- The parts. A component declares its endpoints and triggers; the scheduler (src/scheduler) turns
-- trigger events into executions on a pool of workers; data triggers are callbacks of readers, which a
-- transport (src/transport) calls when a message is stored. A service (src/service) carries requests and
-- replies over topics of its own. A recording (src/transport/recording.cpp) is a file of messages, which the
-- tools write and read. The supervisor (src/configuration/supervisor.cpp) runs the nodes of a system as
-- processes.
--
-- Core holds include/puppet_master/core: Core/Status is status.h, Core/Result is result.h, Core/Policy
-- is message_policy.h, Core/Names and Core/Trigger are types.h. Transport/Message is
-- include/puppet_master/transport/message.h and transport.h, Runtime/Component the
-- specification of include/puppet_master/runtime/component.h. A text stands for its bytes, one
-- character each.
--
-- Scheduler is src/scheduler/scheduler.cpp: Scheduler/Spec the checks at registration, Scheduler/State
-- the fields of Scheduler::Impl with QueueEvent, Enqueue and EffectivePriority, Scheduler/Triggers
-- OnDataAvailable and the loop over the dependents of a completed task, Scheduler/Dispatch the two
-- critical sections of DispatchLoop, Scheduler/Graph and Scheduler/Install InstallTaskTriggers,
-- Scheduler/Startup InstallDataTriggers, and Scheduler/Lifecycle RegisterComponent, Start, Stop,
-- Trigger, WaitIdle and Stats. Every critical section under the mutex is a function from the fields to
-- the fields, and Scheduler/System has one step for each, with the events in the workers' hands beside
-- the fields; a component's execution happens between two steps and gives a status. Time is a parameter,
-- in nanoseconds; priorities are integers, since a 32-bit priority and a boost of at most 2 ^ 40 stay
-- within 64 bits. Sorted maps are association lists sorted by their keys, and hash sets are lists.
--
-- Transport/InMemory is src/transport/inmemory/inmemory_transport.cpp: Mailbox is
-- InMemoryReader::Mailbox, Channel is TopicChannel, whose Publish is its critical section and then one push
-- for each reader, Channel/Threads has the steps of all threads of a topic in any order, and Topics is
-- InMemoryTransport::State with CreateReader and CreateWriter, where a heap of channels with owner counts
-- stands for the shared and weak pointers. An operation that waits on a condition variable is an outcome
-- that changes nothing and is run again; callbacks are named by numbers, with a function that says which
-- of them throw.
--
-- Transport/Shm is src/transport/shm/segment.cpp: Layout the sizes and offsets of a segment, with the
-- size of its header as a parameter, and Ring its slots, PublishWith, TryRead and Pending with no writer
-- at work. Seqlock runs one pass of TryRead against writers, word by word: writers take turns by the
-- segment's lock, a load sees the last store, and the fences of the source are what makes that so.
--
-- Transport/Recording is src/transport/recording.cpp and include/puppet_master/transport/recording.h: Bytes
-- holds the numbers and texts of the file, Types its constants and records, Writer RecordingWriter on a
-- buffered stream whose device may become full at any byte, Reader RecordingReader on the bytes of a file,
-- and ReadAll the loop of Info in tools/puppet_master_topic.cpp, which reads a whole recording. Entries and
-- Session
-- say what the calls of a writer leave in a file. How much of what it took the stream has pushed to the
-- device after a write is a parameter, the library's choice; a flush and a close push everything. A crash
-- leaves what was pushed, a file that is cut off anywhere.
--
-- Transport/Portable is include/puppet_master/transport/portable_codec.h, where a shape stands for a type
-- and its list of fields, and a writer or reader that has failed gives its first error.
--
-- Configuration/Manifest is the command of a node in src/configuration/system_manifest.cpp.
-- Configuration/Supervisor is src/configuration/supervisor.cpp: State the fields of Supervisor::Impl,
-- Policy what Start, Ended and Supervise do to them, and Running the loops of Run and StopAll, of which a
-- step makes one test. What a launch, a look at a process and a wait for its exit give, and the time,
-- are arguments. Durations are in milliseconds, points of time in nanoseconds; the count of a node's
-- restarts, 32 bits in the source, does not wrap here.
--
-- Service is src/service/service.cpp and include/puppet_master/service/service.h: Spec the specification,
-- Envelope the header of requests and replies with Encode and Decode, Endpoints EndpointsFor and the
-- reply topics, and Client the fields of Client::Impl, where Presence is PollPresenceLocked and
-- LiveServerLocked, Calls the pending calls, and System the threads in Start, Dispatch and Close, with one
-- step for each critical section and each callback. The heartbeats that a poll reads, what the request
-- writer says of its readers, whether a request could be written, and the time are parts of a step.
-- Server is Server::Impl without its threads: Serve, with deadlines that are taken to fit 64 bits, Reply
-- with the reply writers, EvictIdleWriters and the loop of ServePending, where the handler and the answers
-- of the transport are arguments.
--
-- The loop of InstallTaskTriggers runs on fuel for as many rounds as there are components, which is
-- proved to be enough. TryRead makes as many passes as the source allows, of which the first is
-- enough where its theorem applies. The loop of RecordingReader::Next runs on fuel for one round more than
-- the file has bytes, and ReadAll on fuel that is to exceed the number of entries; both are proved to be
-- enough for what a writer leaves. All other loops are structural recursion.
--
-- Not modelled: the threads and condition variables themselves, logging and metrics, the service and
-- periodic triggers of a starting scheduler as loops (their events enter by Enqueue), the runtime
-- context, the participants and the platform layer of shared memory, the FastDDS transport, the threads
-- of a server and its Close, the checks of a configuration and its loading from JSON, which a third-party
-- library does, the log files of supervised nodes, and the tools but for the loop above.
pub mod Base
pub mod Core
pub mod Transport
pub mod Configuration
pub mod Service
pub mod Runtime
pub mod Scheduler
