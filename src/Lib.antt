-- ===== src/Lib.antt =====
-- A verification library of Pidex: the control plane's durable authority, and the parts around it that
-- decide.
--
-- A Host process keeps Sessions, their Runs, timelines, Interactions, command receipts and a log of
-- changes in one SQLite file. Clients send commands to it, each with an identifier and a digest of its
-- text; Pi workers execute the Runs and report events; the launcher starts the Host again after a
-- crash. The authority is what all of them agree on, so it is what this library models.
--
-- Authority.antt and the files below it model the class AuthorityStore of packages/host/src/store.ts
-- over the tables of packages/host/src/authority-schema.ts.
--  * Authority/Schema.antt: the tables, one record per row (Session, Run, Entry, Interaction, Receipt,
--    Change, RetainedReference, …), and the record Authority that holds them. A table is the list of its
--    rows in the order of their insertion.
--  * Authority/States.antt: tests on the enumerations of packages/protocol/src/status.ts.
--  * Authority/Result.antt: a transaction commits or throws; Authority/Insert.antt: insertions, with
--    the primary keys, unique keys and references of the schema as their tests.
--  * Authority/Query.antt: what operations share (loadRun, loadSession, readStateFromBasis,
--    sessionHasActiveWork, recordSynchronizationChange).
--  * Authority/Attention.antt: SESSION_ATTENTION_PROJECTION, attentionDetail and
--    attentionFromBasis.
--  * Authority/Command.antt: commands, loadCommandReceipt, insertCommandReceipt, and the frame of a
--    command (`answer`), which submitRun, renameSession, changeSessionAvailability and markSessionRead
--    share.
--  * Authority/Runs.antt: submitRun, dispatchNext, holdQueued, releaseRun, cancelQueuedRun.
--  * Authority/Interactions.antt: createInteraction, reserveInteraction, settleInteraction.
--  * Authority/Control.antt: acceptSteering, markSteering, markRunSteeringUnapplied, acceptStop.
--  * Authority/Settlement.antt: settleRun, executingRuns, reconcileAcceptedRuns,
--    recoverWorkerLoss, resetResidencyOnStartup.
--  * Authority/Sessions.antt: createSession, renameSession, changeSessionAvailability,
--    markSessionRead, setSessionSleeping.
--  * Authority/Timeline.antt: applyTimelineEvent, finalizeAssistant, and the pages of the timeline.
--  * Authority/Synchronization.antt: cursorBasis, changesAfter, rotateSynchronizationEpoch, and the
--    compaction of the log.
--  * Authority/Maintenance.antt: runMaintenance and retainObjectReference, with the moves of blobs of
--    packages/host/src/run-artifacts.ts.
--  * Authority/Fork.antt: forkSession and createProjectFromDirectory.
--  * Authority/Operation.antt: the operations that write, as one data type, and a
--    history of them.
-- The other files of Authority hold proofs: Frame, Lifecycle, RunTable, RunQueue, RunEnd, RunRecovery
-- and RunHistory on the table of the Runs, RunOrder on which Run executes, ReceiptFrame, Replay,
-- ReplayControl and ReplayHistory on the answers to repeated commands, ChangeLog, LogFrame and LogHistory
-- on the order of the log of changes, Following, FollowFrame and FollowHistory on a client that follows
-- it, Compaction on what is left of it. RunSettlement is on the end
-- of a Run, ForkCopy and ForkHistory on what a fork copies, ForkResult on what that leaves, ForkFrame on what forks and new
-- projects keep, StopEffect on what a stop leaves behind, BlobSafety on the blobs on disk. Fixture is a small
-- authority on which Tests, LogTests, RunTests, StorageTests and ForkTests run the operations.
--
-- Generation.antt and the files below it model where the authority comes from at startup: sealed
-- generations, each a directory with an envelope that names its predecessor. Generation/Envelope.antt and
-- Scan.antt hold the state and the scan of the class AuthorityGenerationStore of
-- packages/host/src/authority-generations.ts (resolve, with its fallback to the predecessor of a generation
-- that lost an object), Transition.antt `activate`, Retention.antt the markers, the warnings and `cleanup`.
-- Generation/Canonical.antt holds the selection of the class of the same name in
-- packages/host/src/authority-generation.ts, Legacy.antt its operations: opening, the migration of the legacy
-- database, the cleanup generation, and the proof and deletion of the legacy files. The walk along the
-- lineage has no bound in the source and runs on fuel. Found.antt, Resolution.antt and Activation.antt are on
-- the scan, Removal.antt, Cleaned.antt and Cleanup.antt on what is kept, Walk.antt and Lineage.antt on the selection, Deletion.antt and
-- Migration.antt on the legacy authority; GenerationTests.antt and CanonicalTests.antt run them. Names and
-- identities are numbers, a directory or a file that the code reads is a record, and what random
-- identifiers, backups and publications give is an argument.
--
-- Durability.antt and the files below it model packages/durability/src/index.ts, by which these files are
-- published: Durability/Candidate.antt what lies at a path, with areEquivalent, Publication.antt `publish` as a
-- run of its steps. Equivalence.antt, Atomicity.antt and Completion.antt hold theorems,
-- PublicationTests.antt runs. The link between the two is the type TransitionEnd of
-- Generation/Transition.antt: a publication throws before the tree has its name, throws after it, or
-- returns.
--
-- Modules.antt and the files below it model the feature modules and the dispatch of commands to them, the
-- class ModuleKernel of packages/host/src/module-kernel.ts: Modules/Kernel.antt holds `dispatch`, which goes up
-- to the await of a handler, and `finish` and `fail`, which stand behind it; Modules/Concurrency.antt the
-- interleavings of dispatches, as a step relation; Modules/Registry.antt holds `register` and `ready`,
-- Modules/Ownership.antt what they admit; Modules/KernelTests.antt and RegistryTests.antt run them. A name is a
-- list of code units, and a cursor the number behind `module:`.
--
-- Launcher.antt and the files below it model superviseStartup of packages/launcher/src/supervisor.ts:
-- Launcher/Supervisor.antt holds the loop, which is given how each attempt goes and keeps its effects in
-- order; Launcher/Startup.antt the theorem, and Launcher/StartupTests.antt a run.
--
-- Launcher/HostLifecycle.antt models coordinatePlannedLifecycle of packages/launcher/src/host-lifecycle.ts,
-- Launcher/WindowsShutdown.antt coordinateWindowsShutdown of the same file, and Launcher/Activation.antt
-- activateSignedRelease of packages/launcher/src/release-update.ts. A program
-- (Launcher/Program.antt) is the effects of its hooks in order and its end; what a hook does, what a poll
-- finds and what the clock shows is given. Their loops run on the timeout in milliseconds plus one,
-- since a round sleeps for a millisecond at least. Launcher/Orderly.antt and OrderlyRun.antt are on the
-- order of the effects, Resumption.antt on the acceptance of mutations, Waiting.antt and Quiescence.antt
-- on the end of the waits, Atomicity.antt and Recovery.antt on what an activation leaves; LifecycleTests.antt and
-- ActivationTests.antt run them.
--
-- Worker.antt and the files below it model packages/worker-protocol/src/index.ts, the protocol between the
-- Host and the worker of a Session: Worker/Frame.antt and FrameSchema.antt workerFrameSchema with the
-- images of packages/protocol/src/input-image.ts, Worker/Protocol.antt the class SessionWorkerProtocol,
-- Worker/Transport.antt the class SessionWorkerTransport, Worker/Lifecycle.antt the class
-- SessionGenerationLifecycle. UTF-8, JSON and the reading of objects by zod are the parameter `Codec`;
-- what a theorem asks of it stands among its hypotheses. The listener of the frames returns normally and
-- does not close the transport. The loop over the buffer runs on the length of the buffer plus one, since
-- a frame has a header of four bytes. Framing.antt, Rounds.antt, Chunks.antt and Delivery.antt are on the
-- bytes of a stream, Conversation.antt, Admittance.antt and Sequence.antt on what is delivered,
-- Queue.antt on the queue to the other side, LifecycleHistory.antt and LifecycleFinal.antt on any calls; WorkerTests.antt runs them.
--
-- Client.antt and the files below it model what a client keeps, apps/client/src/client-store.ts:
-- Client/Discovery.antt the catalogs of Sessions with their attention and read state, and cursorPrecedes
-- of packages/protocol/src/cursor.ts, Client/Timeline.antt the timeline of the selected Session.
-- Client/Attention.antt, Catalog.antt and Projection.antt hold theorems, Client/ClientTests.antt runs.
--
-- Admission.antt and the files below it model who gets storage and memory: Admission/Storage.antt the
-- class StorageProtection of packages/host/src/storage-protection.ts, Admission/Capacity.antt the class
-- HostCapacityAdmission of packages/host/src/capacity-admission.ts. A measurement is an argument, and one
-- that is not finite is absent. Admission/Bounds.antt holds the theorem, Admission/AdmissionTests.antt
-- runs.
--
-- Prelude.antt and the files below it hold operators, lists, the queries on tables (`select`,
-- `update_where`, `find?`, `order_by`) and their lemmas.
--
-- How the source is represented:
--  * identifiers, digests, epochs and clock readings are numbers, and text is a list of code units.
--    Numbers are unbounded, where the source's are exact below 2^53.
--  * random identifiers and the clock are arguments of the operation that reads them.
--  * SHA-256 over JSON is the parameter `Hashes`; what a theorem asks of it stands among its
--    hypotheses.
--  * the refusal of the storage adapter before a commit is a Boolean argument.
--  * a synchronization cursor is kept decoded, as the epoch and the sequence.
--  * a stored outcome is kept as a value: the JSON that SQLite holds is not modelled.
-- Loops are structural recursion on the list of the rows, so no function runs out of fuel, but for
-- the loops named above and `decimal` in Authority/Attention.antt, whose fuel is the number plus one.
--
-- Not modelled: initializeGeneration and the catalog that the constructor writes; the projections of projects and workspaces; the server, its sockets and the
-- workers (packages/host/src/host.ts, run-host.ts, pi-worker.ts), which do input and output around the
-- store; the staging of releases and the installation, backups, the restore of a whole Host and release gates; the rest of the client's store, and its views.
pub mod Prelude
pub mod Authority
pub mod Generation
pub mod Durability
pub mod Modules
pub mod Launcher
pub mod Admission
pub mod Worker
pub mod Client
