-- ===== src/Lib.antt =====
-- A model of `@okikio/opfs`, a portable filesystem: virtual paths, errors that keep their identity
-- across realms, in-realm locks, retries, the record, object and file adapters with several drivers,
-- and the facade that coordinates one adapter.
--
-- The parts and their files:
-- * Path (src/path.ts, `PathSchema` of src/schema.ts): `normalizePath`, `splitPath`, `joinPath`,
--   `dirname`, `basename`, `isAncestorPath`, `validateName`. A text is the list of its UTF-16 units.
-- * Failure (src/error.ts): package errors, foreign thrown values and `toFileSystemError`.
-- * Lock (src/lock.ts): `LocalLockStateType` and the functions on it, for one lock name. A history is
--   a list of calls: acquisitions, releases and cancellations, in any order.
-- * Bytes (`applyWrite` of src/adapter/record.ts, `getWriteSize` of src/filesystem.ts).
-- * Adapter, Support (src/adapter/definition.ts, src/driver/file.ts, src/capability.ts): the contract
--   between the facade and an adapter over any storage state, and the route table.
-- * Record (src/adapter/record.ts, src/driver/record.ts, src/driver/memory.ts): the record adapter
--   over any driver. Record.Store is the contract of a driver that keeps whole records, without a
--   `stat`, `readFile` or `writeFile` of its own and with calls that may fail, and
--   Record.Memory shows that the in-memory driver keeps it.
-- * Object (src/adapter/object.ts, src/driver/object.ts): the object adapter over any driver of
--   objects under keys. Object.Operations has the methods on entries, Object.Listed and Object.Pages
--   the paged listing and Object.Keys the keys of a prefix.
-- * Driver (src/driver/record.ts, src/driver/object.ts, src/adapter/file.ts): how a driver is
--   wrapped when it is read-only, and the file adapter, which passes calls on.
-- * LocalStorage (src/driver/localstorage.ts): records under encoded keys in a storage area;
--   LocalStorage.Refinement compares it with a map from paths to records.
-- * Request (src/request.ts): one request to a service, tried again by a policy, with its counters.
--   Beside the source's locals it keeps how many fetches returned a response.
-- * FileSystem (src/filesystem.ts, `collectBytes` of src/stream.ts): the operations of the facade over
--   any adapter. FileSystem.Operations has the methods on entries, FileSystem.Contents those on bytes,
--   FileSystem.Removal, Copying and Iteration those on trees and listings, each an action on the
--   storage and on a list of events: locks taken and released, bytes buffered, metrics recorded.
--   FileSystem.Calls gathers them as requests of a client, with the openers of long-lived files and
--   `close`; the file that an opener returns is the client's, as is the lock that it owns.
-- * Metrics (src/metrics.ts): the counters of operations and the bytes in buffers; FileSystem.Measured
--   gives it the events of the facade.
-- * Managed (src/writable.ts, src/sync.ts): the long-lived files that own a lock.
-- * Plan (src/plan.ts): preflight plans over what a driver answers. The verdict does not depend on
--   the driver's own `supported`, only on its problems: Plan/Tests has a driver that is overruled.
-- * Chunk (src/chunk.ts): the splitter of streams into parts of a fixed size.
-- * Prelude, Exec and Preserves: lists, texts, tests, the monad of a state with failures, and rules
--   for what an action leaves unchanged.
--
-- Methods are functions of a state to a result and the state after it, so that what was changed
-- before a failure stays changed. An operation of the facade is run alone: what keeps two mutations
-- apart is the lock. Children that the source starts together run to completion one after the other
-- in the order they are started. Loops are recursions on lists where the source runs over one.
-- `writeAll` and the splitter's inner loop have a round of fuel for each byte, which is enough since
-- every round makes progress or throws. The recursion of removals, copies and walks into a tree has the
-- depth of the tree as fuel, and a walk with a maximal depth needs no more than that. A listing of
-- objects has a round for each page that the service may answer.
-- Numbers are natural numbers, so the range checks on offsets hold by type. Base64, the encoding of
-- texts as URIs, JSON, the retry library, the collecting of streams, and the stores of objects and
-- strings are parameters with their documented laws.
-- Not modelled: network clients, drivers of platforms, databases and caches, bridges, handles,
-- generated code, and the messages of errors.
pub mod Prelude
pub mod Failure
pub mod Path
pub mod Lock
pub mod Bytes
pub mod Exec
pub mod Preserves
pub mod Adapter
pub mod Record
pub mod Support
pub mod Managed
pub mod Metrics
pub mod Plan
pub mod Chunk
pub mod Request
pub mod Object
pub mod Driver
pub mod LocalStorage
pub mod FileSystem
