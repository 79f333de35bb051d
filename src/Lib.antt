-- ===== src/Lib.antt =====
-- MindooDB keeps end-to-end encrypted documents as entries of append-only, content-addressed stores
-- that peers synchronise. This library models the part of it that needs no cryptography: the store,
-- the formats in which entries travel, and the decisions taken on their metadata.
--
-- The parts, with the files that model them:
-- - src/core/appendonlystores/InMemoryContentAddressedStore.ts. Store.antt has the state, a record
--   with the fields of the class, and the operations that change it, each a function from a state to
--   a state: put_entries, apply_witness_receipts, purge_doc_history, clear_all_local_data. Maps are
--   association lists in insertion order and sets are lists, by the operations of Base/Map.antt and
--   Base/Lists.antt. Store/Queries.antt has the reads, and Store/Feed.antt the cached sorted entries,
--   the binary search and scan_entries_since, which returns the store as well, since it fills the
--   cache. Store/WellFormed.antt states when a state is well-formed: ids are distinct and agree with
--   their entries, receipt orders are distinct and below the next one, the document index lists
--   exactly the ids of each document, every reference count counts, and exactly the payloads that are
--   referenced are there. Store/Run.antt runs sequences of calls. Store/Resolve.antt has
--   resolveDependencies.
-- - src/core/BaseMindooDB.ts: Store/ScanAll.antt, the loop by which the database reads its store page
--   after page.
-- - src/core/appendonlystores/scanUtils.ts: Scan.antt. The store's document-scoped scan calls it.
-- - src/core/types.ts and src/core/appendonlystores/types.ts: Entry.antt, the data of entries and
--   scans.
-- - src/core/appendonlystores/network/binaryEntryFraming.ts: Framing.antt, the frames as lists of
--   bytes, with the offsets and errors of the decoder.
-- - src/core/appendonlystores/network/entryWireCodec.ts: WireCodec.antt, field by field.
-- - src/core/appendonlystores/AttachmentReadPlanner.ts: AttachmentPlan.antt, over the metadata lookup
--   of whatever store there is.
-- - src/core/appendonlystores/MaterializationPlanner.ts: the reachability of the latest state and the
--   coverage of a snapshot: Planner.antt, where Planner/Walk.antt has what the two graph walks share;
--   the order of replay, by Kahn's algorithm: Planner/Topological.antt; the choice of a snapshot and
--   the plan of a document: Planner/Plan.antt; and the plans of many documents: Planner/Batch.antt.
-- - src/core/storeEntryTime.ts: EntryTime.antt.
-- - src/core/accesscontrol/evaluate.ts and the policies of src/core/accesscontrol/types.ts:
--   Access.antt, Access/Values.antt for the tests of a single clause, and Access/Evaluate.antt for the
--   decision.
-- - src/core/accesscontrol/materializationGuard.ts: Guard.antt.
-- - src/core/accesscontrol/DirectoryStateNode.ts: Directory.antt, the chain of nodes with its lookups;
--   Directory/Contributions.antt, the unions over the documents of a user or a group; and
--   Directory/Builder.antt, the builder, whose calls are written as the deltas of its log.
-- - src/core/accesscontrol/grantKeys.ts: GrantKeys.antt has the readers and GrantKeys/Write.antt the
--   writers of the key fields, on documents as values of JsValue.antt.
-- - src/core/accesscontrol/directoryProjection.ts: Directory/Projection.antt, which reads a document's
--   fields, by GrantKeys.antt for grants, and makes a call of the builder.
-- - The component encoding of src/core/accesscontrol/types.ts: AclId.antt.
-- - src/core/accesscontrol/quarantine.ts: Quarantine.antt.
-- - src/core/appendonlystores/bloom.ts: Bloom.antt.
-- - src/appendonlystores/network/RequestScheduler.ts: RequestScheduler.antt. What an asynchronous call
--   does between two suspensions is a step of a relation on the gate and the phases of the requests;
--   a timer that has run out is the guard of a step.
-- Base.antt and its children hold what the parts share; Tests.antt and its children hold sample data
-- and apply the theorems to them.
--
-- Strings are lists of UTF-16 code units, compared as JavaScript compares them; bytes, times,
-- sizes and receipt orders are natural numbers. Except in the scheduler, asynchronous methods run
-- to their end, one after the other, and logging is left out. What the platform provides is a
-- parameter: JSON and UTF-8, base64, localeCompare, logarithms, the text codecs, fresh epochs, the
-- clock, and the JavaScript values that rules look at (Access/Values.antt). Where a theorem needs
-- a property of a parameter, it is a hypothesis with a name.
--
-- Loops whose end is not plain from their shape run on fuel, and running out is a value of its own.
-- The binary search has one unit more than there are entries, each round shortens its interval, and
-- the sum of two indexes stays below 2^32 for fewer than 2^31 entries, so that the unsigned shift of
-- the source is a halving. The decoder has one unit for each byte, and each round reads eight bytes
-- at least. The attachment planner has one unit for each byte and one more, and each chunk has a byte
-- at least. The walks of the materialization planner have one unit for each root and each dependency
-- and one more, since the dependencies of an entry are pushed once, and so has the walk of
-- resolveDependencies, whose only root is the start. Kahn's algorithm has one unit for each id and
-- one more, since no id is taken twice. The loop over pages has one unit for each entry and one
-- more, since a page that is not the last has an entry.
--
-- Not modelled: documents and their content, which Automerge merges, cryptography, the network and
-- file-system backends, indexes and views, and of a policy document the fields that no modelled
-- decision reads.
pub mod Base
pub mod Entry
pub mod Scan
pub mod Store
pub mod Framing
pub mod EntryTime
pub mod WireCodec
pub mod AttachmentPlan
pub mod Access
pub mod Guard
pub mod Planner
pub mod JsValue
pub mod AclId
pub mod GrantKeys
pub mod Directory
pub mod Quarantine
pub mod Bloom
pub mod RequestScheduler
pub mod Tests
