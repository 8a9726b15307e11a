-- ===== src/Lib.antt =====
-- A Karpenter provider for Clever Cloud: karpenter-core asks it for machines, it asks the Clever Cloud
-- node-group operator for a NodeGroup each, and controllers follow the groups until they are gone.
--
-- The parts and the files that model them:
--   - Api: pkg/apis. NodeGroup is the object of nodegroup/v1/types.go and the readings of its status;
--     Labels is v1alpha1/labels.go (`ValidateNodeClassLabel`, `IsLegacyNodeClassLabel`); NodeClass is
--     v1alpha1/clevernodeclass.go (`Hash`, `HashMatches` and the frozen generations); NodeClaim holds
--     the fields of karpenter-core's type that are read.
--   - Flavor: pkg/providers/instancetype/instancetype.go. Sizing, Price and Names are the table of sizes,
--     `RelativePrice` and the pattern of names; Overrides is `ParseFlavorOverrides` and `ApplyOverrides`;
--     Reports is what nodes report and its tests; TypeProvider is the state of `Provider`,
--     with Reporting for `RecordObservedCapacity` and Types for the instance types that it builds. Numbers is the interface of float64 and of resource.Quantity.
--   - Provider: pkg/providers/nodegroup/nodegroup.go. Identity reads provider IDs, node names and owner
--     references; Backoff is the state under `mu`, with Marks for the sequence numbers; Admission,
--     Payload, Acceptance and Create make up `ResolveAndCreate`; Delete holds `Delete` and
--     `RecordLateRefusal`; Effects names what the provider does to the world.
--   - Controllers: pkg/controllers. GarbageCollection, NodeGroupStatus and ProviderId are the three
--     controllers of these names; NodeClass is the nodeclass controller, of which HashMigration is
--     `migrateHashVersion` and Finalization is `finalize` and `validate`; EphemeralStorage and InstanceTypeCapacity write the state of
--     the instance type provider.
--   - CloudProvider: pkg/cloudprovider, the methods that karpenter-core calls. Selection is the catalogue
--     that its scheduler sees and `resolveInstanceType`; Claims is `Get`, `List`, `Delete`, `IsDrifted` and
--     `buildNodeClaim`; Launching is `Create`; Snapshot is storage_snapshot.go; Outcome holds the errors.
--   - Base: what they share. Text is a list of bytes, a Go map an association list.
--   - Tests: concrete inputs.
--
-- How they interact: Create, Delete, GarbageCollection and NodeGroupStatus all change the one Backoff
-- state. A launch and a DELETE, which give `mu` up between their steps, take the calls that other
-- goroutines make on it meanwhile as lists of `Call`s, and a sweep does so for each of its DELETEs:
-- the theorems hold under every such interleaving. What the API server answers and the instants that
-- the clock gives are records of answers, one for each operation, `World`.
-- CloudProvider.Launching composes the resolver of a launch, which reads the catalogue of the instance
-- type provider under the refusals of Backoff, with `ResolveAndCreate`; the sizes that Backoff compares are
-- those of the same catalogue. The operations of the instance type provider hold its lock throughout, and
-- so its states are those that sequences of them reach.
--
-- Bounds: instants and durations are natural numbers of nanoseconds, sequence numbers wrap at 2 ^ 64 and
-- the theorems on marks assume that fewer are given out. No recursion needs fuel: the acceptance poll
-- goes over the list of its reads, whose end is the end of its window.
--
-- Parameters: the syntax of labels (apimachinery's), the hashing of a spec, float64 and
-- resource.Quantity with the functions on lists of resources, whose laws are named hypotheses, and
-- karpenter-core's matching of requirements and requests. The size of a flavor in bytes is an int64 and
-- wraps; a cpu and a memory are natural numbers, since what is not positive is never served. A ResourceList
-- is the function of its lookups, and a loop over one treats each resource alone.
--
-- Not modelled: texts of events and of errors, log lines and the recorder's deduplication; the reading of
-- files and YAML; the constant methods of the cloudprovider; the set-up of the process, the registration
-- of metrics and generated code.
pub mod Base
pub mod Api
pub mod Flavor
pub mod Provider
pub mod Controllers
pub mod CloudProvider
pub mod Tests
