-- ===== src/Lib.antt =====
-- nawst: a replicated key-value store. A server keeps its data in memory (core/store.go), writes
-- each command to a log (core/wal.go), and serves requests in one event loop (core/loop.go).
-- Handlers (core/rpc.go) give each write a version and pass it to the replicas; a ring of 1024
-- vnodes (cluster/placement.go) says which node serves a key, and a client finds this node through
-- cluster/router.go.
--
-- Base: numbers, Boolean tests, lists, strings as lists of bytes, Go maps as association lists, and
-- integers. A Go map is ranged over in the order of its list.
-- Command: `Command` and `OpType` of core/loop.go, the errors of core/errors.go.
-- Store: core/store.go. `apply` is `Store.Apply`, `get_with_version` is `GetWithVersion`,
-- `snapshot_vnode` and `delete_vnode_data` are `SnapshotVNode` and `DeleteVNodeData`. The mutex makes
-- each operation one step. Store/Indexes has the two vnode indexes with their counters,
-- Store/Register the abstract view of one register for each key, and the other children the proofs.
-- Wal: core/wal.go. Wal/Codec has the bytes of a record and the reads of `ReplayWal`, Wal/Replay its
-- loop, and Wal/Writer the log while it runs: `append` and `wait` are `Append` and `Wait`, and the
-- writer goroutine is the steps `take_step`, `settle_step` and `close_step`, which stand in any order
-- between the calls of `Append`. A file is its bytes; `Disk` is what `file.Write` and `file.Sync` do.
-- Loop: core/loop.go. The `select` of `EventLoop.Run`, the goroutine for acknowledgements and the
-- writer of the log are the events of `run`, again in any order.
-- Placement: cluster/placement.go, the ring and the lookup of a key; Placement/Assign has
-- `AssignVNodes` as `assign_vnodes`, Placement/Replicas `AssignReplicas` as `assign_replicas`, and
-- Placement/Counts `GetTargetVNodeCount` as `get_target_vnode_count`.
-- Metrics: `HandleMetricsMessage` of cluster/replication.go as `handle_metrics_message`, with the health
-- of a node; Metrics/Scores has `CalculateScores` of cluster/score.go as `calculate_scores`.
-- Update: `UpdatePlacement` of cluster/replication.go as `update_placement`, which calls the functions
-- of Metrics and Placement; `decide` is the hysteresis. Update/ShortTerm has the whole of
-- `UpdatePlacementShortTerm` as `update_short_term`.
-- Router: cluster/router.go, `routeForKey` and `rpcWithPlacement`.
-- State: cluster/state.go, `SnapshotClusterState` as `snapshot_cluster_state`; State/Agreement puts it
-- next to the router.
-- Rpc: core/rpc.go, `NextVersion`, `Put`, `Get` and `Delete`, with the replicator as an interface; its
-- child Rpc/Replication has `Replicate`, `applyReplicationBatch` and `ReplicateStream`, and Rpc/StreamKv
-- `StreamKV` with its goroutine, next to the event loop and the client, as steps in any order.
-- Replication: cluster/replication.go, `ReplicateToAll` as `replicate_to_all`, with `CheckOwnership` and
-- `GetVNodeForKey`. What arrives on `resultCh` is a list of arrivals, in any order.
-- Transfer: `TransferVNode` of core/rpc.go as `transfer_vnode`, and `transferVNodeFrom` of
-- cluster/replication.go as `transfer_vnode_from`; the applier is a function on the state it changes.
-- Migration: `ApplyPlacementFromRaft` of cluster/replication.go, `changes_of` for what a placement
-- changes and `migrate_gained` for the vnodes it brings, and the dropper of cmd/server/main.go as
-- `drop_fn`.
-- Membership: the metadata of a node, `NodeMeta` of cluster/membership.go as `node_meta`, and
-- `parseMeta` and `parseMetaWithRaft` of cluster/replication.go. Membership/Control has the channel of
-- events, `membershipLoop` and `reconcileLoop` of cluster/membership.go, as steps in any order.
-- Reconcile: `ReconcileRaftWithMembership` of cluster/replication.go, with the configuration of the
-- raft group and the metadata of the members as given, and one reading of the clock for a round;
-- Reconcile/Single runs it as the attempts of Membership/Control.
-- Clients: the connections of cluster/replication.go to other nodes, `getOrCreateClientByAddr` and what
-- else changes them as steps, and `getOrCreateClientByNodeID` as `resolve_addr`.
-- Swaps: the health of the nodes and the swaps of `UpdatePlacementShortTerm`.
-- Worker: cluster/replication_batch.go. `serve` is one round of `run`, and `act_all` puts the rounds
-- between the calls of `submit` and `stop` in any order; Worker/Cases has one lemma for each closure of
-- `run`, and the other children are proofs.
-- Raft: cluster/raft.go, the state machine of the placement, with encoding/json as a parameter.
-- Tests: runs on concrete inputs, and each theorem with hypotheses at such an input.
--
-- Bounds: versions and ids are uint64 and wrap at 2 ^ 64, and the theorems on runs ask for fewer
-- than 2 ^ 64 commands. `replay_wal` has the length of the file as its fuel, and each round reads a
-- byte at least. `put_uvarint` has the ten bytes that a uint64 needs.
--
-- Parameters: the order of a sort, the comparison of scores, float arithmetic (Base/Floats), the file
-- system, the hash of a key (xxhash), `strings.TrimSpace`, JSON, the clock, and whether a node can be
-- dialled and what it answers, the streams, the gossip and raft libraries, and `UpdatePlacement` inside
-- `ReplicateToAll`.
--
-- Scope: the runs of Loop have no event for the dropper of cmd/server/main.go, whose `DeleteVNodeData`
-- is not logged, so what is said of a run holds where no migration drops a vnode in it. `drop_fn` is one
-- step, with no request between its deletes. The clients of cluster/router.go, which it keeps by node,
-- and its way back to the bootstrap addresses are left to the parameters that dial and call a target.
-- In Clients the maps `peers` and `conns`, which are always written together, are one.
--
-- Not modelled: the capacities of the channels but for that of membership events, the panic of `make` on
-- a length in a corrupt log that exceeds the memory, the errors of opening and closing files and
-- connections, cancelled contexts but for `Get` and `StreamKV`, metrics and logs. In cluster/raft.go and
-- cluster/membership.go the set-up of the libraries; in cluster/replication.go the timers and messages
-- of `StartMetricsReporter` and `SetMetrics`, which nothing calls; the table of workers in
-- cluster/replication_batch.go; metrics.go but for the message, and transport.go. Generated code
-- (core/proto), observability/ and cmd/ but for the dropper and the literal of the event loop are left
-- out: they hold no logic of the store.
pub mod Base
pub mod Command
pub mod Store
pub mod Wal
pub mod Loop
pub mod Placement
pub mod Router
pub mod Metrics
pub mod Rpc
pub mod Replication
pub mod Transfer
pub mod Migration
pub mod Update
pub mod Swaps
pub mod Clients
pub mod Membership
pub mod Reconcile
pub mod Worker
pub mod Raft
pub mod State
pub mod Tests
