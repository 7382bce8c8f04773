-- ===== src/Lib.antt =====
-- The scheduler of the proof service: one proof split into segments, proved on a pool of prover
-- nodes, aggregated up a tree and wrapped into a snark.
--
-- The parts and the files that model them:
-- - Platform: what the service stands on. A panic is a value of `Result`; `World` holds the clock,
--   the number of uuids drawn, the files and the S3 objects; `Env` holds the third-party code
--   (uuid, bincode). From common/src/file.rs and proof-service/src/stage/mod.rs.
-- - Tasks: the task types of proof-service/src/stage/tasks, with the messages of
--   proto/src/proto/include/v1/includes.proto that they hold. Tasks/Agg: agg_task.rs.
--   Tasks/Generate: `gen_program`. Tasks/Progress: the macros of stage.rs.
-- - Stage: proof-service/src/stage/stage.rs. The struct `Stage` is a record, and a method that
--   changes it takes it and returns it. Stage/Split, MakeProve, Prove, Agg, Snark and Dispatch hold
--   the methods in the order of a proof's life; a handler `on_…_task` is `on_…_reply` here.
--   Stage/Pairwise and Stage/Aggregate are the two builds of `gen_agg_tasks`, by the cargo features
--   prover and prover_v2. Stage/Segments: the texts that are read and made. Stage/Waiting: why no
--   aggregation starts before its inputs are there.
-- - Nodes: proof-service/src/prover_node.rs and the choice of a node in
--   proof-service/src/prover_client.rs.
-- - Client: the calls of proof-service/src/prover_client.rs. A call is two functions, `begin_…` and
--   `end_…`, before and after the wait for the node's answer. Client/Limit: all calls of a proof at
--   once, as a step relation.
-- - Database: proof-service/src/database.rs; the tables are lists of rows.
-- - Files: common/src/file.rs, local files and S3 objects. Files/Paths: `parse_s3_path`;
--   Files/Dirs and Files/Total: `s3_create_dir_all`.
-- - Config: proof-service/src/config.rs.
-- - Service: proof-service/src/stage/stage_service.rs. `generate_proof` is in Service/Checks (what is
--   refused), Service/Inputs (what is written) and Service/Generate (the whole call, with
--   `GenerateTask::new`); a part of it takes the files to the files and goes on or ends the call.
--   `get_status` is in Service/Status. Service/Holds, Admits, Writes, Prepares and Accepts: what an
--   accepted request has; Service/Overwrites: a second request; Service/Reports and Service/Ends:
--   what a user is told, beside what the worker and the database have done.
-- - Worker: the loop of proof-service/src/stage/stage_worker.rs, as the round that it repeats;
--   Worker/Finish holds its beginning and its end, Worker/Single the branch for a single node (its
--   call is Client/Single). Worker/Queue: `TaskManager`, as a step relation.
-- - Server: the answers of a node, proof-service/src/prover_service.rs; what the prover's pipeline
--   returns is a parameter.
-- - Prover: behind a node. Prover/Pipeline: prover/src/pipeline.rs and prover_v2/src/pipeline.rs,
--   with the provers as parameters; Prover/Busy: the calls of a node of the first kind, as a step
--   relation; Prover/Done: the answers of one of the second. Prover/Executor: a split,
--   prover_v2/src/executor.rs, with a worker's turn and `write_file`; Prover/Executor/Run has the
--   threads, as a step relation, and Prover/Executor/Order what one thread would make. Prover/Root:
--   how prover_v2/src/root_prover.rs reads a segment, and the record that it makes of it.
--   Prover/Machine: what they use of the zkm prover, a parameter.
-- - Stage/Run and Client/Limit: histories, as step relations. Stage/Calm: what no step raises.
-- - Stuck: the snark task through Stage and Client. Examples: data, tests and witnesses.
-- - Base: names of the library, tests into Bool, lists over the native numbers.
--
-- How they interact: `generate_proof` puts a row into the database and a task into the queue of
-- `TaskManager`, which starts a worker for it; `get_status` reads what the worker leaves.
-- `dispatch` moves the stage from step to step and makes its tasks; `get_…_task` hands one out; a
-- call of Client takes it to a node of Nodes; `on_…_reply` takes it back. A node answers by Server,
-- with what Prover makes; a split writes the segments that the stage counts and provers read.
--
-- Bounds and fuel: `chunks`, `rounds` and `layers_above` recurse on the length of their list, which
-- every round makes smaller; `show` on the number, which has fewer digits. A `u64` or `usize` that is
-- read is tested against its bound; counters that are only raised are natural numbers, but for the `u32`
-- counters of a split, which wrap. `read_loop` recurses on its retries; `take` and the channels have
-- the source's bounds. The threads of a split have no fuel. White space in `segments.txt` is that of
-- ASCII.
--
-- Not modelled: the listing of S3 objects, the server behind the database, the provers' own work
-- (prover and prover_v2 call third-party code for it) with their caches and the deferred proofs, the
-- reading of the configuration, metrics, TLS, and the logs.
-- The network, the clock, uuids, signatures, hashes, encodings and the shuffle of the nodes are
-- parameters.
pub mod Base
pub mod Platform
pub mod Files
pub mod Tasks
pub mod Stage
pub mod Nodes
pub mod Client
pub mod Database
pub mod Worker
pub mod Server
pub mod Prover
pub mod Config
pub mod Service
pub mod Stuck
mod Examples
