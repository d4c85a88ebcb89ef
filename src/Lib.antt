-- ===== src/Lib.antt =====
-- A verification library of NimbusMesh-X, which routes requests for inference to pools of accelerators
-- in several clusters and simulates them.
--
-- The parts and how they interact. simulators/engine.py takes the requests that
-- workload_gen/generator.py generates, in the order of their arrival. For each it refreshes the control
-- plane (control_plane/service.py), notes the submission, and lets the control plane execute the
-- request: it builds a candidate for every pool, asks the cache directory (cache_directory/directory.py)
-- for the hits to expect, the topology service (topology_service/graph.py) for affinity and route, and
-- the backend (serving_backends/) for latencies; a policy (policies/) chooses; the local scheduler
-- (cluster_scheduler/local_scheduler.py) places the request in a slot of the pool and tells the cache
-- directory, which persists to Redis (storage/redis_store.py). The collector (nimbusmesh_x/metrics.py)
-- and the Azure simulator (azure_sim/environment.py) keep their own accounts of the results, and the
-- engine writes them to logs, CSV files and a database. nimbusmesh_x/config.py reads the configuration;
-- data_pipeline/ turns datasets into rows that the generator can replay.
--
-- The files, and the code that each models:
--   Base: what the others share (lists, dictionaries in insertion order, sorting, equality of keys,
--     results that may be an exception, integers, decimal texts, words of a text)
--   Float: the interface of binary64 numbers, Float/Laws what is known of them, Float/Fixed an instance
--   Types: nimbusmesh_x/types.py (Tables, Request, Pool, Cluster, Placement; RequestFacts and PoolFacts
--     hold theorems)
--   Json: the values that a JSON, YAML or CSV reader returns, and what the code does with them
--   Config: the records of nimbusmesh_x/config.py (Parsing has every from_dict; theorem in RoundTrip)
--   Gpu: topology/gpu_topology_parser.py (Snapshot; theorems in Costs)
--   Storage: storage/redis_store.py
--   Cache: cache_directory/directory.py (Entry, Lookups, Observe; theorems in Facts, Score, Bounded,
--     Redis, Total)
--   Backends: serving_backends/ (theorems in Bounds)
--   Scheduler: cluster_scheduler/local_scheduler.py (theorems in Placing, Returning)
--   Policies: policies/ (Choice, Kinds; theorems in Optimal, Members, Fair)
--   Topology: topology_service/graph.py (Graph, Search; theorems in Walks, Fuel, Relaxed, Settled,
--     Entered, Shortest, Built, Reached)
--   ControlPlane: control_plane/service.py, cuda_kernels/runtime.py (the branch without a GPU), and what
--     grpc_layer/client.py and scheduler_core/cpp_bridge.py do with an answer (State, Candidates,
--     Routing; theorems in Rejecting, Routed, Answered, Executed, Accounts, Total, Ready,
--     Kept, Made, Refreshed, Served)
--   Metrics: nimbusmesh_x/metrics.py (Statistics, Collector; theorems in Quantiles)
--   Azure: azure_sim/environment.py (Loading reads its document)
--   Engine: simulators/engine.py (theorems in Runs, Written, Served)
--   Reports: what the engine writes, nimbusmesh_x/structured_logs.py and logging_utils.py (Logs),
--     nimbusmesh_x/exporters.py (Exports), storage/postgres_store.py (Database) and to_dict of
--     nimbusmesh_x/types.py (Payloads), over files as lists of lines (Lines); theorems in Appended
--   Pipeline: data_pipeline/ (Rows, Normalizers, Conversations, Registry; theorems in Normalized,
--     Limited and Replayed)
--   Workload: workload_gen/generator.py (Draws, Sampling, Requests, Traces; theorems in Arrivals
--     and Counted)
--   Tests: the theorems at concrete inputs
--
-- How state and operations correspond. An object is a record with the attributes of its class, and a
-- method that changes it is a function that returns the record as the method leaves it; several objects
-- that a method changes are passed on one after the other, in the order of the code. A dictionary is an
-- association list in the order of insertion. A method that may raise returns a Result. Numbers that
-- cannot be negative are natural numbers; floats are elements of a type F with an instance of Float, so
-- nothing depends on exact sums. Facts of floats that a proof uses are fields of IsFloat, each a
-- documented property of correctly rounded arithmetic away from NaN. A division by what may be zero is
-- tested first, as the interpreter does, where the code has no guard of its own.
--
-- Bounds and fuel. The search in Topology/Search runs on fuel, two more than the number of edges;
-- Topology/Fuel shows that it is never used up. Literals in a condition such as 2 ^ 53 are where a float
-- stops to hold every integer.
--
-- Parameters of the model. The digest of a prefix signature, the readers of GPU snapshots and of trace
-- files (Workload/Traces), the random draws (Workload/Draws), the two schedulers outside of the process (ControlPlane/Routing), the hash of
-- a value (Pipeline/Conversations), and how the interpreter reads a number in a text and shows a value
-- that is no text (Formats in Json). Where a document holds a value that a record of the model has no
-- place for, such as a list for a name, the model ends with `unrepresented`, where the code goes on.
--
-- Not modelled: the text of JSON, CSV and YAML files, HTTP, gRPC, SQL and the CUDA kernels; the text of
-- nvidia-smi; the fetchers of data_pipeline/, which download; the text for Prometheus; the latency
-- predictor; benchmarks and scripts; the C++ sources.
pub mod Base
pub mod Float
pub mod Json
pub mod Types
pub mod Config
pub mod Gpu
pub mod Storage
pub mod Cache
pub mod Backends
pub mod Scheduler
pub mod Policies
pub mod Topology
pub mod ControlPlane
pub mod Metrics
pub mod Azure
pub mod Engine
pub mod Workload
pub mod Pipeline
pub mod Reports
pub mod Tests
