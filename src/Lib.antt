-- ===== src/Lib.antt =====
-- Dymaxion's runtime (dymaxion-runtime/src): an agent that plans and executes geographic work, with
-- human approval of consequential steps. Paths below are relative to dymaxion-runtime/src.
--
-- A message becomes a plan (agent/executor.ts). Each step names a workflow, a native capability or a
-- skill; what it does to the outside is approved by a human first (security/approval.ts), consumed
-- once, and dispatched by skills/executor.ts through capabilities/registry.ts, which claims the
-- receipt of that approval. Each call of a language model passes the chain of llm/middleware.ts,
-- which checks and charges a monthly budget. Results may be packed by
-- capabilities/deterministic-zip.ts.
--
-- What leaves for the outside, a URL, a path or a whole payload, is checked by security/boundary.ts
-- first; the ArcGIS capabilities send each request through capabilities/arcgis-rest.ts, which makes
-- that check just before it, and count what they send and receive against a budget.
--
-- Prelude    names of the libraries; texts (lists of UTF-16 code units), results, whole numbers in
--            Prelude/Int, and in Prelude/Stateful the actions that change a state and return or throw
-- Canonical  contracts/canonical.ts: canonicalJson, its key order and quoting
-- Approval   security/approval.ts: Types the records; Interface the store's interface and the
--            contract of its calls on one record; Memory and Postgres the two stores, each with
--            Laws that fill the contract; Trace sequences of store calls; Agreement the two
--            stores side by side; Target deriveApprovalTarget; Receipts the receipts and grants;
--            Requests createApprovalRequest, decideApproval, consumeApproval and awaitDecision;
--            Review security/approval-review.ts; Channel security/internal-approval-auth.ts
-- Boundary   security/boundary.ts: Glob globMatch, Url isPrivateAddress and assertUrlAllowed, Paths
--            assertPathAllowed and what it calls, Payload assertExecutionBoundary; Allowed, Ranges,
--            Contained and Lawful are about them
-- ArcGis     capabilities/arcgis-rest.ts: Json the values of JSON.parse, Session the outside and the
--            state of the requests, Rest requestArcGisJson, Pages parseArcGisPageEnvelope and
--            paginateArcGis, Counted what the capabilities put around a request; Replies, Guard,
--            Accounting and PageLaws are about them
-- Query      capabilities/query-feature-service.ts: Metadata validateLayerMetadata, Ids
--            validateObjectIds, Page validateFeaturePage, Collect executeFeatureServiceQuery;
--            Counting, PageLaws, Kept, Rounds, Ascending, Exact and Report are about them
-- Trace      capabilities/trace-arcgis-dependencies.ts: Types, Parse the references in an item's
--            data, Graph the nodes and edges, Expand what an item's data does to them, Walk the
--            traversal, Impact reachableCount; Items, Bounded, Nodes, Connected, Expanded, Steps,
--            Visit, Sound, Reach, Neighbours and Reachable are about them
-- Llm        llm: Config (routing.ts and the configuration's types), Cost (cost.ts), Budget
--            (budget.ts), Providers (providers.ts), Middleware (middleware.ts); Ledger, Charges
--            and Rounding are about them
-- Skills     Types (contracts/capability.ts), Identity (security/execution-identity.ts), Grants and
--            Dispatch (capabilities/registry.ts), Runner (skills/executor.ts), Steps
--            (agent/step-approval.ts and agent/replay-contract.ts); Gate, Execution, Refusal
--            and Spent are about them
-- Agent      agent/executor.ts: Steps the loop over a plan's steps, Run runAgent, Replay replayRun;
--            Ending, Outcome, ReplayOpen and ReplayLaws are about them
-- Zip        capabilities/deterministic-zip.ts: Bytes the writes into an array, Crc, Names
--            validateEntryName, Headers the three records, Create createDeterministicZip; Layout
--            the archive as a concatenation; Splice, Assembly, Prepare, Locate, Archive, Contents
--            and Paths are about them
--
-- Correspondence. A function keeps its name in this language's spelling. A store, a table or a set
-- of objects is a value that a function takes and returns; an object made by a module is its place
-- in a list; a clock's reading, a random identifier and a digest are arguments. An exception is
-- `err`. Money is a whole number of ten-thousandths of a dollar in the ledger and of
-- hundred-millionths in a cost, so that a rounding is exact. Bytes and code units are natural
-- numbers, and the 32-bit writes keep their wrap-around.
--
-- Fuel. The models of awaitDecision, which polls for ever, and of the chunking of a review take a
-- number of rounds, and the theorems on them give a number that is enough. The visit of a payload
-- and the pages of paginateArcGis count down to the source's own ceilings. The loop of a query has
-- a round for each request that is left and one more, and that of a trace one for each depth up to
-- the ceiling and one more; reachableCount has two for each edge. That these are enough is among
-- the results. All other loops are by recursion on their data.
--
-- Not modelled: services, transports, language models, gateways, workflows and the programs of
-- skills, which are arguments that may throw; audit entries and durations except where named; the
-- redaction of secrets and the parsing of URLs, which are arguments; the warnings, the schemas and
-- the evidence bundles of the capabilities; the strongly connected components of a trace; in the
-- dispatch of a skill, the boundary's checks stand as an argument; geometry and rendering
-- capabilities; the admin application, the deployment and the data of the repository.
pub mod Prelude
pub mod Canonical
pub mod Approval
pub mod Zip
pub mod ArcGis
pub mod Query
pub mod Trace
pub mod Boundary
pub mod Llm
pub mod Skills
pub mod Agent
