-- ===== src/Lib.antt =====
-- The core of the Home Assistant integration under custom_components/ontology, which keeps a graph of a
-- home's entities in a Memgraph database: its coordinator, the listeners before it, its database client,
-- the schema migration and its query service, and the parts that work on the graph: classification,
-- overrides, validation, impact analysis, the panel's data, redaction and the audit.
--
-- The parts and how they interact. The coordinator (coordinator.py) runs every sync. Services and
-- listeners call it; an operation passes one lock (Serialize), then calls the graph modules, and what
-- comes of it goes to the health and the list of failed updates (Coordinator), to the change buffer that
-- connected clients read (ChangeBuffer), and to the activity counters that a sensor shows (Activity). All
-- reach the database through the client (MemgraphClient); a user's query passes the checks of the query
-- service (QueryService) first, which then calls the client. The state changes of Home Assistant come in
-- through a debouncer (Debounce, event_listener.py), which hands over one batch for a window. When the
-- integration is set up, the stored schema is migrated through the client first (Schema). A full sync
-- exports the overrides, clears and builds the graph (GraphBuilder), and imports them again (Overrides);
-- it infers the energy roles (UserKnowledge), for which the classifier reads the registries (Classify).
-- Another operation runs the validation, one detection of which asks the classifier too (Validation). The
-- panel's reads pass a gateway (Presentation), and tools ask what depends on a node (Impact), with a note
-- in the audit (AgentAudit). Each night a scan of the radio mesh is written beside the rest (Mesh). What
-- these show is redacted (Redact).
--
-- Files and code:
--   Common: lists over native numbers, dictionaries keyed by texts, exceptions as values, text codes.
--   ChangeBuffer: class GraphChangeBuffer of coordinator.py, a method for a function. Requests are the
--     sequences of its calls; the published events are kept as a list beside it.
--   Serialize: _run_serialized and _run_incremental of coordinator.py, as steps between suspensions of
--     an asyncio task: a call up to the lock, a wake-up of the head of the queue, the end of the holder,
--     a cancellation of a waiter.
--   Activity: _activity_roll, record_sync_event, record_sync_batch, async_publish_sync_activity. The
--     minute is an argument; the two roundings, in floating point, are parameters.
--   Coordinator: OntologyState and the sync operations. State has the data and the list of failed
--     updates, Services the interface of what is called and the methods that record an outcome,
--     EntitySync the single updates and their retry, FullSync the rebuild and the validation run, Batch
--     the sync of a batch. The remaining children hold proofs.
--   Debounce: StateChangeDebouncer and the listeners of event_listener.py, with the timers that the event
--     loop has outstanding. Filter holds the test of a change, Window the proofs.
--   MemgraphClient: run_query, run_query_limited, run_query_with_retry and the value serialization of
--     memgraph_client.py. The driver is an interface: a query answers with a stream of records that
--     ends or breaks, and a timeout is one of its exceptions.
--   QueryService: query_service.py. Each regular expression is written out as a scanner over the codes
--     of the text.
--   Schema: schema_migrations.py. The queries are an interface, Version holds the proofs.
--   Classify: semantic_classifier.py. Home is what it reads of the registries, Rules the table and the
--     matching, EnergyRole and Camera what comes of it, Apply the writes over the interface to the graph.
--   Overrides: overrides.py over a graph of nodes and override edges, Import the check of a payload. The
--     theorems on a rebuild (Coordinator/FullSync/Restored) put it in the place of what Services leaves open.
--   Validation: validation.py. The finding nodes are a function of their ids; Detect has the detections and
--     the run, with the classifier in one of them.
--   Impact: impact_analysis.py. Merge has the lists of dependents, Analyze the analyses and their audit.
--   Presentation: graph_backends.py and graph_gateway.py, from the texts over the records and slices to the
--     direct backend and the gateway.
--   GraphBuilder: graph_builder.py over a property graph. Labels are the labels and relationship types of
--     const.py, Graph the graph and its writes, Registry what is read of Home Assistant, Rows and Discovery
--     the full build, Updates the single updates, and Measurement the current measurement of an entity.
--   Mesh: mesh_sync.py. Payload has what is taken out of the answer of Zigbee2MQTT, Prune the proofs.
--   LabAccess: lab_access.py. The HTTP request is an interface.
--   UserKnowledge: user_knowledge.py, with the inference of Classify.
--   Redact: redact.py, used by Impact, Presentation and AgentAudit. AgentAudit: agent_audit.py.
--
-- Bounds and fuel: the retry loop recurses on the attempts that are left, four after the first, as the
-- code counts to RETRY_MAX_ATTEMPTS, and the pruning of the mesh on its 200 batches. All other recursion
-- is on the data. Numbers are unbounded as Python's are; seconds of delay are whole, as the constants are.
--
-- Not modelled: the reads that are Cypher text run by the database in the detections are parameters, with
-- named laws where a theorem relies on them; the writes of the graph builder, the overrides, the roles, the
-- findings and the mesh are the functions that their text says. The layout of spaces with its geometry, the
-- dashboards, the add-on's HTTP backend, most of the query tools with the MCP server, the export of context,
-- and the glue to Home Assistant, the panel and the sensors are left out, and so is logging. In the scanners
-- a letter beyond ASCII has no other case, and in the query service such a code counts as a word character.
-- A limit below zero is not modelled.
pub mod Common
pub mod ChangeBuffer
pub mod Serialize
pub mod Activity
pub mod Coordinator
pub mod Debounce
pub mod MemgraphClient
pub mod QueryService
pub mod Schema
pub mod Classify
pub mod Validation
pub mod Overrides
pub mod Redact
pub mod AgentAudit
pub mod Presentation
pub mod Impact
pub mod UserKnowledge
pub mod GraphBuilder
pub mod LabAccess
pub mod Mesh
