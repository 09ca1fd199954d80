-- ===== src/Lib.antt =====
-- margin_mvp: a model of the knowledge-graph platform, with its properties.
--
-- The program turns the tables and documents of source systems into a typed property graph. A
-- connector (ingestion/connectors/synthetic.py) discovers work items and fetches and parses them;
-- `run_ingest` (ingestion/pipeline.py) goes through the items, skips those that the ledger
-- (ingestion/checkpoint.py) has, and loads each parsed bundle (ingestion/ir.py) into the graph by
-- `load_bundle`. That writes nodes and edges through `GraphClient` (graph/client.py), which checks
-- labels and edge types against the allow-lists that packs (packs/loader.py) register, on to a store
-- (graph/store.py). Each observed column goes through the resolver (resolver/funnel.py), which links
-- it by an alias, suggests metrics by string similarity (resolver/suggest.py), or queues it for a
-- human, whose confirmation is written back as an alias.
--
-- How the parts correspond to the code:
--   Value                 property values; Python's `object` cut down to scalars, lists and sets
--   Base.Exec             a method that changes an object and may raise, as a function of the state
--                         to a result and the state after it; a raise keeps what was written
--   Graph.Model           graph/model.py
--   Graph.Store, .Key     graph/store.py, `_key` and `InMemoryGraphStore`: dicts in insertion order
--   Graph.Protocol        graph/store.py, the protocol `GraphStore` and a call of it as data
--   Graph.Neo4j           graph/store.py, `_check_ident` and the query texts of `Neo4jGraphStore`;
--                         .Driver what it uses of the `neo4j` package, as a parameter; .Backend its
--                         constructor and operations
--   Graph.Client          graph/client.py: allow-lists and node upserts; .Edges the links; .Aliases
--                         the alias index; .Read `resolve_column`; .Calls a program of calls
--   Packs.Loader          packs/loader.py
--   Resolver.Matcher      `difflib.SequenceMatcher.ratio` of Python's standard library
--   Resolver.Suggest      resolver/suggest.py; Resolver.Funnel is resolver/funnel.py
--   Ingestion.Ir, .Source, .Checkpoint, .RateLimit, .Router, .Pipeline and .Synthetic
--                         the files of those names under ingestion/; .RateLimit.Limiter the protocol
--                         `RateLimiter`, and a bucket with its clock as one; .Synthetic.Stub the API
--                         in memory and its fixture
-- The other modules hold the lemmas and the properties of the part that they stand under; Tests runs
-- the model on small inputs.
--
-- Conventions and bounds. A set of names is a list in the order of insertion. Scores are whole
-- ten-thousandths; a ratio in the middle of two of them is rounded to the even one, where Python
-- rounds the double next to it. The rate limiter counts time in nanoseconds and tokens in parts, as
-- many to a token as a use chooses, and adds and multiplies them exactly, where the source has
-- doubles. What the source's division of doubles makes of the time to sleep is left open: a sleep may
-- have any length, none included. The clock is any one that does not run backwards. The loop of
-- `acquire` has fuel: one turn more than parts are missing is enough where each step of the clock
-- takes a nanosecond at least, and no fuel is enough on some clocks that only sleeping moves. The
-- matching of two texts has as much fuel as the first text has characters; the popularity heuristic
-- of `difflib`, which starts at 200 characters, is left out, and `casefold` is exact on ASCII. A
-- `metric_key` that is no text raises where it is read. An error carries the value that its message
-- names, not the message.
--
-- Not modelled: the `neo4j` driver and the database behind it, `yaml.safe_load` and the wall clock
-- (parameters where they are called; what the database does with a query is not assumed), threads,
-- the re-exports in the packages' `__init__.py`, the test suite.
pub mod Base
pub mod Value
pub mod Graph
pub mod Tests
pub mod Packs
pub mod Ingestion
pub mod Resolver
