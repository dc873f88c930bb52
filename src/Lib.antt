-- ===== src/Lib.antt =====
-- DemumuMind panel: an LLM gateway written in Python with FastAPI. A client's chat request names a
-- model alias; the panel resolves the alias to a provider, checks the prompt against its guardrails,
-- looks in its cache, translates the body to the protocol of the provider, sends it with one of the
-- provider's keys, and records the usage.
--
-- The files, by the part of the program:
--
--   Shared      the names of the libraries, Boolean tests, lists, integers and association lists.
--   Text        the str operations of Python that the services use.
--   Json        JSON values (Any), dict operations and truth tests.
--   Errors      app/core/errors.py: AppError and its classes, and the exception handlers (`handle`).
--   Failover    app/services/failover.py: `classify` and `backoff_ms`.
--   Cache       app/services/cache.py: `get`, `set` and `invalidate` are `_get`, `_set` and
--               `invalidate`; Cache/Key holds `_key` and the methods of the two slots. A
--               state is the OrderedDict as a list, least recently used first.
--   Guardrails  app/services/guardrails.py: the rules and `validate_input`, `validate_output`.
--   Pool        app/services/pool.py: the requests that are handed to the HTTP client.
--   Manager     app/services/provider_manager.py: `reload` is `_reload` (Manager/Reload), `pick_key`
--               and `active_keys` stand in Manager/Keys, `resolve` and the listing in
--               Manager/Resolve, `update_model_pricing` in Manager/Pricing,
--               `insert_provider`, `update_provider` and `insert_model` in Manager/Write;
--               app/services/router.py passes its calls on to these.
--   Translate   app/services/translate.py: `normalize_protocol`; Translate/Values has the dicts,
--               iterations and texts of Python that it uses, Translate/Content the blocks of a message,
--               Translate/Anthropic, OpenAi, Gemini, FromGemini, Cohere and Ollama a translation of
--               requests each, Translate/Responses the answers, Translate/Route the choice between
--               them (`translate_request`, `translate_response`). Translate/Turns and Chats are the
--               chats that go there and back.
--   Dispatch    app/services/dispatch.py: `do_request` is `_do_request` (Dispatch/Request), tokens and
--               costs stand in Dispatch/Cost, `_record_db_usage` in Dispatch/Usage. `chat_completion` in
--               Dispatch/Chat, `chat_completion_stream` and `resolve_stream_cache` in Dispatch/Stream
--               and `image_generation` in Dispatch/Image run on a `Panel` (Dispatch/Call): the manager
--               with the requests so far, the cache, the rows of usage and of images, the hit marker
--               and the readings of the clock. Dispatch/Prompt has the texts for the guardrails,
--               Dispatch/StreamUsage the usage in the chunks.
--   Usage       app/services/finops.py and app/services/agent_id.py; Usage/Stats holds the
--               statistics.
--   Auth        app/api/v1/middleware.py: credentials, agent type and request id.
--   Mcp         app/services/mcp.py: `handle` and its methods.
--   Discovery   app/services/discovery.py: `parse_model_items`, the requests and the test of a model
--               (Discovery/Probe), the merge and the import loop of `discover_and_test`
--               (Discovery/Merge).
--   Cleanup     app/services/cleanup.py: the steps on providers and models; Cleanup/Run has the others
--               and `run_cleanup`.
--   Routes      app/api/v1/routes.py: the endpoints that call a model, from the key to the response;
--               Routes/Nulls has `_drop_nulls`.
--   Plugins     app/services/plugin_manager.py; Plugins/Table has the endpoints for plugins of
--               app/api/v1/admin_routes.py.
--   Admin       app/api/v1/admin_routes.py: Admin/Keys has the endpoints for client keys, Admin/Providers
--               those for providers, their keys and models, on the tables and the manager,
--               Admin/Mcp those for the tables of the bridge.
--
-- How the code is read. A dict is an association list in insertion order; a method that changes its
-- object returns the changed object; an exception is a value of `Result`. The clock is an argument.
-- Floats (prices and temperatures) are integers in units of 10^-12, without rounding. `_reload`
-- runs as one step: what it awaits between its reads is not interleaved with other calls. Loops are
-- by recursion on their list, or on the number of rounds (`find_ready`, which makes one round for
-- each key). `do_request` and `record_db_usage` take fuel: as many attempts as the provider has
-- keys and four attempts are enough. A call of `chat_completion` gives them one attempt for each
-- key and one more, and four. The HTTP client is a function of what was sent before and of the
-- request; what a call awaits is not interleaved with other calls.
--
-- Parameters of the model: the HTTP client, the clock, uuid4, `re.compile`,
-- `Draft7Validator.check_schema`, hmac, sha256, the json module, UTF-8 (decoding with
-- errors="replace" and encoding), int and str of values that are no texts, the answer of the HTTP
-- client to a stream (the chunks and how it ends), Ed25519, the WebAssembly engine, whether a
-- commit finds the database locked, and the saving of an image. The validation of a body by
-- pydantic is not modelled. Log calls, telemetry, the HTTP client's connections and the database
-- sessions are not modelled.
pub mod Shared
pub mod Text
pub mod Errors
pub mod Json
pub mod Failover
pub mod Cache
pub mod Guardrails
pub mod Pool
pub mod Manager
pub mod Dispatch
pub mod Usage
pub mod Auth
pub mod Mcp
pub mod Discovery
pub mod Cleanup
pub mod Translate
pub mod Plugins
pub mod Routes
pub mod Admin
