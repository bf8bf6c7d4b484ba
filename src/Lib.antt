-- ===== src/Lib.antt =====
-- A verification library for forgeant, a C++ library for agents over large language models.
--
-- An `Agent` (include/forgeant/agent, src/agent) drives a loop: it sends a `Conversation` to an
-- `LlmProvider`, runs the tools that the answer asks for from its `ToolRegistry`, adds their results
-- to the conversation, and repeats until an answer asks for no tool or the cap is reached. A typed run
-- wraps that loop: it parses the last text and asks again where it cannot be read. A provider writes
-- the conversation as a `Json`, posts it by an `HttpClient`, and reads the response.
--
-- Files, and the code that they model:
--   Json, Json/Update, Json/Equality: include/forgeant/json/json.hpp
--   Json/Text, Double: src/json/json.cpp
--   Types/Role, Types/Content, Types/Message, Types/Conversation: include/forgeant/types, src/types
--   Tool, Tool/Registry: include/forgeant/tool, src/tool/registry.cpp
--   Schema: include/forgeant/schema, src/schema/schema.cpp
--   Http: include/forgeant/http/client.hpp and response.hpp
--   Http/Bytes, Http/Curl, Http/Curl/Handles: src/http/curl_client.cpp
--   Provider, Provider/Wire, Provider/Anthropic, Provider/OpenAi: include/forgeant/provider,
--     src/provider
--   Agent, Agent/Data, Agent/Create: include/forgeant/agent, src/agent/agent.cpp
--   Agent/Typed: the template `execute` of include/forgeant/agent/agent.hpp
--   Structured: include/forgeant/structured, src/structured/structured.cpp
--   Version: include/forgeant/version.hpp, src/version.cpp
--   Examples: examples
-- The other files under these names hold laws, and Tests holds runs at concrete data.
--
-- How the code is modelled:
--   - A function that may throw returns an `Outcome`. One that writes to an object through a
--     reference is an `Action` on that object, so what it wrote before an exception stays.
--   - Tools, providers and HTTP clients act on a world `W` of any type. A provider's or a client's
--     call and a tool's handler are arbitrary functions on it.
--   - A `Json` object is a list of members that `insert` keeps in the order of the keys, as
--     `std::map` does. A string is a text of Unicode characters: the model takes every
--     `std::string` to be valid UTF-8.
--   - An `int` is an integer that is cut to 32 bits after each sum. The sum of two `int`s that leaves
--     the range is undefined in C++; the model gives it the two's complement value.
--   - A `double` is exact: a sign and a count of units of 2^-1074, an infinity, or NaN.
--   - Glaze's JSON reader, `std::to_chars` on doubles, the order of the buckets of an
--     `std::unordered_map` and the texts of the standard library's exceptions are the fields of
--     `Platform`, an argument of the definitions that use them.
--   - The loops run on the number of rounds that the cap leaves. `execute_loop` starts with the cap
--     itself, or with no round where the cap is negative, a typed run with three attempts, and
--     `structured` with `max_retries + 1` (below INT_MAX, where the code's counter overflows). When
--     none is left the loop ends as the code does behind its `for`, so no run is cut short.
--   - `Schema/Conforms` says what a JSON schema asks of a value; it is the specification that the readers
--     of the examples are held against.
--   - A `CurlHttpClient` as an object is modelled apart from its posts: `Http/Curl/Handles` has a store of
--     clients, `Impl` cells and handles, in which a call that frees or uses what is not there is a fault.
--   - A service that answers in the order of a script, with or without a bad status at its end, is a
--     client with the laws of `Scripted` and `Breaks` in Provider/Wire/Service; the theorems on whole
--     runs from `create` on take it as a hypothesis.
--   - libcurl is a `Curl`: a function that runs the two callbacks in some way. `Delivers` says what
--     libcurl documents of it, and two theorems take it as a hypothesis. `Http/Curl` works on bytes, as
--     the code does, and is not tied to the texts of `HttpClient`.
--
-- Not modelled: when the thread of `async_post` posts, whose result is modelled as if it ran at once
-- (its client is its own, and `Lifetime` lets its construction, its post and its destruction stand
-- between the calls of others); the ownership of providers and HTTP clients by
-- `std::unique_ptr`; exceptions that are no `std::exception`; running out of memory; the forwards of
-- `namespace json` to the members of `Json`; benchmarks and the C++ tests.
pub mod Prelude
pub mod Outcome
pub mod Action
pub mod Double
pub mod Platform
pub mod Json
pub mod Types
pub mod Tool
pub mod Http
pub mod Provider
pub mod Agent
pub mod Schema
pub mod Structured
pub mod Examples
pub mod Version
pub mod Tests
