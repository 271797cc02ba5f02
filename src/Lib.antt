-- ===== src/Lib.antt =====
-- The transactions of WooriDB, a time-serial database: what a request does to the files and to
-- the state that requests share.
--
-- A request is parsed into a query (wql/src/lib.rs: `Wql`). `wql_handler` of
-- woori-db/src/controllers/tx.rs gives it to a controller, which sends messages to actors and
-- changes the contexts that all requests share:
--   Wql       the values (`Types`) and the parsed queries of the crate wql; Parser is the functions
--             of SELECT and WHEN (wql/src/select.rs), DELETE and EVICT (wql/src/language_parser.rs)
--   Model     registers, contexts and errors: woori-db/src/model, woori-db/src/repository/local.rs
--   Host      the functions of other crates (ron, bincode, bcrypt, chrono, uuid): a parameter
--   Server    `World`, the shared state (the contexts with their locks, the bytes counter, the
--             files), and `Act`, a step on it that ends with a value, an error or a panic
--   Actors    the messages: Lines (woori-db/src/core/wql.rs and actors/wql.rs), Files
--             (woori-db/src/io), State and Match (actors/state.rs), Uniques (actors/uniques.rs),
--             Encrypts (actors/encrypts.rs), Content (`update_content_state` of core/wql.rs)
--   Tx        the controllers, one file each, and `tx_handler`; Steps holds what they repeat.
--             Rules, Durable, Refusals and Stored are about them
--   Query     the controllers of queries, which `wql_handler` of controllers/query.rs calls
--             (Handler): States, Dedup, Ordering, Groups and Result (core/query.rs), Select
--             (controllers/query.rs, core/registry.rs), Clauses (controllers/clauses.rs), When
--             (actors/when.rs), Relations and Join (controllers/relation.rs and schemas/query.rs),
--             CheckValue (actors/encrypts.rs), History (actors/history.rs and
--             controllers/entity_history.rs), Response (schemas/query.rs); Plain is about hashes
--   Base      lists, maps, machine integers and tests
--   Tests     a small server on which the theorems are applied
-- Names are the source's; where a block of a controller has a name here, a comment says what it
-- is. A String is its bytes, a HashMap an association list, a HashSet a list, a BTreeMap keyed by
-- ids a list in their order. An integer is 64 bits with wrap-around written out, as is usize.
--
-- How each call on a file ends, whether it works, fails at `open`, fails after some bytes, or is a `write`
-- that takes the first bytes alone and succeeds, is a function of the number of the call (`Host`),
-- so that the theorems hold for any such pattern. A read of a file that is there ends as `Host`
-- says of its bytes. A message that panics in a transaction stops the actor, and the request and
-- each later message end with ActixMailbox (`send`); a query is modelled while the actor runs, and
-- a panic in it is an outcome. The loop of the history follows registers from log to log and is on
-- fuel, of which a chain of events needs as many steps as it has events. So is the loop of
-- `algebra_functions`, of which as many steps as characters and two more are enough; every other
-- definition is by recursion on its argument.
--
-- Requests are taken one after the other, and the clock gives one time during a request, and any
-- other one during the next. Two requests that interleave are not modelled, nor are logs that the
-- scheduler has compressed, which count as missing. The log of the unique and encrypted keys takes
-- its RON text from a parameter. `sort_by` is an insertion sort, as the standard library does on
-- short slices; where the comparison is no order, its result is open. Left out are the texts of
-- answers (RON or JSON), authentication, the rest of the parser, and the recovery at start.
pub mod Base
pub mod Wql
pub mod Model
pub mod Host
pub mod Server
pub mod Actors
pub mod Tx
pub mod Query
pub mod Tests
