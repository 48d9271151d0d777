-- ===== src/Lib.antt =====
-- The strategic conflict detection and remote identification services of the InterUSS DSS: the
-- operational intents that users of an airspace (USSs) declare, the constraints on it, the
-- subscriptions on both, and the database behind.
--
-- A request goes through these parts. A handler (pkg/scd/operational_intents_handler.go) checks the
-- caller and the parameters, and runs one transaction on the repository (pkg/scd/repos, implemented in
-- pkg/scd/store/cockroach). In it, an upsert reads the operational intent that is there, checks the
-- manager and the OVN, chooses the subscription to attach (one that is named, or a new implicit one),
-- checks that the key names what is in the way, writes the row, removes the previous implicit
-- subscription where nothing else depends on it, and counts up the notification indices of the
-- subscriptions in the volume. A deletion has the same checks of manager and OVN.
--
-- The handlers of constraints, subscriptions and availabilities go through the same parts. Remote
-- identification keeps service areas and subscriptions in tables of its own: the application layer
-- (pkg/rid/application) checks the version and the limit on subscriptions in a transaction on its store.
--
-- The files:
--   Base: tests, lists, integers, tables (lists of rows with upsert, update and deletion), tables as maps
--     from keys to rows, and the monad of a transaction, with `Leaves`, which says what a computation
--     does not write, and the elimination of a run of a read.
--   Api: the messages, pkg/api/scdv1/types.gen.go.
--   Errors: pkg/errors/errors.go, with the faults that handlers tell apart.
--   Auth: the check of scopes of pkg/auth/auth.go and pkg/auth/claims.go.
--   Models: pkg/models (identifiers, versions, volumes, unions), the covering and the chords of pkg/geo/s2.go, times, and
--     `Platform`, the functions of libraries that the program calls.
--   Scd/Models: pkg/scd/models.
--   Scd/Store: pkg/scd/store/cockroach. `Db` is the state of a transaction, with one list of rows per
--     table; `Tx` holds the time of the transaction, the next result of `uuid.New`, and the order of
--     the rows that an update returns. Expired has the listings that the eviction reads.
--   Scd/Server: pkg/scd/server.go and the replies.
--   Scd/OperationalIntents: pkg/scd/operational_intents_handler.go. Params is
--     `validateAndReturnUpsertParams` and the checks before the writes, Attach the choice of the
--     subscription, Key `validateKeyAndProvideConflictResponse`, Notify the notification, Upsert,
--     Delete and Read the transactions and handlers. Their child modules hold the proofs.
--   Scd/Constraints: pkg/scd/constraints_handler.go. Params holds the checks, Put, Delete and Read the
--     transactions and handlers, Run and Effects the proofs, Refinement the table as a map in which each
--     client changes its own rows.
--   Scd/Subscriptions: pkg/scd/subscriptions_handler.go, in the same way; Covers is on the dependent
--     operational intents, Removal on the deletion, Queried on the query.
--   Scd/Availability: pkg/scd/uss_availability_handler.go.
--   Rid: remote identification. Models is pkg/rid/models, Store is pkg/rid/store/cockroach, Application is
--     pkg/rid/application, and Garbage is the garbage collector of the store. Application/Reachable
--     defines the databases that a sequence of transactions reaches; Inserted, Changes and Success are
--     on the insertion and the deletion of service areas. Api is pkg/api/ridv1/types.gen.go, and V1
--     has the handlers of pkg/rid/server/v1, with pkg/rid/models/api/v1; its Areas/Created is on a creation
--     and a deletion that follows.
--   Cleanup: the eviction of expired records, cmds/db-manager/cleanup/evict.go.
--   Tests: runs of the model, on an airspace of two users and on tables of remote identification.
--
-- Conventions: a Go function that returns an error is a function to `Result` or, where it uses the
-- repository, an `Action`, a function from the database to a result and a database. The dereference
-- of a nil pointer is the error `panic`. Times are nanoseconds, also in the tables, which keep
-- microseconds in the database; `Float` is a floating-point number as an integer of the same order;
-- versions are bit patterns of 32 bits. The empty string is an absent identifier or OVN, as in the
-- source. No function runs on fuel: every loop is over a list or counts down.
--
-- Parameters: `Platform` stands for libraries (UUIDs, URLs, times, hashes, the S2 library) and for the
-- arithmetic of floating-point numbers, of which no result is taken to be a NaN. Nothing else is
-- assumed of these functions. Transactions are serial: `transact` runs an action to its end, and rolls
-- back on an error. Retries and concurrent transactions are not modelled, nor are errors of the
-- connection, the texts of messages, the locking of rows and the verification of tokens. The
-- searches of pkg/rid/server/v1, version 2 of that API (pkg/rid/server/v2), the start-up of the
-- commands and the connections to the database are not modelled.
pub mod Base
pub mod Api
pub mod Errors
pub mod Models
pub mod Scd
pub mod Rid
pub mod Auth
pub mod Cleanup
pub mod Tests
