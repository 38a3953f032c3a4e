-- ===== src/Lib.antt =====
-- Verification of collecta, a field data collection server and its offline client.
--
-- A server keeps form definitions and the submissions filed under them (crates/collecta-server). A
-- client pulls the definitions, fills submissions in without a network, queues them and pushes them
-- in batches (crates/collecta-core). Both sides run the same validator. Forms may come from a
-- spreadsheet (crates/collecta-xlsform), submissions from ODK Collect over OpenRosa, and a form's
-- submissions can be published to a geodatabase.
--
-- Which file models which code:
--   Values, Submission: crates/collecta-core/src/submission.rs. `FieldValue` is a mutual data type
--     with the rows of a repeat; a map from names is an association list.
--   Form, Form/Condition: crates/collecta-core/src/form.rs, with `Condition::evaluate`.
--   Validation: crates/collecta-core/src/validation.rs. The error list is the list that `validate`
--     fills, in order; the keys of a map are visited in the order of its list. Wildcard is about
--     `simple_pattern_match`, FieldRules about `check_constraint`, FormRules about `validate`.
--   Queue: crates/collecta-core/src/sync_queue.rs. Backoff, Items, Status and Push are about the
--     waits, the queued submissions, the statuses and the batches.
--   Attachments: crates/collecta-core/src/attachment.rs.
--   Pulled: crates/collecta-core/src/pulled_forms.rs.
--   Protocol, Errors: crates/collecta-core/src/sync_protocol.rs and error.rs.
--   Server: the tables of crates/collecta-server/src/store.rs, each a list of rows. FormTable,
--     SubmissionTable, AttachmentTable and PublishTable have one function per query. Auth is
--     crates/collecta-server/src/auth.rs; Handlers is the handlers of crates/collecta-server/src/lib.rs,
--     as functions from the state to an answer and the next state. Access, Tombstones, Ownership,
--     Submitting, Instances, Ingest, Runs and Idempotence are about these; Keyed, Pull, Sync and
--     SameInstant join the server's side of a pull to the client's. Filed is what a submission over
--     OpenRosa keeps, for Runs, whose steps are all the requests that change the state.
--   ContentType: crates/collecta-server/src/attachment.rs.
--   Rosa: crates/collecta-server/src/openrosa. Tree, Instance and Mapping are instance.rs: the element
--     tree read from the events of the XML reader, its ids, and its answers. Parts, Storing and
--     Submitting are submission.rs: the multipart body, the attachments, and the handler. Tree/Size,
--     Tree/RoundTrip, Tree/Bounds, Tree/Entities, Mapping/Fits, Mapping/Filled and the children of
--     Submitting are about them.
--   Publish: crates/collecta-server/src/publish.rs. Wkb is the geometry text, with a reader of its own
--     in Wkb/Reader, and Wkb/Hex and Wkb/Decode about both; Feature the features and the schema;
--     Client the requests to the geodatabase; Run the handler; Fresh, Delivery, Pending, Once, Complete and Keeps are about its
--     runs, Keeps for Server/Runs.
--   XlsForm: crates/collecta-xlsform/src/lib.rs. Workbook is the sheets and the choice lists, Relevant
--     the conditions, Survey the fields and the stack of groups and repeats; Survey/Nested says what
--     the rows mean, and Survey/Reading and Survey/Nesting are about the two.
--   Int64 is how a 64-bit integer is read from text, with its range in Int64/Range.
--   F64 is the order of 64-bit floats on their bit patterns and the rounding of an integer to one.
--   Prelude holds the shared Boolean tests, list and text functions and their lemmas.
--
-- Parameters. `FloatText` is how floats are printed and read, `Platform` adds how ids are printed,
-- and `Crypto` is the checks of tokens and passwords; `Reader` is the entities of the XML crate and the
-- reading of ids, `Disk` what the file system takes, `Outside` adds the XML reader and the hash, and
-- `Service` is the geodatabase, which may answer anything to what it was sent. Fresh ids and the
-- readings of the clock are arguments of the operations that draw them.
--
-- Numbers are natural numbers; the retry count wraps at 2^32 and the backoff at 2^64, as they do in a
-- release build. The digits of a number are printed with fuel 20, enough for every 64-bit number, and
-- the length of an integer in bits is found with fuel 64.
--
-- Not modelled: database errors (a query succeeds, unless a key constraint refuses it), migrations,
-- the text form of cursors and instants, the bytes of attachment files on disk, HTTP and routing, the
-- form list and the XForm documents of the OpenRosa interface (openrosa/mod.rs and openrosa/xform.rs),
-- the opening of a workbook, and the command line around the queue. The two readings of the clock
-- when a form is deleted are one, and so are those of the rows that one publish records.
pub mod Prelude
pub mod F64
pub mod Int64
pub mod Values
pub mod Submission
pub mod Form
pub mod Errors
pub mod Protocol
pub mod Attachments
pub mod Queue
pub mod Validation
pub mod Pulled
pub mod Server
pub mod ContentType
pub mod Rosa
pub mod Publish
pub mod XlsForm
