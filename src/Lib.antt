-- ===== src/Lib.antt =====
-- matrix-media-repo: a Matrix media repository. Media are uploaded or fetched, stored in datastores
-- under their hash, and described by rows of PostgreSQL tables; tasks purge and quarantine them.
--
-- Parts and files:
--   Prelude     Booleans, lists, integers with Go's int64 ranges, strings as lists of bytes, maps.
--   Common      the error values of common/errors.go and results.
--   Config      the options that the modelled code reads (common/config/models_*.go).
--   Database    the tables of database/ as lists of rows: Rows (the structs), Media and Quarantine
--               (table_media.go, virtualtable_metadata.go and the trigger on `media` of
--               migrations/17_add_user_stats_table_up.sql), Thumbnails, Ids (the tables about media IDs,
--               user_stats and last_access), Access (joins with last_access), Counted and Updates (the
--               sums of user_stats).
--   World       Monad: state passing with errors. A world has the tables, the objects stored and removed,
--               the cached tokens and download errors, and what lies outside. Rules and Keeps: how to
--               reason about handlers.
--   Util        Mxc (util/mxc.go and util/identifiers.go), RoundTrip, and Parse (numbers, flags, hosts and
--               content types: util/{time,arrays,strings,mime,config}.go).
--   Datastores  datastores/{kind,locate,pick,delete,upload}.go and util/ids/unique.go; Choice (what Pick
--               picks), Removal (what a removal removes), Sizes (datastores/info.go).
--   Quota       pipelines/_steps/quota/check.go; Fits.
--   Readers     util/readers/error_limit_reader.go, over streams that end with io.EOF or a read error;
--               Bounds.
--   Upload      Steps (pipelines/_steps/upload, restrictions/auth.go, pipelines/pipeline_create), Pipeline
--               (pipelines/pipeline_upload: Execute is `execute`, steps 6 to 14 of it `accept`, and
--               ExecutePut is `execute_put`), Ids, Frame, Rows, Accepted, Put,
--               Create and Whole.
--   Purge       tasks/task_runner/purge.go and purge_remote_media.go: doPurge is `do_purge`, its closures
--               doFlagging, markBeingPurged and tryRemoveDsFile have functions of their own; Cover,
--               Identify, Mark and Remove follow its stages, and Safety joins them; Spares and Resolve
--               are about the rows that stay.
--   Quarantine  QuarantineMedia of tasks/task_runner/quarantine.go; Flags and Hosts.
--   ThumbnailPurge  tasks/task_runner/purge_thumbnails.go: purgeThumbnailBatch is `purge_thumbnail_batch`,
--               and Loop has PurgeThumbnails; Safety, Progress and Counts are about a batch, Ends about
--               the loop.
--   Migrate     tasks/task_runner/datastore_migrate.go: DatastoreMigrate is `datastore_migrate`, and
--               moveDatastoreObjects `move_objects`; Steps, Moves and Safety are about one move, Task about
--               the task.
--   Matrix      calls of a homeserver behind a circuit breaker (matrix/breakers.go, errors.go,
--               requests_admin.go and requests_auth.go); Unchanged. XMatrix is matrix/xmatrix.go, with
--               GetXMatrixAuth of util/http.go and util/canonical_json.go; Signed.
--   Download    Stream (pipelines/_steps/download/{open_stream,wait}.go, pipelines/_steps/quarantine,
--               datastores/download.go), Remote (pipelines/_steps/download/try_download.go and
--               pipelines/_steps/datastore_op), Pipeline (pipelines/pipeline_download: Execute is `execute`)
--               and Access.
--   Thumbnails  pipelines/_steps/thumbnails/pick_dimensions.go; Sizes. Pipeline is
--               pipelines/pipeline_thumbnail with pipelines/_steps/thumbnails/generate.go; Fits and Served.
--   Api         Request (what handlers read and answer), Meta (api/_apimeta/auth.go), AuthCache
--               (api/_auth_cache; Keys and Answers), Routers (api/_routers/97-*.go; Admins), Purge,
--               Quarantine, Attributes and Usage (the files of api/custom), Download (api/r0/download.go),
--               Upload (api/r0/upload_sync.go, upload_async.go, logout.go and api/v1/create.go; Backed),
--               Scope and Hosts (whom the purge and quarantine handlers can affect).
--   Tests       concrete tables and options, and the theorems at them.
--
-- A handler is a function from a world to its result and the world that it leaves, so what was written
-- before an error stays written. A statement of the database is one step: it commits, or fails and changes
-- nothing. Each call of the database, of a datastore or of another service has a number, and whether it
-- fails is any function of that number. Handlers run one after the other.
-- A nil pointer that is read is the error `panicked`, which no handler answers. One caller of each single
-- flight is at work. Whether an entry of a cache has expired is a function of the number of the call.
-- The glob matcher, the matcher of regular expressions, SHA-256, what a datastore holds at a location, what
-- homeservers and other servers answer, the leaky bucket of the rate limit, float32, Ed25519, base64 and
-- `json.Marshal`, the images that thumbnailing/ makes, and the order of thumbnail rows in PostgreSQL
-- are parameters.
-- Strings are lists of bytes, sums of sizes are int64 and wrap around where Go's do. The loop of
-- GenerateMediaId has ten attempts, as in the source. The loop over the batches of a thumbnail purge runs on
-- fuel: a batch that removes a row leaves fewer rows, and one that removes none moves on in their order, so
-- `enough_fuel` grows with the square of the number of rows. All other loops are over lists.
-- Go visits a map in no fixed order; the model visits the locations of a thumbnail purge in the order of
-- their first thumbnails.
--
-- Not modelled: the preview pipeline, archives, the handlers of tasks, exports, imports,
-- datastores and federation, server discovery and the query of signing keys, image processing, Redis, metrics,
-- notifications, plugins and logging; the migrations but for the trigger.
pub mod Prelude
pub mod Common
pub mod Database
pub mod World
pub mod Config
pub mod Util
pub mod Datastores
pub mod Purge
pub mod Quota
pub mod Readers
pub mod Upload
pub mod Quarantine
pub mod ThumbnailPurge
pub mod Migrate
pub mod Matrix
pub mod Download
pub mod Thumbnails
pub mod Api
pub mod Tests
