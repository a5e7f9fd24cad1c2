-- ===== src/Lib.antt =====
-- The synchronisation core of OpenFaith: how the data of a church management system (Planning Center)
-- gets into the tables of OpenFaith, and how changes are pushed back.
--
-- A sync engine (adapters/adapter-core/chains/syncEngine.chain.ts) joins two services. The adapter
-- manager of an external system (adapters/pco/pcoAdapterManagerLive.ts) reads and writes that system
-- over HTTP. The internal manager (backend/server/live/internalManagerLive.ts) upserts external links,
-- entities and edges into PostgreSQL, and hands the operations that do so to the adapter as callbacks.
--
-- The files, with the code that each is about:
-- - Common, with Tests, Lists and Texts below it: Boolean tests, lists over the native numbers, and
--   text as UTF-16 code units.
-- - Sql: tables as lists of rows, with SELECT, UPDATE and INSERT ON CONFLICT DO UPDATE. A command that
--   would touch a row twice is refused, as PostgreSQL does.
-- - Store: the rows (packages/db/schema/modules/externalLinksSchema.ts and edgesSchema.ts), the whole
--   database `Db`, and effects on it. An effect is a function from a database to an exit (a value, a
--   typed failure, or a defect) and a database; what it did before a failure stays done.
-- - Links: processExternalLinks. Deletion: deleteEntity, detectAndMarkDeleted, getExternalLink. Merge:
--   mergeEntity. Entities: processEntities. Relationships: processRelationships, with
--   backend/server/helpers/updateEntityRelationships.ts. All are of internalManagerLive.ts;
--   InternalManager collects the callbacks.
-- - Relations: packages/schema/shared/relationshipUtils.ts.
-- - EdgeDirection: EdgeDirectionSchema of packages/shared/schema.ts.
-- - SyncEngine: externalSyncEntity, processMutation and the chains of the webhooks
--   (webhookSyncEntity, getWebhookOrgId, subscribeToWebhooks).
-- - Mutations: backend/workers/helpers/convertCustomMutation.ts and the grouping of
--   backend/workers/workflows/externalPushWorkflow.ts.
-- - Schema: ASTs of schemas with their annotations (packages/schema/shared/schema.ts). Below it
--   Relationships: the relationships that they declare (packages/schema/shared/introspection.ts and
--   adapters/pco/helpers/relationshipDiscovery.ts), and Transformer: pcoToOf of
--   adapters/pco/transformer/pcoTransformer.ts, which turns items of Planning Center into items of
--   OpenFaith and back. Ui is what the user interface reads of a schema: its fields, with their default
--   values (filtering.ts and defaultValues.ts of packages/schema/shared), and the entities that are shown
--   (entityDiscovery.ts).
-- - Pco: the Planning Center adapter. Pco/Client is its data, Pco/Manager its operations,
--   Pco/Extraction extractRelationships, and Pco/Webhooks the webhooks: which organisation one belongs
--   to, what is done with its events, and the subscriptions.
--   Below it, Manifest makes the manifest of the entities (adapters/pco/api/pcoMkEntityManifest.ts).
-- - Workflows: the activities of backend/workers/workflows and their attempts. Below it Sync
--   (externalSyncWorkflow.ts and externalSyncEntityWorkflow.ts), with People for mapUserToPerson, Webhook
--   (externalWebhookWorkflow.ts), Push (externalPushWorkflow.ts and externalPushEntityWorkflow.ts; Laws and Ends below it) and
--   Seed (createOrgWorkflow.ts); Retry is what the activities have in common.
-- - Connect: backend/server/handlers/adapterHandler.ts and adminHandler.ts.
-- - Session: backend/server/live/sessionMiddlewareLive.ts.
-- - ZeroPush: backend/server/handlers/zeroMutatorsHandler.ts, which joins the mutators with the push
--   workflow.
-- - TokenAuth: backend/server/live/tokenAuthLive.ts over tokenManagerLive.ts, as a step relation. Any
--   number of fibers ask for access tokens, under one lock for loading and one for refreshing.
-- - Strings: pluralize and singularize of packages/shared/string.ts.
-- - Mutators: packages/zero/mutators.ts, the writes of a user and the check of who writes, and
--   enrichMutationData, with which the user interface prepares them.
-- - EmailChange: packages/auth/plugins/email-change-otp/index.ts.
-- - Tests: the theorems on concrete data.
--
-- Times are numbers of milliseconds. `clock` reads the time from the database, so that it may differ
-- from one call to the next. The two statements of processExternalLinks, which the source runs
-- concurrently, run one after the other, and which is first is a parameter. The entities and the
-- mutations of a push, which have unbounded concurrency, are processed in any interleaving: Push is a step
-- relation, one whole mutation to a step. `sync_pages` has fuel, one unit for each page that is requested,
-- and is a defect without it; one unit more than there are pages is enough. So it is with the list of the
-- webhook subscriptions. The calls of a transaction of Mutators are recorded. An activity is attempted
-- four times at most, and what an attempt did before it failed stays done; that the workflow engine keeps
-- the results of activities is left out. A daemon fiber runs after the answer. The token that is loaded
-- for an organisation may be any of its rows; elsewhere a SELECT without ORDER BY gives the rows in the
-- order of the table. The fibers of TokenAuth are not interrupted, and a refresh token counts as used once
-- it has been exchanged.
--
-- Parameters: the HTTP client and, in the adapter, the transformations by schema (`Pco`); the parsing
-- of dates, new ids and the tables of the schemas (`Runtime`); signatures, and the API of the webhooks
-- (`WebhookApi`); the order of `jsonb_agg`; the decoding of items by a schema, and what a transaction
-- refuses (Mutators); the services of an organisation (Workflows); the request for a token and whether a
-- workflow starts (Connect); keys, tokens and sessions (Session); the processor of a push (ZeroPush); the
-- names of tables and entities (Pco/Manifest). Not modelled: the pages of the OAuth flow, the rate limits
-- and the table filters (copies of other projects), the components of the user interface and the inputs
-- that they choose, invalid dates, the default query of a list of Planning Center, logging, and errors
-- of the database connection.
pub mod Common
pub mod Connect
pub mod Deletion
pub mod EdgeDirection
pub mod EmailChange
pub mod Entities
pub mod InternalManager
pub mod Links
pub mod Merge
pub mod Mutations
pub mod Mutators
pub mod Pco
pub mod Relations
pub mod Relationships
pub mod Schema
pub mod Session
pub mod Sql
pub mod Store
pub mod Strings
pub mod SyncEngine
pub mod Tests
pub mod TokenAuth
pub mod Workflows
pub mod ZeroPush
