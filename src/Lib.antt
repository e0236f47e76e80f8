-- ===== src/Lib.antt =====
-- The topology registry (a Go server over PostgreSQL): the change proposals that edit it.
--
-- A user proposes a change of an entity: a create, an update or a delete of a resource, resource
-- group, site, facility, project, support center, VO or downtime, or a bundle of such operations. A
-- proposal is drafted, submitted, revised, withdrawn or rejected, and approved, which applies it to
-- the live tables. The development models that path whole: the handlers, the checks and the apply
-- functions, and the SQL statements that they run. It also models who may take it: accounts with their
-- identities, sessions and invites, the hand-over of contact responsibilities, and, for the proposals
-- of the past, the import of a git history; and the feed of downtimes that other sites read.
--
-- Files, with the code that they model (paths from the repository's root):
--   Base             names, tests, list helpers and results that the other modules share
--   Models           internal/models: roles, statuses, operations, kinds; Models/Roles has
--                    EffectiveRole, isManagerOrAdmin and the test of RequireRole
--   Json, Merge      JSON values and internal/conv; mergeProposedState and its helpers of
--                    internal/handlers/proposal_snapshots.go
--   Table            the SQL shape that facilities, sites, resource groups and resources share;
--                    Table/Links has the lemmas on parents and children
--   Db               the tables as one record Database, with their rows (internal/db, migrations)
--   Payloads         the proposed_state structs of internal/handlers and internal/topology/model.go
--   External         what comes from libraries, as one record of functions
--   Errors, Schema   the apply step's errors; internal/proposalschema
--   Queries          the statements of internal/db: Contacts, Entities, Catalogue, Proposals
--   Apply            applyProposal and what it calls, one module for each group of kinds, with the
--                    theorems of Guards, Bundles, Payload, ResolvedContacts, ContactSlots, VoWalk,
--                    VoAncestors and SupportCenters
--   Snapshots        snapshotEntity and the functions that it dispatches to
--   Handlers         CreateProposal to ApproveProposal; Handlers/Requests is the router's view of
--                    them, Handlers/Cases and Handlers/Atomic are about their branches
--   Hierarchy        that every live row has a live parent, through every statement and request
--   Workflow         the workflow's own tables through every statement and request
--   Accounts         internal/db/queries_auth.go and internal/handlers/auth.go, middleware.go and
--                    email_verify.go: names, sessions, identities, the signed state of a sign-in and
--                    verified addresses; Accounts/Platform is the record of what they take from outside
--   Handoffs         contact slots, replacement requests and invites: internal/handlers/replacements.go
--                    and invites.go, AcceptInvite, internal/db/queries_replacements.go
--   Githistory       internal/githistory: path identities, path classes, the changes of a commit and
--                    the proposal that they become
--   Feeds            internal/xmlapi/rgdowntime.go: the downtime feed, with the listings that it runs
--   Tests            a small installation, and the theorems at concrete requests
--
-- Correspondence. A handler is a function from the database to the new one and a reply; a function
-- that returns a Go error returns an Outcome. A transaction that fails gives back the database that it
-- started from (db.WithTx), but for the ids that it has drawn from a sequence, which PostgreSQL does
-- not take back: Apply/Sequence counts them. A SQL statement is a function on Database that names its
-- errors: a broken unique index, a missing row, a foreign key. Names follow the source in snake case:
-- applyVOProposal is apply_vo, ReplaceEntityContacts is replace_entity_contacts. The JSON state that
-- applyProposal brings forward is also what ApproveProposal logs; with no upgrader registered it is
-- the stored one, which is what the model logs.
--
-- Numbers and fuel. An int64 is its 64-bit pattern as a natural number, a time is a natural number,
-- and NOW() is fixed during a request. The downtime feed counts in seconds, without the fractions that
-- its window of days compares. gen_random_uuid is a counter. The walk up the parents of a VO has fuel
-- for one round more than there are VOs, which is always enough (Apply/VoWalk). The recursion of
-- applyProposal into a bundle is one level deep, since a bundle in a bundle is refused first.
--
-- EnsureUsername has the 200 rounds of the source, and its failure is a value.
--
-- Outside the model: encoding/json, the JSON Schema validator, strconv, crypto/md5, time and yaml.v3
-- are parameters (External), and so are hashes, encryption, base64 and Unicode (Accounts/Platform),
-- the order of rows under the database's collation (FeedPlatform) and the YAML decoder and
-- json.Marshal of the history import (Githistory). Random tokens are arguments. A statement that fails
-- because the connection is lost is modelled only between the commit of an approval and the UPDATE of
-- its status, and the order of Go's map iteration and requests that overlap are not modelled. Nor are
-- the exchange with the OIDC provider, the read API, the other feeds, the file import and export,
-- running git, and the front end.
pub mod Base
pub mod Table
pub mod Models
pub mod Json
pub mod Merge
pub mod Db
pub mod Payloads
pub mod External
pub mod Errors
pub mod Schema
pub mod Queries
pub mod Apply
pub mod Snapshots
pub mod Handlers
pub mod Hierarchy
pub mod Workflow
pub mod Accounts
pub mod Handoffs
pub mod Githistory
pub mod Feeds
pub mod Tests
