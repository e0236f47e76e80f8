-- ===== src/Db.antt =====
-- The database: one field for each table that the modelled code reads or writes
-- (internal/db/migrations), the sequences that mint ids, and the time of the request.
-- gen_random_uuid is a counter, since it never repeats an id; NOW() is the time at which the
-- transaction began, and stays put during a request.
mod Rows
mod Workflow
pub use Rows.*
pub use Workflow.*
use topology_v.Base.{ℕ, String, List}
use topology_v.Table.{Row}

pub record Database : Type 0 where
  pub facilities : List (Row (Unit {0}) FacilityBody)
  pub sites : List (Row ℕ SiteBody)
  pub resource_groups : List (Row ℕ GroupBody)
  pub resources : List (Row ℕ ResourceBody)
  pub resource_services : List ServiceRow
  pub resource_contacts : List ResourceContact
  pub entity_contacts : List EntityContactRow
  pub downtimes : List DowntimeRow
  pub projects : List ProjectRow
  pub support_centers : List SupportCenterRow
  pub vos : List VoRow
  pub institutions : List String
  pub users : List UserRow
  pub user_roles : List UserRole
  pub identities : List IdentityRow
  pub sessions : List SessionRow
  pub email_verifications : List EmailVerification
  pub invites : List InviteRow
  pub replacements : List ReplacementRow
  pub proposals : List Proposal
  pub revisions : List Revision
  pub pending_invites : List PendingInvite
  pub audit_log : List AuditEntry
  pub next_uuid : ℕ
  pub resource_seq : ℕ
  pub now : ℕ
