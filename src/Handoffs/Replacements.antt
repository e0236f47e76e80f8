-- ===== src/Handoffs/Replacements.antt =====
-- internal/handlers/replacements.go, with the statements on contact_replacements of
-- internal/db/queries_replacements.go and `audit` of internal/handlers/proposals.go.
pub mod Laws
use topology_v.Base.{
  ℕ, ◌+◌, String, Bool, true, false, not, ◌&&◌, ◌||◌, Option, none, some, List, [], ◌∷◌, ◌++◌, ◌==◌,
  str_eq, is_none, any, find?, update_where, if◌then◌else◌,
}
use topology_v.Base.Results.{Outcome, ok, err}
use topology_v.Models.{
  Kind, Status, pending, approved, rejected, withdrawn, is_pending, resource, resource_group, site,
  facility,
}
use topology_v.Models.Roles.{is_manager_or_admin}
use topology_v.Json.{Json}
use topology_v.Db.{
  Database, UserRow, ReplacementRow, Action, replacement_create, replacement_approved,
  replacement_rejected,
}
use topology_v.Handlers.{Session}
use topology_v.Accounts.Users.{get_user, deref}
use topology_v.Queries.Contacts.{is_user}
use topology_v.Handoffs.Slots.{
  Slot, Holder, NewHolder, get_contact_slot, replace_contact_slot, replacement_kind,
}

pub data HandoffError : Type 0 where
  invalid_body slot_fields_required no_such_slot already_held loading_requester : HandoffError
  request_not_found already_decided not_the_incumbent applying_failed not_the_requester :
      HandoffError

abbrev pub names_proposal : Option ℕ → Database → Bool
names_proposal none db = true
names_proposal (some id) db = any (λ p. p.id == id) db.proposals

-- `audit` with AppendAudit, for an entry that names a proposal or none: the column proposal_id
-- references change_proposals, and the error of the INSERT is dropped.
unfoldable pub audit : ℕ → Action → Kind → String → Option ℕ → Option Json → Database → Database
audit actor action kind entity proposal detail db =
    if names_proposal proposal db
    then record db {
      audit_log =
          db.audit_log
          ++ record {
            actor = actor;
            action = action;
            entity_kind = kind;
            entity_id = entity;
            proposal_id = proposal;
            detail = detail;
            created_at = db.now;
          }
            ∷ [];
    }
    else db

abbrev pub is_complete : Slot → Bool
is_complete s =
    replacement_kind s.entity_kind
    && not (str_eq s.entity_name "" || str_eq s.contact_type "" || str_eq s.rank "")

-- GetContactReplacement.
unfoldable pub get_contact_replacement : ℕ → Database → Option ReplacementRow
get_contact_replacement id db = find? (λ r. r.id == id) db.replacements

-- CreateContactReplacement (the statement): the id and the new row.
abbrev pub new_request : ℕ → Slot → Holder → UserRow → String → ReplacementRow
new_request id s holder requester note = record {
  id = id;
  entity_kind = s.entity_kind;
  entity_name = s.entity_name;
  contact_type = s.contact_type;
  rank = s.rank;
  incumbent_user = holder.user;
  incumbent_name = holder.name;
  requester_user = requester.id;
  requester_name = requester.display_name;
  requester_contact_id = deref requester.legacy_contact_id;
  note = note;
  status = pending;
  decided_at = none;
  decided_by = none;
}

-- fileReplacement, on behalf of a user: the id of the request.
unfoldable pub file_replacement : Slot → String → ℕ → Database → Outcome HandoffError (ℕ × Database)
unfolding audit
file_replacement s note user db =
    if is_complete s
    then elim (get_contact_slot s db) [
      | none ↦ err no_such_slot
      | some holder ↦
          if is_user holder.user user then err already_held else elim (get_user user db) [
            | none ↦ err loading_requester
            | some requester ↦ ok (
              db.next_uuid,
              audit user replacement_create s.entity_kind s.entity_name (some db.next_uuid) none
                  (record db {
                    replacements =
                        db.replacements ++ new_request db.next_uuid s holder requester note ∷ [];
                    next_uuid = db.next_uuid + 1;
                  }),
            )
          ]
    ]
    else err slot_fields_required

-- CreateContactReplacement (the handler).
unfoldable pub create_contact_replacement :
    Session → Option (Slot × String) → Database → Outcome HandoffError (ℕ × Database)
unfolding file_replacement
create_contact_replacement s none db = err invalid_body
create_contact_replacement s (some (slot, note)) db = file_replacement slot note s.user_id db

-- DecideContactReplacement.
unfoldable pub decide_contact_replacement : ℕ → Status → ℕ → Database → Database
decide_contact_replacement id status by db = record db {
  replacements =
      update_where (λ r. r.id == id && is_pending r.status)
        (λ r. record r { status = status; decided_at = some db.now; decided_by = some by })
        db.replacements;
}

abbrev pub slot_of : ReplacementRow → Slot
slot_of r = record {
  entity_kind = r.entity_kind;
  entity_name = r.entity_name;
  contact_type = r.contact_type;
  rank = r.rank;
}

-- The approval's effect on the slot; a rejection has none.
abbrev pub apply_decision :
    Bool → ReplacementRow → ℕ → Database → Outcome HandoffError (Status × Action × Database)
apply_decision false r by db = ok (rejected, replacement_rejected, db)
apply_decision true r by db = elim (get_user r.requester_user db) [
  | none ↦ err loading_requester
  | some requester ↦
      elim (replace_contact_slot (slot_of r)
        (record {
          name = r.requester_name;
          contact_id = deref requester.legacy_contact_id;
          user = r.requester_user;
        })
        by db) [
          | none ↦ err applying_failed
          | some after ↦ ok (approved, replacement_approved, after)
        ]
]

abbrev pub can_decide_replacement : Session → ReplacementRow → Bool
can_decide_replacement s r = is_user r.incumbent_user s.user_id || is_manager_or_admin s.roles

-- DecideReplacement: the new status, with the database. An error leaves the database as it was.
unfoldable pub decide_replacement :
    Session → ℕ → Bool → Database → Outcome HandoffError (Status × Database)
unfolding audit
decide_replacement s id approve db = elim (get_contact_replacement id db) [
  | none ↦ err request_not_found
  | some r ↦
      if is_pending r.status
      then if can_decide_replacement s r
        then elim (apply_decision approve r s.user_id db) [
          | err e ↦ err e
          | ok (status, action, after) ↦ ok (
            status,
            audit s.user_id action r.entity_kind r.entity_name (some id) none
                (decide_contact_replacement id status s.user_id after),
          )
        ]
        else err not_the_incumbent
      else err already_decided
]

-- WithdrawReplacement.
unfoldable pub withdraw_replacement :
    Session → ℕ → Database → Outcome HandoffError (Status × Database)
withdraw_replacement s id db = elim (get_contact_replacement id db) [
  | none ↦ err request_not_found
  | some r ↦
      if r.requester_user == s.user_id
      then ok (withdrawn, decide_contact_replacement id withdrawn s.user_id db)
      else err not_the_requester
]
