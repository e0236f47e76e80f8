-- ===== src/Queries/Contacts.antt =====
-- internal/db/queries_contacts.go, with the statements on users of internal/db/queries_auth.go and
-- RepointEntityNameReferences of internal/db/queries_replacements.go.
use topology_v.Base.{
  ℕ, zero, suc, ◌+◌, String, Bool, true, false, Option, none, some, List, [], ◌∷◌, ◌++◌, ◌&&◌, ◌||◌,
  str_eq, is_none, any, find?, update_where, if◌then◌else◌, ◌==◌,
}
use topology_v.Models.{
  Kind, resource, resource_group, site, facility, role_claim, replacement_request, is_pending,
}
use topology_v.Table.{is_named}
use topology_v.Db.{Database, EntityContactRow, UserRow, InviteRow, RoleClaim}
use topology_v.Payloads.{EntityContact}

-- The kinds that entity_contacts, contact_replacements and role claims use.
abbrev pub same_kind : Kind → Kind → Bool
same_kind resource resource = true
same_kind resource_group resource_group = true
same_kind site site = true
same_kind facility facility = true
same_kind _ _ = false

-- rankForOrder: the third rank from the third contact on.
abbrev pub rank_for_order : ℕ → String
rank_for_order zero = "Primary"
rank_for_order (suc zero) = "Secondary"
rank_for_order _ = "Tertiary"

-- A Go map of counters: `m[k]` is 0 for a missing key, and `m[k]++`.
abbrev pub Counters : Type 0
Counters = String → ℕ

abbrev pub no_counts : Counters
no_counts k = 0

abbrev pub increment : String → Counters → Counters
increment k m j = if str_eq k j then suc (m j) else m j

abbrev pub has_legacy_id : String → UserRow → Bool
has_legacy_id id u = elim u.legacy_contact_id [ none ↦ false | some l ↦ str_eq l id ]

-- LegacyContactIDExists.
unfoldable pub legacy_contact_id_exists : String → Database → Bool
legacy_contact_id_exists id db = any (has_legacy_id id) db.users

-- DO UPDATE SET display_name, only where there is none.
abbrev pub name_if_missing : String → UserRow → UserRow
name_if_missing name u = record u {
  display_name = if str_eq u.display_name "" then name else u.display_name;
}

-- UpsertProvisionedContactUser: the user's id, and none for a contact without id.
unfoldable pub upsert_provisioned_contact_user : String → String → Database → Option ℕ × Database
upsert_provisioned_contact_user name id db =
    if str_eq id "" then (none, db) else elim (find? (has_legacy_id id) db.users) [
      | some u ↦ (
        some u.id,
        record db { users = update_where (has_legacy_id id) (name_if_missing name) db.users },
      )
      | none ↦ (
        some db.next_uuid,
        record db {
          users =
              db.users
              ++ record {
                id = db.next_uuid;
                display_name = name;
                username = none;
                status = "active";
                legacy_contact_id = some id;
                is_provisioned = true;
                last_login = none;
              }
                ∷ [];
          next_uuid = db.next_uuid + 1;
        },
      )
    ]

-- The live contacts of an entity.
abbrev pub is_contact_of : Kind → String → EntityContactRow → Bool
is_contact_of kind name c =
    same_kind c.entity_kind kind && str_eq c.entity_name name && is_none c.deleted_at

abbrev pub is_blank : EntityContact → Bool
is_blank c = str_eq c.name "" && str_eq c.id ""

-- The INSERT of one contact, with the rank of its place and the user of its id.
abbrev pub add_entity_contact : Kind → String → Counters → EntityContact → Database → Database
add_entity_contact kind name per_type c db =
    let (user, db') = upsert_provisioned_contact_user c.name c.id db in
    record db' {
      entity_contacts =
          db'.entity_contacts
          ++ record {
            entity_kind = kind;
            entity_name = name;
            contact_type = c.contact_type;
            rank = rank_for_order (per_type c.contact_type);
            contact_name = c.name;
            contact_id = c.id;
            user_id = user;
            deleted_at = none;
            deleted_by = none;
          }
            ∷ [];
    }

-- The loop of ReplaceEntityContacts over the submitted contacts.
unfoldable pub insert_entity_contacts :
    Kind → String → Counters → List EntityContact → Database → Database
insert_entity_contacts kind name per_type [] db = db
insert_entity_contacts kind name per_type (c ∷ cs) db =
    let skipped = insert_entity_contacts kind name per_type cs db in
    let continued =
      insert_entity_contacts kind name (increment c.contact_type per_type) cs
        (add_entity_contact kind name per_type c db) in
    if is_blank c then skipped else continued

-- The UPDATE that soft-deletes the current contacts.
abbrev pub clear_entity_contacts : Kind → String → Option ℕ → Database → Database
clear_entity_contacts kind target by db = record db {
  entity_contacts =
      update_where (is_contact_of kind target)
        (λ c. record c { deleted_at = some db.now; deleted_by = by }) db.entity_contacts;
}

-- ReplaceEntityContacts.
unfoldable pub replace_entity_contacts :
    Kind → String → String → List EntityContact → Option ℕ → Database → Database
replace_entity_contacts kind target new contacts by db =
    insert_entity_contacts kind new no_counts contacts (clear_entity_contacts kind target by db)

-- RepointEntityNameReferences.
abbrev is_open_claim : Kind → String → InviteRow → Bool
is_open_claim kind target i =
    elim i.kind [ role_claim ↦ true | replacement_request ↦ true | _ ↦ false ]
    && is_none i.used_at
    && elim i.claim [
      | none ↦ false
      | some c ↦ same_kind c.entity_kind kind && str_eq c.entity_id target
    ]

-- jsonb_set(claim, '{entity_id}', …).
abbrev claim_on : String → Option RoleClaim → Option RoleClaim
claim_on new none = none
claim_on new (some c) = some (record c { entity_id = new })

unfoldable pub repoint_entity_name_references : Kind → String → String → Database → Database
repoint_entity_name_references kind target new db = record db {
  replacements =
      update_where
        (λ r. same_kind r.entity_kind kind && str_eq r.entity_name target && is_pending r.status)
        (λ r. record r { entity_name = new }) db.replacements;
  invites =
      update_where (is_open_claim kind target) (λ i. record i { claim = claim_on new i.claim })
        db.invites;
}

-- IsResourceContact: a contact of the resource itself, or of its resource group, site or facility.
abbrev pub is_user : Option ℕ → ℕ → Bool
is_user none id = false
is_user (some u) id = u == id

unfoldable pub is_resource_contact : ℕ → String → Database → Bool
is_resource_contact user name db =
    if str_eq name ""
    then false
    else any
        (λ rc.
          is_none rc.deleted_at
          && is_user rc.user_id user
          && any (λ r. is_named name r && r.id == rc.resource_id) db.resources)
        db.resource_contacts
      || any
          (λ r.
            is_named name r
            && any
                (λ rg.
                  rg.id == r.parent
                  && any
                      (λ s.
                        s.id == rg.parent
                        && any
                            (λ f.
                              f.id == s.parent
                              && any
                                  (λ ec.
                                    is_none ec.deleted_at
                                    && is_user ec.user_id user
                                    && (same_kind ec.entity_kind resource_group
                                          && str_eq ec.entity_name rg.name
                                        || same_kind ec.entity_kind site
                                          && str_eq ec.entity_name s.name
                                        || same_kind ec.entity_kind facility
                                          && str_eq ec.entity_name f.name))
                                  db.entity_contacts)
                            db.facilities)
                      db.sites)
                db.resource_groups)
          db.resources
