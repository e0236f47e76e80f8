-- ===== src/Handoffs/Slots.antt =====
-- internal/db/queries_replacements.go: the slots, each an entity with a contact type and a rank.
pub mod Laws
use topology_v.Base.{
  ℕ, String, Bool, true, false, ◌&&◌, Option, none, some, List, [], ◌∷◌, ◌++◌, ◌==◌, str_eq,
  is_none, find?, update_where, if◌then◌else◌,
}
use topology_v.Models.{Kind, resource, resource_group, site, facility}
use topology_v.Table.{by_name}
use topology_v.Db.{Database, ResourceContact, EntityContactRow}
use topology_v.Queries.Contacts.{same_kind}

-- replacementKinds.
abbrev pub replacement_kind : Kind → Bool
replacement_kind resource = true
replacement_kind resource_group = true
replacement_kind site = true
replacement_kind facility = true
replacement_kind _ = false

-- (entity_kind, entity_name, contact_type, rank).
pub record Slot : Type 0 where
  pub entity_kind : Kind
  pub entity_name : String
  pub contact_type : String
  pub rank : String

-- ContactSlot, where it is found.
pub record Holder : Type 0 where
  pub name : String
  pub user : Option ℕ

-- The contact that takes a slot: its name, its contact id and its user.
pub record NewHolder : Type 0 where
  pub name : String
  pub contact_id : String
  pub user : ℕ

abbrev pub is_resource : Kind → Bool
is_resource resource = true
is_resource _ = false

-- The live rows of a slot.
abbrev pub holds_resource : Slot → ℕ → ResourceContact → Bool
holds_resource s id c =
    c.resource_id == id
    && str_eq c.contact_type s.contact_type
    && str_eq c.rank s.rank
    && is_none c.deleted_at

abbrev pub holds_entity : Slot → EntityContactRow → Bool
holds_entity s c =
    same_kind c.entity_kind s.entity_kind
    && str_eq c.entity_name s.entity_name
    && str_eq c.contact_type s.contact_type
    && str_eq c.rank s.rank
    && is_none c.deleted_at

abbrev pub resource_holder : Option ResourceContact → Option Holder
resource_holder none = none
resource_holder (some c) = some (record { name = c.contact_name; user = c.user_id })

abbrev pub entity_holder : Option EntityContactRow → Option Holder
entity_holder none = none
entity_holder (some c) = some (record { name = c.contact_name; user = c.user_id })

-- GetContactSlot: `none` is a slot that is not found. The names of the live resources are unique, so
-- the join is a lookup.
unfoldable pub get_contact_slot : Slot → Database → Option Holder
get_contact_slot s db =
    if is_resource s.entity_kind
    then elim (by_name s.entity_name db.resources) [
      | none ↦ none
      | some r ↦ resource_holder (find? (holds_resource s r.id) db.resource_contacts)
    ]
    else entity_holder (find? (holds_entity s) db.entity_contacts)

-- The rows of AddResourceContact and AddEntityContact.
abbrev pub new_resource_row : Slot → ℕ → NewHolder → ResourceContact
new_resource_row s id new = record {
  resource_id = id;
  contact_type = s.contact_type;
  rank = s.rank;
  contact_name = new.name;
  contact_id = new.contact_id;
  user_id = some new.user;
  deleted_at = none;
  deleted_by = none;
}

abbrev pub new_entity_row : Slot → NewHolder → EntityContactRow
new_entity_row s new = record {
  entity_kind = s.entity_kind;
  entity_name = s.entity_name;
  contact_type = s.contact_type;
  rank = s.rank;
  contact_name = new.name;
  contact_id = new.contact_id;
  user_id = some new.user;
  deleted_at = none;
  deleted_by = none;
}

-- AddResourceContact.
abbrev pub add_resource_contact : Slot → ℕ → NewHolder → List ResourceContact → List ResourceContact
add_resource_contact s id new cs = cs ++ new_resource_row s id new ∷ []

-- AddEntityContact.
abbrev pub add_contact : Slot → NewHolder → List EntityContactRow → List EntityContactRow
add_contact s new cs = cs ++ new_entity_row s new ∷ []

-- ReplaceContactSlot: `none` is ErrNotFound, for a resource that is not there.
unfoldable pub replace_contact_slot : Slot → NewHolder → ℕ → Database → Option Database
replace_contact_slot s new by db =
    if is_resource s.entity_kind
    then elim (by_name s.entity_name db.resources) [
      | none ↦ none
      | some r ↦ some (record db {
        resource_contacts = add_resource_contact s r.id new (
            update_where (holds_resource s r.id)
              (λ c. record c { deleted_at = some db.now; deleted_by = some by })
              db.resource_contacts);
      })
    ]
    else some (record db {
      entity_contacts = add_contact s new (
          update_where (holds_entity s)
            (λ c. record c { deleted_at = some db.now; deleted_by = some by }) db.entity_contacts);
    })
