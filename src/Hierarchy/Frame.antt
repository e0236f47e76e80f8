-- ===== src/Hierarchy/Frame.antt =====
-- The statements that leave the four tables of the hierarchy alone.
use topology_v.Base.{ℕ, String, Option, some, List, [], ◌∷◌, ◌≡◌, refl, ◌∙◌, arith}
use topology_v.Base.Results.{ok, ok-eq}
use topology_v.Errors.{Result}
use topology_v.Models.{Kind}
use topology_v.Db.{Database}
use topology_v.Payloads.{EntityContact}
use topology_v.Queries.Contacts.{
  Counters, increment, no_counts, add_entity_contact, clear_entity_contacts,
  upsert_provisioned_contact_user, insert_entity_contacts, replace_entity_contacts,
  repoint_entity_name_references,
}
use topology_v.Apply.Change.{Change}
use topology_v.Apply.Hierarchy.{finish}
use topology_v.Hierarchy.{IsLinked, SameTables}

pub SameTables-refl : (db : Database) → SameTables db db
SameTables-refl db = record { facilities = refl; sites = refl; groups = refl; resources = refl }

pub SameTables-trans : (a b c : Database) → SameTables a b → SameTables b c → SameTables a c
SameTables-trans a b c h k = record {
  facilities = k.facilities ∙ h.facilities;
  sites = k.sites ∙ h.sites;
  groups = k.groups ∙ h.groups;
  resources = k.resources ∙ h.resources;
}

pub SameTables-IsLinked : (db db' : Database) → SameTables db db' → IsLinked db → IsLinked db'
SameTables-IsLinked db db' s h = record {
  sites = rw (s.facilities, s.sites) h.sites;
  groups = rw (s.sites, s.groups) h.groups;
  resources = rw (s.groups, s.resources) h.resources;
}

-- The result of a step has the hierarchy, where the database that it returns has it.
pub IsLinked-ok :
    (a b : Database) (r : Result Database) → r ≡ ok a → r ≡ ok b → IsLinked a → IsLinked b
IsLinked-ok a b r h k l = rw (ok-eq r h k) l

pub upsert_user-SameTables :
    (name id : String) (db : Database)
    → SameTables db (upsert_provisioned_contact_user name id db).1
unfolding upsert_provisioned_contact_user
upsert_user-SameTables name id db = ground arith

pub insert_entity_contacts-SameTables :
    (kind : Kind) (name : String) (m : Counters) (cs : List EntityContact) (db : Database)
    → SameTables db (insert_entity_contacts kind name m cs db)
unfolding insert_entity_contacts
insert_entity_contacts-SameTables kind name m [] db = SameTables-refl db
insert_entity_contacts-SameTables kind name m (c ∷ cs) db = ground (
  arith,
  upsert_user-SameTables c.name c.id db,
  insert_entity_contacts-SameTables kind name m cs db,
  insert_entity_contacts-SameTables kind name (increment c.contact_type m) cs
      (add_entity_contact kind name m c db),
)

replace_entity_contacts-SameTables :
    (kind : Kind) (target name : String) (cs : List EntityContact) (by : Option ℕ) (db : Database)
    → SameTables db (replace_entity_contacts kind target name cs by db)
unfolding replace_entity_contacts
replace_entity_contacts-SameTables kind target name cs by db =
    let h =
      insert_entity_contacts-SameTables kind name no_counts cs
        (clear_entity_contacts kind target by db) in
    record {
      facilities = h.facilities;
      sites = h.sites;
      groups = h.groups;
      resources = h.resources;
    }

repoint-SameTables :
    (kind : Kind) (target new : String) (db : Database)
    → SameTables db (repoint_entity_name_references kind target new db)
unfolding repoint_entity_name_references
repoint-SameTables kind target new db = record {
  facilities = refl;
  sites = refl;
  groups = refl;
  resources = refl;
}

pub finish-SameTables :
    (kind : Kind) (p : Change) (name : String) (cs : List EntityContact) (actor : ℕ) (db : Database)
    → SameTables db (finish kind p name cs actor db)
unfolding finish
finish-SameTables kind p name cs actor db =
    let kept = replace_entity_contacts kind p.target_name name cs (some actor) db in
    ground (
      arith,
      replace_entity_contacts-SameTables kind p.target_name name cs (some actor) db,
      repoint-SameTables kind p.target_name name kept,
    )
