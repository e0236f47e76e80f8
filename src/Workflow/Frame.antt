-- ===== src/Workflow/Frame.antt =====
-- The statements on contacts and on the tables of the hierarchy leave the workflow alone.
use topology_v.Base.{ℕ, String, Option, some, List, [], ◌∷◌, ◌≡◌, refl, ◌∙◌, arith}
use topology_v.Base.Results.{ok, ok-eq}
use topology_v.Errors.{Result}
use topology_v.Models.{Kind}
use topology_v.Db.{Database}
use topology_v.Payloads.{EntityContact}
use topology_v.Queries.Contacts.{
  Counters, increment, no_counts, add_entity_contact, clear_entity_contacts,
  upsert_provisioned_contact_user, insert_entity_contacts, replace_entity_contacts,
  repoint_entity_name_references,
}
use topology_v.Apply.Change.{Change}
use topology_v.Apply.Hierarchy.{finish}
use topology_v.Workflow.{SameWorkflow}

pub SameWorkflow-refl : (db : Database) → SameWorkflow db db
SameWorkflow-refl db = record {
  proposals = refl;
  revisions = refl;
  links = refl;
  log = refl;
  time = refl;
}

pub SameWorkflow-trans : (a b c : Database) → SameWorkflow a b → SameWorkflow b c → SameWorkflow a c
SameWorkflow-trans a b c h k = record {
  proposals = k.proposals ∙ h.proposals;
  revisions = k.revisions ∙ h.revisions;
  links = k.links ∙ h.links;
  log = k.log ∙ h.log;
  time = k.time ∙ h.time;
}

-- The result of a step that ends in a known database.
pub SameWorkflow-ok :
    (a b c : Database) (r : Result Database)
    → r ≡ ok b
    → r ≡ ok c
    → SameWorkflow a b
    → SameWorkflow a c
SameWorkflow-ok a b c r h k l = rw (ok-eq r h k) l

pub upsert_user-SameWorkflow :
    (name id : String) (db : Database)
    → SameWorkflow db (upsert_provisioned_contact_user name id db).1
unfolding upsert_provisioned_contact_user
upsert_user-SameWorkflow name id db = ground arith

pub insert_entity_contacts-SameWorkflow :
    (kind : Kind) (name : String) (m : Counters) (cs : List EntityContact) (db : Database)
    → SameWorkflow db (insert_entity_contacts kind name m cs db)
unfolding insert_entity_contacts
insert_entity_contacts-SameWorkflow kind name m [] db = SameWorkflow-refl db
insert_entity_contacts-SameWorkflow kind name m (c ∷ cs) db = ground (
  arith,
  upsert_user-SameWorkflow c.name c.id db,
  insert_entity_contacts-SameWorkflow kind name m cs db,
  insert_entity_contacts-SameWorkflow kind name (increment c.contact_type m) cs
      (add_entity_contact kind name m c db),
)

replace_entity_contacts-SameWorkflow :
    (kind : Kind) (target name : String) (cs : List EntityContact) (by : Option ℕ) (db : Database)
    → SameWorkflow db (replace_entity_contacts kind target name cs by db)
unfolding replace_entity_contacts
replace_entity_contacts-SameWorkflow kind target name cs by db =
    let h =
      insert_entity_contacts-SameWorkflow kind name no_counts cs
        (clear_entity_contacts kind target by db) in
    record {
      proposals = h.proposals;
      revisions = h.revisions;
      links = h.links;
      log = h.log;
      time = h.time;
    }

repoint-SameWorkflow :
    (kind : Kind) (target new : String) (db : Database)
    → SameWorkflow db (repoint_entity_name_references kind target new db)
unfolding repoint_entity_name_references
repoint-SameWorkflow kind target new db = record {
  proposals = refl;
  revisions = refl;
  links = refl;
  log = refl;
  time = refl;
}

pub finish-SameWorkflow :
    (kind : Kind) (p : Change) (name : String) (cs : List EntityContact) (actor : ℕ) (db : Database)
    → SameWorkflow db (finish kind p name cs actor db)
unfolding finish
finish-SameWorkflow kind p name cs actor db =
    let kept = replace_entity_contacts kind p.target_name name cs (some actor) db in
    ground (
      arith,
      replace_entity_contacts-SameWorkflow kind p.target_name name cs (some actor) db,
      repoint-SameWorkflow kind p.target_name name kept,
    )
