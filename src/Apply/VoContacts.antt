-- ===== src/Apply/VoContacts.antt =====
-- voContactPairs and requireResolvedVOContacts (internal/handlers/vos.go).
use topology_v.Base.{
  String, Bool, Option, none, some, List, [], ◌∷◌, ◌++◌, str_eq, ◌&&◌, ◌||◌, any, if◌then◌else◌,
}
use topology_v.Base.Results.{Outcome, ok, err, ◌>>=◌}
use topology_v.Json.{Json, null, arr, obj, Fields, end, field, Items, nil, cons, get}
use topology_v.Errors.{Error, bad_contacts, unknown_contact}
use topology_v.Db.{Database}
use topology_v.Queries.Contacts.{legacy_contact_id_exists}
use topology_v.Apply.Catalogue.{name_of}

-- The triples of voContactPairs: type, ID and Name.
pub record VoContact : Type 0 where
  pub contact_type : String
  pub id : String
  pub name : String

abbrev cons_contact :
    String → Fields → Outcome Error (List VoContact) → Outcome Error (List VoContact)
cons_contact ctype person (ok rest) = ok (
    record {
      contact_type = ctype;
      id = name_of (get "ID" person);
      name = name_of (get "Name" person);
    }
    ∷ rest)
cons_contact ctype person (err e) = err e

unfoldable pub vo_contact_list : String → Items → Outcome Error (List VoContact)
vo_contact_list ctype nil = ok []
vo_contact_list ctype (cons (obj person) xs) = cons_contact ctype person (vo_contact_list ctype xs)
vo_contact_list ctype (cons _ xs) = err bad_contacts

-- voContactPairs: the types in any order.
unfoldable pub vo_contact_types : Fields → Outcome Error (List VoContact)
vo_contact_types end = ok []
vo_contact_types (field ctype (arr xs) fs) = do
  here ← vo_contact_list ctype xs
  rest ← vo_contact_types fs
  ok (here ++ rest)
vo_contact_types (field ctype _ fs) = err bad_contacts

unfoldable pub vo_contact_pairs : Option Json → Outcome Error (List VoContact)
vo_contact_pairs none = ok []
vo_contact_pairs (some null) = ok []
vo_contact_pairs (some (obj fs)) = vo_contact_types fs
vo_contact_pairs (some _) = err bad_contacts

abbrev pub same_contact : VoContact → VoContact → Bool
same_contact a b = str_eq a.contact_type b.contact_type && str_eq a.id b.id

abbrev pub or_empty : Outcome Error (List VoContact) → List VoContact
or_empty (ok cs) = cs
or_empty (err e) = []

-- The loop of requireResolvedVOContacts.
unfoldable pub resolve_vo_contacts :
    Database → List VoContact → List VoContact → Outcome Error (Unit {0})
resolve_vo_contacts db had [] = ok tt
resolve_vo_contacts db had (c ∷ cs) =
    let rest = resolve_vo_contacts db had cs in
    if (str_eq c.id "" && str_eq c.name "") || any (same_contact c) had
    then rest
    else if legacy_contact_id_exists c.id db
    then rest
    else err (unknown_contact c.name)

unfoldable pub require_resolved_vo_contacts :
    Database → Option Json → Option Json → Outcome Error (Unit {0})
require_resolved_vo_contacts db next prev = do
  pairs ← vo_contact_pairs next
  resolve_vo_contacts db (or_empty (vo_contact_pairs prev)) pairs
