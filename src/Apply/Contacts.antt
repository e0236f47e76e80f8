-- ===== src/Apply/Contacts.antt =====
-- requireResolvedContacts and requireResolvedResourceContacts (internal/handlers/proposals.go).
use topology_v.Base.{suc, String, Bool, List, [], ◌∷◌, str_eq, ltb, not, ◌&&◌, ◌||◌, if◌then◌else◌}
use topology_v.Base.Results.{ok, err, ◌>>◌}
use topology_v.Errors.{Result, too_many_contacts, unknown_contact, bad_rank}
use topology_v.Db.{Database}
use topology_v.Payloads.{EntityContact, Contact}
use topology_v.Queries.Contacts.{Counters, no_counts, increment, is_blank, legacy_contact_id_exists}

-- The loop of requireResolvedContacts over the contacts, with its counters by type.
unfoldable pub resolve_from : Database → Counters → List EntityContact → Result (Unit {0})
resolve_from db per_type [] = ok tt
resolve_from db per_type (c ∷ cs) =
    let skipped = resolve_from db per_type cs in
    let rest = resolve_from db (increment c.contact_type per_type) cs in
    if is_blank c
    then skipped
    else if ltb 3 (suc (per_type c.contact_type))
    then err (too_many_contacts c.contact_type)
    else if legacy_contact_id_exists c.id db
    then rest
    else err (unknown_contact c.name)

unfoldable pub require_resolved_contacts : Database → List EntityContact → Result (Unit {0})
require_resolved_contacts db contacts = resolve_from db no_counts contacts

-- validContactRanks.
abbrev pub is_valid_rank : String → Bool
is_valid_rank rank = str_eq rank "Primary" || str_eq rank "Secondary" || str_eq rank "Tertiary"

-- The inner loop of requireResolvedResourceContacts, over the ranks of a type.
unfoldable pub resolve_ranks : Database → String → List (String × Contact) → Result (Unit {0})
resolve_ranks db ctype [] = ok tt
resolve_ranks db ctype ((rank, c) ∷ ranks) =
    let rest = resolve_ranks db ctype ranks in
    if not (is_valid_rank rank)
    then err (bad_rank rank ctype)
    else if str_eq c.name "" && str_eq c.id ""
    then rest
    else if legacy_contact_id_exists c.id db
    then rest
    else err (unknown_contact c.name)

-- Its outer loop, over the types.
unfoldable pub require_resolved_resource_contacts :
    Database → List (String × List (String × Contact)) → Result (Unit {0})
require_resolved_resource_contacts db [] = ok tt
require_resolved_resource_contacts db ((ctype, ranks) ∷ lists) = do
  resolve_ranks db ctype ranks
  require_resolved_resource_contacts db lists
