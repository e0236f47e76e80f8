-- ===== src/Apply/ResolvedContacts.antt =====
-- What requireResolvedContacts (internal/handlers/proposals.go) gives ReplaceEntityContacts
-- (internal/db/queries_contacts.go).
use topology_v.Base.{
  ℕ, ◌+◌, suc, String, Bool, true, false, List, [], ◌∷◌, ◌≡◌, ap, arith, Bool-cases, inl, inr,
  str_eq, eq_iff, not, ◌&&◌, ◌||◌, if◌then◌else◌, ltb, ◌≤◌,
}
use topology_v.Base.Results.{ok}
use topology_v.Db.{Database, UserRow}
use topology_v.Payloads.{EntityContact}
use topology_v.Queries.Contacts.{Counters, no_counts, increment, is_blank, legacy_contact_id_exists}
use topology_v.Apply.Contacts.{resolve_from, require_resolved_contacts}

-- The users but for their display names.
abbrev pub nameless : UserRow → UserRow
nameless u = record u { display_name = "" }

abbrev pub nameless_all : List UserRow → List UserRow
nameless_all [] = []
nameless_all (u ∷ us) = nameless u ∷ nameless_all us

-- Every display name of the first list that is not empty is that of the same row of the second.
abbrev pub keeps_names : List UserRow → List UserRow → Bool
keeps_names [] vs = true
keeps_names (u ∷ us) [] = false
keeps_names (u ∷ us) (v ∷ vs) =
    (str_eq u.display_name "" || str_eq v.display_name u.display_name) && keeps_names us vs

-- The same users with the same ids, and no new id; only an empty display name may be another.
pub record SameUsers (db db' : Database) : Type 0 where
  pub rows : nameless_all db'.users ≡ nameless_all db.users
  pub names : keeps_names db.users db'.users ≡ true
  pub ids : db'.next_uuid ≡ db.next_uuid

-- The contacts of a type, but for the blank ones.
abbrev pub count_of : String → List EntityContact → ℕ
count_of t [] = 0
count_of t (c ∷ cs) =
    let rest = count_of t cs in
    if not (is_blank c) && str_eq c.contact_type t then suc rest else rest

resolve_from-count :
    (db : Database) (t : String) (m : Counters) (cs : List EntityContact)
    → m t ≤ 3
    → resolve_from db m cs ≡ ok tt
    → m t + count_of t cs ≤ 3
unfolding resolve_from
resolve_from-count db t m [] b h = ground arith
resolve_from-count db t m (c ∷ cs) b h = elim (Bool-cases (is_blank c)) [
  | inl k ↦ ground (arith, resolve_from-count db t m cs b (rw k at h))
  | inr k ↦ elim (Bool-cases (ltb 3 (suc (m c.contact_type)))) [
    | inl l ↦ absurd (ground (arith, h, k, l))
    | inr l ↦ elim (Bool-cases (legacy_contact_id_exists c.id db)) [
      | inr x ↦ absurd (ground (arith, h, k, l, x))
      | inl x ↦
          let e : resolve_from db (increment c.contact_type m) cs ≡ ok tt = rw (k, l, x) at h in
          elim (Bool-cases (str_eq c.contact_type t)) [
            | inl y ↦
                let z : c.contact_type ≡ t = (eq_iff c.contact_type t).0 y in
                let small : suc (m t) ≤ 3 = ground (arith, ap m z, l) in
                let r =
                  resolve_from-count db t (increment c.contact_type m) cs (ground (arith, y, small))
                    e in
                ground (arith, k, y, r)
            | inr y ↦
                let r =
                  resolve_from-count db t (increment c.contact_type m) cs (ground (arith, y, b))
                    e in
                ground (arith, k, y, r)
          ]
    ]
  ]
]

-- The contacts that pass requireResolvedContacts are at most three of each type.
pub resolved-at_most_three :
    (db : Database) (t : String) (cs : List EntityContact)
    → require_resolved_contacts db cs ≡ ok tt
    → count_of t cs ≤ 3
unfolding require_resolved_contacts
resolved-at_most_three db t cs h =
    ground (arith, resolve_from-count db t no_counts cs (omega arith) h)
