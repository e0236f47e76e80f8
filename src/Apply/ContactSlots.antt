-- ===== src/Apply/ContactSlots.antt =====
-- The slots (type and rank) that ReplaceEntityContacts (internal/db/queries_contacts.go) gives to
-- contacts that requireResolvedContacts (internal/handlers/proposals.go) has let through.
use topology_v.Base.{
  ℕ, zero, suc, ◌+◌, ◌≤◌, ◌<◌, String, Bool, false, Option, none, List, [], ◌∷◌, ◌++◌, ◌≡◌, refl,
  sym, ap, ◌∙◌, arith, str_eq, eq_iff, any, ◌&&◌, Bool-cases, inl, inr, append_assoc, append-nil,
}
use topology_v.Base.Results.{ok}
use topology_v.Models.{Kind}
use topology_v.Db.{Database, EntityContactRow}
use topology_v.Payloads.{EntityContact}
use topology_v.Queries.Contacts.{
  Counters, no_counts, increment, rank_for_order, is_blank, upsert_provisioned_contact_user,
  add_entity_contact, insert_entity_contacts, clear_entity_contacts, replace_entity_contacts,
}
use topology_v.Apply.Contacts.{require_resolved_contacts}
use topology_v.Apply.ResolvedContacts.{count_of, resolved-at_most_three}

abbrev slot_taken : String → String → List EntityContactRow → Bool
slot_taken t rank rows = any (λ r. str_eq r.contact_type t && str_eq r.rank rank) rows

-- No two of the rows have the same type and rank.
abbrev pub DistinctSlots : List EntityContactRow → Type 0
DistinctSlots [] = Unit {0}
DistinctSlots (r ∷ rows) = (slot_taken r.contact_type r.rank rows ≡ false) × DistinctSlots rows

rank_for_order-apart :
    (k n : ℕ) → k < n → n ≤ 2 → str_eq (rank_for_order n) (rank_for_order k) ≡ false
rank_for_order-apart k zero h l = absurd (omega arith)
rank_for_order-apart zero (suc zero) h l = refl
rank_for_order-apart (suc k) (suc zero) h l = absurd (omega arith)
rank_for_order-apart zero (suc (suc zero)) h l = refl
rank_for_order-apart (suc zero) (suc (suc zero)) h l = refl
rank_for_order-apart (suc (suc k)) (suc (suc zero)) h l = absurd (omega arith)
rank_for_order-apart k (suc (suc (suc n))) h l = absurd (omega arith)

upsert-entity_contacts :
    (name id : String) (db : Database)
    → (upsert_provisioned_contact_user name id db).1.entity_contacts ≡ db.entity_contacts
unfolding upsert_provisioned_contact_user
upsert-entity_contacts name id db = ground arith

-- The rows that the loop adds, with the slots that it has used up before left out.
record Slots (m : Counters) (rows rows' : List EntityContactRow) : Type 0 where
  added : List EntityContactRow
  appended : rows' ≡ rows ++ added
  distinct : DistinctSlots added
  above : (t : String) (k : ℕ) → k < m t → slot_taken t (rank_for_order k) added ≡ false

insert-Slots :
    (kind : Kind) (name : String) (m : Counters) (cs : List EntityContact) (db : Database)
    → ((t : String) → m t + count_of t cs ≤ 3)
    → Slots m db.entity_contacts (insert_entity_contacts kind name m cs db).entity_contacts
unfolding insert_entity_contacts
insert-Slots kind name m [] db h = record {
  added = [];
  appended = sym (append-nil db.entity_contacts);
  distinct = tt;
  above = λ t k l. refl;
}
insert-Slots kind name m (c ∷ cs) db h = elim (Bool-cases (is_blank c)) [
  | inl b ↦ rw b (insert-Slots kind name m cs db (λ t. ground (arith, h t, b)))
  | inr b ↦
      let next = increment c.contact_type m in
      let s =
        insert-Slots kind name next cs (add_entity_contact kind name m c db)
          (λ t. ground (arith, h t, b, eq_iff c.contact_type t)) in
      let same = (eq_iff c.contact_type c.contact_type).1 refl in
      let small : m c.contact_type ≤ 2 = ground (arith, h c.contact_type, b, same) in
      let row : EntityContactRow = record {
        entity_kind = kind;
        entity_name = name;
        contact_type = c.contact_type;
        rank = rank_for_order (m c.contact_type);
        contact_name = c.name;
        contact_id = c.id;
        user_id = (upsert_provisioned_contact_user c.name c.id db).0;
        deleted_at = none;
        deleted_by = none;
      } in
      rw b (record {
        added = row ∷ s.added;
        appended =
            s.appended
            ∙ ap (λ x. (x ++ row ∷ []) ++ s.added) (upsert-entity_contacts c.name c.id db)
            ∙ append_assoc db.entity_contacts (row ∷ []) s.added;
        distinct = (s.above c.contact_type (m c.contact_type) (ground (arith, same)), s.distinct);
        above = λ t k l. elim (Bool-cases (str_eq c.contact_type t)) [
          | inl e ↦
              let q : c.contact_type ≡ t = (eq_iff c.contact_type t).0 e in
              let apart =
                rank_for_order-apart k (m c.contact_type) (ground (arith, ap m q, l)) small in
              ground (arith, apart, s.above t k (ground (arith, e, l)))
          | inr e ↦ ground (arith, e, s.above t k (ground (arith, e, l)))
        ];
      })
]

-- The contacts that pass requireResolvedContacts take slots of their own: ReplaceEntityContacts
-- adds rows of which no two have the same type and rank.
pub replace_entity_contacts-DistinctSlots :
    (kind : Kind) (target name : String) (cs : List EntityContact) (by : Option ℕ) (db : Database)
    → require_resolved_contacts db cs ≡ ok tt
    → (added : List EntityContactRow) × ((replace_entity_contacts kind target name cs by
          db).entity_contacts
        ≡ (clear_entity_contacts kind target by db).entity_contacts ++ added)
      × DistinctSlots added
unfolding replace_entity_contacts
replace_entity_contacts-DistinctSlots kind target name cs by db h =
    let s =
      insert-Slots kind name no_counts cs (clear_entity_contacts kind target by db)
        (λ t. ground (arith, resolved-at_most_three db t cs h)) in
    (s.added, s.appended, s.distinct)
