-- ===== src/Handoffs/Slots/Laws.antt =====
-- A slot that is taken over has one live holder, and the other slots keep theirs.
use mathlib.Core.Path.{subst}
use topology_v.Base.{
  ℕ, String, Bool, true, false, ◌&&◌, ◌≡◌, refl, ap, ◌∙◌, none, some, List, [], ◌∷◌, ◌++◌, map,
  ==_iff, str_eq, eq_iff, arith, find?, select, update_where, Bool-cases, Option-cases, ◌⊎◌, inl,
  inr, if◌then◌else◌,
}
use topology_v.Models.{Kind, resource, resource_group, site, facility}
use topology_v.Table.{Row, by_name}
use topology_v.Db.{Database, ResourceBody, ResourceContact, EntityContactRow}
use topology_v.Queries.Contacts.{same_kind}
use topology_v.Handoffs.Slots.{
  Slot, Holder, NewHolder, replacement_kind, is_resource, holds_resource, holds_entity,
  resource_holder, entity_holder, get_contact_slot, add_resource_contact, add_contact,
  new_resource_row, new_entity_row, replace_contact_slot,
}

-- All live holders of a slot.
abbrev pub holders : Slot → Database → List Holder
holders s db =
    if is_resource s.entity_kind
    then elim (by_name s.entity_name db.resources) [
      | none ↦ []
      | some r ↦
          map (λ c. record { name = c.contact_name; user = c.user_id })
            (select (holds_resource s r.id) db.resource_contacts)
    ]
    else map (λ c. record { name = c.contact_name; user = c.user_id })
        (select (holds_entity s) db.entity_contacts)

abbrev pub holder_of : NewHolder → Holder
holder_of new = record { name = new.name; user = some new.user }

-- Another contact type, or another rank.
abbrev pub is_same_place : Slot → Slot → Bool
is_same_place s s' = str_eq s.contact_type s'.contact_type && str_eq s.rank s'.rank

module _ {ℓ} {A : Type ℓ} where
  -- The rows that pass a test are marked, and fail it then; a row that passes is appended.
  select_replaced :
      (q : A → Bool) (f : A → A) (x : A) (xs : List A)
      → ((y : A) → q (f y) ≡ false)
      → q x ≡ true
      → select q (update_where q f xs ++ x ∷ []) ≡ x ∷ []
  select_replaced q f x [] h k = rw k refl
  select_replaced q f x (y ∷ ys) h k = ground (arith, h y, select_replaced q f x ys h k)

  find?_replaced :
      (q : A → Bool) (f : A → A) (x : A) (xs : List A)
      → ((y : A) → q (f y) ≡ false)
      → q x ≡ true
      → find? q (update_where q f xs ++ x ∷ []) ≡ some x
  find?_replaced q f x [] h k = rw k refl
  find?_replaced q f x (y ∷ ys) h k = ground (arith, h y, find?_replaced q f x ys h k)

  -- A test that no row of the slot passes, before or after.
  find?_others :
      (q r : A → Bool) (f : A → A) (x : A) (xs : List A)
      → ((y : A) → r y ≡ true → q y ≡ false)
      → ((y : A) → q (f y) ≡ false)
      → q x ≡ false
      → find? q (update_where r f xs ++ x ∷ []) ≡ find? q xs
  find?_others q r f x [] h g k = rw k refl
  find?_others q r f x (y ∷ ys) h g k = ground (arith, h y, g y, find?_others q r f x ys h g k)

same_kind_refl : (k : Kind) → replacement_kind k ≡ true → same_kind k k ≡ true
same_kind_refl resource e = refl
same_kind_refl resource_group e = refl
same_kind_refl site e = refl
same_kind_refl facility e = refl
same_kind_refl _ e = cc

abbrev retire_resource : ℕ → Database → ResourceContact → ResourceContact
retire_resource by db c = record c { deleted_at = some db.now; deleted_by = some by }

abbrev retire_entity : ℕ → Database → EntityContactRow → EntityContactRow
retire_entity by db c = record c { deleted_at = some db.now; deleted_by = some by }

-- The tables after a takeover.
abbrev after_resource : Slot → ℕ → NewHolder → ℕ → Database → Database
after_resource s id new by db = record db {
  resource_contacts =
      add_resource_contact s id new
        (update_where (holds_resource s id) (retire_resource by db) db.resource_contacts);
}

abbrev after_entity : Slot → NewHolder → ℕ → Database → Database
after_entity s new by db = record db {
  entity_contacts =
      add_contact s new (update_where (holds_entity s) (retire_entity by db) db.entity_contacts);
}

str_refl : (t : String) → str_eq t t ≡ true
str_refl t = (eq_iff t t).1 refl

abbrev resource_entry : ResourceContact → Holder
resource_entry c = record { name = c.contact_name; user = c.user_id }

holders-resource :
    (s : Slot) (d : Database) {r : Row ℕ ResourceBody}
    → is_resource s.entity_kind ≡ true
    → by_name s.entity_name d.resources ≡ some r
    → holders s d ≡ map resource_entry (select (holds_resource s r.id) d.resource_contacts)
holders-resource s d t n = rw (holders, t, n) refl

get_contact_slot-resource :
    (s : Slot) (d : Database) {r : Row ℕ ResourceBody}
    → is_resource s.entity_kind ≡ true
    → by_name s.entity_name d.resources ≡ some r
    → get_contact_slot s d ≡ resource_holder (find? (holds_resource s r.id) d.resource_contacts)
unfolding get_contact_slot
get_contact_slot-resource s d t n = rw (get_contact_slot, t, n) refl

-- What a takeover leaves.
abbrev Taken : Slot → Slot → NewHolder → Database → Database → Type 0
Taken s s' new db after =
    (holders s after ≡ holder_of new ∷ [])
    × (get_contact_slot s after ≡ some (holder_of new))
    × ((is_same_place s s' ≡ true) ⊎ (get_contact_slot s' after ≡ get_contact_slot s' db))

pub some_inj : {A : Type 0} {a b : A} → some a ≡ some b → a ≡ b
some_inj h = cc

other_resource :
    (s s' : Slot) (id : ℕ) (new : NewHolder) (by : ℕ) (db : Database)
    → is_same_place s s' ≡ false
    → get_contact_slot s' (after_resource s id new by db) ≡ get_contact_slot s' db
unfolding get_contact_slot
other_resource s s' id new by db apart = elim (Bool-cases (is_resource s'.entity_kind)) [
  | inr t ↦ rw (get_contact_slot, t) refl
  | inl t ↦ elim (Option-cases (by_name s'.entity_name db.resources)) [
    | inl n ↦ rw (get_contact_slot, t, n) refl
    | inr (r, n) ↦
        rw (get_contact_slot, t, n)
          (ap resource_holder (
            find?_others (holds_resource s' r.id) (holds_resource s id) (retire_resource by db) _
              db.resource_contacts
              (λ y h. ground (
                arith,
                apart,
                h,
                eq_iff y.contact_type s.contact_type,
                eq_iff y.contact_type s'.contact_type,
                eq_iff s.contact_type s'.contact_type,
                eq_iff y.rank s.rank,
                eq_iff y.rank s'.rank,
                eq_iff s.rank s'.rank,
              ))
              (λ y. ground arith) (ground (arith, apart))))
  ]
]

other_entity :
    (s s' : Slot) (new : NewHolder) (by : ℕ) (db : Database)
    → is_same_place s s' ≡ false
    → get_contact_slot s' (after_entity s new by db) ≡ get_contact_slot s' db
unfolding get_contact_slot
other_entity s s' new by db apart = elim (Bool-cases (is_resource s'.entity_kind)) [
  | inl t ↦ rw (get_contact_slot, t) refl
  | inr t ↦
      rw (get_contact_slot, t)
        (ap entity_holder (
          find?_others (holds_entity s') (holds_entity s) (retire_entity by db) _ db.entity_contacts
            (λ y h. ground (
              arith,
              apart,
              h,
              eq_iff y.contact_type s.contact_type,
              eq_iff y.contact_type s'.contact_type,
              eq_iff s.contact_type s'.contact_type,
              eq_iff y.rank s.rank,
              eq_iff y.rank s'.rank,
              eq_iff s.rank s'.rank,
            ))
            (λ y. ground arith) (ground (arith, apart))))
]

kept_elsewhere :
    {P : Type 0} (s s' : Slot) → (is_same_place s s' ≡ false → P) → (is_same_place s s' ≡ true) ⊎ P
kept_elsewhere s s' f = elim (Bool-cases (is_same_place s s')) [ inl t ↦ inl t | inr t ↦ inr (f t) ]

-- A takeover leaves one live holder in the slot, the new one, which is then the one that is found;
-- and every slot of another contact type or rank keeps the holder it had. This holds for the four
-- kinds of entities that have contacts.
pub replace_contact_slot-holders :
    (s s' : Slot) (new : NewHolder) (by : ℕ) (db : Database) {after : Database}
    → replacement_kind s.entity_kind ≡ true
    → replace_contact_slot s new by db ≡ some after
    → (holders s after ≡ holder_of new ∷ [])
      × (get_contact_slot s after ≡ some (holder_of new))
      × ((is_same_place s s' ≡ true) ⊎ (get_contact_slot s' after ≡ get_contact_slot s' db))
unfolding replace_contact_slot get_contact_slot
replace_contact_slot-holders s s' new by db {after} k e =
    elim (Bool-cases (is_resource s.entity_kind)) [
      | inl t ↦ elim (Option-cases (by_name s.entity_name db.resources)) [
        | inl n ↦ absurd (cc (rw (replace_contact_slot, t, n) at e))
        | inr (r, n) ↦
            let same : after_resource s r.id new by db ≡ after =
              some_inj (rw (replace_contact_slot, t, n) at e) in
            let test : holds_resource s r.id (new_resource_row s r.id new) ≡ true =
              rw ((==_iff r.id r.id).1 refl, str_refl s.contact_type, str_refl s.rank) refl in
            subst (Taken s s' new db) same (
              holders-resource s (after_resource s r.id new by db) t n
                  ∙ ap (map resource_entry) (
                      select_replaced (holds_resource s r.id) (retire_resource by db)
                        (new_resource_row s r.id new) db.resource_contacts (λ y. ground arith)
                        test),
              get_contact_slot-resource s (after_resource s r.id new by db) t n
                  ∙ ap resource_holder (
                      find?_replaced (holds_resource s r.id) (retire_resource by db)
                        (new_resource_row s r.id new) db.resource_contacts (λ y. ground arith)
                        test),
              kept_elsewhere s s' (other_resource s s' r.id new by db),
            )
      ]
      | inr t ↦
          let same : after_entity s new by db ≡ after =
            some_inj (rw (replace_contact_slot, t) at e) in
          let test : holds_entity s (new_entity_row s new) ≡ true =
            rw
              (
                same_kind_refl s.entity_kind k,
                str_refl s.entity_name,
                str_refl s.contact_type,
                str_refl s.rank,
              )
              refl in
          subst (Taken s s' new db) same (
            rw
                (
                  holders,
                  t,
                  select_replaced (holds_entity s) (retire_entity by db) (new_entity_row s new)
                      db.entity_contacts (λ y. ground arith) test,
                )
                refl,
            rw
                (
                  get_contact_slot,
                  t,
                  find?_replaced (holds_entity s) (retire_entity by db) (new_entity_row s new)
                      db.entity_contacts (λ y. ground arith) test,
                )
                refl,
            kept_elsewhere s s' (other_entity s s' new by db),
          )
    ]
