-- ===== src/Tests/Handoffs.antt =====
-- The theorems on slots, replacement requests and invites, on a small database.
use topology_v.Base.{true, false, ◌≡◌, refl, none, some, [], ◌∷◌, ◌⊎◌}
use topology_v.Base.Results.{ok, err}
use topology_v.Models.{approved, facility, role_claim}
use topology_v.Models.Roles.{is_manager_or_admin}
use topology_v.Json.{null}
use topology_v.Db.{Database, EntityContactRow, InviteRow, RoleClaim}
use topology_v.Accounts.Users.{get_user}
use topology_v.Accounts.Sessions.Life.{later}
use topology_v.Accounts.Identities.{get_invite_by_token_hash, mark_invite_used}
use topology_v.Handoffs.Slots.{Slot, NewHolder, get_contact_slot, replace_contact_slot}
use topology_v.Handoffs.Slots.Laws.{holders, holder_of, is_same_place, replace_contact_slot-holders}
use topology_v.Handoffs.Replacements.{
  already_decided, audit, get_contact_replacement, file_replacement, create_contact_replacement,
  decide_contact_replacement, decide_replacement, withdraw_replacement,
}
use topology_v.Handoffs.Replacements.Laws.{
  Settles, decide_replacement-Settles, replacement_unaudited,
}
use topology_v.Handoffs.Invites.{invite_gone, apply_invite, accept_invite}
use topology_v.Handoffs.Invites.Laws.{as_holder, accept_invite_once, accept_invite-holders}
use topology_v.Tests.{db, admin, plain}
use topology_v.Tests.Accounts.{plat, person}

unfoldable handoffs_code : Unit {0}
unfolding is_manager_or_admin get_user get_invite_by_token_hash mark_invite_used get_contact_slot
    replace_contact_slot audit get_contact_replacement file_replacement create_contact_replacement
    decide_contact_replacement decide_replacement withdraw_replacement apply_invite accept_invite
handoffs_code = tt

abbrev security : Slot
security = record {
  entity_kind = facility;
  entity_name = "F";
  contact_type = "Security";
  rank = "Primary";
}

abbrev incumbent : EntityContactRow
incumbent = record {
  entity_kind = facility;
  entity_name = "F";
  contact_type = "Security";
  rank = "Primary";
  contact_name = "Bob";
  contact_id = "";
  user_id = some 101;
  deleted_at = none;
  deleted_by = none;
}

abbrev offer : RoleClaim
offer = record {
  entity_kind = facility;
  entity_id = "F";
  contact_type = "Security";
  rank = "Primary";
}

abbrev invite : InviteRow
invite = record {
  id = 151;
  kind = role_claim;
  token_hash = "offer";
  created_by = 101;
  target_user = none;
  claim = some offer;
  used_at = none;
  used_by = none;
  expires_at = 500;
  contact_email = "";
}

-- User 101 is the security contact of the facility, and user 102 would like to be.
abbrev held : Database
held = record db {
  users = person 101 "Bob" none ∷ person 102 "Ann" none ∷ [];
  entity_contacts = incumbent ∷ [];
  invites = invite ∷ [];
}

abbrev ann : NewHolder
ann = record { name = "Ann"; contact_id = ""; user = 102 }

abbrev taken_over : Database
taken_over = elim (replace_contact_slot security ann 101 held) [ none ↦ held | some d ↦ d ]

replace_contact_slot-holders_example :
    (holders security taken_over ≡ holder_of ann ∷ [])
    × (get_contact_slot security taken_over ≡ some (holder_of ann))
    × ((is_same_place security (record security { rank = "Secondary" }) ≡ true)
        ⊎ (get_contact_slot (record security { rank = "Secondary" }) taken_over
            ≡ get_contact_slot (record security { rank = "Secondary" }) held))
unfolding handoffs_code
replace_contact_slot-holders_example =
    replace_contact_slot-holders security (record security { rank = "Secondary" }) ann 101 held refl
      refl

abbrev filed : Database
filed =
    elim (create_contact_replacement (record plain { user_id = 102 }) (some (security, "")) held) [
      | err e ↦ held
      | ok (id, d) ↦ d
    ]

abbrev decided : Database
decided = elim (decide_replacement plain 200 true filed) [ err e ↦ held | ok (status, d) ↦ d ]

decide_replacement-Settles_example :
    Settles plain 200 true filed decided approved
    × (decide_replacement admin 200 false decided ≡ err already_decided)
unfolding handoffs_code
decide_replacement-Settles_example =
    decide_replacement-Settles plain admin 200 true false filed decided refl

replacement_unaudited_example :
    (filed.audit_log ≡ held.audit_log) × (decided.audit_log ≡ held.audit_log)
unfolding handoffs_code
replacement_unaudited_example =
    replacement_unaudited (record plain { user_id = 102 }) plain security "" 200 true held filed
      decided {status = approved} refl refl refl

abbrev accepted : Database
accepted = elim (accept_invite plat (λ c. null) (person 102 "Ann" none) "offer" held) [
  | err e ↦ held
  | ok d ↦ d
]

accept_invite_once_example :
    accept_invite plat (λ c. null) (person 101 "Bob" none) "offer" (later 11 accepted)
    ≡ err invite_gone
unfolding handoffs_code
accept_invite_once_example =
    accept_invite_once plat (λ c. null) (person 102 "Ann" none) (person 101 "Bob" none) "offer" held
      accepted 11 refl

accept_invite-holders_example : holders security accepted ≡ as_holder (person 102 "Ann" none) ∷ []
unfolding handoffs_code
accept_invite-holders_example =
    accept_invite-holders plat (λ c. null) (person 102 "Ann" none) "offer" held accepted
      {i = invite} {c = offer} refl refl refl refl
