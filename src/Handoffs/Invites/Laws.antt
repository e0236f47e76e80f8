-- ===== src/Handoffs/Invites/Laws.antt =====
-- An invite is accepted once, and a role_claim gives its slot to whoever accepts it.
use mathlib.Core.Path.{subst}
use topology_v.Base.{
  ℕ, String, true, false, ◌≡◌, refl, sym, ap, ◌∙◌, Option, none, some, [], ◌∷◌, ◌==◌, ==_iff,
  str_eq, any, find?, Bool-cases, Option-cases, inl, inr,
}
use topology_v.Base.Results.{ok, err, Outcome-cases, ok_inj}
use topology_v.Models.{
  Kind, InviteKind, account_link, role_claim, replacement_request, contact_onboard, other_invite,
}
use topology_v.Json.{Json}
use topology_v.Db.{
  Database, UserRow, InviteRow, RoleClaim, Action, replacement_create, role_claim_accept,
}
use topology_v.Accounts.Platform.{Platform}
use topology_v.Accounts.Users.{deref}
use topology_v.Accounts.Sessions.Life.{later}
use topology_v.Accounts.Identities.{get_invite_by_token_hash, mark_invite_used}
use topology_v.Accounts.Identities.Laws.{find?-update_where}
use topology_v.Handoffs.Slots.{Slot, Holder, NewHolder, replacement_kind, replace_contact_slot}
use topology_v.Handoffs.Slots.Laws.{some_inj, holders, replace_contact_slot-holders}
use topology_v.Handoffs.Replacements.{audit, file_replacement}
use topology_v.Handoffs.Replacements.Laws.{
  replace_contact_slot-Untouched, with_request, file_replacement-eq_ok,
}
use topology_v.Handoffs.Invites.{
  invite_gone, is_gone, apply_invite, accept_invite, claim_kind, claim_slot, take_slot,
  ask_for_slot, apply_claim,
}

audit-invites :
    (actor : ℕ) (action : Action) (kind : Kind) (name : String) (proposal : Option ℕ)
    (detail : Option Json) (db : Database)
    → (audit actor action kind name proposal detail db).invites ≡ db.invites
unfolding audit
audit-invites actor action kind name none detail db = refl
audit-invites actor action kind name (some id) detail db =
    elim (Bool-cases (any (λ p. p.id == id) db.proposals)) [
      | inl t ↦ rw (audit, t) refl
      | inr t ↦ rw (audit, t) refl
    ]

file_replacement-invites :
    (slot : Slot) (note : String) (user : ℕ) (db : Database) {id : ℕ} {after : Database}
    → file_replacement slot note user db ≡ ok (id, after)
    → after.invites ≡ db.invites
file_replacement-invites slot note user db e =
    let (holder, requester, g, who, made) = file_replacement-eq_ok slot note user db e in
    ap (λ d. d.invites) (sym made)
    ∙ audit-invites user replacement_create slot.entity_kind slot.entity_name (some db.next_uuid)
        none (with_request slot holder requester note db)

-- The user as the holder of a slot.
abbrev pub as_holder : UserRow → Holder
as_holder u = record { name = u.display_name; user = some u.id }

abbrev pub as_new_holder : UserRow → NewHolder
as_new_holder u = record {
  name = u.display_name;
  contact_id = deref u.legacy_contact_id;
  user = u.id;
}

take_slot-eq_ok :
    (json : RoleClaim → Json) (u : UserRow) (c : RoleClaim) (db : Database) {after : Database}
    → take_slot json u c db ≡ ok after
    → (replacement_kind (claim_kind c) ≡ true)
      × ((mid : Database) × (replace_contact_slot
              (claim_slot (claim_kind c) c)
              (as_new_holder u)
              u.id
              db
            ≡ some mid)
          × (audit u.id role_claim_accept (claim_kind c) c.entity_id none (some (json c)) mid
              ≡ after))
take_slot-eq_ok json u c db e = elim (Bool-cases (replacement_kind (claim_kind c))) [
  | inr k ↦ absurd (cc (rw (take_slot, k) at e))
  | inl k ↦
      elim (Option-cases
        (replace_contact_slot (claim_slot (claim_kind c) c) (as_new_holder u) u.id db)) [
          | inl n ↦ absurd (cc (rw (take_slot, k, n) at e))
          | inr (mid, n) ↦ (k, (mid, n, ok_inj (rw (take_slot, k, n) at e)))
        ]
]

take_slot-invites :
    (json : RoleClaim → Json) (u : UserRow) (c : RoleClaim) (db : Database) {after : Database}
    → take_slot json u c db ≡ ok after
    → after.invites ≡ db.invites
take_slot-invites json u c db e =
    let (k, rest) = take_slot-eq_ok json u c db e in
    let (mid, n, made) = rest in
    let same =
      replace_contact_slot-Untouched (claim_slot (claim_kind c) c) (as_new_holder u) u.id db n in
    ap (λ d. d.invites) (sym made)
    ∙ audit-invites u.id role_claim_accept (claim_kind c) c.entity_id none (some (json c)) mid
    ∙ same.invites

ask_for_slot-invites :
    (u : UserRow) (c : RoleClaim) (db : Database) {after : Database}
    → ask_for_slot u c db ≡ ok after
    → after.invites ≡ db.invites
ask_for_slot-invites u c db e =
    elim (Outcome-cases (file_replacement (claim_slot c.entity_kind c) "" u.id db)) [
      | inl (why, n) ↦ absurd (cc (rw (ask_for_slot, n) at e))
      | inr ((id, mid), n) ↦
          ap (λ d. d.invites) (sym (ok_inj (rw (ask_for_slot, n) at e)))
          ∙ file_replacement-invites (claim_slot c.entity_kind c) "" u.id db n
    ]

-- What an accepted invite does leaves the invites alone, until it is marked.
apply_claim-invites :
    (json : RoleClaim → Json) (u : UserRow) (c : RoleClaim) (kind : InviteKind) (db : Database)
    {after : Database}
    → apply_claim json u c kind db ≡ ok after
    → after.invites ≡ db.invites
apply_claim-invites json u c role_claim db e = take_slot-invites json u c db e
apply_claim-invites json u c replacement_request db e = ask_for_slot-invites u c db e
apply_claim-invites json u c account_link db e = ap (λ d. d.invites) (sym (ok_inj e))
apply_claim-invites json u c contact_onboard db e = ap (λ d. d.invites) (sym (ok_inj e))
apply_claim-invites json u c (other_invite k) db e = ap (λ d. d.invites) (sym (ok_inj e))

apply_invite-invites :
    (json : RoleClaim → Json) (u : UserRow) (i : InviteRow) (db : Database) {after : Database}
    → apply_invite json u i db ≡ ok after
    → after.invites ≡ db.invites
unfolding apply_invite
apply_invite-invites json u i db e = elim (Option-cases i.claim) [
  | inl n ↦ ap (λ d. d.invites) (sym (ok_inj (rw (apply_invite, n) at e)))
  | inr (c, n) ↦ apply_claim-invites json u c i.kind db (rw (apply_invite, n) at e)
]

-- An accepted invite as its steps.
accept_invite-eq_ok :
    (p : Platform) (json : RoleClaim → Json) (u : UserRow) (token : String) (db : Database)
    {after : Database}
    → accept_invite p json u token db ≡ ok after
    → (i : InviteRow) × (mid : Database) × (get_invite_by_token_hash (p.sha256 token) db ≡ some i)
      × (is_gone db.now i ≡ false)
      × (apply_invite json u i db ≡ ok mid)
      × (mark_invite_used i.id u.id mid ≡ after)
unfolding accept_invite
accept_invite-eq_ok p json u token db e =
    elim (Option-cases (get_invite_by_token_hash (p.sha256 token) db)) [
      | inl n ↦ absurd (cc (rw (accept_invite, n) at e))
      | inr (i, n) ↦ elim (Bool-cases (is_gone db.now i)) [
        | inl g ↦ absurd (cc (rw (accept_invite, n, g) at e))
        | inr g ↦ elim (Outcome-cases (apply_invite json u i db)) [
          | inl (why, a) ↦ absurd (cc (rw (accept_invite, n, g, a) at e))
          | inr (mid, a) ↦ (i, mid, n, g, a, ok_inj (rw (accept_invite, n, g, a) at e))
        ]
      ]
    ]

-- An invite is accepted at most once: after one user has accepted it, every user is answered 410 at
-- every time, whatever the kind of the invite.
pub accept_invite_once :
    (p : Platform) (json : RoleClaim → Json) (u u' : UserRow) (token : String) (db after : Database)
    (t : ℕ)
    → accept_invite p json u token db ≡ ok after
    → accept_invite p json u' token (later t after) ≡ err invite_gone
unfolding accept_invite get_invite_by_token_hash mark_invite_used
accept_invite_once p json u u' token db after t e =
    let (i, mid, n, g, a, made) = accept_invite-eq_ok p json u token db e in
    let hash = p.sha256 token in
    let used : InviteRow = record i { used_at = some mid.now; used_by = some u.id } in
    let kept : find? (λ x. str_eq x.token_hash hash) mid.invites ≡ some i =
      ap (find? (λ x. str_eq x.token_hash hash)) (apply_invite-invites json u i db a) ∙ n in
    let look : get_invite_by_token_hash hash (later t (mark_invite_used i.id u.id mid))
        ≡ some used =
      find?-update_where (λ x. str_eq x.token_hash hash) (λ x. x.id == i.id)
        (λ x. record x { used_at = some mid.now; used_by = some u.id }) mid.invites (λ x. refl) kept
        ((==_iff i.id i.id).1 refl) in
    subst (λ d. accept_invite p json u' token (later t d) ≡ err invite_gone) made
      (rw (accept_invite, look) refl)

-- Whoever accepts a role_claim is from then on the one live holder of the slot that it names, on the
-- resource where it names no kind.
pub accept_invite-holders :
    (p : Platform) (json : RoleClaim → Json) (u : UserRow) (token : String) (db after : Database)
    {i : InviteRow} {c : RoleClaim}
    → get_invite_by_token_hash (p.sha256 token) db ≡ some i
    → i.kind ≡ role_claim
    → i.claim ≡ some c
    → accept_invite p json u token db ≡ ok after
    → holders (claim_slot (claim_kind c) c) after ≡ as_holder u ∷ []
unfolding apply_invite mark_invite_used audit
accept_invite-holders p json u token db after {i} {c} found kind claim e =
    let (i', mid, n, g, a, made) = accept_invite-eq_ok p json u token db e in
    let same : i' ≡ i = some_inj (sym n ∙ found) in
    let step : apply_invite json u i db ≡ ok mid =
      subst (λ x. apply_invite json u x db ≡ ok mid) same a in
    let (k, rest) = take_slot-eq_ok json u c db (rw (apply_invite, claim, kind) at step) in
    let (before, taken, audited) = rest in
    let slot = claim_slot (claim_kind c) c in
    let (sole, look, others) =
      replace_contact_slot-holders slot slot (as_new_holder u) u.id db k taken in
    subst (λ d. holders slot d ≡ as_holder u ∷ []) made
      (subst (λ d. holders slot d ≡ as_holder u ∷ []) audited sole)
