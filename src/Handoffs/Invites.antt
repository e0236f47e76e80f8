-- ===== src/Handoffs/Invites.antt =====
-- internal/handlers/invites.go (CreateInvite) and AcceptInvite and GetInvite of
-- internal/handlers/auth.go, with CreateInvite of internal/db/queries_auth.go.
pub mod Laws
use topology_v.Base.{
  ℕ, ◌+◌, ◌*◌, String, Bool, true, false, not, ◌&&◌, ◌||◌, Option, none, some, List, [], ◌∷◌, ◌++◌,
  ◌==◌, str_eq, ltb, is_none, any, find?, if◌then◌else◌,
}
use topology_v.Base.Results.{Outcome, ok, err}
use topology_v.Models.{
  Kind, resource, other_kind, InviteKind, account_link, role_claim, replacement_request,
  contact_onboard, other_invite,
}
use topology_v.Models.Roles.{is_manager_or_admin}
use topology_v.Json.{Json}
use topology_v.Db.{Database, UserRow, InviteRow, RoleClaim, role_claim_accept, invite_create}
use topology_v.Handlers.{Session}
use topology_v.Accounts.Platform.{Platform}
use topology_v.Accounts.Text.{email_sha1}
use topology_v.Accounts.Users.{create_user, deref}
use topology_v.Accounts.Identities.{get_invite_by_token_hash, is_usable, mark_invite_used}
use topology_v.Handoffs.Slots.{Slot, NewHolder, replace_contact_slot, replacement_kind}
use topology_v.Handoffs.Replacements.{HandoffError, file_replacement, audit}

-- inviteExpiry, in seconds.
abbrev pub invite_expiry : ℕ
invite_expiry = 7 * 24 * 3600

-- createInviteRequest.
pub record InviteRequest : Type 0 where
  pub kind : InviteKind
  pub target_user : Option ℕ
  pub claim : Option RoleClaim
  pub display_name : String
  pub email : String

pub data InviteError : Type 0 where
  bad_body requires_manager target_required claim_required name_required email_required :
      InviteError
  provisioning invalid_kind creating_invite : InviteError
  invite_not_found invite_gone unsupported_kind assigning : InviteError
  filing : HandoffError → InviteError

-- What CreateInvite checks and does for a kind, before it draws the token: the target, the claim,
-- and the database, in which a contact_onboard invite has provisioned its user.
abbrev pub Prepared : Type 0
Prepared = Option ℕ × Option RoleClaim × Database

abbrev pub with_rank : RoleClaim → RoleClaim
with_rank c = record c { rank = if str_eq c.rank "" then "Primary" else c.rank }

abbrev prepare_claim : InviteRequest → Database → Outcome InviteError Prepared
prepare_claim req db = elim req.claim [
  | none ↦ err claim_required
  | some c ↦
      if str_eq c.entity_id "" || str_eq c.contact_type ""
      then err claim_required
      else ok (req.target_user, some (with_rank c), db)
]

abbrev prepare_onboard : Platform → InviteRequest → Database → Outcome InviteError Prepared
prepare_onboard p req db =
    if str_eq req.display_name ""
    then err name_required
    else if str_eq req.email ""
    then err email_required
    else elim (create_user req.display_name (email_sha1 p req.email) true db) [
      | err e ↦ err provisioning
      | ok (id, after) ↦ ok (some id, none, after)
    ]

abbrev pub prepare_invite :
    Platform → Session → InviteRequest → Database → Outcome InviteError Prepared
prepare_invite p s req db = elim req.kind [
  | account_link ↦
      if is_manager_or_admin s.roles
      then if is_none req.target_user then err target_required else ok (req.target_user, none, db)
      else err requires_manager
  | role_claim ↦ prepare_claim req db
  | replacement_request ↦ prepare_claim req db
  | contact_onboard ↦ prepare_onboard p req db
  | other_invite k ↦ err invalid_kind
]

abbrev target_exists : Option ℕ → Database → Bool
target_exists none db = true
target_exists (some id) db = any (λ u. u.id == id) db.users

-- CreateInvite (the statement), under the unique token hash and the foreign key on the target.
unfoldable pub store_invite : InviteRow → Database → Outcome InviteError Database
store_invite i db =
    if any (λ x. str_eq x.token_hash i.token_hash) db.invites
      || not (target_exists i.target_user db)
    then err creating_invite
    else ok (record db { invites = db.invites ++ i ∷ []; next_uuid = db.next_uuid + 1 })

-- The text of a kind in the audit log, which puts the invite's kind in place of an entity's.
abbrev pub kind_text : InviteKind → String
kind_text account_link = "account_link"
kind_text role_claim = "role_claim"
kind_text replacement_request = "replacement_request"
kind_text contact_onboard = "contact_onboard"
kind_text (other_invite k) = k

abbrev user_text : Platform → Option ℕ → String
user_text p none = ""
user_text p (some id) = p.decimal id

abbrev new_invite :
    Platform → String → Session → InviteRequest → Option ℕ → Option RoleClaim → Database → InviteRow
new_invite p token s req target claim db = record {
  id = db.next_uuid;
  kind = req.kind;
  token_hash = p.sha256 token;
  created_by = s.user_id;
  target_user = target;
  claim = claim;
  used_at = none;
  used_by = none;
  expires_at = db.now + invite_expiry;
  contact_email = req.email;
}

-- CreateInvite (the handler): the answer, and the database, which keeps a provisioned user also where
-- the invite is not stored. The claim's JSON is a parameter.
unfoldable pub create_invite :
    Platform
    → (RoleClaim → Json)
    → String
    → Session
    → Option InviteRequest
    → Database
    → Outcome InviteError ℕ × Database
unfolding store_invite
create_invite p json token s none db = (err bad_body, db)
create_invite p json token s (some req) db = elim (prepare_invite p s req db) [
  | err e ↦ (err e, db)
  | ok (target, claim, ready) ↦
      elim (store_invite (new_invite p token s req target claim ready) ready) [
        | err e ↦ (err e, ready)
        | ok after ↦ (
          ok ready.next_uuid,
          audit s.user_id invite_create (other_kind (kind_text req.kind)) (user_text p target) none
              (elim claim [ none ↦ none | some c ↦ some (json c) ]) after,
        )
      ]
]

-- The `valid` of GetInvite's preview.
unfoldable pub preview_invite : Platform → String → Database → Option (InviteKind × Bool)
preview_invite p token db = elim (get_invite_by_token_hash (p.sha256 token) db) [
  | none ↦ none
  | some i ↦ some (i.kind, is_usable db.now i)
]

abbrev is_empty_kind : Kind → Bool
is_empty_kind (other_kind k) = str_eq k ""
is_empty_kind _ = false

-- The kind of a claim, a resource's where it names none.
abbrev pub claim_kind : RoleClaim → Kind
claim_kind c = if is_empty_kind c.entity_kind then resource else c.entity_kind

abbrev pub claim_slot : Kind → RoleClaim → Slot
claim_slot kind c = record {
  entity_kind = kind;
  entity_name = c.entity_id;
  contact_type = c.contact_type;
  rank = c.rank;
}

-- The role_claim's effect for the accepting user.
abbrev pub take_slot :
    (RoleClaim → Json) → UserRow → RoleClaim → Database → Outcome InviteError Database
take_slot json u c db =
    if replacement_kind (claim_kind c)
    then elim (replace_contact_slot (claim_slot (claim_kind c) c)
        (record { name = u.display_name; contact_id = deref u.legacy_contact_id; user = u.id }) u.id
        db) [
          | none ↦ err assigning
          | some after ↦
              ok
                (audit u.id role_claim_accept (claim_kind c) c.entity_id none (some (json c)) after)
        ]
    else err unsupported_kind

abbrev pub ask_for_slot : UserRow → RoleClaim → Database → Outcome InviteError Database
ask_for_slot u c db = elim (file_replacement (claim_slot c.entity_kind c) "" u.id db) [
  | err e ↦ err (filing e)
  | ok (id, after) ↦ ok after
]

abbrev pub apply_claim :
    (RoleClaim → Json) → UserRow → RoleClaim → InviteKind → Database → Outcome InviteError Database
apply_claim json u c role_claim db = take_slot json u c db
apply_claim json u c replacement_request db = ask_for_slot u c db
apply_claim json u c _ db = ok db

-- What accepting does, by the kind of the invite and its claim.
unfoldable pub apply_invite :
    (RoleClaim → Json) → UserRow → InviteRow → Database → Outcome InviteError Database
apply_invite json u i db = elim i.claim [ none ↦ ok db | some c ↦ apply_claim json u c i.kind db ]

-- `UsedAt != nil || ExpiresAt.Before(now)`.
abbrev pub is_gone : ℕ → InviteRow → Bool
is_gone now i = not (is_none i.used_at) || ltb i.expires_at now

-- AcceptInvite, for the user of the session.
unfoldable pub accept_invite :
    Platform → (RoleClaim → Json) → UserRow → String → Database → Outcome InviteError Database
unfolding apply_invite
accept_invite p json u token db = elim (get_invite_by_token_hash (p.sha256 token) db) [
  | none ↦ err invite_not_found
  | some i ↦ if is_gone db.now i then err invite_gone else elim (apply_invite json u i db) [
    | err e ↦ err e
    | ok after ↦ ok (mark_invite_used i.id u.id after)
  ]
]
