-- ===== src/Accounts/Identities.antt =====
-- Federated identities: CreateIdentity, FindIdentity and DeleteIdentity of
-- internal/db/queries_auth.go; onboardIdentity, linkIdentity, the end of OIDCCallback (from the
-- claims on) and DevLogin of internal/handlers/auth.go.
pub mod Laws
use topology_v.Base.{
  ℕ, ◌+◌, String, Bool, true, false, not, ◌&&◌, ◌||◌, Option, none, some, List, [], ◌∷◌, ◌++◌, ◌==◌,
  str_eq, ltb, is_none, any, find?, select, update_where, if◌then◌else◌,
}
use topology_v.Base.Results.{Outcome, ok, err}
use topology_v.Models.{
  Role, administrator, user, InviteKind, account_link, role_claim, contact_onboard,
}
use topology_v.Db.{Database, UserRow, IdentityRow, InviteRow}
use topology_v.Accounts.Platform.{Platform}
use topology_v.Accounts.Text.{email_sha1}
use topology_v.Accounts.Users.{
  create_user, find_user_by_legacy_contact_id, set_legacy_contact_id_if_missing, add_user_role,
}
use topology_v.Accounts.Sessions.{login_user}

-- onboardParams; the token of the invite is empty where there is none.
pub record OnboardParams : Type 0 where
  pub issuer : String
  pub subject : String
  pub email : String
  pub name : String
  pub cilogon_id : String
  pub eppn : String
  pub oidc : String
  pub idp_name : String
  pub invite_token : String

pub data OnboardError : Type 0 where
  identity_already_linked link_failed create_user_failed : OnboardError

abbrev pub is_identity : String → String → IdentityRow → Bool
is_identity issuer subject i = str_eq i.issuer issuer && str_eq i.subject subject

-- FindIdentity.
unfoldable pub find_identity : String → String → Database → Option IdentityRow
find_identity issuer subject db = find? (is_identity issuer subject) db.identities

-- CreateIdentity, under the foreign key on the user and UNIQUE (issuer, subject).
unfoldable pub create_identity : IdentityRow → Database → Outcome OnboardError Database
create_identity row db =
    if any (is_identity row.issuer row.subject) db.identities
    then err identity_already_linked
    else if any (λ u. u.id == row.user_id) db.users
    then ok (record db {
      identities = db.identities ++ record row { id = db.next_uuid } ∷ [];
      next_uuid = db.next_uuid + 1;
    })
    else err link_failed

-- DeleteIdentity.
unfoldable pub delete_identity : ℕ → Database → Database
delete_identity id db = record db { identities = select (λ i. not (i.id == id)) db.identities }

abbrev pub or_empty : Option String → String
or_empty none = ""
or_empty (some s) = s

abbrev pub identity_row : Platform → ℕ → OnboardParams → IdentityRow
identity_row p id o = record {
  id = 0;
  user_id = id;
  issuer = o.issuer;
  subject = o.subject;
  encrypted_email = if str_eq o.email "" then "" else or_empty (p.encrypt o.email);
  email_sha1 = if str_eq o.email "" then "" else email_sha1 p o.email;
  eppn = o.eppn;
  oidc = o.oidc;
  cilogon_id = o.cilogon_id;
  idp_name = o.idp_name;
  display_name = o.name;
}

abbrev with_contact_id : Platform → ℕ → String → Database → Database
with_contact_id p id email db =
    if str_eq email "" then db else set_legacy_contact_id_if_missing id (email_sha1 p email) db

-- linkIdentity.
unfoldable pub link_identity :
    Platform → ℕ → OnboardParams → Database → Outcome OnboardError Database
link_identity p id o db = elim (create_identity (identity_row p id o) db) [
  | err e ↦ err e
  | ok after ↦ ok (with_contact_id p id o.email after)
]

-- GetInviteByTokenHash.
unfoldable pub get_invite_by_token_hash : String → Database → Option InviteRow
get_invite_by_token_hash hash db = find? (λ i. str_eq i.token_hash hash) db.invites

-- `UsedAt == nil && ExpiresAt.After(now)`.
abbrev pub is_usable : ℕ → InviteRow → Bool
is_usable now i = is_none i.used_at && ltb now i.expires_at

-- MarkInviteUsed.
unfoldable pub mark_invite_used : ℕ → ℕ → Database → Database
mark_invite_used id by db = record db {
  invites =
      update_where (λ i. i.id == id) (λ i. record i { used_at = some db.now; used_by = some by })
        db.invites;
}

-- The invite that an onboarding goes by.
abbrev pub usable_invite : Platform → OnboardParams → Database → Option InviteRow
usable_invite p o db =
    if str_eq o.invite_token ""
    then none
    else elim (get_invite_by_token_hash (p.sha256 o.invite_token) db) [
      | none ↦ none
      | some i ↦ if is_usable db.now i then some i else none
    ]

abbrev targets_account : InviteKind → Bool
targets_account account_link = true
targets_account contact_onboard = true
targets_account _ = false

-- The account that an invite links to.
abbrev pub link_target : Option InviteRow → Option (ℕ × ℕ)
link_target none = none
link_target (some i) =
    if targets_account i.kind
    then elim i.target_user [ none ↦ none | some target ↦ some (i.id, target) ]
    else none

abbrev pub claims_role : Option InviteRow → Bool
claims_role none = false
claims_role (some i) = elim i.kind [ role_claim ↦ true | _ ↦ false ]

-- The provisioned contact that the identity is recognized as: by its CILogon id, else by the hash of
-- its address.
abbrev pub known_contact : Platform → OnboardParams → Database → Option UserRow
known_contact p o db =
    let by_email =
      if str_eq o.email ""
      then none
      else find_user_by_legacy_contact_id (email_sha1 p o.email) db in
    if str_eq o.cilogon_id ""
    then by_email
    else elim (find_user_by_legacy_contact_id o.cilogon_id db) [ some u ↦ some u | none ↦ by_email ]

-- What an onboarding answers: the account, if there is one, or the error; and the database.
abbrev pub Onboarded : Type 0
Onboarded = Outcome OnboardError (Option ℕ) × Database

-- A link to the account, with what follows it.
abbrev pub link_and : Platform → ℕ → OnboardParams → (Database → Database) → Database → Onboarded
link_and p id o next db = elim (link_identity p id o db) [
  | err e ↦ (err e, db)
  | ok after ↦ (ok (some id), next after)
]

-- A fresh account with the plain user's role; it stays where the link fails.
abbrev new_account : Platform → OnboardParams → Database → Onboarded
new_account p o db = elim (create_user o.name "" false db) [
  | err e ↦ (err create_user_failed, db)
  | ok (id, made) ↦ link_and p id o (λ after. after) (add_user_role id user made)
]

-- onboardIdentity, by the invite that it found: `none` is an identity without an account.
unfoldable pub onboard_by : Platform → Option InviteRow → OnboardParams → Database → Onboarded
onboard_by p invite o db = elim (link_target invite) [
  | some (invite_id, target) ↦ link_and p target o (mark_invite_used invite_id target) db
  | none ↦ elim (known_contact p o db) [
    | some u ↦ link_and p u.id o (λ after. after) db
    | none ↦ if claims_role invite then new_account p o db else (ok none, db)
  ]
]

unfoldable pub onboard_identity : Platform → OnboardParams → Database → Onboarded
unfolding onboard_by
onboard_identity p o db = onboard_by p (usable_invite p o db) o db

-- What a sign-in answers: the page with an error, or the session cookie.
pub data SignIn : Type 0 where
  no_subject no_account : SignIn
  not_onboarded : OnboardError → SignIn
  signed_in : ℕ → Option String → SignIn

-- The mint of a contact id for an identity that is known already.
abbrev refreshed : IdentityRow → Database → Database
refreshed i db =
    if str_eq i.email_sha1 ""
    then db
    else set_legacy_contact_id_if_missing i.user_id i.email_sha1 db

abbrev signed : Platform → String → ℕ → Database → Database × SignIn
signed p raw id db = let r = login_user p raw id db in (r.0, signed_in id r.1)

abbrev pub after_onboarding : Platform → String → Onboarded → Database × SignIn
after_onboarding p raw (err e, after) = (after, not_onboarded e)
after_onboarding p raw (ok none, after) = (after, no_account)
after_onboarding p raw (ok (some id), after) = signed p raw id after

-- OIDCCallback, from the claims of the provider on.
unfoldable pub oidc_callback : Platform → String → OnboardParams → Database → Database × SignIn
unfolding onboard_identity
oidc_callback p raw o db =
    if str_eq o.subject "" then (db, no_subject) else elim (find_identity o.issuer o.subject db) [
      | some i ↦ signed p raw i.user_id (refreshed i db)
      | none ↦ after_onboarding p raw (onboard_identity p o db)
    ]

-- devLoginRequest, with the defaults filled in.
pub record DevLogin : Type 0 where
  pub email : String
  pub display_name : String
  pub role : Role
  pub invite : String

abbrev or_default : String → String → String
or_default d s = if str_eq s "" then d else s

abbrev dev_params : DevLogin → OnboardParams
dev_params req = record {
  issuer = "dev";
  subject = or_default "dev@example.org" req.email;
  email = or_default "dev@example.org" req.email;
  name = or_default "Dev User" req.display_name;
  cilogon_id = "";
  eppn = "";
  oidc = "";
  idp_name = "";
  invite_token = req.invite;
}

pub data DevReply : Type 0 where
  not_found creating_user : DevReply
  dev_signed_in : ℕ → Option String → DevReply

abbrev dev_signed : Platform → String → Role → ℕ → Database → Database × DevReply
dev_signed p raw role id db =
    let r = login_user p raw id (add_user_role id role db) in (r.0, dev_signed_in id r.1)

-- The account that DevLogin makes; a link that fails is ignored.
abbrev dev_account : Platform → String → Role → OnboardParams → Database → Database × DevReply
dev_account p raw role o db = elim (create_user o.name "" false db) [
  | err e ↦ (db, creating_user)
  | ok (id, made) ↦ elim (link_identity p id o made) [
    | err e ↦ dev_signed p raw role id made
    | ok after ↦ dev_signed p raw role id after
  ]
]

abbrev dev_onboarded : Platform → String → Role → OnboardParams → Onboarded → Database × DevReply
dev_onboarded p raw role o (ok (some id), after) = dev_signed p raw role id after
dev_onboarded p raw role o (ok none, after) = dev_account p raw role o after
dev_onboarded p raw role o (err e, after) = dev_account p raw role o after

-- DevLogin, in production and elsewhere. The role is an administrator's where the request has none.
unfoldable pub dev_login : Platform → Bool → String → DevLogin → Database → Database × DevReply
unfolding onboard_identity
dev_login p true raw req db = (db, not_found)
dev_login p false raw req db =
    let o = dev_params req in
    elim (find_identity "dev" o.subject db) [
      | some i ↦ dev_signed p raw req.role i.user_id (refreshed i db)
      | none ↦
          dev_onboarded p raw req.role o
            (if str_eq req.invite "" then (ok none, db) else onboard_identity p o db)
    ]
