-- ===== src/Accounts/Users.antt =====
-- internal/db/queries_auth.go: users, their names and their roles. A statement on a uuid that no
-- row has changes nothing.
pub mod Names
use Prim.Native.String.{◌++◌ as ◌<>◌}
use topology_v.Base.{
  ℕ, zero, suc, ◌+◌, String, Bool, true, false, not, ◌&&◌, ◌||◌, Option, none, some, List, [], ◌∷◌,
  ◌++◌, map, ◌==◌, str_eq, is_none, is_empty, any, find?, select, update_where, if◌then◌else◌,
}
use topology_v.Base.Results.{Outcome, ok, err}
use topology_v.Models.{Role, administrator, manager, user, contact_reader, other_role}
use topology_v.Db.{Database, UserRow, UserRole}
use topology_v.Queries.Contacts.{has_legacy_id}
use topology_v.Accounts.Platform.{Platform}
use topology_v.Accounts.Text.{sanitize_username}

pub data UserError : Type 0 where
  user_missing contact_id_taken invalid_username username_taken no_unique_username : UserError

abbrev pub is_user_id : ℕ → UserRow → Bool
is_user_id id u = u.id == id

abbrev pub has_username : String → UserRow → Bool
has_username n u = elim u.username [ none ↦ false | some m ↦ str_eq m n ]

-- GetUser: `none` is ErrNotFound.
unfoldable pub get_user : ℕ → Database → Option UserRow
get_user id db = find? (is_user_id id) db.users

-- FindUserByLegacyContactID.
unfoldable pub find_user_by_legacy_contact_id : String → Database → Option UserRow
find_user_by_legacy_contact_id legacy db = find? (has_legacy_id legacy) db.users

-- nullString on a text.
abbrev pub null_string : String → Option String
null_string s = if str_eq s "" then none else some s

-- deref.
abbrev pub deref : Option String → String
deref none = ""
deref (some s) = s

abbrev id_taken : Option String → Database → Bool
id_taken none db = false
id_taken (some l) db = any (has_legacy_id l) db.users

-- CreateUser with the status "active", which every call gives.
unfoldable pub create_user : String → String → Bool → Database → Outcome UserError (ℕ × Database)
create_user name legacy provisioned db =
    if id_taken (null_string legacy) db
    then err contact_id_taken
    else ok (
      db.next_uuid,
      record db {
        users =
            db.users
            ++ record {
              id = db.next_uuid;
              display_name = name;
              username = none;
              status = "active";
              legacy_contact_id = null_string legacy;
              is_provisioned = provisioned;
              last_login = none;
            }
              ∷ [];
        next_uuid = db.next_uuid + 1;
      },
    )

-- The candidates of EnsureUsername: `clean`, `clean-2`, `clean-3`, …
unfoldable pub candidate : Platform → String → ℕ → String
candidate p clean zero = clean
candidate p clean (suc i) = clean <> ("-" <> p.decimal (suc i + 1))

abbrev pub set_name : ℕ → String → Database → Database
set_name id name db = record db {
  users = update_where (is_user_id id) (λ u. record u { username = some name }) db.users;
}

-- The rounds of the loop from `i` on; one that changes no row goes on to the next candidate.
unfoldable pub try_candidates :
    Platform → ℕ → String → ℕ → ℕ → Database → Outcome UserError (String × Database)
unfolding candidate
try_candidates p id clean i zero db = err no_unique_username
try_candidates p id clean i (suc rounds) db =
    let rest = try_candidates p id clean (suc i) rounds db in
    let name = candidate p clean i in
    if any (is_user_id id) db.users && not (any (has_username name) db.users)
    then ok (name, set_name id name db)
    else rest

abbrev pub or_user : String → String
or_user clean = if str_eq clean "" then "user" else clean

-- EnsureUsername.
unfoldable pub ensure_username :
    Platform → ℕ → String → Database → Outcome UserError (String × Database)
unfolding try_candidates
ensure_username p id base db = elim (get_user id db) [
  | none ↦ err user_missing
  | some u ↦
      if str_eq (deref u.username) ""
      then try_candidates p id (or_user (sanitize_username p base)) 0 200 db
      else ok (deref u.username, db)
]

-- SetUsername.
unfoldable pub set_username : Platform → ℕ → String → Database → Outcome UserError Database
set_username p id username db =
    let clean = sanitize_username p username in
    if str_eq clean ""
    then err invalid_username
    else if any (is_user_id id) db.users
        && not (any (λ u. has_username clean u && not (u.id == id)) db.users)
    then ok (set_name id clean db)
    else err username_taken

-- UpdateUserLastLogin.
unfoldable pub update_user_last_login : ℕ → Database → Database
update_user_last_login id db = record db {
  users =
      update_where (is_user_id id)
        (λ u. record u { last_login = some db.now; is_provisioned = false }) db.users;
}

-- UpdateUserDisplayName.
unfoldable pub update_user_display_name : ℕ → String → Database → Database
update_user_display_name id name db = record db {
  users = update_where (is_user_id id) (λ u. record u { display_name = name }) db.users;
}

-- SetLegacyContactIDIfMissing: a violation of the unique index is no error, and changes nothing.
unfoldable pub set_legacy_contact_id_if_missing : ℕ → String → Database → Database
set_legacy_contact_id_if_missing id legacy db =
    if any (λ u. is_user_id id u && is_none u.legacy_contact_id) db.users
      && any (has_legacy_id legacy) db.users
    then db
    else record db {
      users =
          update_where (λ u. is_user_id id u && is_none u.legacy_contact_id)
            (λ u. record u { legacy_contact_id = some legacy }) db.users;
    }

-- Roles are compared as texts.
abbrev pub same_role : Role → Role → Bool
same_role administrator administrator = true
same_role manager manager = true
same_role user user = true
same_role contact_reader contact_reader = true
same_role (other_role r) (other_role s) = str_eq r s
same_role _ _ = false

abbrev pub is_grant : ℕ → Role → UserRole → Bool
is_grant id role r = r.user_id == id && same_role r.role role

-- GetUserRoles.
unfoldable pub get_user_roles : ℕ → Database → List Role
get_user_roles id db = map (λ r. r.role) (select (λ r. r.user_id == id) db.user_roles)

-- AddUserRole.
unfoldable pub add_user_role : ℕ → Role → Database → Database
add_user_role id role db =
    if any (is_grant id role) db.user_roles
    then db
    else record db { user_roles = db.user_roles ++ record { user_id = id; role = role } ∷ [] }

-- RemoveUserRole.
unfoldable pub remove_user_role : ℕ → Role → Database → Database
remove_user_role id role db = record db {
  user_roles = select (λ r. not (is_grant id role r)) db.user_roles;
}
