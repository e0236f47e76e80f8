-- ===== src/Accounts/Sessions.antt =====
-- Sessions: CreateSession, GetSessionByTokenHash, DeleteSession and DeleteUserSessions of
-- internal/db/queries_auth.go; RequireAuth and OptionalAuth of internal/handlers/middleware.go;
-- createSession, loginUser and Logout of internal/handlers/auth.go. A cookie is its value, `none`
-- where the request has none.
pub mod Laws
pub mod Life
use topology_v.Base.{
  ℕ, ◌+◌, ◌*◌, String, Bool, not, ◌&&◌, ◌||◌, Option, none, some, List, [], ◌∷◌, ◌++◌, ◌==◌, str_eq,
  ltb, is_empty, any, find?, select, if◌then◌else◌,
}
use topology_v.Base.Results.{Outcome, ok, err}
use topology_v.Models.{Role, user}
use topology_v.Models.Roles.{effective_role}
use topology_v.Db.{Database, UserRow, SessionRow}
use topology_v.Accounts.Platform.{Platform}
use topology_v.Accounts.Users.{
  UserError, is_user_id, get_user, get_user_roles, add_user_role, update_user_last_login,
  ensure_username,
}

-- sessionDuration, in seconds.
abbrev pub session_duration : ℕ
session_duration = 7 * 24 * 3600

abbrev pub has_token : String → SessionRow → Bool
has_token hash s = str_eq s.token_hash hash

-- CreateSession: the user exists (a foreign key), and the token hash is unique.
unfoldable pub create_session : ℕ → Role → String → ℕ → Database → Outcome (Unit {0}) Database
create_session id role hash expires db =
    if not (any (is_user_id id) db.users) || any (has_token hash) db.sessions
    then err tt
    else ok (record db {
      sessions =
          db.sessions
          ++ record {
            id = db.next_uuid;
            user_id = id;
            role = role;
            token_hash = hash;
            expires_at = expires;
          }
            ∷ [];
      next_uuid = db.next_uuid + 1;
    })

-- GetSessionByTokenHash.
unfoldable pub get_session_by_token_hash : String → Database → Option SessionRow
get_session_by_token_hash hash db =
    find? (λ s. has_token hash s && ltb db.now s.expires_at) db.sessions

-- DeleteSession.
unfoldable pub delete_session : String → Database → Database
delete_session hash db = record db { sessions = select (λ s. not (has_token hash s)) db.sessions }

-- DeleteUserSessions.
unfoldable pub delete_user_sessions : ℕ → Database → Database
delete_user_sessions id db = record db {
  sessions = select (λ s. not (s.user_id == id)) db.sessions;
}

pub data AuthError : Type 0 where
  not_authenticated invalid_session account_not_active : AuthError

-- What the middleware puts into the context.
pub record Context : Type 0 where
  pub session : SessionRow
  pub user_row : UserRow
  pub roles : List Role

abbrev pub or_plain_user : List Role → List Role
or_plain_user [] = user ∷ []
or_plain_user (r ∷ rs) = r ∷ rs

abbrev pub context_of : (List Role → List Role) → SessionRow → UserRow → Database → Context
context_of default s u db = record {
  session = s;
  user_row = u;
  roles = default (get_user_roles u.id db);
}

abbrev pub active_user : (List Role → List Role) → SessionRow → Database → Outcome AuthError Context
active_user default s db = elim (get_user s.user_id db) [
  | none ↦ err account_not_active
  | some u ↦
      if str_eq u.status "active" then ok (context_of default s u db) else err account_not_active
]

abbrev authenticate :
    Platform → (List Role → List Role) → Option String → Database → Outcome AuthError Context
authenticate p default none db = err not_authenticated
authenticate p default (some cookie) db =
    if str_eq cookie ""
    then err not_authenticated
    else elim (get_session_by_token_hash (p.sha256 cookie) db) [
      | none ↦ err invalid_session
      | some s ↦ active_user default s db
    ]

-- RequireAuth: the context of the next handler, or the 401 that is sent instead.
unfoldable pub require_auth : Platform → Option String → Database → Outcome AuthError Context
require_auth p cookie db = authenticate p or_plain_user cookie db

-- OptionalAuth: `none` is the request going on without a user.
unfoldable pub optional_auth : Platform → Option String → Database → Option Context
optional_auth p cookie db = elim (authenticate p (λ roles. roles) cookie db) [
  | ok c ↦ some c
  | err e ↦ none
]

-- createSession: the database and the cookie that is set; a failed INSERT is logged only.
unfoldable pub issue_session : Platform → String → ℕ → Role → Database → Database × Option String
issue_session p raw id role db =
    elim (create_session id role (p.sha256 raw) (db.now + session_duration) db) [
      | ok db' ↦ (db', some raw)
      | err e ↦ (db, none)
    ]

-- The database after an EnsureUsername whose error is dropped.
abbrev pub or_before : Database → Outcome UserError (String × Database) → Database
or_before db (ok (name, after)) = after
or_before db (err e) = db

abbrev pub with_username : Platform → ℕ → Database → Database
with_username p id db = elim (get_user id db) [
  | none ↦ db
  | some u ↦
      or_before db
        (ensure_username p id (if str_eq u.display_name "" then "user" else u.display_name) db)
]

abbrev pub with_role : ℕ → Database → Database
with_role id db = if is_empty (get_user_roles id db) then add_user_role id user db else db

-- loginUser.
unfoldable pub login_user : Platform → String → ℕ → Database → Database × Option String
unfolding issue_session
login_user p raw id db =
    let named = with_username p id (update_user_last_login id db) in
    let roles = or_plain_user (get_user_roles id named) in
    issue_session p raw id (effective_role roles) (with_role id named)

-- Logout: the cookie is cleared whatever the request carries.
unfoldable pub logout : Platform → Option String → Database → Database
logout p none db = db
logout p (some cookie) db = if str_eq cookie "" then db else delete_session (p.sha256 cookie) db
