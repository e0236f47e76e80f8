-- ===== src/Accounts/Sessions/Life.antt =====
-- The life of a session, from sign-in to sign-out.
use topology_v.Base.{
  ℕ, zero, suc, ◌+◌, ◌<◌, String, Bool, true, false, not, ◌&&◌, ◌||◌, ◌≡◌, ◌≢◌, refl, ◌∙◌, ap,
  Option, none, some, List, [], ◌∷◌, ◌++◌, str_eq, str_eq-false, eq_iff, arith, any, find?, select,
  update_where, Bool-cases, Option-cases, inl, inr, ltb, is_empty, if◌then◌else◌,
}
use topology_v.Base.Results.{ok, err}
use topology_v.Models.{Role, user}
use topology_v.Models.Roles.{effective_role}
use topology_v.Db.{Database, UserRow, SessionRow}
use topology_v.Accounts.Platform.{Platform}
use topology_v.Accounts.Users.{
  is_user_id, is_grant, has_username, get_user, get_user_roles, add_user_role,
  update_user_last_login, ensure_username, set_name, candidate, try_candidates, deref,
}
use topology_v.Accounts.Sessions.{
  session_duration, has_token, get_session_by_token_hash, invalid_session, Context, or_plain_user,
  active_user, require_auth, issue_session, or_before, with_username, with_role, login_user, logout,
  create_session, delete_session, context_of,
}

-- The status of a user.
abbrev status_in : ℕ → List UserRow → Option String
status_in id us = elim (find? (is_user_id id) us) [ none ↦ none | some u ↦ some u.status ]

-- A statement on users: it leaves the identities, the sessions, the clock and every status alone.
pub record Keeps (db after : Database) : Type 0 where
  pub identities : after.identities ≡ db.identities
  sessions : after.sessions ≡ db.sessions
  clock : after.now ≡ db.now
  statuses : (id : ℕ) → status_in id after.users ≡ status_in id db.users

Keeps-refl : (db : Database) → Keeps db db
Keeps-refl db = record { identities = refl; sessions = refl; clock = refl; statuses = λ id. refl }

Keeps-trans : (a b c : Database) → Keeps a b → Keeps b c → Keeps a c
Keeps-trans a b c h k = record {
  identities = k.identities ∙ h.identities;
  sessions = k.sessions ∙ h.sessions;
  clock = k.clock ∙ h.clock;
  statuses = λ id. k.statuses id ∙ h.statuses id;
}

status_in-update_where :
    (id : ℕ) (q : UserRow → Bool) (f : UserRow → UserRow)
    → ((u : UserRow) → (f u).id ≡ u.id)
    → ((u : UserRow) → (f u).status ≡ u.status)
    → (us : List UserRow) → status_in id (update_where q f us) ≡ status_in id us
status_in-update_where id q f h k [] = refl
status_in-update_where id q f h k (u ∷ us) =
    ground (arith, h u, k u, status_in-update_where id q f h k us)

Keeps-set_name : (id : ℕ) (name : String) (db : Database) → Keeps db (set_name id name db)
Keeps-set_name id name db = record {
  identities = refl;
  sessions = refl;
  clock = refl;
  statuses = λ j.
      status_in-update_where j (is_user_id id) (λ u. record u { username = some name }) (λ u. refl)
        (λ u. refl) db.users;
}

Keeps-last_login : (id : ℕ) (db : Database) → Keeps db (update_user_last_login id db)
unfolding update_user_last_login
Keeps-last_login id db = record {
  identities = refl;
  sessions = refl;
  clock = refl;
  statuses = λ j.
      status_in-update_where j (is_user_id id)
        (λ u. record u { last_login = some db.now; is_provisioned = false }) (λ u. refl) (λ u. refl)
        db.users;
}

Keeps-try_candidates :
    (p : Platform) (id : ℕ) (clean : String) (i rounds : ℕ) (db : Database)
    → Keeps db (or_before db (try_candidates p id clean i rounds db))
unfolding try_candidates
Keeps-try_candidates p id clean i zero db = Keeps-refl db
Keeps-try_candidates p id clean i (suc rounds) db =
    elim (Bool-cases
      (any (is_user_id id) db.users && not (any (has_username (candidate p clean i)) db.users))) [
        | inl t ↦ rw t (Keeps-set_name id (candidate p clean i) db)
        | inr t ↦ rw t (Keeps-try_candidates p id clean (suc i) rounds db)
      ]

Keeps-ensure_username :
    (p : Platform) (id : ℕ) (base : String) (db : Database)
    → Keeps db (or_before db (ensure_username p id base db))
unfolding ensure_username
Keeps-ensure_username p id base db = elim (Option-cases (get_user id db)) [
  | inl t ↦ rw (ensure_username, t) (Keeps-refl db)
  | inr (u, t) ↦ elim (Bool-cases (str_eq (deref u.username) "")) [
    | inl b ↦ rw (ensure_username, t, b) (Keeps-try_candidates p id _ 0 200 db)
    | inr b ↦ rw (ensure_username, t, b) (Keeps-refl db)
  ]
]

Keeps-with_username : (p : Platform) (id : ℕ) (db : Database) → Keeps db (with_username p id db)
Keeps-with_username p id db = elim (Option-cases (get_user id db)) [
  | inl t ↦ rw (with_username, t) (Keeps-refl db)
  | inr (u, t) ↦ rw (with_username, t) (Keeps-ensure_username p id _ db)
]

Keeps-with_role : (id : ℕ) (db : Database) → Keeps db (with_role id db)
unfolding add_user_role
Keeps-with_role id db = elim (Bool-cases (is_empty (get_user_roles id db))) [
  | inl t ↦ elim (Bool-cases (any (is_grant id user) db.user_roles)) [
    | inl g ↦ rw (with_role, t, g) (Keeps-refl db)
    | inr g ↦
        rw (with_role, t, g)
          (record { identities = refl; sessions = refl; clock = refl; statuses = λ j. refl })
  ]
  | inr t ↦ rw (with_role, t) (Keeps-refl db)
]

find?-append_fresh :
    (hash : String) (t : ℕ) (ss : List SessionRow) (r : SessionRow)
    → any (has_token hash) ss ≡ false
    → find? (λ s. has_token hash s && ltb t s.expires_at) (ss ++ r ∷ [])
      ≡ (if has_token hash r && ltb t r.expires_at then some r else none)
find?-append_fresh hash t [] r h = ground arith
find?-append_fresh hash t (s ∷ ss) r h = ground (arith, find?-append_fresh hash t ss r)

find?-deleted :
    (hash : String) (t : ℕ) (ss : List SessionRow)
    → find? (λ s. has_token hash s && ltb t s.expires_at) (select (λ s. not (has_token hash s)) ss)
      ≡ none
find?-deleted hash t [] = refl
find?-deleted hash t (s ∷ ss) = ground (arith, find?-deleted hash t ss)

require_auth-missing :
    (p : Platform) (raw : String) (db : Database)
    → raw ≢ ""
    → get_session_by_token_hash (p.sha256 raw) db ≡ none
    → require_auth p (some raw) db ≡ err invalid_session
unfolding require_auth
require_auth-missing p raw db ne e = rw (str_eq-false raw "" ne, e) refl

require_auth-found :
    (p : Platform) (raw : String) (db : Database) (s : SessionRow)
    → raw ≢ ""
    → get_session_by_token_hash (p.sha256 raw) db ≡ some s
    → status_in s.user_id db.users ≡ some "active"
    → (c : Context) × (require_auth p (some raw) db ≡ ok c) × (c.session ≡ s)
unfolding require_auth get_user
require_auth-found p raw db s ne e active =
    elim (Option-cases (find? (is_user_id s.user_id) db.users)) [
      | inl n ↦ absurd (ground (arith, rw (status_in, n) at active))
      | inr (u, n) ↦
          let a : some u.status ≡ some "active" = rw (status_in, n) at active in
          let b : str_eq u.status "active" ≡ true =
            (eq_iff u.status "active").1 (ground (arith, a)) in
          rw (str_eq-false raw "" ne, e, active_user, n, b)
            (context_of or_plain_user s u db, refl, refl)
    ]

-- A signed-out cookie is refused.
logout-refused :
    (p : Platform) (raw : String) (db : Database)
    → raw ≢ ""
    → require_auth p (some raw) (logout p (some raw) db) ≡ err invalid_session
unfolding logout delete_session get_session_by_token_hash
logout-refused p raw db ne =
    rw (logout, str_eq-false raw "" ne)
      (require_auth-missing p raw (delete_session (p.sha256 raw) db) ne
        (find?-deleted (p.sha256 raw) db.now db.sessions))

-- The database of a later request.
abbrev pub later : ℕ → Database → Database
later t db = record db { now = t }

abbrev session_of : Platform → String → ℕ → Role → Database → SessionRow
session_of p raw id role db = record {
  id = db.next_uuid;
  user_id = id;
  role = role;
  token_hash = p.sha256 raw;
  expires_at = db.now + session_duration;
}

abbrev issued : Platform → String → ℕ → Role → Database → Database
issued p raw id role db = record db {
  sessions = db.sessions ++ session_of p raw id role db ∷ [];
  next_uuid = db.next_uuid + 1;
}

issue_session-eq :
    (p : Platform) (raw : String) (id : ℕ) (role : Role) (db : Database)
    → any (is_user_id id) db.users ≡ true
    → any (has_token (p.sha256 raw)) db.sessions ≡ false
    → issue_session p raw id role db ≡ (issued p raw id role db, some raw)
unfolding issue_session create_session
issue_session-eq p raw id role db exists fresh =
    rw (issue_session, create_session, exists, fresh) refl

-- A user who has a status exists.
status_in-any :
    (id : ℕ) (us : List UserRow) {s : String}
    → status_in id us ≡ some s
    → any (is_user_id id) us ≡ true
status_in-any id [] h = absurd cc
status_in-any id (u ∷ us) {s} h = ground (arith, h, status_in-any id us {s = s})

-- The session is found until it expires, and not from then on.
issued-look :
    (p : Platform) (raw : String) (id : ℕ) (role : Role) (db : Database) (now : ℕ)
    → any (has_token (p.sha256 raw)) db.sessions ≡ false
    → get_session_by_token_hash (p.sha256 raw) (later now (issued p raw id role db))
      ≡ (if ltb now (db.now + session_duration) then some (session_of p raw id role db) else none)
unfolding get_session_by_token_hash
issued-look p raw id role db now fresh =
    find?-append_fresh (p.sha256 raw) now db.sessions (session_of p raw id role db) fresh
    ∙ rw ((eq_iff (p.sha256 raw) (p.sha256 raw)).1 refl) refl

-- What loginUser has prepared when it issues the session.
abbrev prepared : Platform → ℕ → Database → Database
prepared p id db = with_role id (with_username p id (update_user_last_login id db))

Keeps-prepared : (p : Platform) (id : ℕ) (db : Database) → Keeps db (prepared p id db)
Keeps-prepared p id db =
    let stamped = update_user_last_login id db in
    let named = with_username p id stamped in
    Keeps-trans db stamped (with_role id named) (Keeps-last_login id db) (
      Keeps-trans stamped named (with_role id named) (Keeps-with_username p id stamped)
        (Keeps-with_role id named))

-- Signing in an active user with a token that no session has sets the cookie, and RequireAuth lets
-- that cookie pass, as that user, at every time before the seven days are over, and refuses it from
-- then on; after a Logout with the cookie it is refused at once.
pub login_user-require_auth :
    (p : Platform) (raw : String) (id : ℕ) (db : Database) {u : UserRow} (t d : ℕ)
    → raw ≢ ""
    → get_user id db ≡ some u
    → u.status ≡ "active"
    → any (has_token (p.sha256 raw)) db.sessions ≡ false
    → t < session_duration
    → ((login_user p raw id db).1 ≡ some raw)
      × ((c : Context) × (require_auth p (some raw) (later (db.now + t) (login_user p raw id db).0)
            ≡ ok c)
          × (c.session.user_id ≡ id))
      × (require_auth p
            (some raw)
            (later (db.now + session_duration + d) (login_user p raw id db).0)
          ≡ err invalid_session)
      × (require_auth p
            (some raw)
            (logout p (some raw) (later (db.now + t) (login_user p raw id db).0))
          ≡ err invalid_session)
unfolding login_user get_user
login_user-require_auth p raw id db {u} t d ne e active fresh lt =
    let ready = prepared p id db in
    let k = Keeps-prepared p id db in
    let role =
      effective_role
        (or_plain_user (get_user_roles id (with_username p id (update_user_last_login id db)))) in
    let fresh' : any (has_token (p.sha256 raw)) ready.sessions ≡ false = rw k.sessions fresh in
    let st : status_in id ready.users ≡ some "active" =
      k.statuses id ∙ rw (status_in, e) (ap some active) in
    let after = issued p raw id role ready in
    let look : (now : ℕ)
        → get_session_by_token_hash (p.sha256 raw) (later now after) ≡ (
            if ltb now (db.now + session_duration)
            then some (session_of p raw id role ready)
            else none) =
      λ now. issued-look p raw id role ready now fresh' ∙ rw k.clock refl in
    rw (login_user, issue_session-eq p raw id role ready (status_in-any id ready.users st) fresh')
      (
        refl,
        (let (c, r, same) =
              require_auth-found p raw (later (db.now + t) after) (session_of p raw id role ready)
                ne (look (db.now + t) ∙ ground (arith, lt)) st in
            (c, r, ap (λ x. x.user_id) same)),
        require_auth-missing p raw (later (db.now + session_duration + d) after) ne
            (look (db.now + session_duration + d) ∙ ground arith),
        logout-refused p raw (later (db.now + t) after) ne,
      )

-- A sign-in links no identity.
pub login_user-identities :
    (p : Platform) (raw : String) (id : ℕ) (db : Database)
    → (login_user p raw id db).0.identities ≡ db.identities
unfolding login_user issue_session create_session
login_user-identities p raw id db =
    let ready = prepared p id db in
    let k = Keeps-prepared p id db in
    elim (Bool-cases
      (not (any (is_user_id id) ready.users) || any (has_token (p.sha256 raw)) ready.sessions)) [
        | inl t ↦ rw (login_user, issue_session, create_session, t) k.identities
        | inr t ↦ rw (login_user, issue_session, create_session, t) k.identities
      ]
