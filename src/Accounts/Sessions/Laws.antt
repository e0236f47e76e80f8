-- ===== src/Accounts/Sessions/Laws.antt =====
-- Which requests RequireAuth lets pass, and the life of a session from sign-in to sign-out.
use mathlib.Core.List.{Memᴰ}
use topology_v.Base.{
  ◌<◌, String, true, false, ◌&&◌, ◌≡◌, refl, sym, Option, none, some, List, [], ◌∷◌, str_eq, eq_iff,
  arith, Bool-cases, Option-cases, ◌⊎◌, inl, inr, find?-passes, find?-Memᴰ, ltb, ◌≢◌,
}
use topology_v.Base.Results.{ok}
use topology_v.Models.{Role, user}
use topology_v.Db.{Database, UserRow, SessionRow}
use topology_v.Accounts.Platform.{Platform}
use topology_v.Accounts.Users.{get_user, get_user_roles}
use topology_v.Accounts.Sessions.{
  has_token, get_session_by_token_hash, Context, or_plain_user, context_of, active_user,
  require_auth,
}

-- What the middleware has checked when it calls the next handler.
pub record Admitted (p : Platform) (cookie : Option String) (db : Database) (c : Context)
    : Type 0 where
  pub raw : String
  pub sent : cookie ≡ some raw
  pub stored : Memᴰ c.session db.sessions
  pub owns : c.session.token_hash ≡ p.sha256 raw
  pub unexpired : db.now < c.session.expires_at
  pub of_user : get_user c.session.user_id db ≡ some c.user_row
  pub active : c.user_row.status ≡ "active"
  pub with_roles :
      ((get_user_roles c.user_row.id db ≢ []) × (c.roles ≡ get_user_roles c.user_row.id db))
      ⊎ ((get_user_roles c.user_row.id db ≡ []) × (c.roles ≡ user ∷ []))

active_user-eq_ok :
    (default : List Role → List Role) (s : SessionRow) (db : Database) {c : Context}
    → active_user default s db ≡ ok c
    → (u : UserRow) × (get_user s.user_id db ≡ some u)
      × (str_eq u.status "active" ≡ true)
      × (context_of default s u db ≡ c)
active_user-eq_ok default s db {c} e = elim (Option-cases (get_user s.user_id db)) [
  | inl t ↦ absurd (ground (arith, t, e))
  | inr (u, t) ↦ elim (Bool-cases (str_eq u.status "active")) [
    | inl a ↦ (u, t, a, ground (arith, t, a, e))
    | inr a ↦ absurd (ground (arith, t, a, e))
  ]
]

or_plain_user_cases :
    (rs : List Role)
    → ((rs ≢ []) × (or_plain_user rs ≡ rs)) ⊎ ((rs ≡ []) × (or_plain_user rs ≡ user ∷ []))
or_plain_user_cases [] = inr (refl, refl)
or_plain_user_cases (r ∷ rs) = inl ((λ e. absurd cc), refl)

-- RequireAuth calls the next handler only for a request with a cookie whose hash is that of a stored
-- session that has not expired, whose user exists and is active; the context then holds that session
-- and user, and the user's roles, or the plain user's role where there are none.
pub require_auth-Admitted :
    (p : Platform) (cookie : Option String) (db : Database) {c : Context}
    → require_auth p cookie db ≡ ok c
    → Admitted p cookie db c
unfolding require_auth get_session_by_token_hash
require_auth-Admitted p none db e = cc
require_auth-Admitted p (some raw) db {c} e = elim (Bool-cases (str_eq raw "")) [
  | inl t ↦ absurd (ground (arith, t, e))
  | inr t ↦ elim (Option-cases (get_session_by_token_hash (p.sha256 raw) db)) [
    | inl n ↦ absurd (ground (arith, t, n, e))
    | inr (s, n) ↦ admitted t s n (active_user-eq_ok or_plain_user s db (ground (arith, t, n, e)))
  ]
]
  where
    admitted :
        str_eq raw "" ≡ false
        → (s : SessionRow) → get_session_by_token_hash (p.sha256 raw) db ≡ some s
        → (u : UserRow) × (get_user s.user_id db ≡ some u)
          × (str_eq u.status "active" ≡ true)
          × (context_of or_plain_user s u db ≡ c)
        → Admitted p (some raw) db c
    admitted t s n (u, found, a, same) =
        let q =
          find?-passes (λ x. has_token (p.sha256 raw) x && ltb db.now x.expires_at) db.sessions n in
        rw (sym same) (record {
          raw = raw;
          sent = refl;
          stored =
              find?-Memᴰ (λ x. has_token (p.sha256 raw) x && ltb db.now x.expires_at) db.sessions n;
          owns = (eq_iff s.token_hash (p.sha256 raw)).0 (ground (arith, q));
          unexpired = ground (arith, q);
          of_user = found;
          active = (eq_iff u.status "active").0 a;
          with_roles = or_plain_user_cases (get_user_roles u.id db);
        })
