-- ===== src/Accounts/Users/Names.antt =====
-- EnsureUsername: which name the loop takes, and that it takes one.
use text.Mathlib.TextLemmas.{append-eq-nil_iff}
use topology_v.Base.{
  ℕ, zero, suc, ◌+◌, ◌≤◌, ◌<◌, String, true, false, true≢false, ◌≡◌, ◌≢◌, refl, sym, ◌∙◌, none,
  some, List, [], ◌∷◌, str_eq-false, eq_iff, arith, any, find?, update_where, Bool-cases,
  Option-cases, inl, inr, find?-any, find?-passes,
}
use topology_v.Base.Results.{Outcome, ok}
use topology_v.Db.{Database, UserRow}
use topology_v.Accounts.Platform.{Platform}
use topology_v.Accounts.Text.{sanitize_username}
use topology_v.Accounts.Users.{
  UserError, is_user_id, has_username, get_user, deref, candidate, set_name, try_candidates,
  or_user, ensure_username,
}

-- The name of a user, empty where there is none.
abbrev pub username_in : ℕ → List UserRow → String
username_in id us = elim (find? (is_user_id id) us) [ none ↦ "" | some u ↦ deref u.username ]

username_in-update_where :
    (id : ℕ) (name : String) (us : List UserRow)
    → any (is_user_id id) us ≡ true
    → username_in id (update_where (is_user_id id) (λ u. record u { username = some name }) us)
      ≡ name
username_in-update_where id name [] h = cc
username_in-update_where id name (u ∷ us) h = ground (arith, username_in-update_where id name us)

-- What a round that finds a free candidate, or a later round, leaves.
abbrev pub Allocated : ℕ → Database → Outcome UserError (String × Database) → Type 0
Allocated id db r =
    (name : String) × (r ≡ ok (name, set_name id name db))
    × (any (has_username name) db.users ≡ false)
    × (name ≢ "")

candidate_nonempty : (p : Platform) (clean : String) (i : ℕ) → clean ≢ "" → candidate p clean i ≢ ""
unfolding candidate
candidate_nonempty p clean zero h e = h e
candidate_nonempty p clean (suc i) h e = h ((append-eq-nil_iff.0 e).0)

try_candidates-Allocated :
    (p : Platform) (id : ℕ) (clean : String) (db : Database)
    → any (is_user_id id) db.users ≡ true
    → clean ≢ ""
    → (i rounds j : ℕ) → i ≤ j
    → j < i + rounds
    → any (has_username (candidate p clean j)) db.users ≡ false
    → Allocated id db (try_candidates p id clean i rounds db)
unfolding try_candidates
try_candidates-Allocated p id clean db k ne i zero j le lt free = absurd (omega (arith, le, lt))
try_candidates-Allocated p id clean db k ne i (suc rounds) j le lt free =
    elim (Bool-cases (any (has_username (candidate p clean i)) db.users)) [
      | inr t ↦ rw (k, t) (candidate p clean i, refl, t, candidate_nonempty p clean i ne)
      | inl t ↦
          let other : i ≢ j = λ e. true≢false (sym t ∙ (rw (sym e) at free)) in
          rw (k, t)
            (try_candidates-Allocated p id clean db k ne (suc i) rounds j
              (ground (arith, le, other)) (omega (arith, lt)) free)
    ]

or_user_nonempty : (clean : String) → or_user clean ≢ ""
or_user_nonempty clean e = ground (arith, eq_iff clean "", eq_iff "user" "", e)

ensure_username_again :
    (p : Platform) (id : ℕ) (other name : String) (after : Database)
    → username_in id after.users ≡ name
    → name ≢ ""
    → ensure_username p id other after ≡ ok (name, after)
unfolding ensure_username get_user
ensure_username_again p id other name after named ne =
    elim (Option-cases (find? (is_user_id id) after.users)) [
      | inl t ↦ absurd (ne (sym (rw (username_in, t) at named)))
      | inr (w, t) ↦
          let d : deref w.username ≡ name = rw (username_in, t) at named in
          rw (ensure_username, get_user, t, d, str_eq-false name "" ne) refl
    ]

-- EnsureUsername never fails for a user whose name can be allocated: where the user has no name yet,
-- and one of the 200 candidates is free, it gives a name that is not empty and that no user had,
-- the user then has that name, and asking again, whatever the base, gives the same name and changes
-- nothing.
pub ensure_username-Allocated :
    (p : Platform) (id : ℕ) (base other : String) (db : Database) {u : UserRow} (i : ℕ)
    → get_user id db ≡ some u
    → deref u.username ≡ ""
    → i < 200
    → any (has_username (candidate p (or_user (sanitize_username p base)) i)) db.users ≡ false
    → (name : String) × (after : Database) × (ensure_username p id base db ≡ ok (name, after))
      × (any (has_username name) db.users ≡ false)
      × (username_in id after.users ≡ name)
      × (ensure_username p id other after ≡ ok (name, after))
unfolding ensure_username get_user
ensure_username-Allocated p id base other db {u} i e blank lt free =
    let clean = or_user (sanitize_username p base) in
    let k : any (is_user_id id) db.users ≡ true =
      find?-any (is_user_id id) (is_user_id id) db.users e
        (find?-passes (is_user_id id) db.users e) in
    let (name, r, unused, ne) =
      try_candidates-Allocated p id clean db k (or_user_nonempty (sanitize_username p base)) 0 200 i
        (omega arith) (omega (arith, lt)) free in
    let named = username_in-update_where id name db.users k in
    rw (ensure_username, get_user, e, blank)
      (
        name,
        set_name id name db,
        r,
        unused,
        named,
        ensure_username_again p id other name (set_name id name db) named ne,
      )
