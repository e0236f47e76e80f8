-- ===== src/Accounts/Emails/Laws.antt =====
-- A verification link works once, for the address that it was sent to.
use topology_v.Base.{
  ℕ, ◌≤◌, String, Bool, false, ◌≡◌, ◌≢◌, refl, sym, ap, ◌∙◌, none, some, List, [], ◌∷◌, str_eq,
  str_eq-false, eq_iff, arith, any, find?, update_where, Option-cases, inl, inr,
}
use topology_v.Db.{Database, EmailVerification, email_verify_confirm}
use topology_v.Accounts.Platform.{Platform}
use topology_v.Accounts.Sessions.Life.{later}
use topology_v.Accounts.Emails.{
  is_open, confirm_email_verification, link_gone, verified, handle_confirm_email, audit_email,
  mark_verified,
}

-- A row that was open is now verified, and one that was not stays shut.
none_open :
    (hash : String) (now t by : ℕ) (vs : List EmailVerification)
    → now ≤ t
    → find?
        (is_open hash t)
        (update_where (is_open hash now) (λ x. record x { verified_at = some by }) vs)
      ≡ none
none_open hash now t by [] le = refl
none_open hash now t by (v ∷ vs) le = ground (arith, none_open hash now t by vs le)

abbrev is_sent : String → EmailVerification → Bool
is_sent hash v = str_eq v.token_hash hash

find?-none :
    (hash : String) (t : ℕ) (vs : List EmailVerification)
    → any (is_sent hash) vs ≡ false
    → find? (is_open hash t) vs ≡ none
find?-none hash t [] h = refl
find?-none hash t (v ∷ vs) h = ground (arith, find?-none hash t vs)

confirm-missing :
    (p : Platform) (id : ℕ) (token : String) (db : Database)
    → token ≢ ""
    → find? (is_open (p.sha256 token) db.now) db.email_verifications ≡ none
    → handle_confirm_email p id (some token) db ≡ (db, link_gone)
unfolding handle_confirm_email confirm_email_verification
confirm-missing p id token db ne e =
    rw (handle_confirm_email, str_eq-false token "" ne, confirm_email_verification, e) refl

confirm-found :
    (p : Platform) (id : ℕ) (token : String) (db : Database) {v : EmailVerification}
    → token ≢ ""
    → find? (is_open (p.sha256 token) db.now) db.email_verifications ≡ some v
    → handle_confirm_email p id (some token) db ≡ (
      audit_email id email_verify_confirm (mark_verified (p.sha256 token) db),
      verified v.email_hint,
    )
unfolding handle_confirm_email confirm_email_verification
confirm-found p id token db ne e =
    rw (handle_confirm_email, str_eq-false token "" ne, confirm_email_verification, e) refl

confirm-nonempty :
    (p : Platform) (id : ℕ) (token : String) (db after : Database) {hint : String}
    → handle_confirm_email p id (some token) db ≡ (after, verified hint)
    → token ≢ ""
unfolding handle_confirm_email
confirm-nonempty p id token db after e blank =
    absurd (cc (rw (handle_confirm_email, (eq_iff token "").1 blank) at e))

-- A link that has verified an address is dead: at every later time, and for whoever is signed in,
-- the same token is answered with 410 and changes nothing.
pub handle_confirm_email_once :
    (p : Platform) (id other : ℕ) (token : String) (db after : Database) (t : ℕ) {hint : String}
    → handle_confirm_email p id (some token) db ≡ (after, verified hint)
    → db.now ≤ t
    → handle_confirm_email p other (some token) (later t after) ≡ (later t after, link_gone)
unfolding handle_confirm_email confirm_email_verification
handle_confirm_email_once p id other token db after t {hint} e le =
    let ne = confirm-nonempty p id token db after e in
    elim (Option-cases (find? (is_open (p.sha256 token) db.now) db.email_verifications)) [
      | inl n ↦ absurd (cc (sym (confirm-missing p id token db ne n) ∙ e))
      | inr (v, n) ↦
          let ends : audit_email id email_verify_confirm (mark_verified (p.sha256 token) db)
              ≡ after =
            ap (λ r. r.0) (sym (confirm-found p id token db ne n) ∙ e) in
          rw (sym ends) (
            confirm-missing p other token
              (later t (audit_email id email_verify_confirm (mark_verified (p.sha256 token) db))) ne
              (none_open (p.sha256 token) db.now t db.now db.email_verifications le))
    ]
