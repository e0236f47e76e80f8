-- ===== src/Accounts/Emails.antt =====
-- internal/handlers/email_verify.go with internal/db/queries_email.go: the single-use links by which
-- a user proves control of an address. The token that a request draws is an argument.
pub mod Laws
use topology_v.Base.{
  ℕ, ◌+◌, ◌*◌, ◌≤◌, ◌<◌, String, Bool, true, false, not, ◌&&◌, ◌||◌, ◌≡◌, ◌≢◌, refl, sym, ap, ◌∙◌,
  Option, none, some, List, [], ◌∷◌, ◌++◌, ◌==◌, str_eq, str_eq-false, eq_iff, ==_iff, arith, ltb,
  is_none, any, find?, find?-passes, update_where, Bool-cases, Option-cases, inl, inr,
  if◌then◌else◌, All,
}
use topology_v.Base.Chars.{chars, of_chars}
use topology_v.Models.{other_kind}
use topology_v.Db.{
  Database, EmailVerification, AuditEntry, Action, email_verify_request, email_verify_confirm,
}
use topology_v.Accounts.Platform.{Platform}
use topology_v.Accounts.Text.{trim_space, looks_like_email, mask_email, email_sha1}
use topology_v.Accounts.Identities.{or_empty}

-- emailVerifyExpiry, in seconds.
abbrev pub email_verify_expiry : ℕ
email_verify_expiry = 48 * 3600

abbrev pub is_address : ℕ → String → EmailVerification → Bool
is_address id sha1 v = v.user_id == id && str_eq v.email_sha1 sha1

-- UpsertEmailVerification: ON CONFLICT (user_id, email_sha1) DO UPDATE.
unfoldable pub upsert_email_verification : EmailVerification → Database → Database
upsert_email_verification new db =
    if any (is_address new.user_id new.email_sha1) db.email_verifications
    then record db {
      email_verifications =
          update_where (is_address new.user_id new.email_sha1) (λ v. new) db.email_verifications;
    }
    else record db { email_verifications = db.email_verifications ++ new ∷ [] }

-- `token_hash = $1 AND verified_at IS NULL AND expires_at > NOW()`.
abbrev pub is_open : String → ℕ → EmailVerification → Bool
is_open hash now v = str_eq v.token_hash hash && is_none v.verified_at && ltb now v.expires_at

abbrev pub mark_verified : String → Database → Database
mark_verified hash db = record db {
  email_verifications =
      update_where (is_open hash db.now) (λ x. record x { verified_at = some db.now })
        db.email_verifications;
}

-- ConfirmEmailVerification: the hint of the first row that the UPDATE returns.
unfoldable pub confirm_email_verification : String → Database → Option String × Database
confirm_email_verification hash db = elim (find? (is_open hash db.now) db.email_verifications) [
  | none ↦ (none, db)
  | some v ↦ (some v.email_hint, mark_verified hash db)
]

-- The audit row of the two handlers, which names no entity.
abbrev pub audit_email : ℕ → Action → Database → Database
audit_email actor action db = record db {
  audit_log =
      db.audit_log
      ++ record {
        actor = actor;
        action = action;
        entity_kind = other_kind "";
        entity_id = "";
        proposal_id = none;
        detail = none;
        created_at = db.now;
      }
        ∷ [];
}

pub data EmailReply : Type 0 where
  bad_body address_required token_required link_gone : EmailReply
  sent verified : String → EmailReply

abbrev pub verification : Platform → String → ℕ → String → Database → EmailVerification
verification p token id email db = record {
  user_id = id;
  email_sha1 = email_sha1 p email;
  email_hint = of_chars (mask_email (chars email));
  encrypted_email = or_empty (p.encrypt email);
  token_hash = p.sha256 token;
  created_at = db.now;
  expires_at = db.now + email_verify_expiry;
  verified_at = none;
}

-- RequestEmailVerification, for the user of the session.
unfoldable pub request_email_verification :
    Platform → String → ℕ → Option String → Database → Database × EmailReply
unfolding upsert_email_verification
request_email_verification p token id none db = (db, bad_body)
request_email_verification p token id (some body) db =
    let email = trim_space p body in
    if looks_like_email (chars email)
    then (
      audit_email id email_verify_request
          (upsert_email_verification (verification p token id email db) db),
      sent (of_chars (mask_email (chars email))),
    )
    else (db, address_required)

abbrev pub confirmed : ℕ → Option String × Database → Database × EmailReply
confirmed id (none, after) = (after, link_gone)
confirmed id (some hint, after) = (audit_email id email_verify_confirm after, verified hint)

-- ConfirmEmailVerification (the handler).
unfoldable pub handle_confirm_email :
    Platform → ℕ → Option String → Database → Database × EmailReply
unfolding confirm_email_verification
handle_confirm_email p id none db = (db, bad_body)
handle_confirm_email p id (some token) db =
    if str_eq token ""
    then (db, token_required)
    else confirmed id (confirm_email_verification (p.sha256 token) db)
