-- ===== src/Tests/Accounts.antt =====
-- The theorems on accounts, sessions, identities and verification links, on a small database.
use topology_v.Base.{
  ℕ, ◌+◌, String, true, false, ◌≡◌, refl, Option, none, some, [], ◌∷◌, any, All, str_eq, arith,
  if◌then◌else◌,
}
use topology_v.Base.Chars.{chars, of_chars}
use topology_v.Base.Results.{ok, err}
use topology_v.Models.{user, account_link}
use topology_v.Db.{Database, UserRow, InviteRow}
use topology_v.Accounts.Platform.{Platform}
use topology_v.Accounts.Text.{
  is_edge, is_char, is_username_char, trim, keep_username, sanitize_runes, sanitize_username,
  trim_space, email_sha1, looks_like_email, mask_email,
}
use topology_v.Accounts.Text.Laws.{
  IsUsernameChar, starts_with, ends_with, sanitize_username_canonical,
}
use topology_v.Accounts.Users.{
  get_user, get_user_roles, ensure_username, try_candidates, candidate, has_username,
  update_user_last_login, add_user_role, set_legacy_contact_id_if_missing,
  find_user_by_legacy_contact_id,
}
use topology_v.Accounts.Users.Names.{username_in, ensure_username-Allocated}
use topology_v.Accounts.Sessions.{
  Context, session_duration, invalid_session, require_auth, login_user, issue_session,
  create_session, get_session_by_token_hash, logout, delete_session,
}
use topology_v.Accounts.Sessions.Laws.{Admitted, require_auth-Admitted}
use topology_v.Accounts.Sessions.Life.{later, login_user-require_auth}
use topology_v.Accounts.Identities.{
  OnboardParams, find_identity, create_identity, link_identity, onboard_identity, onboard_by,
  get_invite_by_token_hash, mark_invite_used, signed_in, oidc_callback,
}
use topology_v.Accounts.Identities.Laws.{oidc_callback_stable, onboard_identity_single_use}
use topology_v.Accounts.OidcState.{state_cookie, verify_state, verify_state-state_cookie}
use topology_v.Accounts.Emails.{
  upsert_email_verification, confirm_email_verification, link_gone, request_email_verification,
  handle_confirm_email,
}
use topology_v.Accounts.Emails.Laws.{handle_confirm_email_once}
use topology_v.Tests.{db}
use topology_v.Tests.Editing.{apart}

unfoldable accounts_code : Unit {0}
unfolding chars of_chars trim is_username_char keep_username sanitize_runes sanitize_username
    trim_space email_sha1 looks_like_email mask_email get_user get_user_roles ensure_username
    try_candidates candidate update_user_last_login add_user_role set_legacy_contact_id_if_missing
    find_user_by_legacy_contact_id require_auth login_user issue_session create_session
    get_session_by_token_hash logout delete_session find_identity create_identity link_identity
    onboard_identity onboard_by get_invite_by_token_hash mark_invite_used oidc_callback
    upsert_email_verification confirm_email_verification request_email_verification
    handle_confirm_email
accounts_code = tt

-- Hashes and codes that keep the text, and a fixed signature.
abbrev pub plat : Platform
plat = record {
  lower = λ c. c;
  is_space = is_char b' ';
  decimal = λ n. "2";
  sha256 = λ s. s;
  sha1_hex = λ s. s;
  encrypt = λ s. some s;
  mac = λ s. "sig";
  encode = λ s. s;
  decode = λ s. some s;
  query_escape = λ s. s;
}

abbrev pub person : ℕ → String → Option String → UserRow
person id name username = record {
  id = id;
  display_name = name;
  username = username;
  status = "active";
  legacy_contact_id = none;
  is_provisioned = true;
  last_login = none;
}

-- Two users called Ann, of whom one has the name "ann"; the other has an invite for her account.
abbrev link_invite : InviteRow
link_invite = record {
  id = 150;
  kind = account_link;
  token_hash = "inv";
  created_by = 100;
  target_user = some 102;
  claim = none;
  used_at = none;
  used_by = none;
  expires_at = 500;
  contact_email = "";
}

abbrev people : Database
people = record db {
  users = person 101 "ann" (some "ann") ∷ person 102 "ann" none ∷ [];
  invites = link_invite ∷ [];
  sessions =
      record { id = 160; user_id = 102; role = user; token_hash = "tok"; expires_at = 20 } ∷ [];
}

abbrev claims : String → OnboardParams
claims token = record {
  issuer = "iss";
  subject = "sub";
  email = "ann@x.org";
  name = "ann";
  cilogon_id = "";
  eppn = "";
  oidc = "";
  idp_name = "";
  invite_token = token;
}

lower_keeps : (c : _) → IsUsernameChar c → plat.lower c ≡ c
lower_keeps c h = refl

no_space : (c : _) → IsUsernameChar c → plat.is_space c ≡ false
unfolding is_username_char
no_space c h = ground arith

sanitize_username_canonical_example :
    All IsUsernameChar (chars (sanitize_username plat " .ann b@x"))
    × (starts_with is_edge (chars (sanitize_username plat " .ann b@x")) ≡ false)
    × (ends_with is_edge (chars (sanitize_username plat " .ann b@x")) ≡ false)
    × (sanitize_username plat (sanitize_username plat " .ann b@x")
        ≡ sanitize_username plat " .ann b@x")
sanitize_username_canonical_example =
    sanitize_username_canonical plat lower_keeps no_space " .ann b@x"

taken : sanitize_username plat " .ann b@x" ≡ "ann-b"
unfolding accounts_code
taken = refl

ensure_username-Allocated_example :
    (name : String) × (after : Database) × (ensure_username plat 102 "ann" people
      ≡ ok (name, after))
    × (any (has_username name) people.users ≡ false)
    × (username_in 102 after.users ≡ name)
    × (ensure_username plat 102 "x" after ≡ ok (name, after))
unfolding accounts_code
ensure_username-Allocated_example =
    ensure_username-Allocated plat 102 "ann" "x" people 1 refl refl (omega arith) refl

abbrev admitted : Context
admitted = record {
  session = record { id = 160; user_id = 102; role = user; token_hash = "tok"; expires_at = 20 };
  user_row = person 102 "ann" none;
  roles = user ∷ [];
}

require_auth-Admitted_example : Admitted plat (some "tok") people admitted
unfolding accounts_code
require_auth-Admitted_example = require_auth-Admitted plat (some "tok") people refl

login_user-require_auth_example :
    ((login_user plat "new" 102 people).1 ≡ some "new")
    × ((c : Context) × (require_auth plat
            (some "new")
            (later (10 + 7) (login_user plat "new" 102 people).0)
          ≡ ok c)
        × (c.session.user_id ≡ 102))
    × (require_auth plat
          (some "new")
          (later (10 + session_duration + 1) (login_user plat "new" 102 people).0)
        ≡ err invalid_session)
    × (require_auth plat
          (some "new")
          (logout plat (some "new") (later (10 + 7) (login_user plat "new" 102 people).0))
        ≡ err invalid_session)
unfolding accounts_code
login_user-require_auth_example =
    login_user-require_auth plat "new" 102 people 7 1 (apart "new" "" refl) refl refl refl
      (omega arith)

-- The callback with the invite signs in the invited account.
abbrev linked : Database
linked = (oidc_callback plat "one" (claims "inv") people).0

oidc_callback_stable_example :
    (c : Option String) × ((oidc_callback plat "two"
        (record (claims "") { email = "" })
        (later 30 linked)).1
      ≡ signed_in 102 c)
unfolding accounts_code
oidc_callback_stable_example =
    oidc_callback_stable plat "one" "two" (claims "inv") (record (claims "") { email = "" }) people
      linked 30 refl refl refl

abbrev onboarded : Database
onboarded = (onboard_identity plat (claims "inv") people).1

onboard_identity_single_use_example :
    ◌≡◌ {A = ℕ} 102 102
    × (onboard_identity plat (record (claims "inv") { subject = "else" }) (later 30 onboarded)
        ≡ onboard_identity plat (record (claims "") { subject = "else" }) (later 30 onboarded))
unfolding accounts_code
onboard_identity_single_use_example =
    onboard_identity_single_use plat (claims "inv") (record (claims "inv") { subject = "else" })
      people onboarded 30 {i = link_invite} {target = 102} {id = 102} refl refl refl refl

verify_state-state_cookie_example :
    verify_state plat (some (state_cookie plat "st" "inv" "/p|q")) "other"
    ≡ (if str_eq "st" "other" then some ("inv", "/p|q") else none)
unfolding accounts_code
verify_state-state_cookie_example =
    verify_state-state_cookie plat "st" "inv" "/p|q" "other" refl refl (λ s. refl) (λ s. refl)

abbrev requested : Database
requested = (request_email_verification plat "mail" 102 (some "ann@x.org") people).0

abbrev confirmed_once : Database
confirmed_once = (handle_confirm_email plat 102 (some "mail") requested).0

handle_confirm_email_once_example :
    handle_confirm_email plat 101 (some "mail") (later 12 confirmed_once)
    ≡ (later 12 confirmed_once, link_gone)
unfolding accounts_code
handle_confirm_email_once_example =
    handle_confirm_email_once plat 102 101 "mail" requested confirmed_once 12 {hint = "a***@x.org"}
      refl (omega arith)
