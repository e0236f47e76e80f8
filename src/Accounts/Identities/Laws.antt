-- ===== src/Accounts/Identities/Laws.antt =====
-- An identity stays with its account, and an invite links one identity.
use topology_v.Base.{
  ℕ, ◌+◌, String, Bool, true, false, true≢false, ◌≡◌, ◌≢◌, refl, sym, ap, ◌∙◌, Option, none, some,
  List, [], ◌∷◌, ◌++◌, ◌==◌, ==_iff, str_eq, str_eq-false, eq_iff, arith, any, find?, update_where,
  Bool-cases, Option-cases, inl, inr,
}
use topology_v.Base.Results.{ok, err, Outcome-cases, ok-eq}
use topology_v.Models.{user}
use topology_v.Db.{Database, IdentityRow, InviteRow}
use topology_v.Accounts.Platform.{Platform}
use topology_v.Accounts.Text.{email_sha1}
use topology_v.Accounts.Users.{create_user, set_legacy_contact_id_if_missing, add_user_role}
use topology_v.Accounts.Sessions.{login_user}
use topology_v.Accounts.Sessions.Life.{login_user-identities, later}
use topology_v.Accounts.Identities.{
  OnboardParams, is_identity, find_identity, create_identity, identity_row, with_contact_id,
  link_identity, get_invite_by_token_hash, is_usable, mark_invite_used, usable_invite, link_target,
  claims_role, known_contact, Onboarded, link_and, new_account, onboard_by, onboard_identity,
  signed_in, refreshed, signed, after_onboarding, oidc_callback,
}

-- A token whose invite was used or has expired counts as no token: the onboarding goes the way it
-- goes without an invite.
pub onboard_identity-unusable :
    (p : Platform) (o : OnboardParams) (db : Database) {i : InviteRow}
    → get_invite_by_token_hash (p.sha256 o.invite_token) db ≡ some i
    → is_usable db.now i ≡ false
    → onboard_identity p o db ≡ onboard_identity p (record o { invite_token = "" }) db
unfolding onboard_identity link_identity
onboard_identity-unusable p o db {i} e u = elim (Bool-cases (str_eq o.invite_token "")) [
  | inl t ↦ rw (onboard_identity, usable_invite, t) refl
  | inr t ↦ rw (onboard_identity, usable_invite, t, e, u) refl
]

module _ {ℓ} {A : Type ℓ} where
  find?-append :
      (q : A → Bool) (xs : List A) (x : A)
      → any q xs ≡ false
      → q x ≡ true
      → find? q (xs ++ x ∷ []) ≡ some x
  find?-append q [] x h k = rw k refl
  find?-append q (y ∷ ys) x h k = ground (arith, find?-append q ys x)

  -- An update that keeps the test, on the row that is found.
  pub find?-update_where :
      (q r : A → Bool) (f : A → A) (xs : List A) {x : A}
      → ((y : A) → q (f y) ≡ q y)
      → find? q xs ≡ some x
      → r x ≡ true
      → find? q (update_where r f xs) ≡ some (f x)
  find?-update_where q r f [] k e t = cc
  find?-update_where q r f (y ∷ ys) {x} k e t =
      ground (arith, k y, find?-update_where q r f ys {x = x} k)

-- The account that an identity is linked to.
abbrev Bound : String → String → ℕ → List IdentityRow → Type 0
Bound issuer subject id is =
    (i : IdentityRow) × (find? (is_identity issuer subject) is ≡ some i) × (i.user_id ≡ id)

set_legacy-identities :
    (id : ℕ) (legacy : String) (db : Database)
    → (set_legacy_contact_id_if_missing id legacy db).identities ≡ db.identities
unfolding set_legacy_contact_id_if_missing
set_legacy-identities id legacy db = ground arith

abbrev stored_row : IdentityRow → Database → IdentityRow
stored_row row db = record row { id = db.next_uuid }

abbrev with_row : IdentityRow → Database → Database
with_row row db = record db {
  identities = db.identities ++ stored_row row db ∷ [];
  next_uuid = db.next_uuid + 1;
}

create_identity-eq_ok :
    (row : IdentityRow) (db : Database) {after : Database}
    → create_identity row db ≡ ok after
    → (any (is_identity row.issuer row.subject) db.identities ≡ false) × (after ≡ with_row row db)
unfolding create_identity
create_identity-eq_ok row db e =
    elim (Bool-cases (any (is_identity row.issuer row.subject) db.identities)) [
      | inl t ↦ absurd (ground (arith, t, e))
      | inr t ↦ elim (Bool-cases (any (λ u. u.id == row.user_id) db.users)) [
        | inr k ↦ absurd (ground (arith, t, k, e))
        | inl k ↦ (t, ok-eq (create_identity row db) (rw (create_identity, t, k) refl) e)
      ]
    ]

with_row-Bound :
    (row : IdentityRow) (db : Database)
    → any (is_identity row.issuer row.subject) db.identities ≡ false
    → Bound row.issuer row.subject row.user_id (with_row row db).identities
with_row-Bound row db t = (
  stored_row row db,
  find?-append (is_identity row.issuer row.subject) db.identities (stored_row row db) t
      (rw ((eq_iff row.issuer row.issuer).1 refl, (eq_iff row.subject row.subject).1 refl) refl),
  refl,
)

with_contact_id-identities :
    (p : Platform) (id : ℕ) (email : String) (db : Database)
    → (with_contact_id p id email db).identities ≡ db.identities
with_contact_id-identities p id email db =
    ground (arith, set_legacy-identities id (email_sha1 p email) db)

with_contact_id-invites :
    (p : Platform) (id : ℕ) (email : String) (db : Database)
    → (with_contact_id p id email db).invites ≡ db.invites
unfolding set_legacy_contact_id_if_missing
with_contact_id-invites p id email db = ground arith

link_identity-eq_ok :
    (p : Platform) (id : ℕ) (o : OnboardParams) (db : Database) {after : Database}
    → link_identity p id o db ≡ ok after
    → (any (is_identity o.issuer o.subject) db.identities ≡ false)
      × (after ≡ with_contact_id p id o.email (with_row (identity_row p id o) db))
unfolding link_identity
link_identity-eq_ok p id o db e = elim (Outcome-cases (create_identity (identity_row p id o) db)) [
  | inl (why, t) ↦ absurd (ground (arith, t, e))
  | inr (mid, t) ↦
      let (fresh, same) = create_identity-eq_ok (identity_row p id o) db t in
      (
        fresh,
        ok-eq (link_identity p id o db) (rw (link_identity, t) refl) e
            ∙ ap (with_contact_id p id o.email) same,
      )
]

link_identity-Bound :
    (p : Platform) (id : ℕ) (o : OnboardParams) (db after : Database)
    → link_identity p id o db ≡ ok after
    → Bound o.issuer o.subject id after.identities
link_identity-Bound p id o db after e =
    let (fresh, same) = link_identity-eq_ok p id o db e in
    rw (same, with_contact_id-identities p id o.email (with_row (identity_row p id o) db))
      (with_row-Bound (identity_row p id o) db fresh)

link_identity-invites :
    (p : Platform) (id : ℕ) (o : OnboardParams) (db after : Database)
    → link_identity p id o db ≡ ok after
    → after.invites ≡ db.invites
link_identity-invites p id o db after e =
    let (fresh, same) = link_identity-eq_ok p id o db e in
    rw same (with_contact_id-invites p id o.email (with_row (identity_row p id o) db))

link_and-Bound :
    (p : Platform) (target : ℕ) (o : OnboardParams) (next : Database → Database) (db : Database)
    {id : ℕ} {after : Database}
    → ((d : Database) → (next d).identities ≡ d.identities)
    → link_and p target o next db ≡ (ok (some id), after)
    → Bound o.issuer o.subject id after.identities
link_and-Bound p target o next db {id} {after} k e =
    elim (Outcome-cases (link_identity p target o db)) [
      | inl (why, t) ↦ absurd (cc (rw (link_and, t) at e))
      | inr (mid, t) ↦
          let h = rw (link_and, t) at e in
          let who : target ≡ id = ground (arith, ap (λ r. r.0) h) in
          let now : next mid ≡ after = ap (λ r. r.1) h in
          rw (sym who, sym now, k mid) (link_identity-Bound p target o db mid t)
    ]

-- Every onboarding that names an account has linked the identity to it.
onboard_by-Bound :
    (p : Platform) (invite : Option InviteRow) (o : OnboardParams) (db : Database) {id : ℕ}
    {after : Database}
    → onboard_by p invite o db ≡ (ok (some id), after)
    → Bound o.issuer o.subject id after.identities
unfolding onboard_by mark_invite_used
onboard_by-Bound p invite o db {id} {after} e = elim (Option-cases (link_target invite)) [
  | inr ((i, target), t) ↦
      link_and-Bound p target o (mark_invite_used i target) db (λ d. refl) (rw (onboard_by, t) at e)
  | inl t ↦ elim (Option-cases (known_contact p o db)) [
    | inr (u, k) ↦ link_and-Bound p u.id o (λ d. d) db (λ d. refl) (rw (onboard_by, t, k) at e)
    | inl k ↦ elim (Bool-cases (claims_role invite)) [
      | inr c ↦ absurd (cc (rw (onboard_by, t, k, c) at e))
      | inl c ↦ elim (Outcome-cases (create_user o.name "" false db)) [
        | inl (why, n) ↦ absurd (cc (rw (onboard_by, t, k, c, new_account, n) at e))
        | inr ((made, d), n) ↦
            link_and-Bound p made o (λ x. x) (add_user_role made user d) (λ x. refl)
              (rw (onboard_by, t, k, c, new_account, n) at e)
      ]
    ]
  ]
]

-- Where the identity is known, the callback signs in its account.
callback-known :
    (p : Platform) (raw : String) (o : OnboardParams) (db : Database) {i : IdentityRow}
    → o.subject ≢ ""
    → find_identity o.issuer o.subject db ≡ some i
    → oidc_callback p raw o db ≡ signed p raw i.user_id (refreshed i db)
unfolding oidc_callback
callback-known p raw o db ne e = rw (str_eq-false o.subject "" ne, e) refl

signed-Bound :
    (p : Platform) (raw issuer subject : String) (id : ℕ) (db after : Database) {a : ℕ}
    {c : Option String}
    → Bound issuer subject id db.identities
    → signed p raw id db ≡ (after, signed_in a c)
    → Bound issuer subject a after.identities
signed-Bound p raw issuer subject id db after {a} b e =
    let who : id ≡ a = ground (arith, ap (λ r. r.1) e) in
    let is : after.identities ≡ db.identities =
      ap (λ r. r.0.identities) (sym e) ∙ login_user-identities p raw id db in
    rw (is, sym who) b

refreshed-identities :
    (i : IdentityRow) (db : Database) → (refreshed i db).identities ≡ db.identities
refreshed-identities i db = ground (arith, set_legacy-identities i.user_id i.email_sha1 db)

after_onboarding-Bound :
    (p : Platform) (raw issuer subject : String) (r : Onboarded) (after : Database) {a : ℕ}
    {c : Option String}
    → ((id : ℕ) (d : Database) → r ≡ (ok (some id), d) → Bound issuer subject id d.identities)
    → after_onboarding p raw r ≡ (after, signed_in a c)
    → Bound issuer subject a after.identities
after_onboarding-Bound p raw issuer subject (err why, d) after k e = absurd cc
after_onboarding-Bound p raw issuer subject (ok none, d) after k e = absurd cc
after_onboarding-Bound p raw issuer subject (ok (some id), d) after k e =
    signed-Bound p raw issuer subject id d after (k id d refl) e

callback-Bound :
    (p : Platform) (raw : String) (o : OnboardParams) (db after : Database) {id : ℕ}
    {c : Option String}
    → oidc_callback p raw o db ≡ (after, signed_in id c)
    → (o.subject ≢ "") × Bound o.issuer o.subject id after.identities
unfolding oidc_callback onboard_identity find_identity
callback-Bound p raw o db after {id} {c} e = elim (Bool-cases (str_eq o.subject "")) [
  | inl t ↦ absurd (cc (rw (oidc_callback, t) at e))
  | inr t ↦ (
    (λ blank. true≢false (sym ((eq_iff o.subject "").1 blank) ∙ t)),
    elim (Option-cases (find? (is_identity o.issuer o.subject) db.identities)) [
      | inr (i, k) ↦
          signed-Bound p raw o.issuer o.subject i.user_id (refreshed i db) after
            (i, rw (refreshed-identities i db) k, refl)
            (rw (oidc_callback, t, find_identity, k) at e)
      | inl k ↦
          after_onboarding-Bound p raw o.issuer o.subject (onboard_identity p o db) after
            (λ j d h. onboard_by-Bound p (usable_invite p o db) o db h)
            (rw (oidc_callback, t, find_identity, k) at e)
    ],
  )
]

-- An identity stays with its account: once a callback has signed in an account, every later callback
-- for the same issuer and subject signs in that account, whatever invite, address or CILogon id it
-- carries.
pub oidc_callback_stable :
    (p : Platform) (raw raw' : String) (o o' : OnboardParams) (db after : Database) (t : ℕ) {id : ℕ}
    {c : Option String}
    → oidc_callback p raw o db ≡ (after, signed_in id c)
    → o'.issuer ≡ o.issuer
    → o'.subject ≡ o.subject
    → (c' : Option String) × ((oidc_callback p raw' o' (later t after)).1 ≡ signed_in id c')
unfolding find_identity
oidc_callback_stable p raw raw' o o' db after t {id} e si ss =
    let (ne, bound) = callback-Bound p raw o db after e in
    let (i, found, who) = bound in
    let again =
      callback-known p raw' o' (later t after) {i = i} (λ blank. ne (sym ss ∙ blank))
        (rw (find_identity, si, ss) found) in
    (
      (login_user p raw' i.user_id (refreshed i (later t after))).1,
      ap (λ r. r.1) again ∙ rw who refl,
    )

usable_invite-found :
    (p : Platform) (o : OnboardParams) (db : Database) {i : InviteRow}
    → usable_invite p o db ≡ some i
    → get_invite_by_token_hash (p.sha256 o.invite_token) db ≡ some i
usable_invite-found p o db e = ground (arith, e)

-- Where an account_link or contact_onboard invite has linked an identity, it is used up: whoever
-- comes with the same token next, at whatever time, is onboarded as without it.
pub onboard_identity_single_use :
    (p : Platform) (o o' : OnboardParams) (db after : Database) (t : ℕ) {i : InviteRow}
    {target id : ℕ}
    → usable_invite p o db ≡ some i
    → link_target (some i) ≡ some (i.id, target)
    → onboard_identity p o db ≡ (ok (some id), after)
    → o'.invite_token ≡ o.invite_token
    → (id ≡ target)
      × (onboard_identity p o' (later t after)
          ≡ onboard_identity p (record o' { invite_token = "" }) (later t after))
unfolding onboard_identity onboard_by get_invite_by_token_hash mark_invite_used
onboard_identity_single_use p o o' db after t {i} {target} {id} u l e same =
    let found : get_invite_by_token_hash (p.sha256 o.invite_token) db ≡ some i =
      usable_invite-found p o db u in
    let linked : link_and p target o (mark_invite_used i.id target) db ≡ (ok (some id), after) =
      rw (onboard_identity, u, onboard_by, l) at e in
    elim (Outcome-cases (link_identity p target o db)) [
      | inl (why, n) ↦ absurd (cc (rw (link_and, n) at linked))
      | inr (mid, n) ↦
          let h = rw (link_and, n) at linked in
          let who : target ≡ id = ground (arith, ap (λ r. r.0) h) in
          let marked : mark_invite_used i.id target mid ≡ after = ap (λ r. r.1) h in
          let look =
            find?-update_where (λ x. str_eq x.token_hash (p.sha256 o.invite_token))
              (λ x. x.id == i.id) (λ x. record x { used_at = some mid.now; used_by = some target })
              mid.invites (λ x. refl)
              (ap (find? (λ x. str_eq x.token_hash (p.sha256 o.invite_token)))
                  (link_identity-invites p target o db mid n)
                ∙ found)
              ((==_iff i.id i.id).1 refl) in
          let used : InviteRow = record i { used_at = some mid.now; used_by = some target } in
          let look' : get_invite_by_token_hash (p.sha256 o'.invite_token) (later t after)
              ≡ some used =
            rw (same, sym marked) look in
          (sym who, onboard_identity-unusable p o' (later t after) {i = used} look' refl)
    ]
