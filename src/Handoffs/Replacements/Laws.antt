-- ===== src/Handoffs/Replacements/Laws.antt =====
-- Who decides a request, that it is decided once, and what of it reaches the audit log.
use mathlib.Core.Path.{subst}
use topology_v.Table.{by_name}
use topology_v.Base.{
  ℕ, ◌+◌, String, Bool, true, false, true≢false, ◌&&◌, ◌≡◌, refl, sym, ap, ◌∙◌, none, some, List,
  [], ◌∷◌, ◌++◌, ◌==◌, ==_iff, arith, any, find?, update_where, Bool-cases, Option-cases, ◌⊎◌, inl,
  inr, if◌then◌else◌,
}
use topology_v.Base.Results.{ok, err, Outcome-cases, ok_inj}
use topology_v.Models.{Status, approved, rejected, withdrawn, is_pending, Kind}
use topology_v.Db.{Database, UserRow, ReplacementRow, AuditEntry, Action, replacement_create}
use topology_v.Handlers.{Session}
use topology_v.Accounts.Users.{get_user, deref}
use topology_v.Queries.Contacts.{is_user}
use topology_v.Handoffs.Slots.{
  Slot, Holder, NewHolder, is_resource, replacement_kind, get_contact_slot, replace_contact_slot,
}
use topology_v.Handoffs.Slots.Laws.{some_inj, holders, holder_of, replace_contact_slot-holders}
use topology_v.Handoffs.Replacements.{
  already_decided, audit, is_complete, get_contact_replacement, file_replacement,
  create_contact_replacement, new_request, decide_contact_replacement, slot_of, apply_decision,
  can_decide_replacement, decide_replacement, withdraw_replacement,
}

-- A request that is found is decided as the row says.
abbrev settled : ℕ → ℕ → Status → ReplacementRow → ReplacementRow
settled now by status r = record r { status = status; decided_at = some now; decided_by = some by }

find_settled :
    (id : ℕ) (f : ReplacementRow → ReplacementRow) (rs : List ReplacementRow) {r : ReplacementRow}
    → ((x : ReplacementRow) → (f x).id ≡ x.id)
    → find? (λ x. x.id == id) rs ≡ some r
    → is_pending r.status ≡ true
    → find? (λ x. x.id == id) (update_where (λ x. x.id == id && is_pending x.status) f rs)
      ≡ some (f r)
find_settled id f [] k e p = cc
find_settled id f (x ∷ xs) {r} k e p = ground (arith, k x, find_settled id f xs {r = r} k)

-- The statement changes no request that is not pending.
settle_none :
    (id : ℕ) (f : ReplacementRow → ReplacementRow) (rs : List ReplacementRow)
    → any (λ x. x.id == id && is_pending x.status) rs ≡ false
    → update_where (λ x. x.id == id && is_pending x.status) f rs ≡ rs
settle_none id f [] e = refl
settle_none id f (x ∷ xs) e = ground (arith, settle_none id f xs)

-- What an answered decision was, for the request that it was about.
pub record Settles (s : Session) (id : ℕ) (approve : Bool) (db after : Database) (status : Status)
    : Type 0 where
  pub request : ReplacementRow
  pub found : get_contact_replacement id db ≡ some request
  pub was_pending : is_pending request.status ≡ true
  pub allowed : can_decide_replacement s request ≡ true
  pub outcome : status ≡ (if approve then approved else rejected)
  pub now_decided :
      get_contact_replacement id after ≡ some (settled db.now s.user_id status request)

-- A change of contacts: it leaves the workflow's tables and the clock alone.
pub record Untouched (db after : Database) : Type 0 where
  pub replacements : after.replacements ≡ db.replacements
  pub invites : after.invites ≡ db.invites
  pub proposals : after.proposals ≡ db.proposals
  pub audit_log : after.audit_log ≡ db.audit_log
  pub clock : after.now ≡ db.now

Untouched-refl : (db : Database) → Untouched db db
Untouched-refl db = record {
  replacements = refl;
  invites = refl;
  proposals = refl;
  audit_log = refl;
  clock = refl;
}

pub replace_contact_slot-Untouched :
    (s : Slot) (new : NewHolder) (by : ℕ) (db : Database) {after : Database}
    → replace_contact_slot s new by db ≡ some after
    → Untouched db after
unfolding replace_contact_slot
replace_contact_slot-Untouched s new by db {after} e =
    elim (Bool-cases (is_resource s.entity_kind)) [
      | inl t ↦ elim (Option-cases (by_name s.entity_name db.resources)) [
        | inl n ↦ absurd (cc (rw (replace_contact_slot, t, n) at e))
        | inr (r, n) ↦
            subst (Untouched db) (some_inj (rw (replace_contact_slot, t, n) at e)) (record {
              replacements = refl;
              invites = refl;
              proposals = refl;
              audit_log = refl;
              clock = refl;
            })
      ]
      | inr t ↦ subst (Untouched db) (some_inj (rw (replace_contact_slot, t) at e)) (record {
        replacements = refl;
        invites = refl;
        proposals = refl;
        audit_log = refl;
        clock = refl;
      })
    ]

-- What an apply step has done: its outcome, and the slot's new holder where it approved.
abbrev Applied : Bool → ReplacementRow → Database → Status × Action × Database → Type 0
Applied approve r db (status, action, after) =
    (status ≡ (if approve then approved else rejected))
    × Untouched db after
    × ((approve ≡ false)
        ⊎ ((new : NewHolder) × (by : ℕ) × (new.user ≡ r.requester_user)
            × (replace_contact_slot (slot_of r) new by db ≡ some after)))

apply_decision-Applied :
    (approve : Bool) (r : ReplacementRow) (by : ℕ) (db : Database)
    {result : Status × Action × Database}
    → apply_decision approve r by db ≡ ok result
    → Applied approve r db result
apply_decision-Applied false r by db e =
    subst (Applied false r db) (ok_inj e) (refl, Untouched-refl db, inl refl)
apply_decision-Applied true r by db {result} e =
    elim (Option-cases (get_user r.requester_user db)) [
      | inl n ↦ absurd (cc (rw (apply_decision, n) at e))
      | inr (u, n) ↦
          let new : NewHolder = record {
            name = r.requester_name;
            contact_id = deref u.legacy_contact_id;
            user = r.requester_user;
          } in
          elim (Option-cases (replace_contact_slot (slot_of r) new by db)) [
            | inl m ↦ absurd (cc (rw (apply_decision, n, m) at e))
            | inr (after, m) ↦ subst (Applied true r db) (ok_inj (rw (apply_decision, n, m) at e)) (
              refl,
              replace_contact_slot-Untouched (slot_of r) new by db m,
              inr (new, by, refl, m),
            )
          ]
    ]

audit-replacements :
    (actor : ℕ) (action : Action) (kind : Kind) (name : String) (id : ℕ) (db : Database)
    → (audit actor action kind name (some id) none db).replacements ≡ db.replacements
unfolding audit
audit-replacements actor action kind name id db =
    elim (Bool-cases (any (λ p. p.id == id) db.proposals)) [
      | inl t ↦ rw (audit, t) refl
      | inr t ↦ rw (audit, t) refl
    ]

-- The decision as its steps.
abbrev Decides : Session → ℕ → Bool → Database → Status → Database → Type 0
Decides s id approve db status after =
    (r : ReplacementRow) × (action : Action) × (mid : Database) × (get_contact_replacement id db
      ≡ some r)
    × (is_pending r.status ≡ true)
    × (can_decide_replacement s r ≡ true)
    × Applied approve r db (status, action, mid)
    × (audit s.user_id action r.entity_kind r.entity_name (some id) none
          (decide_contact_replacement id status s.user_id mid)
        ≡ after)

decide_replacement-Decides :
    (s : Session) (id : ℕ) (approve : Bool) (db : Database) {status : Status} {after : Database}
    → decide_replacement s id approve db ≡ ok (status, after)
    → Decides s id approve db status after
unfolding decide_replacement
decide_replacement-Decides s id approve db {status} {after} e =
    elim (Option-cases (get_contact_replacement id db)) [
      | inl n ↦ absurd (cc (rw (decide_replacement, n) at e))
      | inr (r, n) ↦ elim (Bool-cases (is_pending r.status)) [
        | inr p ↦ absurd (cc (rw (decide_replacement, n, p) at e))
        | inl p ↦ elim (Bool-cases (can_decide_replacement s r)) [
          | inr m ↦ absurd (cc (rw (decide_replacement, n, p, m) at e))
          | inl m ↦ elim (Outcome-cases (apply_decision approve r s.user_id db)) [
            | inl (why, a) ↦ absurd (cc (rw (decide_replacement, n, p, m, a) at e))
            | inr ((status', action, mid), a) ↦
                let h = ok_inj (rw (decide_replacement, n, p, m, a) at e) in
                let same : status' ≡ status = ap (λ x. x.0) h in
                (
                  r,
                  action,
                  mid,
                  n,
                  p,
                  m,
                  subst (λ x. Applied approve r db (x, action, mid)) same
                      (apply_decision-Applied approve r s.user_id db a),
                  ap
                        (λ x.
                          audit s.user_id action r.entity_kind r.entity_name (some id) none
                            (decide_contact_replacement id x s.user_id mid))
                        (sym same)
                      ∙ ap (λ x. x.1) h,
                )
          ]
        ]
      ]
    ]

closed :
    (approve : Bool) (status : Status)
    → status ≡ (if approve then approved else rejected)
    → is_pending status ≡ false
closed true status e = rw e refl
closed false status e = rw e refl

decided_again :
    (s : Session) (id : ℕ) (approve : Bool) (db : Database) {r : ReplacementRow}
    → get_contact_replacement id db ≡ some r
    → is_pending r.status ≡ false
    → decide_replacement s id approve db ≡ err already_decided
unfolding decide_replacement
decided_again s id approve db n p = rw (decide_replacement, n, p) refl

-- A decision is answered only for a request that was pending, to its incumbent or to a manager or
-- administrator; the request is then approved or rejected as asked, by that user and at that time,
-- and whoever decides it again is answered that it is decided, with nothing changed.
pub decide_replacement-Settles :
    (s s' : Session) (id : ℕ) (approve approve' : Bool) (db after : Database) {status : Status}
    → decide_replacement s id approve db ≡ ok (status, after)
    → Settles s id approve db after status
      × (decide_replacement s' id approve' after ≡ err already_decided)
unfolding decide_contact_replacement get_contact_replacement
decide_replacement-Settles s s' id approve approve' db after {status} e =
    let (r, action, mid, n, p, m, applied, ends) = decide_replacement-Decides s id approve db e in
    let (outcome, same, slot) = applied in
    let f = settled db.now s.user_id status in
    let row : get_contact_replacement id after ≡ some (f r) =
      subst (λ d. get_contact_replacement id d ≡ some (f r)) ends
        (rw
          (
            get_contact_replacement,
            audit-replacements s.user_id action r.entity_kind r.entity_name id
                (decide_contact_replacement id status s.user_id mid),
            decide_contact_replacement,
            same.replacements,
            same.clock,
          )
          (find_settled id f db.replacements (λ x. refl) n p)) in
    (
      record {
        request = r;
        found = n;
        was_pending = p;
        allowed = m;
        outcome = outcome;
        now_decided = row;
      },
      decided_again s' id approve' after row (closed approve status outcome),
    )

holders-if :
    (slot : Slot) (b : Bool) (db : Database) (log : List AuditEntry)
    → holders slot (if b then record db { audit_log = log } else db) ≡ holders slot db
holders-if slot true db log = refl
holders-if slot false db log = refl

holders-audit :
    (slot : Slot) (actor : ℕ) (action : Action) (kind : Kind) (name : String) (id : ℕ)
    (db : Database)
    → holders slot (audit actor action kind name (some id) none db) ≡ holders slot db
unfolding audit
holders-audit slot actor action kind name id db =
    holders-if slot (any (λ p. p.id == id) db.proposals) db _

holders-decide :
    (slot : Slot) (id : ℕ) (status : Status) (by : ℕ) (db : Database)
    → holders slot (decide_contact_replacement id status by db) ≡ holders slot db
unfolding decide_contact_replacement
holders-decide slot id status by db = refl

-- An approved request is taken at its word: the slot's one live holder is then the requester.
pub decide_replacement-holders :
    (s : Session) (id : ℕ) (db after : Database) {status : Status} {r : ReplacementRow}
    → get_contact_replacement id db ≡ some r
    → replacement_kind r.entity_kind ≡ true
    → decide_replacement s id true db ≡ ok (status, after)
    → (h : Holder) × (h.user ≡ some r.requester_user) × (holders (slot_of r) after ≡ h ∷ [])
decide_replacement-holders s id db after {status} {r} n k e =
    let (r', action, mid, n', p, m, applied, ends) = decide_replacement-Decides s id true db e in
    let (outcome, same, slot) = applied in
    let row : r' ≡ r = some_inj (sym n' ∙ n) in
    elim slot [
      | inl t ↦ absurd (true≢false t)
      | inr (new, by, who, rep) ↦
          let taken : replace_contact_slot (slot_of r) new by db ≡ some mid =
            subst (λ x. replace_contact_slot (slot_of x) new by db ≡ some mid) row rep in
          let (sole, found, rest) =
            replace_contact_slot-holders (slot_of r) (slot_of r) new by db k taken in
          (
            holder_of new,
            ap some (who ∙ ap (λ x. x.requester_user) row),
            subst (λ d. holders (slot_of r) d ≡ holder_of new ∷ []) ends
                (holders-audit (slot_of r) s.user_id action r'.entity_kind r'.entity_name id
                    (decide_contact_replacement id status s.user_id mid)
                  ∙ (holders-decide (slot_of r) id status s.user_id mid ∙ sole)),
          )
    ]

audit_unknown :
    (actor : ℕ) (action : Action) (kind : Kind) (name : String) (id : ℕ) (db : Database)
    → any (λ p. p.id == id) db.proposals ≡ false
    → audit actor action kind name (some id) none db ≡ db
unfolding audit
audit_unknown actor action kind name id db t = rw (audit, t) refl

-- The database in which a request has been filed, but for the audit log.
abbrev pub with_request : Slot → Holder → UserRow → String → Database → Database
with_request slot holder requester note db = record db {
  replacements = db.replacements ++ new_request db.next_uuid slot holder requester note ∷ [];
  next_uuid = db.next_uuid + 1;
}

abbrev pub audited : Slot → ℕ → Database → Database → Database
audited slot user db filed =
    audit user replacement_create slot.entity_kind slot.entity_name (some db.next_uuid) none filed

pub file_replacement-eq_ok :
    (slot : Slot) (note : String) (user : ℕ) (db : Database) {id : ℕ} {after : Database}
    → file_replacement slot note user db ≡ ok (id, after)
    → (holder : Holder) × (requester : UserRow) × (get_contact_slot slot db ≡ some holder)
      × (db.next_uuid ≡ id)
      × (audited slot user db (with_request slot holder requester note db) ≡ after)
unfolding file_replacement
file_replacement-eq_ok slot note user db {id} {after} e = elim (Bool-cases (is_complete slot)) [
  | inr c ↦ absurd (cc (rw (file_replacement, c) at e))
  | inl c ↦ elim (Option-cases (get_contact_slot slot db)) [
    | inl g ↦ absurd (cc (rw (file_replacement, c, g) at e))
    | inr (holder, g) ↦ elim (Bool-cases (is_user holder.user user)) [
      | inl h ↦ absurd (cc (rw (file_replacement, c, g, h) at e))
      | inr h ↦ elim (Option-cases (get_user user db)) [
        | inl u ↦ absurd (cc (rw (file_replacement, c, g, h, u) at e))
        | inr (requester, u) ↦
            let r = ok_inj (rw (file_replacement, c, g, h, u) at e) in
            (holder, requester, g, ap (λ x. x.0) r, ap (λ x. x.1) r)
      ]
    ]
  ]
]

file_replacement-audit :
    (slot : Slot) (note : String) (user id : ℕ) (db after : Database)
    → any (λ p. p.id == id) db.proposals ≡ false
    → file_replacement slot note user db ≡ ok (id, after)
    → (after.audit_log ≡ db.audit_log) × (after.proposals ≡ db.proposals)
file_replacement-audit slot note user id db after fresh e =
    let (holder, requester, g, who, made) = file_replacement-eq_ok slot note user db e in
    let stored = with_request slot holder requester note db in
    let unknown : any (λ p. p.id == db.next_uuid) stored.proposals ≡ false = rw who fresh in
    let ends : stored ≡ after =
      sym (
        audit_unknown user replacement_create slot.entity_kind slot.entity_name db.next_uuid stored
          unknown)
      ∙ made in
    (ap (λ d. d.audit_log) (sym ends), ap (λ d. d.proposals) (sym ends))

-- Neither a request nor its decision is ever recorded in the audit log: the entry names the request
-- where the column wants a proposal, so that the INSERT breaks the foreign key and the error is
-- dropped; where no proposal has the fresh id of the request.
pub replacement_unaudited :
    (s s' : Session) (slot : Slot) (note : String) (id : ℕ) (approve : Bool)
    (db filed after : Database) {status : Status}
    → any (λ p. p.id == id) db.proposals ≡ false
    → create_contact_replacement s (some (slot, note)) db ≡ ok (id, filed)
    → decide_replacement s' id approve filed ≡ ok (status, after)
    → (filed.audit_log ≡ db.audit_log) × (after.audit_log ≡ db.audit_log)
unfolding create_contact_replacement decide_contact_replacement
replacement_unaudited s s' slot note id approve db filed after {status} fresh made e =
    let (log, proposals) = file_replacement-audit slot note s.user_id id db filed fresh made in
    let (r, action, mid, n, p, m, applied, ends) =
      decide_replacement-Decides s' id approve filed e in
    let (outcome, same, rest) = applied in
    let decided = decide_contact_replacement id status s'.user_id mid in
    let unknown : any (λ x. x.id == id) decided.proposals ≡ false =
      ap (any (λ x. x.id == id)) (same.proposals ∙ proposals) ∙ fresh in
    (
      log,
      ap (λ d. d.audit_log)
            (sym ends
              ∙ audit_unknown s'.user_id action r.entity_kind r.entity_name id decided unknown)
          ∙ (same.audit_log ∙ log),
    )

-- WithdrawReplacement answers the requester "withdrawn" also for a request that was decided before,
-- and changes no request then: an approved or rejected request keeps its state and its decider.
pub withdraw_replacement_decided :
    (s : Session) (id : ℕ) (db : Database) {r : ReplacementRow}
    → get_contact_replacement id db ≡ some r
    → r.requester_user ≡ s.user_id
    → any (λ x. x.id == id && is_pending x.status) db.replacements ≡ false
    → (after : Database) × (withdraw_replacement s id db ≡ ok (withdrawn, after))
      × (after.replacements ≡ db.replacements)
unfolding withdraw_replacement decide_contact_replacement
withdraw_replacement_decided s id db {r} n who shut = (
  decide_contact_replacement id withdrawn s.user_id db,
  rw (withdraw_replacement, n, (==_iff r.requester_user s.user_id).1 who) refl,
  settle_none id (settled db.now s.user_id withdrawn) db.replacements shut,
)
