-- ===== src/Apply/Bundles.antt =====
-- The run of a bundle (applyBundleProposal of internal/handlers/proposals.go), against the relation
-- between the databases before and after its operations.
use topology_v.Base.{
  ℕ, ◌+◌, true, false, List, [], ◌∷◌, ◌++◌, ◌≡◌, refl, ap, ◌∙◌, arith, ◌⊎◌, Bool-cases, inl, inr,
  length, is_empty,
}
use topology_v.Base.Results.{ok, err, Outcome-cases}
use topology_v.External.{External}
use topology_v.Errors.{Error, Result, nested_bundle, at_operation}
use topology_v.Models.{is_bundle}
use topology_v.Payloads.{BundleOp, BundleProposal}
use topology_v.Db.{Database}
use topology_v.Apply.Change.{Change, change_of_op, unmarshal}
use topology_v.Apply.Dispatch.{apply_operation, apply_operations, apply_bundle}

-- The operations in their order, none a bundle, each applied to what the one before left.
pub data Steps (ext : External) (actor : ℕ) : List BundleOp → Database → Database → Type 0 where
  done : {db : Database} → Steps ext actor [] db db
  step :
      {op : BundleOp} {ops : List BundleOp} {db mid db' : Database}
      → is_bundle op.entity_kind ≡ false
      → apply_operation ext actor (change_of_op op) db ≡ ok mid
      → Steps ext actor ops mid db'
      → Steps ext actor (op ∷ ops) db db'

-- The operations before the first that fails, which is either a bundle or refused by the apply step;
-- the error carries its number, and its operation and kind in the second case.
pub record Failed (ext : External) (actor i : ℕ) (ops : List BundleOp) (db : Database) (e : Error)
    : Type 0 where
  pub first : List BundleOp
  pub failing : BundleOp
  pub rest : List BundleOp
  pub mid : Database
  pub split : ops ≡ first ++ failing ∷ rest
  pub ran : Steps ext actor first db mid
  pub why :
      ((is_bundle failing.entity_kind ≡ true) × (e ≡ nested_bundle (i + length first)))
      ⊎ ((is_bundle failing.entity_kind ≡ false)
          × (cause : Error) × (apply_operation ext actor (change_of_op failing) mid ≡ err cause)
          × (e ≡ at_operation (i + length first) failing.operation failing.entity_kind cause))

pub Report : External → ℕ → ℕ → List BundleOp → Database → Result Database → Type 0
Report ext actor i ops db (ok db') = Steps ext actor ops db db'
Report ext actor i ops db (err e) = Failed ext actor i ops db e

module _ (ext : External) (actor : ℕ) where
  -- An operation that has gone through before the rest.
  step-Report :
      (i : ℕ) (op : BundleOp) (ops : List BundleOp) (db mid : Database) (r : Result Database)
      → is_bundle op.entity_kind ≡ false
      → apply_operation ext actor (change_of_op op) db ≡ ok mid
      → Report ext actor (i + 1) ops mid r
      → Report ext actor i (op ∷ ops) db r
  unfolding Report
  step-Report i op ops db mid (ok db') b a s = step b a s
  step-Report i op ops db mid (err e) b a f =
      let n : (i + 1) + length f.first ≡ i + length (op ∷ f.first) = omega arith in
      record {
        first = op ∷ f.first;
        failing = f.failing;
        rest = f.rest;
        mid = f.mid;
        split = ap (λ x. op ∷ x) f.split;
        ran = step b a f.ran;
        why = elim f.why [
          | inl (t, q) ↦ inl (t, q ∙ ap nested_bundle n)
          | inr (t, c, x, q) ↦
              inr (
                t,
                c,
                x,
                q ∙ ap (λ k. at_operation k f.failing.operation f.failing.entity_kind c) n,
              )
        ];
      }

  apply_operations-Report :
      (i : ℕ) (ops : List BundleOp) (db : Database)
      → Report ext actor i ops db (apply_operations ext actor i ops db)
  unfolding apply_operations Report
  apply_operations-Report i [] db = done
  apply_operations-Report i (op ∷ ops) db = elim (Bool-cases (is_bundle op.entity_kind)) [
    | inl t ↦ rw t (record {
      first = [];
      failing = op;
      rest = ops;
      mid = db;
      split = refl;
      ran = done;
      why = inl (t, ap nested_bundle (omega arith));
    })
    | inr t ↦ elim (Outcome-cases (apply_operation ext actor (change_of_op op) db)) [
      | inl (c, a) ↦
          rw (t, a)
            (record {
              first = [];
              failing = op;
              rest = ops;
              mid = db;
              split = refl;
              ran = done;
              why =
                  inr
                    (t, c, a, ap (λ k. at_operation k op.operation op.entity_kind c) (omega arith));
            })
      | inr (mid, a) ↦
          rw (t, a)
            (step-Report i op ops db mid (apply_operations ext actor (i + 1) ops mid) t a
              (apply_operations-Report (i + 1) ops mid))
    ]
  ]

-- A bundle that decodes and is not empty is all of its operations, in their order, each by the same
-- user and on what the one before left, and none of them a bundle; or it fails at the first of them
-- that is a bundle or that the apply step refuses, with the number of that operation, from 1.
pub apply_bundle-Report :
    (ext : External) (actor : ℕ) (p : Change) (b : BundleProposal) (db : Database)
    → unmarshal ext.decode_bundle p.proposed_state ≡ ok b
    → is_empty b.operations ≡ false
    → Report ext actor 1 b.operations db (apply_bundle ext actor p db)
unfolding apply_bundle
apply_bundle-Report ext actor p b db u n =
    rw (u, n) (apply_operations-Report ext actor 1 b.operations db)
