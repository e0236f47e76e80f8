-- ===== src/Githistory/Identity/Laws.antt =====
-- Paths and identities: no two paths share one, and a rename carries it along.
use topology_v.Base.{
  ℕ, ◌+◌, ◌<◌, String, Bool, true, false, ◌≡◌, ◌≢◌, refl, ap, ◌∙◌, none, some, List, [], ◌∷◌,
  str_eq, eq_iff, ◌==◌, ==_iff, arith, any, Bool-cases, Option-cases, inl, inr, if◌then◌else◌,
}
use topology_v.Githistory.Identity.{
  FileStatus, added, modified, deleted, renamed, copied, other_status, Paths, lookup, remove,
  PathIdentity, touch, stands_for, with_new_id, move, modify, PathEvent, touch_all,
  new_path_identity,
}

abbrev has_value : ℕ → String × ℕ → Bool
has_value i (k, v) = v == i

-- No two entries have one id.
abbrev IsDistinct : Paths → Type 0
IsDistinct [] = Unit {0}
IsDistinct ((k, v) ∷ m) = (any (has_value v) m ≡ false) × IsDistinct m

-- Every id was given out.
abbrev IsBelow : ℕ → Paths → Type 0
IsBelow n [] = Unit {0}
IsBelow n ((k, v) ∷ m) = (v < n) × IsBelow n m

-- The live paths have identities of their own, each of them given out before.
pub record IsRegistry (r : PathIdentity) : Type 0 where
  pub distinct : IsDistinct r.current
  pub below : IsBelow r.next_id r.current

any-remove :
    (i : ℕ) (k : String) (m : Paths)
    → any (has_value i) m ≡ false
    → any (has_value i) (remove k m) ≡ false
any-remove i k [] h = refl
any-remove i k ((j, v) ∷ m) h = ground (arith, any-remove i k m)

IsDistinct-remove : (k : String) (m : Paths) → IsDistinct m → IsDistinct (remove k m)
IsDistinct-remove k [] h = tt
IsDistinct-remove k ((j, v) ∷ m) (h, hs) = elim (Bool-cases (str_eq j k)) [
  | inl t ↦ rw t (IsDistinct-remove k m hs)
  | inr t ↦ rw t (any-remove v k m h, IsDistinct-remove k m hs)
]

IsBelow-remove : (n : ℕ) (k : String) (m : Paths) → IsBelow n m → IsBelow n (remove k m)
IsBelow-remove n k [] h = tt
IsBelow-remove n k ((j, v) ∷ m) (h, hs) = elim (Bool-cases (str_eq j k)) [
  | inl t ↦ rw t (IsBelow-remove n k m hs)
  | inr t ↦ rw t (h, IsBelow-remove n k m hs)
]

IsBelow-suc : (n : ℕ) (m : Paths) → IsBelow n m → IsBelow (n + 1) m
IsBelow-suc n [] h = tt
IsBelow-suc n ((j, v) ∷ m) (h, hs) = (omega (arith, h), IsBelow-suc n m hs)

-- An id that was not given out is on no path.
IsBelow-fresh : (n : ℕ) (m : Paths) → IsBelow n m → any (has_value n) m ≡ false
IsBelow-fresh n [] h = refl
IsBelow-fresh n ((j, v) ∷ m) (h, hs) = ground (arith, h, IsBelow-fresh n m hs)

lookup-IsBelow :
    (n : ℕ) (k : String) (m : Paths) {i : ℕ} → IsBelow n m → lookup k m ≡ some i → i < n
lookup-IsBelow n k [] h e = cc
lookup-IsBelow n k ((j, v) ∷ m) {i} (h, hs) e =
    ground (arith, h, e, lookup-IsBelow n k m {i = i} hs)

lookup-any : (k : String) (m : Paths) {i : ℕ} → lookup k m ≡ some i → any (has_value i) m ≡ true
lookup-any k [] e = cc
lookup-any k ((j, v) ∷ m) {i} e = ground (arith, e, lookup-any k m {i = i})

-- An id that is looked up and removed is on no path: no other had it.
lookup-removed :
    (k : String) (m : Paths) {i : ℕ}
    → IsDistinct m
    → lookup k m ≡ some i
    → any (has_value i) (remove k m) ≡ false
lookup-removed k [] h e = cc
lookup-removed k ((j, v) ∷ m) {i} (h, hs) e = elim (Bool-cases (str_eq j k)) [
  | inl t ↦ ground (arith, t, e, any-remove v k m h)
  | inr t ↦
      let rest : lookup k m ≡ some i = rw t at e in
      ground (arith, t, h, lookup-any k m rest, lookup-removed k m hs rest)
]

stands_for-IsRegistry :
    (id : ℕ) (path name : String) (r : PathIdentity)
    → IsRegistry r
    → id < r.next_id
    → any (has_value id) r.current ≡ false
    → IsRegistry (stands_for id path name r)
stands_for-IsRegistry id path name r h lt fresh = record {
  distinct = (any-remove id path r.current fresh, IsDistinct-remove path r.current h.distinct);
  below = (lt, IsBelow-remove r.next_id path r.current h.below);
}

lookup-remove_other :
    (k j : String) (m : Paths) → str_eq j k ≡ false → lookup k (remove j m) ≡ lookup k m
lookup-remove_other k j [] h = refl
lookup-remove_other k j ((l, v) ∷ m) h =
    ground (arith, h, eq_iff l k, eq_iff l j, eq_iff j k, lookup-remove_other k j m)

lookup-remove_self : (k : String) (m : Paths) → lookup k (remove k m) ≡ none
lookup-remove_self k [] = refl
lookup-remove_self k ((l, v) ∷ m) = ground (arith, lookup-remove_self k m)

fresh-IsRegistry :
    (path name : String) (r : PathIdentity)
    → IsRegistry r
    → IsRegistry (stands_for r.next_id path name (with_new_id r))
fresh-IsRegistry path name r h =
    stands_for-IsRegistry r.next_id path name (with_new_id r)
      (record { distinct = h.distinct; below = IsBelow-suc r.next_id r.current h.below })
      (omega arith) (IsBelow-fresh r.next_id r.current h.below)

move-IsRegistry :
    (old new name : String) (r : PathIdentity)
    → IsRegistry r
    → IsRegistry (move old new name (lookup old r.current) r).1
move-IsRegistry old new name r h = elim (Option-cases (lookup old r.current)) [
  | inl t ↦ rw t (fresh-IsRegistry new name r h)
  | inr (i, t) ↦ rw t (
      stands_for-IsRegistry i new name (record r { current = remove old r.current })
        (record {
          distinct = IsDistinct-remove old r.current h.distinct;
          below = IsBelow-remove r.next_id old r.current h.below;
        })
        (lookup-IsBelow r.next_id old r.current h.below t)
        (lookup-removed old r.current h.distinct t))
]

touch-IsRegistry :
    (status : FileStatus) (old new name : String) (r : PathIdentity)
    → IsRegistry r
    → IsRegistry (touch status old new name r).1
unfolding touch
touch-IsRegistry added old new name r h = fresh-IsRegistry new name r h
touch-IsRegistry renamed old new name r h = move-IsRegistry old new name r h
touch-IsRegistry copied old new name r h = move-IsRegistry old new name r h
touch-IsRegistry modified old new name r h = elim (Option-cases (lookup new r.current)) [
  | inl t ↦ rw (touch, t) (fresh-IsRegistry new name r h)
  | inr (i, t) ↦ rw (touch, t) (record { distinct = h.distinct; below = h.below })
]
touch-IsRegistry deleted old new name r h = elim (Option-cases (lookup old r.current)) [
  | inl t ↦
      rw (touch, t)
        (record { distinct = h.distinct; below = IsBelow-suc r.next_id r.current h.below })
  | inr (i, t) ↦
      rw (touch, t)
        (record {
          distinct = IsDistinct-remove old r.current h.distinct;
          below = IsBelow-remove r.next_id old r.current h.below;
        })
]
touch-IsRegistry (other_status n) old new name r h = h

touch_from-IsRegistry :
    (es : List PathEvent) (r : PathIdentity) → IsRegistry r → IsRegistry (touch_all es r)
unfolding touch_all
touch_from-IsRegistry [] r h = h
touch_from-IsRegistry (e ∷ es) r h =
    touch_from-IsRegistry es (touch e.status e.old_path e.new_path e.name r).1
      (touch-IsRegistry e.status e.old_path e.new_path e.name r h)

-- Whatever changed paths the walk has passed, in whatever order, the registry gives each live path an
-- identity of its own, and every identity on a path is one that was given out.
pub touch_all-IsRegistry : (es : List PathEvent) → IsRegistry (touch_all es new_path_identity)
unfolding touch_all new_path_identity
touch_all-IsRegistry es =
    touch_from-IsRegistry es new_path_identity (record { distinct = tt; below = tt })

str_refl : (t : String) → str_eq t t ≡ true
str_refl t = (eq_iff t t).1 refl

-- What is left of a path whose file was renamed or copied.
abbrev pub Left : String → String → String → String → ℕ → PathIdentity → PathIdentity → Type 0
Left old new name other i r after =
    (lookup new after.current ≡ some i)
    × (after.final_name i ≡ name)
    × (lookup old after.current ≡ none)
    × (lookup other after.current ≡ lookup other r.current)
    × ((touch modified new new name after).0 ≡ some i)
    × ((touch modified old old name after).0 ≡ some r.next_id)

-- A rename takes the identity along: the new path, at its next change too, stands for what the old
-- one stood for, under its new name, and every other path stands for what it did. A copy does the
-- same: the original, which git keeps, loses its identity to the copy, and its next change gets a
-- new one, which is another.
pub touch-follows :
    (copy : Bool) (old new name other : String) (r : PathIdentity) {i : ℕ}
    → IsRegistry r
    → lookup old r.current ≡ some i
    → str_eq new old ≡ false
    → str_eq old other ≡ false
    → str_eq new other ≡ false
    → ((touch (if copy then copied else renamed) old new name r).0 ≡ some i)
      × Left old new name other i r (touch (if copy then copied else renamed) old new name r).1
      × (r.next_id ≢ i)
unfolding touch
touch-follows copy old new name other r {i} h e apart oo nn =
    let lt = lookup-IsBelow r.next_id old r.current h.below e in
    let after = stands_for i new name (record r { current = remove old r.current }) in
    let gone : lookup old after.current ≡ none = rw apart (
      lookup-remove_other old new (remove old r.current) apart
      ∙ lookup-remove_self old r.current) in
    let kept : lookup other after.current ≡ lookup other r.current = rw nn (
      lookup-remove_other other new (remove old r.current) nn
      ∙ lookup-remove_other other old r.current oo) in
    let here : lookup new after.current ≡ some i = rw (str_refl new) refl in
    let left : Left old new name other i r after = (
      here,
      rw ((==_iff i i).1 refl) refl,
      gone,
      kept,
      ap (λ o. (modify new name o after).0) here,
      ap (λ o. (modify old name o after).0) gone,
    ) in
    let other_id : r.next_id ≢ i = λ same. absurd (omega (arith, lt, same)) in
    elim (Bool-cases copy) [
      | inl t ↦ rw t (rw (touch, e) (refl, left, other_id))
      | inr t ↦ rw t (rw (touch, e) (refl, left, other_id))
    ]
