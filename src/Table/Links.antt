-- ===== src/Table/Links.antt =====
-- Every live child row has a live parent row: the statements of the hierarchy that keep it.
use topology_v.Base.{
  ℕ, String, Bool, true, false, ◌&&◌, ◌≡◌, refl, Option, some, List, [], ◌∷◌, ◌++◌, ◌==◌, str_eq,
  any, update_where, is_empty, All, All-append, any-append, find?-any, find?-passes, arith,
  Bool-cases, ◌⊎◌, inl, inr,
}
use topology_v.Base.Results.{ok}
use topology_v.Table.{
  Row, is_live, is_named, has_id, insert, update_named, mark_deleted, soft_delete, children_of,
  by_name,
}

module _ {K B : Type 0} where
  pub insert-eq : (r : Row K B) (t t' : List (Row K B)) → insert r t ≡ ok t' → t' ≡ t ++ r ∷ []
  unfolding insert
  insert-eq r t t' e = ground arith

  pub update_named-eq :
      (target new : String) (f : Row K B → Row K B) (t t' : List (Row K B))
      → update_named target new f t ≡ ok t'
      → t' ≡ update_where (is_named target) (λ r. record (f r) { name = new }) t
  unfolding update_named
  update_named-eq target new f t t' e = ground arith

  -- A live row that is found is a live parent.
  pub by_name-has_id :
      (n : String) (ps : List (Row K B)) {p : Row K B}
      → by_name n ps ≡ some p
      → any (has_id p.id) ps ≡ true
  unfolding by_name
  by_name-has_id n ps {p} h =
      find?-any (is_named n) (has_id p.id) ps h
        (ground (arith, find?-passes (is_named n) ps {x = p} h))

  -- An update that keeps the ids and the deletion marks keeps the live ids.
  pub any-update_where :
      (i : ℕ) (q : Row K B → Bool) (f : Row K B → Row K B) (t : List (Row K B))
      → ((r : Row K B) → has_id i (f r) ≡ has_id i r)
      → any (has_id i) (update_where q f t) ≡ any (has_id i) t
  any-update_where i q f [] k = refl
  any-update_where i q f (r ∷ t) k = ground (arith, k r, any-update_where i q f t k)

  -- No live row named `n` remains, and the others stay: a parent of another name survives.
  any-soft_delete :
      (now : ℕ) (by : Option ℕ) (n : String) (i : ℕ) (ps : List (Row K B))
      → any (has_id i) ps ≡ true
      → any (λ p. (p.id == i) && str_eq p.name n) ps ≡ false
      → any (has_id i) (soft_delete now by n ps) ≡ true
  unfolding soft_delete
  any-soft_delete now by n i [] k g = cc
  any-soft_delete now by n i (p ∷ ps) k g = ground (arith, any-soft_delete now by n i ps)

module _ {K B C : Type 0} where
  -- The child is deleted, or its parent is among the live parents.
  abbrev pub HasParent : List (Row K B) → Row ℕ C → Type 0
  HasParent parents c = (is_live c ≡ false) ⊎ (any (has_id c.parent) parents ≡ true)

  abbrev pub Linked : List (Row K B) → List (Row ℕ C) → Type 0
  Linked parents children = All (HasParent parents) children

  pub Linked-parents :
      (ps qs : List (Row K B)) (cs : List (Row ℕ C))
      → ((i : ℕ) → any (has_id i) ps ≡ true → any (has_id i) qs ≡ true)
      → Linked ps cs
      → Linked qs cs
  Linked-parents ps qs [] g h = tt
  Linked-parents ps qs (c ∷ cs) g h =
      (elim h.0 [ inl d ↦ inl d | inr a ↦ inr (g c.parent a) ], Linked-parents ps qs cs g h.1)

  pub Linked-insert_child :
      (ps : List (Row K B)) (cs cs' : List (Row ℕ C)) (r : Row ℕ C)
      → insert r cs ≡ ok cs'
      → any (has_id r.parent) ps ≡ true
      → Linked ps cs
      → Linked ps cs'
  Linked-insert_child ps cs cs' r e k h =
      rw (insert-eq r cs cs' e) (All-append (HasParent ps) cs (r ∷ []) h (inr k, tt))

  pub Linked-insert_parent :
      (ps ps' : List (Row K B)) (cs : List (Row ℕ C)) (r : Row K B)
      → insert r ps ≡ ok ps'
      → Linked ps cs
      → Linked ps' cs
  Linked-insert_parent ps ps' cs r e h = rw (insert-eq r ps ps' e) (
      Linked-parents ps (ps ++ r ∷ []) cs (λ i k. ground (arith, any-append (has_id i) ps (r ∷ [])))
        h)

  pub Linked-update_where :
      (ps : List (Row K B)) (q : Row ℕ C → Bool) (f : Row ℕ C → Row ℕ C) (cs : List (Row ℕ C))
      → ((c : Row ℕ C) → HasParent ps c → HasParent ps (f c))
      → Linked ps cs
      → Linked ps (update_where q f cs)
  Linked-update_where ps q f [] k h = tt
  Linked-update_where ps q f (c ∷ cs) k (hc, h) = elim (Bool-cases (q c)) [
    | inl t ↦ rw t (k c hc, Linked-update_where ps q f cs k h)
    | inr t ↦ rw t (hc, Linked-update_where ps q f cs k h)
  ]

  -- An update of the child that points it at a live parent, or leaves its parent alone.
  pub Linked-update_child :
      (ps : List (Row K B)) (target new : String) (f : Row ℕ C → Row ℕ C) (cs cs' : List (Row ℕ C))
      → update_named target new f cs ≡ ok cs'
      → ((c : Row ℕ C) → HasParent ps c → HasParent ps (record (f c) { name = new }))
      → Linked ps cs
      → Linked ps cs'
  Linked-update_child ps target new f cs cs' e k h =
      rw (update_named-eq target new f cs cs' e)
        (Linked-update_where ps (is_named target) (λ r. record (f r) { name = new }) cs k h)

  pub Linked-update_parent :
      (ps ps' : List (Row K B)) (target new : String) (f : Row K B → Row K B) (cs : List (Row ℕ C))
      → update_named target new f ps ≡ ok ps'
      → ((i : ℕ) (r : Row K B) → has_id i (f r) ≡ has_id i r)
      → Linked ps cs
      → Linked ps' cs
  Linked-update_parent ps ps' target new f cs e k h = rw (update_named-eq target new f ps ps' e) (
      Linked-parents ps (update_where (is_named target) (λ r. record (f r) { name = new }) ps) cs
        (λ i a.
          rw (any-update_where i (is_named target) (λ r. record (f r) { name = new }) ps (k i)) a)
        h)

  pub Linked-delete_child :
      (ps : List (Row K B)) (now : ℕ) (by : Option ℕ) (n : String) (cs : List (Row ℕ C))
      → Linked ps cs
      → Linked ps (soft_delete now by n cs)
  unfolding soft_delete
  Linked-delete_child ps now by n cs h =
      Linked-update_where ps (is_named n) (mark_deleted now by) cs (λ c k. inl refl) h

  -- The delete guard: where no live child joins with the name, the parent may be deleted.
  pub Linked-delete_parent :
      (now : ℕ) (by : Option ℕ) (n : String) (ps : List (Row K B)) (cs : List (Row ℕ C))
      → is_empty (children_of n ps cs) ≡ true
      → Linked ps cs
      → Linked (soft_delete now by n ps) cs
  unfolding children_of
  Linked-delete_parent now by n ps [] g h = tt
  Linked-delete_parent now by n ps (c ∷ cs) g (hc, h) =
      elim (Bool-cases (is_live c && any (λ p. (p.id == c.parent) && str_eq p.name n) ps)) [
        | inl t ↦ absurd (ground arith)
        | inr t ↦ (
          elim hc [
            | inl d ↦ inl d
            | inr a ↦ elim (Bool-cases (is_live c)) [
              | inr d ↦ inl d
              | inl l ↦ inr (any-soft_delete now by n c.parent ps a (ground (arith, t, l)))
            ]
          ],
          Linked-delete_parent now by n ps cs (ground arith) h,
        )
      ]
