-- ===== src/Table.antt =====
-- The four tables of the hierarchy (facilities, sites, resource_groups, resources) have one shape:
-- an id, the parent's id, a name that is unique among the live rows, and soft deletion. Here are
-- the SQL statements over that shape, from internal/db/queries_browse.go and
-- internal/db/queries_topology.go, with the unique indexes of internal/db/migrations.
pub mod Links
use topology_v.Base.{
  ℕ, String, Bool, not, ◌&&◌, Option, none, some, List, [], ◌∷◌, ◌++◌, ◌==◌, str_eq, is_none, any,
  find?, select, update_where, if◌then◌else◌,
}
use topology_v.Base.Results.{Outcome, ok, err}

-- What an INSERT or an UPDATE that breaks a unique index returns.
pub data Violation : Type 0 where
  duplicate_name : String → Violation
  duplicate_id : ℕ → Violation

pub record Row (K B : Type 0) : Type 0 where
  pub id : ℕ
  pub parent : K
  pub name : String
  pub body : B
  pub updated_at : ℕ
  pub deleted_at : Option ℕ
  pub deleted_by : Option ℕ

module _ {K B : Type 0} where
  -- `deleted_at IS NULL`.
  abbrev pub is_live : Row K B → Bool
  is_live r = is_none r.deleted_at

  -- `name = $1 AND deleted_at IS NULL`.
  abbrev pub is_named : String → Row K B → Bool
  is_named n r = is_live r && str_eq r.name n

  -- `id = $1 AND deleted_at IS NULL`.
  abbrev pub has_id : ℕ → Row K B → Bool
  has_id i r = is_live r && r.id == i

  -- SELECT … WHERE name = $1 AND deleted_at IS NULL.
  unfoldable pub by_name : String → List (Row K B) → Option (Row K B)
  by_name n t = find? (is_named n) t

  -- SELECT … WHERE id = $1 AND deleted_at IS NULL.
  unfoldable pub by_id : ℕ → List (Row K B) → Option (Row K B)
  by_id i t = find? (has_id i) t

  -- INSERT, under the primary key and the unique index on the names of the live rows.
  unfoldable pub insert : Row K B → List (Row K B) → Outcome Violation (List (Row K B))
  insert r t =
      if any (λ x. x.id == r.id) t
      then err (duplicate_id r.id)
      else if any (is_named r.name) t
      then err (duplicate_name r.name)
      else ok (t ++ r ∷ [])

  -- UPDATE … SET name = $2, … WHERE name = $1 AND deleted_at IS NULL. No row is no error; a new
  -- name that another live row holds breaks the index.
  unfoldable pub update_named :
      String → String → (Row K B → Row K B) → List (Row K B) → Outcome Violation (List (Row K B))
  update_named target new f t =
      if any (is_named target) t && not (str_eq target new) && any (is_named new) t
      then err (duplicate_name new)
      else ok (update_where (is_named target) (λ r. record (f r) { name = new }) t)

  abbrev pub mark_deleted : ℕ → Option ℕ → Row K B → Row K B
  mark_deleted now by r = record r { deleted_at = some now; deleted_by = by }

  -- UPDATE … SET deleted_at = NOW(), deleted_by = $2 WHERE name = $1 AND deleted_at IS NULL.
  unfoldable pub soft_delete : ℕ → Option ℕ → String → List (Row K B) → List (Row K B)
  soft_delete now by n t = update_where (is_named n) (mark_deleted now by) t

-- SELECT c.name FROM children c JOIN parents p ON p.id = c.parent
-- WHERE p.name = $1 AND c.deleted_at IS NULL. The id is the parents' primary key, so a child joins
-- with at most one parent. A deleted parent of that name joins too.
unfoldable pub children_of :
    {K B C : Type 0} → String → List (Row K B) → List (Row ℕ C) → List (Row ℕ C)
children_of n parents children =
    select (λ c. is_live c && any (λ p. (p.id == c.parent) && str_eq p.name n) parents) children
