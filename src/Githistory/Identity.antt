-- ===== src/Githistory/Identity.antt =====
-- internal/githistory/identity.go: which entity a path stands for, through renames. A Go map is an
-- association list whose first entry for a key counts.
pub mod Laws
use topology_v.Base.{
  ℕ, ◌+◌, String, Bool, not, Option, none, some, List, [], ◌∷◌, str_eq, ◌==◌, if◌then◌else◌,
}

-- The status letter of a changed path.
pub data FileStatus : Type 0 where
  added modified deleted renamed copied : FileStatus
  other_status : ℕ → FileStatus

abbrev pub Paths : Type 0
Paths = List (String × ℕ)

abbrev pub lookup : String → Paths → Option ℕ
lookup k [] = none
lookup k ((j, v) ∷ m) = let rest = lookup k m in if str_eq j k then some v else rest

-- delete(m, k).
abbrev pub remove : String → Paths → Paths
remove k [] = []
remove k ((j, v) ∷ m) = let rest = remove k m in if str_eq j k then rest else (j, v) ∷ rest

-- m[k] = v.
abbrev pub assign : String → ℕ → Paths → Paths
assign k v m = (k, v) ∷ remove k m

pub record PathIdentity : Type 0 where
  pub next_id : ℕ
  pub current : Paths
  pub final_name : ℕ → String

-- NewPathIdentity.
unfoldable pub new_path_identity : PathIdentity
new_path_identity = record { next_id = 0; current = []; final_name = λ i. "" }

abbrev name_id : ℕ → String → (ℕ → String) → ℕ → String
name_id id name f i = if i == id then name else f i

-- A path that now stands for an id, under a name.
abbrev pub stands_for : ℕ → String → String → PathIdentity → PathIdentity
stands_for id path name r = record r {
  current = assign path id r.current;
  final_name = name_id id name r.final_name;
}

-- newID, with the registry after it.
abbrev pub with_new_id : PathIdentity → PathIdentity
with_new_id r = record r { next_id = r.next_id + 1 }

abbrev pub move : String → String → String → Option ℕ → PathIdentity → Option ℕ × PathIdentity
move old new name none r = (some r.next_id, stands_for r.next_id new name (with_new_id r))
move old new name (some id) r =
    (some id, stands_for id new name (record r { current = remove old r.current }))

abbrev pub modify : String → String → Option ℕ → PathIdentity → Option ℕ × PathIdentity
modify path name none r = (some r.next_id, stands_for r.next_id path name (with_new_id r))
modify path name (some id) r = (some id, record r { final_name = name_id id name r.final_name })

abbrev pub forget : String → Option ℕ → PathIdentity → Option ℕ × PathIdentity
forget path none r = (some r.next_id, with_new_id r)
forget path (some id) r = (some id, record r { current = remove path r.current })

-- Touch: the identity that the path refers to, `none` for the -1 of an unknown status.
unfoldable pub touch :
    FileStatus → String → String → String → PathIdentity → Option ℕ × PathIdentity
touch added old new name r = (some r.next_id, stands_for r.next_id new name (with_new_id r))
touch renamed old new name r = move old new name (lookup old r.current) r
touch copied old new name r = move old new name (lookup old r.current) r
touch modified old new name r = modify new name (lookup new r.current) r
touch deleted old new name r = forget old (lookup old r.current) r
touch (other_status n) old new name r = (none, r)

-- One changed path, as the first pass of Run hands it to Touch.
pub record PathEvent : Type 0 where
  pub status : FileStatus
  pub old_path : String
  pub new_path : String
  pub name : String

-- The first pass over the history, for its effect on the registry.
unfoldable pub touch_all : List PathEvent → PathIdentity → PathIdentity
unfolding touch
touch_all [] r = r
touch_all (e ∷ es) r = touch_all es (touch e.status e.old_path e.new_path e.name r).1
