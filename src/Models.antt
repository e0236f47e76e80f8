-- ===== src/Models.antt =====
-- internal/models: the constants that the database rows and the requests carry. A string that the
-- code only compares with constants is a data type of those constants, with a last constructor for
-- any other text where one can come in from outside.
pub mod Roles
use topology_v.Base.{String, Bool, true, false, ◌||◌}

-- Role constants (a row of user_roles may hold any text).
pub data Role : Type 0 where
  administrator manager user contact_reader : Role
  other_role : String → Role

-- The states of a proposal.
pub data Status : Type 0 where
  draft pending approved rejected applied withdrawn : Status

-- The operation of a proposal; a request may send any text.
pub data Operation : Type 0 where
  create update delete : Operation
  other_operation : String → Operation

-- The kind of entity that a proposal is about; a request may send any text.
pub data Kind : Type 0 where
  resource resource_group site facility project support_center vo downtime bundle : Kind
  other_kind : String → Kind

-- The kinds of invites (models.Invite…).
pub data InviteKind : Type 0 where
  account_link role_claim replacement_request contact_onboard : InviteKind
  other_invite : String → InviteKind

abbrev pub is_create : Operation → Bool
is_create create = true
is_create _ = false

abbrev pub is_update : Operation → Bool
is_update update = true
is_update _ = false

abbrev pub is_delete : Operation → Bool
is_delete delete = true
is_delete _ = false

abbrev pub is_bundle : Kind → Bool
is_bundle bundle = true
is_bundle _ = false

abbrev pub is_downtime : Kind → Bool
is_downtime downtime = true
is_downtime _ = false

abbrev pub is_draft : Status → Bool
is_draft draft = true
is_draft _ = false

abbrev pub is_pending : Status → Bool
is_pending pending = true
is_pending _ = false

abbrev pub is_applied : Status → Bool
is_applied applied = true
is_applied _ = false

-- `status == applied || status == rejected`: what ReviseProposal calls closed.
abbrev pub is_closed : Status → Bool
is_closed applied = true
is_closed rejected = true
is_closed _ = false
