-- ===== src/Payloads.antt =====
-- The proposed_state shapes that the apply step decodes: the structs of
-- internal/handlers/proposals.go, internal/handlers/support_centers.go and
-- internal/handlers/vos.go, with the topology.Resource of internal/topology/model.go.
use topology_v.Base.{ℕ, String, Bool, Option, List}
use topology_v.Models.{Kind, Operation}
use topology_v.Json.{Json, Fields}

pub record EntityContact : Type 0 where
  pub contact_type : String
  pub rank : String
  pub name : String
  pub id : String

pub record FacilityProposal : Type 0 where
  pub name : String
  pub institution_id : String
  pub contacts : List EntityContact

pub record SiteProposal : Type 0 where
  pub name : String
  pub facility : String
  pub long_name : String
  pub description : String
  pub address_line1 : String
  pub address_line2 : String
  pub city : String
  pub state : String
  pub country : String
  pub zipcode : String
  pub latitude : Option ℕ
  pub longitude : Option ℕ
  pub contacts : List EntityContact

pub record GroupProposal : Type 0 where
  pub name : String
  pub site : String
  pub production : Option Bool
  pub disable : Option Bool
  pub support_center : String
  pub group_description : String
  pub contacts : List EntityContact

pub record Contact : Type 0 where
  pub name : String
  pub id : String

pub record Service : Type 0 where
  pub description : String
  pub details : Option Json
  pub extra : Option Fields

-- topology.Resource. Go ranges over the two maps in no fixed order: a list in any order.
pub record Resource : Type 0 where
  pub id : Option ℕ
  pub active : Option Bool
  pub disable : Option Bool
  pub description : String
  pub fqdn : String
  pub fqdn_aliases : List String
  pub dn : String
  pub contact_lists : List (String × List (String × Contact))
  pub services : List (String × Service)
  pub tags : List String
  pub allowed_vos : List String
  pub vo_ownership : Option Json
  pub wlcg_information : Option Json
  pub extra : Option Fields

pub record ResourceProposal : Type 0 where
  pub resource_group : String
  pub name : String
  pub resource : Resource

pub record DowntimeProposal : Type 0 where
  pub resource : String
  pub class : String
  pub severity : String
  pub description : String
  pub start_time : String
  pub end_time : String
  pub services : List String

pub record ProjectProposal : Type 0 where
  pub name : String
  pub id : String
  pub description : String
  pub department : String
  pub field_of_science : String
  pub field_of_science_id : String
  pub organization : String
  pub pi_name : String
  pub institution_id : String
  pub sponsor : Option Fields
  pub extra : Option Fields

pub record SupportCenterProposal : Type 0 where
  pub name : String
  pub long_name : String
  pub community : String
  pub description : String
  pub extra : Option Fields

pub record VoProposal : Type 0 where
  pub name : String
  pub vo : Option Json

pub record BundleOp : Type 0 where
  pub entity_kind : Kind
  pub operation : Operation
  pub target_name : String
  pub proposed_state : Option Json
  pub schema_version : ℕ

pub record BundleProposal : Type 0 where
  pub operations : List BundleOp
