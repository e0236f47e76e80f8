-- ===== src/Db/Rows.antt =====
-- The rows of the topology tables (internal/db/queries_topology.go and its siblings). A nullable
-- text column that the code writes by nullString and reads by COALESCE is a text, empty for NULL.
-- An int64 is its 64-bit pattern, a float64 its IEEE bits, a JSONB column an optional JSON value.
use topology_v.Base.{ℕ, String, Bool, Option, List}
use topology_v.Models.{Role, Kind}
use topology_v.Json.{Json}

pub record FacilityBody : Type 0 where
  pub topology_id : ℕ
  pub institution_id : String
  pub extra : Option Json
  pub id_explicit : Bool

pub record SiteBody : Type 0 where
  pub topology_id : ℕ
  pub long_name : String
  pub description : String
  pub address_line1 : String
  pub address_line2 : String
  pub city : String
  pub state : String
  pub country : String
  pub zipcode : String
  pub latitude : Option ℕ
  pub longitude : Option ℕ
  pub extra : Option Json
  pub id_explicit : Bool

pub record GroupBody : Type 0 where
  pub group_id : ℕ
  pub production : Option Bool
  pub disable : Option Bool
  pub support_center : String
  pub group_description : String
  pub extra : Option Json
  pub id_explicit : Bool

pub record ResourceBody : Type 0 where
  pub active : Option Bool
  pub disable : Option Bool
  pub description : String
  pub fqdn : String
  pub dn : String
  pub fqdn_aliases : List String
  pub tags : List String
  pub allowed_vos : List String
  pub vo_ownership : Option Json
  pub wlcg_information : Option Json
  pub extra : Option Json
  pub id_explicit : Bool

pub record ServiceRow : Type 0 where
  pub resource_id : ℕ
  pub service_name : String
  pub description : String
  pub details : Option Json
  pub ordinal : ℕ

pub record ResourceContact : Type 0 where
  pub resource_id : ℕ
  pub contact_type : String
  pub rank : String
  pub contact_name : String
  pub contact_id : String
  pub user_id : Option ℕ
  pub deleted_at : Option ℕ
  pub deleted_by : Option ℕ

pub record EntityContactRow : Type 0 where
  pub entity_kind : Kind
  pub entity_name : String
  pub contact_type : String
  pub rank : String
  pub contact_name : String
  pub contact_id : String
  pub user_id : Option ℕ
  pub deleted_at : Option ℕ
  pub deleted_by : Option ℕ

pub record DowntimeRow : Type 0 where
  pub dt_id : ℕ
  pub resource_group_id : ℕ
  pub resource_name : String
  pub resource_id : Option ℕ
  pub class : String
  pub severity : String
  pub description : String
  pub start_time : String
  pub end_time : String
  pub created_time : String
  pub services : List String
  pub ordinal : ℕ
  pub deleted_at : Option ℕ
  pub deleted_by : Option ℕ

pub record ProjectFields : Type 0 where
  pub name : String
  pub project_id : String
  pub description : String
  pub department : String
  pub field_of_science : String
  pub field_of_science_id : String
  pub organization : String
  pub pi_name : String
  pub institution_id : String
  pub sponsor : Option Json
  pub sponsor_type : String
  pub sponsor_name : String
  pub extra : Option Json

pub record ProjectRow : Type 0 where
  pub fields : ProjectFields
  pub updated_at : ℕ
  pub deleted_at : Option ℕ
  pub deleted_by : Option ℕ

pub record SupportCenterRow : Type 0 where
  pub id : ℕ
  pub name : String
  pub long_name : String
  pub community : String
  pub description : String
  pub extra : Option Json
  pub updated_at : ℕ
  pub deleted_at : Option ℕ
  pub deleted_by : Option ℕ

pub record VoRow : Type 0 where
  pub name : String
  pub vo_id : ℕ
  pub disable : Bool
  pub raw : String
  pub updated_at : ℕ
  pub deleted_at : Option ℕ
  pub deleted_by : Option ℕ

pub record UserRow : Type 0 where
  pub id : ℕ
  pub display_name : String
  pub username : Option String
  pub status : String
  pub legacy_contact_id : Option String
  pub is_provisioned : Bool
  pub last_login : Option ℕ

-- A row of user_roles.
pub record UserRole : Type 0 where
  pub user_id : ℕ
  pub role : Role

-- A row of user_identities. The encrypted address is one text, empty for NULL.
pub record IdentityRow : Type 0 where
  pub id : ℕ
  pub user_id : ℕ
  pub issuer : String
  pub subject : String
  pub encrypted_email : String
  pub email_sha1 : String
  pub eppn : String
  pub oidc : String
  pub cilogon_id : String
  pub idp_name : String
  pub display_name : String

-- A row of sessions: only the hash of the token is stored.
pub record SessionRow : Type 0 where
  pub id : ℕ
  pub user_id : ℕ
  pub role : Role
  pub token_hash : String
  pub expires_at : ℕ

-- A row of email_verifications.
pub record EmailVerification : Type 0 where
  pub user_id : ℕ
  pub email_sha1 : String
  pub email_hint : String
  pub encrypted_email : String
  pub token_hash : String
  pub created_at : ℕ
  pub expires_at : ℕ
  pub verified_at : Option ℕ
