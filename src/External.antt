-- ===== src/External.antt =====
-- What the workflow takes from outside the repository: encoding/json's decoding into structs, the
-- JSON Schema validator over the files of internal/proposalschema/schema, strconv, crypto/md5,
-- time and yaml.v3, and whether the database still answers once an approval is committed. It is a parameter of the model: an argument of what uses it.
use topology_v.Base.{ℕ, String, Bool, Option, List}
use topology_v.Models.{Kind}
use topology_v.Json.{Json, Fields}
use topology_v.Db.{Database}
use topology_v.Payloads.{
  EntityContact, FacilityProposal, SiteProposal, GroupProposal, ResourceProposal, DowntimeProposal,
  ProjectProposal, SupportCenterProposal, VoProposal, BundleProposal,
}

pub record External : Type 0 where
  -- jsonschema's Validate over the compiled schema of a kind and version.
  pub schema_ok : Kind → ℕ → Json → Bool
  -- json.Unmarshal into each struct; `none` is its error.
  pub decode_facility : Json → Option FacilityProposal
  pub decode_site : Json → Option SiteProposal
  pub decode_group : Json → Option GroupProposal
  pub decode_resource : Json → Option ResourceProposal
  pub decode_downtime : Json → Option DowntimeProposal
  pub decode_project : Json → Option ProjectProposal
  pub decode_support_center : Json → Option SupportCenterProposal
  pub decode_vo : Json → Option VoProposal
  pub decode_bundle : Json → Option BundleProposal
  -- json.Number's Int64 or Float64, as the value that prints again.
  pub number : String → Json
  -- strconv.ParseInt(s, 10, 64) and strconv.FormatInt, on 64-bit patterns.
  pub parse_int : String → Option ℕ
  pub format_int : ℕ → String
  -- The digest of crypto/md5 as a number.
  pub md5 : String → ℕ
  -- time.Parse of a layout, the UTC format of the downtime layout, and Unix seconds.
  pub parse_time : String → String → Option ℕ
  pub format_time : ℕ → String
  pub unix : ℕ → ℕ
  -- yaml.v3 on VO documents: decoding, patching in place, writing anew, and the ID and Disable keys.
  pub vo_document : String → Option Fields
  pub patch_vo : String → Fields → Option String
  pub new_vo : Fields → Option String
  pub vo_head : String → Option ℕ × Bool
  -- ORDER BY contact_type, rank under the database's collation, and the text of a float64.
  pub sort_contacts : List EntityContact → List EntityContact
  pub float_text : ℕ → String
  -- Whether the connection fails between the commit of an approval and the UPDATE that follows it.
  pub loses_update : Database → Bool
