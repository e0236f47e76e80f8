-- ===== src/Tests.antt =====
-- A small installation to run the workflow on: a facility with a site, a group and a resource, an
-- administrator and a plain user, and decoders that read the keys that the payloads need.
mod Workflow
mod Editing
mod Accounts
mod Handoffs
mod Githistory
mod Feeds
mod Sequence
use topology_v.Base.{
  ℕ, String, Bool, true, false, Option, none, some, List, [], ◌∷◌, ◌+◌, str_eq, if◌then◌else◌,
}
use topology_v.Models.{
  Role, administrator, user, Kind, facility, site, bundle, Operation, create, update, delete,
  pending,
}
use topology_v.Json.{Json, null, str, num, obj, Fields, end, field, get, as_object}
use topology_v.External.{External}
use topology_v.Payloads.{EntityContact, FacilityProposal, SiteProposal, BundleOp, BundleProposal}
use topology_v.Table.{Row}
use topology_v.Db.{Database, FacilityBody, SiteBody, GroupBody, ResourceBody, UserRow, Proposal}
use topology_v.Handlers.{Session}

abbrev pub text_at : String → Fields → String
text_at k fs = elim (get k fs) [ none ↦ "" | some v ↦ elim v [ str s ↦ s | _ ↦ "" ] ]

abbrev pub decode_facility : Json → Option FacilityProposal
decode_facility (obj fs) = some (record {
  name = text_at "name" fs;
  institution_id = text_at "institution_id" fs;
  contacts = record { contact_type = "Admin"; rank = ""; name = "Ann"; id = "c1" } ∷ [];
})
decode_facility _ = none

abbrev pub decode_site : Json → Option SiteProposal
decode_site (obj fs) = some (record {
  name = text_at "name" fs;
  facility = text_at "facility" fs;
  long_name = "";
  description = "";
  address_line1 = "";
  address_line2 = "";
  city = "";
  state = "";
  country = "";
  zipcode = "";
  latitude = none;
  longitude = none;
  contacts = [];
})
decode_site _ = none

abbrev pub new_site : BundleOp
new_site = record {
  entity_kind = site;
  operation = create;
  target_name = "";
  proposed_state = some (obj (field "name" (str "S2") (field "facility" (str "F") end)));
  schema_version = 1;
}

abbrev pub drop_facility : BundleOp
drop_facility = record {
  entity_kind = facility;
  operation = delete;
  target_name = "F";
  proposed_state = none;
  schema_version = 1;
}

-- The document of the VO "A" names "B" as its parent, and that of "B" names "A".
abbrev pub parent_document : String → Option Fields
parent_document s = some (field "ParentVO" (obj (field "Name" (str s) end)) end)

abbrev pub ext : External
ext = record {
  schema_ok = λ k v j. true;
  decode_facility = decode_facility;
  decode_site = decode_site;
  decode_group = λ j. none;
  decode_resource = λ j. none;
  decode_downtime = λ j. none;
  decode_project = λ j. none;
  decode_support_center = λ j. none;
  decode_vo = λ j. none;
  decode_bundle = λ j. some (record { operations = new_site ∷ drop_facility ∷ [] });
  number = num;
  parse_int = λ s. none;
  format_int = λ n. "0";
  md5 = λ s. 41;
  parse_time = λ l s. none;
  format_time = λ t. "";
  unix = λ t. t;
  vo_document = parent_document;
  patch_vo = λ raw d. some raw;
  new_vo = λ d. some "";
  vo_head = λ raw. (none, false);
  sort_contacts = λ cs. cs;
  float_text = λ n. "";
  loses_update = λ d. false;
}

abbrev pub row : {K B : Type 0} → ℕ → K → String → B → Row K B
row id parent name body = record {
  id = id;
  parent = parent;
  name = name;
  body = body;
  updated_at = 5;
  deleted_at = none;
  deleted_by = none;
}

abbrev pub facility_row : Row (Unit {0}) FacilityBody
facility_row =
    row 1 tt "F"
      (record { topology_id = 42; institution_id = "i1"; extra = none; id_explicit = false })

abbrev pub site_row : Row ℕ SiteBody
site_row = row 2 1 "S" (record {
  topology_id = 43;
  long_name = "";
  description = "";
  address_line1 = "";
  address_line2 = "";
  city = "";
  state = "";
  country = "";
  zipcode = "";
  latitude = none;
  longitude = none;
  extra = none;
  id_explicit = false;
})

abbrev pub group_row : Row ℕ GroupBody
group_row = row 3 2 "G" (record {
  group_id = 44;
  production = some true;
  disable = some false;
  support_center = "";
  group_description = "";
  extra = none;
  id_explicit = false;
})

abbrev pub resource_row : Row ℕ ResourceBody
resource_row = row 4 3 "R" (record {
  active = some true;
  disable = some false;
  description = "";
  fqdn = "";
  dn = "";
  fqdn_aliases = [];
  tags = [];
  allowed_vos = [];
  vo_ownership = none;
  wlcg_information = none;
  extra = none;
  id_explicit = false;
})

-- A pending proposal to rename the facility to "F2", made against its state at time 5.
abbrev pub rename : Proposal
rename = record {
  id = 7;
  entity_kind = facility;
  target_name = "F";
  operation = update;
  proposed_state = obj (field "name" (str "F2") (field "institution_id" (str "i1") end));
  schema_version = 1;
  base_version = none;
  base_updated_at = some 5;
  status = pending;
  created_by = 101;
  assigned_reviewer = none;
  review_note = "";
  created_at = 6;
  updated_at = 6;
}

-- A pending bundle, whose second operation is refused: the facility has a site.
abbrev pub failing : Proposal
failing = record rename {
  id = 8;
  entity_kind = bundle;
  operation = create;
  target_name = "";
  base_updated_at = none;
}

abbrev pub db : Database
db = record {
  facilities = facility_row ∷ [];
  sites = site_row ∷ [];
  resource_groups = group_row ∷ [];
  resources = resource_row ∷ [];
  resource_services = [];
  resource_contacts = [];
  entity_contacts = [];
  downtimes = [];
  projects = [];
  support_centers = [];
  vos = [];
  institutions = "i1" ∷ [];
  users =
      record {
        id = 101;
        display_name = "";
        username = none;
        status = "active";
        legacy_contact_id = some "c1";
        is_provisioned = true;
        last_login = none;
      }
      ∷ [];
  user_roles = [];
  identities = [];
  sessions = [];
  email_verifications = [];
  invites = [];
  replacements = [];
  proposals = rename ∷ failing ∷ [];
  revisions = [];
  pending_invites = [];
  audit_log = [];
  next_uuid = 200;
  resource_seq = 3000000;
  now = 10;
}

abbrev pub admin : Session
admin = record { user_id = 100; roles = administrator ∷ [] }

abbrev pub plain : Session
plain = record { user_id = 101; roles = user ∷ [] }
