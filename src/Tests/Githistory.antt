-- ===== src/Tests/Githistory.antt =====
-- The theorems on the history import, on a few paths and resources.
use topology_v.Base.{String, true, ◌≡◌, ◌≢◌, refl, none, some, List, [], ◌∷◌, str_eq, eq_iff, ap}
use topology_v.Json.{str, obj, end, field}
use topology_v.Payloads.{Resource}
use topology_v.Githistory.Identity.{
  added, renamed, copied, PathIdentity, touch, touch_all, new_path_identity, PathEvent,
}
use topology_v.Githistory.Identity.Laws.{IsRegistry, Left, touch_all-IsRegistry, touch-follows}
use topology_v.Githistory.Resources.{Encoding, Resources, decompose_resources}
use topology_v.Githistory.Resources.Laws.{SamePayload, replay, view, decompose_resources-replay}
use topology_v.Tests.{ext}

abbrev history : List PathEvent
history =
    record { status = added; old_path = ""; new_path = "p"; name = "P" }
    ∷ record { status = added; old_path = ""; new_path = "q"; name = "Q" }
    ∷ record { status = renamed; old_path = "p"; new_path = "q2"; name = "P2" }
    ∷ []

touch_all-IsRegistry_example : IsRegistry (touch_all history new_path_identity)
touch_all-IsRegistry_example = touch_all-IsRegistry history

abbrev walked : PathIdentity
walked = touch_all history new_path_identity

-- A copy of the second file, whose identity is 1.
touch-follows_example :
    ((touch copied "q" "q3" "Q3" walked).0 ≡ some 1)
    × Left "q" "q3" "Q3" "q2" 1 walked (touch copied "q" "q3" "Q3" walked).1
    × (walked.next_id ≢ 1)
unfolding touch_all new_path_identity
touch-follows_example =
    touch-follows true "q" "q3" "Q3" "q2" walked (touch_all-IsRegistry history) refl refl refl refl

abbrev at_fqdn : String → Resource
at_fqdn f = record {
  id = none;
  active = none;
  disable = none;
  description = "";
  fqdn = f;
  fqdn_aliases = [];
  dn = "";
  contact_lists = [];
  services = [];
  tags = [];
  allowed_vos = [];
  vo_ownership = none;
  wlcg_information = none;
  extra = none;
}

abbrev by_fqdn : Encoding
by_fqdn = record {
  same_resource = λ a b. str_eq a.fqdn b.fqdn;
  resource_payload = λ group name r. obj (
      field "resource_group" (str group) (field "name" (str name) (field "fqdn" (str r.fqdn) end)));
}

by_fqdn-SamePayload : SamePayload by_fqdn
by_fqdn-SamePayload a b group name e =
    ap
      (λ f.
        obj
          (field "resource_group" (str group) (field "name" (str name) (field "fqdn" (str f) end))))
      ((eq_iff a.fqdn b.fqdn).0 e)

abbrev before_commit : Resources
before_commit = ("A", at_fqdn "a") ∷ ("B", at_fqdn "b") ∷ []

abbrev after_commit : Resources
after_commit = ("C", at_fqdn "c") ∷ ("B", at_fqdn "b2") ∷ []

decompose_resources-replay_example :
    replay
      (decompose_resources ext by_fqdn "G" "G" before_commit after_commit)
      (view by_fqdn "G" before_commit)
      "B"
    ≡ view by_fqdn "G" after_commit "B"
decompose_resources-replay_example =
    decompose_resources-replay ext by_fqdn "G" "G" by_fqdn-SamePayload before_commit after_commit
      (refl, (refl, tt)) (refl, (refl, tt)) "B"
