-- ===== src/Handlers/Requests.antt =====
-- The proposal endpoints as the router serves them (internal/handlers/proposals.go), and a history
-- of requests: each runs at its own time, on the database that the one before left.
use topology_v.Base.{ℕ, String, Option, List, [], ◌∷◌}
use topology_v.External.{External}
use topology_v.Db.{Database}
use topology_v.Handlers.{
  Session, Reply, CreateRequest, ReviseRequest, handle_create, handle_revise, handle_submit,
  handle_withdraw, handle_reject, handle_approve,
}

pub data Request : Type 0 where
  create_request : Option CreateRequest → Request
  revise_request : ℕ → Option ReviseRequest → Request
  submit_request withdraw_request approve_request : ℕ → Request
  reject_request : ℕ → String → Request

unfoldable pub serve : External → Session → Request → Database → Database × Reply
serve ext s (create_request body) db = handle_create ext s body db
serve ext s (revise_request id body) db = handle_revise ext s id body db
serve ext s (submit_request id) db = handle_submit ext s id db
serve ext s (withdraw_request id) db = handle_withdraw ext s id db
serve ext s (reject_request id note) db = handle_reject ext s id note db
serve ext s (approve_request id) db = handle_approve ext s id db

pub record Event : Type 0 where
  pub at_time : ℕ
  pub session : Session
  pub request : Request

unfoldable pub run : External → List Event → Database → Database
run ext [] db = db
run ext (e ∷ es) db = run ext es (serve ext e.session e.request (record db { now = e.at_time })).0
