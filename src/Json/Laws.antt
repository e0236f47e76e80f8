-- ===== src/Json/Laws.antt =====
-- How a key reads after a write.
use topology_v.Base.{String, ◌≡◌, refl, arith, str_eq, eq_iff, if◌then◌else◌, some}
use topology_v.Json.{Json, Fields, end, field, get, put}

pub get-put :
    (k j : String) (v : Json) (fs : Fields)
    → get j (put k v fs) ≡ (if str_eq k j then some v else get j fs)
unfolding get put
get-put k j v end = refl
get-put k j v (field i w fs) = ground (arith, eq_iff k j, eq_iff i k, eq_iff i j, get-put k j v fs)
