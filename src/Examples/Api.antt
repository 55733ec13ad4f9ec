-- ===== src/Examples/Api.antt =====
-- The theorems on the management API at concrete inputs.
use mathlib.Core.List.Permᴰ.{swap}
use anytls_rs_legacy.Common.{
  ◌≡◌, ◌≢◌, ◌↔◌, refl, false, true, Option, some, List, [], ◌∷◌, Text, codes, ok, arith,
}
use anytls_rs_legacy.Common.Int.{pos}
use anytls_rs_legacy.Common.Bytes.{Bytes}
use anytls_rs_legacy.Node.Registry.{new_registry}
use anytls_rs_legacy.Node.Api.{UsersPutEntry, Request, get, authorized, route, into_specs}
use anytls_rs_legacy.Node.Api.Access.{presented, authorized_iff, route-changes}
use anytls_rs_legacy.Node.Api.Order.{IsDistinct, into_specs-perm}

abbrev asking : Request
asking = record {
  method = get;
  path = codes "/stats";
  authorization = some (some (codes "Bearer abc"));
  size_upper = some 0;
  body = ok [];
}

authorized_iff_example : (authorized asking (some (codes "abc")) ≡ true) ↔ (
    (value : Text) × (asking.authorization ≡ some (some value)) × (presented value ≡ codes "abc"))
authorized_iff_example = authorized_iff asking (codes "abc")

-- A digest that keeps the password, a reader that finds no users, and a decoder that changes nothing.
abbrev digest : Text → Bytes
digest t = t

abbrev no_users : Bytes → Option (List (Text × UsersPutEntry))
no_users b = some []

abbrev plain : Text → Option Text
plain t = some t

route-changes_example :
    (authorized asking (some (codes "xyz")) ≡ false
      → ((route digest no_users plain (some (codes "xyz")) asking new_registry).0 ≡ new_registry)
        × ((route digest no_users plain (some (codes "xyz")) asking new_registry).1.status ≡ 401))
    × ((route digest no_users plain (some (codes "xyz")) asking new_registry).1.status ≢ 200
        → (route digest no_users plain (some (codes "xyz")) asking new_registry).0 ≡ new_registry)
    × (asking.method ≡ get
        → (route digest no_users plain (some (codes "xyz")) asking new_registry).0 ≡ new_registry)
route-changes_example = route-changes digest no_users plain (some (codes "xyz")) asking new_registry

abbrev first_user : Text × UsersPutEntry
first_user = (codes "bob", record { password = codes "p"; quota_bytes = 1; expires_unix = pos 0 })

abbrev second_user : Text × UsersPutEntry
second_user = (codes "ada", record { password = codes "p"; quota_bytes = 2; expires_unix = pos 0 })

two-IsDistinct : IsDistinct (first_user ∷ second_user ∷ [])
two-IsDistinct = ((λ e. ground arith, tt), (tt, tt))

into_specs-perm_example :
    into_specs (first_user ∷ second_user ∷ []) ≡ into_specs (second_user ∷ first_user ∷ [])
into_specs-perm_example =
    into_specs-perm (first_user ∷ second_user ∷ []) (second_user ∷ first_user ∷ []) two-IsDistinct
      (swap refl refl)
