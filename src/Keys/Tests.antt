-- ===== src/Keys/Tests.antt =====
-- The numbering of two services.
use inc_someip_gateway.Base.{◌≡◌, ◌↔◌, [], ◌∷◌, arith}
use inc_someip_gateway.Wire.{Service, InstanceId}
use inc_someip_gateway.Keys.{no_keys, get}
use inc_someip_gateway.Keys.Numbering.{no_keys-IsNumbering, get_eq_iff}

abbrev radar : Service
radar = record { service_id = b'r' ∷ []; major = 1; minor = 0 }

abbrev lidar : Service
lidar = record { service_id = b'l' ∷ []; major = 1; minor = 0 }

abbrev front : InstanceId
front = b'f' ∷ []

get_eq_iff_example :
    ((get radar front no_keys).1 ≡ (get lidar front (get radar front no_keys).0).1)
    ↔ ((radar ≡ lidar) × (front ≡ front))
get_eq_iff_example = get_eq_iff radar lidar front front no_keys (omega arith) no_keys-IsNumbering
