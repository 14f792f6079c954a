-- ===== src/Someip/Payload.antt =====
-- `Payload_impl` and `Writable_payload` of score/socom/payload.hpp and score/socom/impl/payload.cpp.
-- The callback for the destruction is not modelled.
pub mod Shrinking
use inc_someip_gateway.Base.{
  ℕ, zero, suc, ◌+◌, ◌-◌, ◌^◌, ◌≡◌, ◌≤◌, ◌<◌, refl, Bool, true, false, ◌&&◌, List, [], ◌∷◌, ◌++◌,
  Option, none, some, if◌then◌else◌, ltb, leb, length, arith, drop,
}
use inc_someip_gateway.Strings.{list_beq}
use inc_someip_gateway.Strings.Fixed.{take}

pub record Payload : Type 0 where
  pub bytes : List ℕ
  pub lead_offset : ℕ
  pub header_size : ℕ
  pub slot_handle : ℕ

unfoldable pub payload_data : Payload → List ℕ
payload_data p = drop (p.lead_offset + p.header_size) p.bytes

unfoldable pub header : Payload → List ℕ
header p = take p.header_size (drop p.lead_offset p.bytes)

-- The payload afterwards, and whether it was shrunk.
unfoldable pub shrink : ℕ → Payload → Payload × Bool
shrink size p =
    if ltb (length (payload_data p)) size
    then (p, false)
    else (record p { bytes = take (p.lead_offset + p.header_size + size) p.bytes }, true)

unfoldable pub payload_beq : Payload → Payload → Bool
payload_beq a b = list_beq (header a) (header b) && list_beq (payload_data a) (payload_data b)

unfoldable pub empty_payload : Payload
empty_payload = record { bytes = []; lead_offset = 0; header_size = 0; slot_handle = 2 ^ 64 - 1 }

-- `wdata` written as a whole.
unfoldable pub with_data : List ℕ → Payload → Payload
with_data m p = record p { bytes = take (p.lead_offset + p.header_size) p.bytes ++ m }
