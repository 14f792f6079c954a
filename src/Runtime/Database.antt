-- ===== src/Runtime/Database.antt =====
-- `Service_record` and `Service_database` of score/socom/impl/runtime_impl.hpp and
-- score/socom/impl/runtime_impl.cpp. A registration is withdrawn by the functions that its
-- destructor calls.
pub mod Laws
use inc_someip_gateway.Base.{
  ℕ, Bool, true, List, [], ◌∷◌, Option, none, some, if◌then◌else◌, ◌==◌, ◌&&◌, is_some, Result, ok,
  err, value_or, nat_eq,
}
use inc_someip_gateway.Map.{Map, find, insert_or_assign, keys}
use inc_someip_gateway.Runtime.{Interface, Kind, kind, kind_eq}

-- `Construction_error`.
pub data ConstructionError : Type 0 where
  duplicate_client duplicate_service callback_missing : ConstructionError

-- `Interfaced_server`.
pub record Server : Type 0 where
  pub interface : Interface
  pub endpoint : ℕ

-- `Interfaced_client`; the indication is known by its client connector.
pub record Client : Type 0 where
  pub interface : Interface
  pub connector : ℕ

-- `Service_record`.
pub record ServiceRecord : Type 0 where
  pub server : Option Server
  pub client : Option Client

abbrev pub empty_record : ServiceRecord
empty_record = record { server = none; client = none }

-- `Service_instances`, under the interface that came first.
pub record Instances : Type 0 where
  pub interface : Interface
  pub records : Map ℕ ServiceRecord

-- `m_service_records`.
abbrev pub Database : Type 0
Database = Map Kind Instances

-- The instances of an interface; an empty map is added for an interface that is not there.
unfoldable pub instances_of : Interface → Database → Instances
instances_of interface db =
    value_or (find (kind interface) db) (record { interface = interface; records = [] })

-- What the reference of `get_record` leads to.
unfoldable pub get_record : Interface → ℕ → Database → ServiceRecord
get_record interface instance_id db =
    value_or (find instance_id (instances_of interface db).records) empty_record

-- A write through that reference.
unfoldable pub put_record : Interface → ℕ → ServiceRecord → Database → Database
put_record interface instance_id r db =
    let entry = instances_of interface db in
    insert_or_assign (kind interface)
      (record entry { records = insert_or_assign instance_id r entry.records }) db

-- `none` for the failed assertion that there is no server yet; otherwise the record, and the client
-- that is there.
unfoldable pub register_server_connector :
    Interface → ℕ → ServiceRecord → Option (ServiceRecord × Option Client)
register_server_connector interface connector r =
    if is_some r.server
    then none
    else some (
      record r { server = some (record { interface = interface; endpoint = connector }) },
      r.client,
    )

-- The record, and the server that is there.
unfoldable pub register_client_connector :
    Interface → ℕ → ServiceRecord → Result ConstructionError (ServiceRecord × Option Server)
register_client_connector interface on_server_update r =
    if is_some r.client
    then err duplicate_client
    else ok (
      record r { client = some (record { interface = interface; connector = on_server_update }) },
      r.server,
    )

-- The final actions of the two registrations.
unfoldable pub reset_server : ServiceRecord → ServiceRecord
reset_server r = record r { server = none }

unfoldable pub reset_client : ServiceRecord → ServiceRecord
reset_client r = record r { client = none }

unfoldable pub is_available : ServiceRecord → Bool
is_available r = is_some r.server

unfoldable pub is_matching_instance : Option ℕ → ℕ → Bool
is_matching_instance none instance_id = true
is_matching_instance (some filter) instance_id = filter == instance_id

-- The loop of `copy_if`, and `get_keys` of what it copies.
unfoldable pub matching_instances : Option ℕ → Map ℕ ServiceRecord → List ℕ
matching_instances filter [] = []
matching_instances filter ((i, r) ∷ rest) =
    let later = matching_instances filter rest in
    if is_available r && is_matching_instance filter i then i ∷ later else later

-- `get_instances` for an interface.
unfoldable pub get_instances : Interface → Option ℕ → Database → Map Interface (List ℕ)
get_instances interface filter db = elim (find (kind interface) db) [
  | none ↦ []
  | some entry ↦ (interface, matching_instances filter entry.records) ∷ []
]

-- `get_instances` without an interface: neither the filter nor a missing server leaves one out.
unfoldable pub all_instances : Database → Map Interface (List ℕ)
all_instances [] = []
all_instances ((k, entry) ∷ rest) = (entry.interface, keys entry.records) ∷ all_instances rest

unfoldable pub get_instances_of : Option Interface → Option ℕ → Database → Map Interface (List ℕ)
get_instances_of none filter db = all_instances db
get_instances_of (some interface) filter db = get_instances interface filter db
