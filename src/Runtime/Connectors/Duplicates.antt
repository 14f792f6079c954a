-- ===== src/Runtime/Connectors/Duplicates.antt =====
-- What keeps two server connectors for one service and instance apart.
use inc_someip_gateway.Base.{
  ℕ, ◌≡◌, ◌≢◌, refl, ◌∙◌, true, false, [], ◌∷◌, none, some, arith, nat_eq,
}
use inc_someip_gateway.Runtime.{Interface, Target, target_beq_iff, kind_beq}
use inc_someip_gateway.Runtime.Database.{
  duplicate_service, ServiceRecord, get_record, put_record, register_server_connector,
}
use inc_someip_gateway.Runtime.Database.Laws.{get_record-put_record}
use inc_someip_gateway.Runtime.Bridges.{contains}
use inc_someip_gateway.Runtime.Connectors.{
  Runtime, done, fails, refused, register_server, make_server_connector,
}

module _ (i j : Interface) (instance_id first second : ℕ) (s : Runtime) where
  abbrev target_of : Interface → Target
  target_of k = record { interface = k; instance_id = instance_id }

  abbrev with_one : Runtime
  with_one = record s { service_identifiers = target_of i ∷ s.service_identifiers }

  abbrev with_both : Runtime
  with_both = record with_one { service_identifiers = target_of j ∷ with_one.service_identifiers }

  -- Two interfaces that differ in the minor version alone are different identifiers, so both server
  -- connectors are made; the database knows them as one, so that enabling the first succeeds and
  -- enabling the second runs into the failing assertion. Nothing is registered for the service
  -- and the instance before.
  pub minor_versions_collide :
      i.id ≡ j.id
      → i.major ≡ j.major
      → i.minor ≢ j.minor
      → contains s.service_identifiers (target_of i) ≡ false
      → contains s.service_identifiers (target_of j) ≡ false
      → get_record i instance_id s.database ≡ record { server = none; client = none }
      → (made : Runtime) × (both : Runtime) × (s' : Runtime) × (make_server_connector true i
            instance_id s
          ≡ done made [] true)
        × (make_server_connector true i instance_id made ≡ refused duplicate_service)
        × (make_server_connector true j instance_id made ≡ done both [] true)
        × (register_server i instance_id first both ≡ done s' [] true)
        × (register_server j instance_id second s' ≡ fails)
  unfolding make_server_connector register_server register_server_connector contains
  minor_versions_collide same_id same_major differ new_i new_j free =
      let r : ServiceRecord = record {
        server = some (record { interface = i; endpoint = first });
        client = none;
      } in
      let s' : Runtime = record with_both { database = put_record i instance_id r s.database } in
      let there : get_record j instance_id s'.database ≡ r =
        get_record-put_record i j instance_id instance_id r s.database
        ∙ unfold kind_beq in ground arith in
      (
        with_one,
        with_both,
        s',
        rw new_i refl,
        ground (arith, target_beq_iff (target_of i) (target_of i)),
        ground (arith, target_beq_iff (target_of i) (target_of j)),
        rw (free, register_server) refl,
        rw (there, register_server) refl,
      )
