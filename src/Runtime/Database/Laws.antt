-- ===== src/Runtime/Database/Laws.antt =====
-- What the database holds after an operation.
use inc_someip_gateway.Base.{
  ℕ, ◌≡◌, true, ◌&&◌, ◌==◌, if◌then◌else◌, arith, nat_eq, inl, inr, Bool-cases, Option-cases, refl,
}
use inc_someip_gateway.Map.{find, insert_or_assign}
use inc_someip_gateway.Map.Laws.{find-insert_or_assign}
use inc_someip_gateway.Runtime.{Interface, kind, kind_eq, kind_beq, kind_beq_iff}
use inc_someip_gateway.Runtime.Database.{
  Database, ServiceRecord, instances_of, get_record, put_record, Instances,
}

abbrev written : Interface → ℕ → ServiceRecord → Database → Instances
written i m r db = record (instances_of i db) {
  records = insert_or_assign m r (instances_of i db).records;
}

records-put_record :
    (i j : Interface) (m : ℕ) (r : ServiceRecord) (db : Database)
    → (instances_of j (put_record i m r db)).records ≡ (
        if kind_beq (kind i) (kind j)
        then insert_or_assign m r (instances_of i db).records
        else (instances_of j db).records)
unfolding put_record instances_of
records-put_record i j m r db =
    rw (find-insert_or_assign (kind j) (kind i) (written i m r db) db) (ground arith)

same_kind :
    (i j : Interface) (db : Database)
    → kind_beq (kind i) (kind j) ≡ true
    → (instances_of i db).records ≡ (instances_of j db).records
unfolding instances_of
same_kind i j db h =
    let e : kind i ≡ kind j = (kind_beq_iff (kind i) (kind j)).0 h in
    elim (Option-cases (find (kind j) db)) [
      | inl absent ↦ rw (e, absent) refl
      | inr (entry, there) ↦ rw (e, there) refl
    ]

-- A write is seen under the interfaces that differ in the minor version at most, and nowhere else.
pub get_record-put_record :
    (i j : Interface) (m n : ℕ) (r : ServiceRecord) (db : Database)
    → get_record j n (put_record i m r db)
      ≡ (if kind_beq (kind i) (kind j) && m == n then r else get_record j n db)
unfolding get_record
get_record-put_record i j m n r db = elim (Bool-cases (kind_beq (kind i) (kind j))) [
  | inl same ↦
      rw
        (
          records-put_record i j m r db,
          same,
          find-insert_or_assign n m r (instances_of i db).records,
        )
        (elim (Bool-cases (m == n)) [
          | inl e ↦ rw e refl
          | inr ne ↦ rw (ne, same_kind i j db same) refl
        ])
  | inr other ↦ rw (records-put_record i j m r db, other) refl
]

-- The minor version does not matter for a lookup.
pub get_record_same :
    (i j : Interface) (n : ℕ) (db : Database)
    → kind_beq (kind i) (kind j) ≡ true
    → get_record i n db ≡ get_record j n db
unfolding get_record
get_record_same i j n db h = rw (same_kind i j db h) refl
