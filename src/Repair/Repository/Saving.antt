-- ===== src/Repair/Repository/Saving.antt =====
-- The optimistic lock of `save` in repair/infrastructure/repository.py.
use property_community_agent.Base.{
  ℕ, ◌≡◌, refl, some, if◌then◌else◌, find, update_where, count_where, ok, err, arith,
  find-update_where, count_where-update_where_none,
}
use property_community_agent.Repair.Errors.{version_conflict}
use property_community_agent.Repair.WorkOrder.{WorkOrderModel, WorkOrder}
use property_community_agent.Repair.Repository.{
  RepairDb, is_previous, write_columns, in_community, has_order_id, reported_version, save,
}

-- What a write that got through did.
pub save-ok :
    (w : WorkOrder) (s : RepairDb) {p : Unit {0} × RepairDb}
    → save w s ≡ ok p
    → (count_where (is_previous w) s.work_orders ≡ 1)
      × (p.1
          ≡ record s { work_orders = update_where (is_previous w) (write_columns w) s.work_orders })
unfolding save
save-ok w s {p} h = (ground arith, ground arith)

-- The row that `get` reads after a save, for an order that was read before it.
pub find-save :
    (w : WorkOrder) (i community : ℕ) (s : RepairDb) {m : WorkOrderModel} {p : Unit {0} × RepairDb}
    → find (in_community i community) s.work_orders ≡ some m
    → save w s ≡ ok p
    → find (in_community i community) p.1.work_orders
      ≡ some (if is_previous w m then write_columns w m else m)
find-save w i community s {m} {p} e h = ground (
  arith,
  save-ok w s {p = p} h,
  find-update_where (in_community i community) (is_previous w) (write_columns w) s.work_orders
      {m = m} (λ x. refl) e,
)

save_refused :
    (w : WorkOrder) (s : RepairDb)
    → count_where (is_previous w) s.work_orders ≡ 0
    → (v : ℕ) × (save w s ≡ err (version_conflict v))
unfolding save
save_refused w s e = (reported_version (find (has_order_id w.id) s.work_orders) w, ground arith)

-- Two writers that read the same version of an order do not both write: once one has saved, the
-- other's save is a version conflict, whatever it wants to write.
pub save-save :
    (w w2 : WorkOrder) (s : RepairDb) {p : Unit {0} × RepairDb}
    → w2.id ≡ w.id
    → w2.community_id ≡ w.community_id
    → w2.version ≡ w.version
    → save w s ≡ ok p
    → (v : ℕ) × (save w2 p.1 ≡ err (version_conflict v))
save-save w w2 s {p} same_id same_community same_version h = save_refused w2 p.1 (
    ground (
      arith,
      save-ok w s {p = p} h,
      count_where-update_where_none (is_previous w2) (is_previous w) (write_columns w) s.work_orders
          (λ m d. ground arith) (λ m d. ground arith),
    ))
