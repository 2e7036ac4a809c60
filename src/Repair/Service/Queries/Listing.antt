-- ===== src/Repair/Service/Queries/Listing.antt =====
-- What `search` of repair/application/service.py returns.
use property_community_agent.Base.{
  ◌≤◌, ◌≡◌, sym, subst, Bool, true, List, [], ◌∷◌, leb, if◌then◌else◌, map, take, drop, select,
  length, ok, arith, inl, inr, Bool-cases, All, All-select, All-take, All-drop, All-map,
  length-take, length-map,
}
use property_community_agent.Repair.WorkOrder.{WorkOrderModel, WorkOrder}
use property_community_agent.Repair.Commands.{RequestContext, WorkOrderSearch}
use property_community_agent.Repair.Repository.{
  RepairDb, to_domain, is_listed, insert_newest_first, newest_first, list,
}
use property_community_agent.Repair.Service.Visibility.{MaySee}
use property_community_agent.Repair.Service.Queries.{search}

module _ (P : WorkOrderModel → Type 0) where
  All-insert_newest_first :
      (m : WorkOrderModel) (ms : List WorkOrderModel)
      → P m
      → All P ms
      → All P (insert_newest_first m ms)
  unfolding insert_newest_first
  All-insert_newest_first m [] h hs = (h, tt)
  All-insert_newest_first m (x ∷ xs) h (k, ks) = elim (Bool-cases (leb x.created_at m.created_at)) [
    | inl b ↦
        subst (λ (b : Bool). All P (if b then m ∷ x ∷ xs else x ∷ insert_newest_first m xs)) (sym b)
          (h, (k, ks))
    | inr b ↦
        subst (λ (b : Bool). All P (if b then m ∷ x ∷ xs else x ∷ insert_newest_first m xs)) (sym b)
          (k, All-insert_newest_first m xs h ks)
  ]

  All-newest_first : (ms : List WorkOrderModel) → All P ms → All P (newest_first ms)
  unfolding newest_first
  All-newest_first [] h = tt
  All-newest_first (m ∷ ms) (h, hs) =
      All-insert_newest_first m (newest_first ms) h (All-newest_first ms hs)

is_listed-MaySee :
    (q : WorkOrderSearch) (c : RequestContext) (s : RepairDb) (m : WorkOrderModel)
    → is_listed c.community_id q c m ≡ true
    → MaySee c (to_domain s.reviews m)
unfolding is_listed
is_listed-MaySee q c s m h = record {
  own_community = ground arith;
  own_house = λ r o. ground arith;
  own_task = λ r o. ground arith;
}

-- A search returns at most as many orders as asked for, one hundred at most, changes nothing, and
-- shows only orders that its sender may see.
pub search-MaySee :
    (q : WorkOrderSearch) (c : RequestContext) (s : RepairDb) {p : List WorkOrder × RepairDb}
    → search q c s ≡ ok p
    → (p.1 ≡ s) × (length p.0 ≤ q.limit) × (q.limit ≤ 100) × All (MaySee c) p.0
unfolding search list
search-MaySee q c s {p} h =
    let listed = select (is_listed c.community_id q c) s.work_orders in
    let page = take q.limit (drop q.offset (newest_first listed)) in
    let visible : All (λ m. MaySee c (to_domain s.reviews m)) page =
      All-take (λ m. MaySee c (to_domain s.reviews m)) q.limit (drop q.offset (newest_first listed))
        (All-drop (λ m. MaySee c (to_domain s.reviews m)) q.offset (newest_first listed)
          (All-newest_first (λ m. MaySee c (to_domain s.reviews m)) listed
            (All-select (λ m. MaySee c (to_domain s.reviews m)) (is_listed c.community_id q c)
              s.work_orders (λ m d. is_listed-MaySee q c s m d)))) in
    let out : p.0 ≡ map (to_domain s.reviews) page = ground arith in
    (
      ground arith,
      ground (
        arith,
        length-map (to_domain s.reviews) page,
        length-take q.limit (drop q.offset (newest_first listed)),
      ),
      ground arith,
      subst (All (MaySee c)) (sym out) (All-map (MaySee c) (to_domain s.reviews) page visible),
    )
