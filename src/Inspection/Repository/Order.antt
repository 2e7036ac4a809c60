-- ===== src/Inspection/Repository/Order.antt =====
-- What the queries on tasks and on events in inspection/infrastructure/repository.py share.
use property_community_agent.Base.{
  ℕ, String, Bool, true, false, ◌||◌, List, [], ◌∷◌, leb, if◌then◌else◌, str_eq,
}
use property_community_agent.Inspection.Commands.{TimelineEntry}

abbrev pub is_among : List String → String → Bool
is_among [] v = false
is_among (x ∷ xs) v = str_eq x v || is_among xs v

abbrev pub empty_or : List String → Bool → Bool
empty_or [] b = true
empty_or (_ ∷ _) b = b

-- `ORDER BY created_at DESC`, of rows with a date.
module _ {A : Type 0} (created_at : A → ℕ) where
  unfoldable pub insert_newest_first : A → List A → List A
  insert_newest_first m [] = m ∷ []
  insert_newest_first m (x ∷ xs) =
      let rest = insert_newest_first m xs in
      if leb (created_at x) (created_at m) then m ∷ x ∷ xs else x ∷ rest

  unfoldable pub newest_first : List A → List A
  unfolding insert_newest_first
  newest_first [] = []
  newest_first (m ∷ ms) = insert_newest_first m (newest_first ms)

  -- `sorted(entries, key=...)`.
  unfoldable pub insert_oldest_first : A → List A → List A
  insert_oldest_first m [] = m ∷ []
  insert_oldest_first m (x ∷ xs) =
      let rest = insert_oldest_first m xs in
      if leb (created_at m) (created_at x) then m ∷ x ∷ xs else x ∷ rest

  unfoldable pub oldest_first : List A → List A
  unfolding insert_oldest_first
  oldest_first [] = []
  oldest_first (m ∷ ms) = insert_oldest_first m (oldest_first ms)

abbrev pub entry_created_at : TimelineEntry → ℕ
entry_created_at e = e.created_at
