-- ===== src/Pages.antt =====
-- A page of a query, as app/schemas/pagination.py hands it out: the rows of a filter, the newest
-- first, from an offset on. Newest first is the order against that of insertion.
pub mod Walk
use agent_repository.Common.{ℕ, ◌-◌, ◌==◌, Bool, List, [], ◌∷◌, ◌++◌, length, if◌then◌else◌}

pub record Page (A : Type 0) : Type 0 where
  pub items : List A
  pub total : ℕ
  pub limit : ℕ
  pub offset : ℕ

unfoldable pub take : {A : Type 0} → ℕ → List A → List A
take n [] = []
take n (x ∷ xs) = let rest = take (n - 1) xs in if n == 0 then [] else x ∷ rest

unfoldable pub drop : {A : Type 0} → ℕ → List A → List A
drop n [] = []
drop n (x ∷ xs) = let rest = drop (n - 1) xs in if n == 0 then x ∷ xs else rest

unfoldable pub newest_first : {A : Type 0} → List A → List A
newest_first [] = []
newest_first (x ∷ xs) = newest_first xs ++ x ∷ []

-- The rows that a WHERE keeps.
unfoldable pub where_rows : {A : Type 0} → (A → Bool) → List A → List A
where_rows p [] = []
where_rows p (x ∷ xs) = let rest = where_rows p xs in if p x then x ∷ rest else rest

-- `query.order_by(... .desc()).offset(offset).limit(limit)`, with the count of the same filter.
unfoldable pub select_page : {A : Type 0} → (A → Bool) → ℕ → ℕ → List A → Page A
unfolding where_rows newest_first take drop
select_page p limit offset rows =
    let found = newest_first (where_rows p rows) in
    record {
      items = take limit (drop offset found);
      total = length (where_rows p rows);
      limit = limit;
      offset = offset;
    }
