-- ===== src/Pages/Walk.antt =====
-- Paging through a table shows each row that the filter keeps once, the newest first.
use agent_repository.Common.{
  ℕ, zero, suc, ◌+◌, ◌-◌, ◌*◌, ◌≤◌, ◌≡◌, refl, ap, ◌∙◌, sym, Bool, List, [], ◌∷◌, ◌++◌, length,
  arith,
}
use agent_repository.Pages.{take, drop, newest_first, where_rows, select_page}

-- The items of the pages of a walk from an offset on.
unfoldable pub walk : {A : Type 0} → (A → Bool) → ℕ → List A → ℕ → ℕ → List A
walk p limit rows offset zero = []
walk p limit rows offset (suc pages) =
    (select_page p limit offset rows).items ++ walk p limit rows (offset + limit) pages

take-drop : {A : Type 0} (n : ℕ) (xs : List A) → take n xs ++ drop n xs ≡ xs
unfolding take drop
take-drop n [] = refl
take-drop n (x ∷ xs) = ground (arith, take-drop (n - 1) xs)

drop-drop : {A : Type 0} (m n : ℕ) (xs : List A) → drop n (drop m xs) ≡ drop (m + n) xs
unfolding drop
drop-drop m n [] = refl
drop-drop zero n (x ∷ xs) = ground arith
drop-drop (suc m) n (x ∷ xs) = grind (arith, drop-drop m n xs)

drop-all : {A : Type 0} (n : ℕ) (xs : List A) → length xs ≤ n → drop n xs ≡ []
unfolding drop
drop-all n [] h = refl
drop-all n (x ∷ xs) h = ground (arith, drop-all (n - 1) xs)

length-append : {A : Type 0} (xs ys : List A) → length (xs ++ ys) ≡ length xs + length ys
length-append [] ys = ground arith
length-append (x ∷ xs) ys = ground (arith, length-append xs ys)

module _ {A : Type 0} (p : A → Bool) (limit : ℕ) (rows : List A) where
  abbrev found : List A
  found = newest_first (where_rows p rows)

  walk-drop :
      (offset pages : ℕ)
      → length found ≤ offset + pages * limit
      → walk p limit rows offset pages ≡ drop offset found
  unfolding walk select_page
  walk-drop offset zero enough = sym (drop-all offset found (omega arith))
  walk-drop offset (suc pages) enough =
      ap (λ rest. take limit (drop offset found) ++ rest)
        (walk-drop (offset + limit) pages (grind arith) ∙ sym (drop-drop offset limit found))
      ∙ take-drop limit (drop offset found)

  newest_first-length : (xs : List A) → length (newest_first xs) ≡ length xs
  unfolding newest_first
  newest_first-length [] = refl
  newest_first-length (x ∷ xs) =
      grind (arith, length-append (newest_first xs) (x ∷ []), newest_first-length xs)

drop-none : {A : Type 0} (xs : List A) → drop 0 xs ≡ xs
unfolding drop
drop-none [] = refl
drop-none (x ∷ xs) = refl

-- If the pages asked for have room for the total that the first one names, their items one after
-- the other are all rows that the filter keeps, the newest first.
walk-all :
    {A : Type 0} (p : A → Bool) (limit pages : ℕ) (rows : List A)
    → (select_page p limit 0 rows).total ≤ pages * limit
    → walk p limit rows 0 pages ≡ newest_first (where_rows p rows)
unfolding select_page
walk-all p limit pages rows enough =
    walk-drop p limit rows 0 pages
      (grind (arith, newest_first-length p limit rows (where_rows p rows)))
    ∙ drop-none (newest_first (where_rows p rows))
