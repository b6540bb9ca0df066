-- ===== src/Common/Table.antt =====
-- A table keyed by numbers: a database table by its primary key, or a Python dict.
use Prim.Native.Nat.{ℕ, suc, ◌-◌}
use mathlib.Core.Path.{◌≡◌, refl}
use mathlib.Core.Bool.{Bool, true, false}
use mathlib.Core.Option.{Option, none, some}
use mathlib.Core.List.{List, [], ◌∷◌}
use native.Mathlib.Omega.{arith}
use agent_repository.Common.Tests.{◌==◌, if◌then◌else◌}
use agent_repository.Common.Int.{ℤ, pos, ◌+ℤ◌, int_laws}

abbrev pub Dict {ℓ} : Type ℓ → Type ℓ
Dict V = List (ℕ × V)

abbrev pub is_some {ℓ} : {A : Type ℓ} → Option A → Bool
is_some none = false
is_some (some a) = true

abbrev pub map_some {ℓ κ} : {A : Type ℓ} {B : Type κ} → (A → B) → Option A → Option B
map_some f none = none
map_some f (some a) = some (f a)

abbrev pub length {ℓ} : {A : Type ℓ} → List A → ℕ
length [] = 0
length (x ∷ xs) = suc (length xs)

-- The row at a position, and the write of its attributes.
unfoldable pub get_elem? {ℓ} : {A : Type ℓ} → List A → ℕ → Option A
get_elem? [] k = none
get_elem? (x ∷ xs) k = let rest = get_elem? xs (k - 1) in if k == 0 then some x else rest

unfoldable pub adjust_elem {ℓ} : {A : Type ℓ} → ℕ → (A → A) → List A → List A
adjust_elem k f [] = []
adjust_elem k f (x ∷ xs) =
    let rest = adjust_elem (k - 1) f xs in if k == 0 then f x ∷ xs else x ∷ rest

module _ {ℓ} {V : Type ℓ} where
  unfoldable pub lookup : ℕ → Dict V → Option V
  lookup k [] = none
  lookup k ((j, v) ∷ d) = if k == j then some v else lookup k d

  abbrev pub contains : ℕ → Dict V → Bool
  contains k d = is_some (lookup k d)

  -- INSERT of a row, or `d[k] = v`.
  unfoldable pub insert : ℕ → V → Dict V → Dict V
  insert k v [] = (k, v) ∷ []
  insert k v ((j, w) ∷ d) = if k == j then (k, v) ∷ d else (j, w) ∷ insert k v d

  -- Writes attributes of the row with key `k`, if there is one.
  unfoldable pub adjust : ℕ → (V → V) → Dict V → Dict V
  adjust k f [] = []
  adjust k f ((j, v) ∷ d) = if k == j then (j, f v) ∷ d else (j, v) ∷ adjust k f d

  -- `d.pop(k, None)`
  unfoldable pub erase : ℕ → Dict V → Dict V
  erase k [] = []
  erase k ((j, v) ∷ d) = let rest = erase k d in if k == j then rest else (j, v) ∷ rest

  -- The first row that satisfies a test, with its key.
  unfoldable pub find_row : (V → Bool) → Dict V → Option (ℕ × V)
  find_row p [] = none
  find_row p ((j, v) ∷ d) = let rest = find_row p d in if p v then some (j, v) else rest

  -- Writes attributes of all rows that satisfy a test.
  unfoldable pub adjust_where : (V → Bool) → (V → V) → Dict V → Dict V
  adjust_where p f [] = []
  adjust_where p f ((j, v) ∷ d) =
      let rest = adjust_where p f d in if p v then (j, f v) ∷ rest else (j, v) ∷ rest

  -- No key stands in two rows.
  abbrev pub HasKeys : Dict V → Type 0
  HasKeys [] = Unit
  HasKeys ((j, v) ∷ d) = (contains j d ≡ false) × HasKeys d

  -- No row satisfies a test, and at most one does.
  abbrev pub NoRow : (V → Bool) → Dict V → Type 0
  NoRow p [] = Unit
  NoRow p ((j, v) ∷ d) = (p v ≡ false) × NoRow p d

  abbrev pub AtMostOne : (V → Bool) → Dict V → Type 0
  AtMostOne p [] = Unit
  AtMostOne p ((j, v) ∷ d) = (p v ≡ true → NoRow p d) × AtMostOne p d

  pub lookup-insert :
      (j k : ℕ) (v : V) (d : Dict V)
      → lookup j (insert k v d) ≡ (if j == k then some v else lookup j d)
  unfolding lookup insert
  lookup-insert j k v [] = refl
  lookup-insert j k v ((i, w) ∷ d) = ground (arith, lookup-insert j k v d)

  pub lookup-adjust :
      (j k : ℕ) (f : V → V) (d : Dict V)
      → lookup j (adjust k f d) ≡ (if j == k then map_some f (lookup j d) else lookup j d)
  unfolding lookup adjust
  lookup-adjust j k f [] = ground arith
  lookup-adjust j k f ((i, w) ∷ d) = ground (arith, lookup-adjust j k f d)

  pub lookup-adjust_own :
      (k : ℕ) (v : V) (f : V → V) (d : Dict V)
      → lookup k d ≡ some v
      → lookup k (adjust k f d) ≡ some (f v)
  lookup-adjust_own k v f d at = ground (arith, at, lookup-adjust k k f d)

  pub lookup-erase :
      (j k : ℕ) (d : Dict V) → lookup j (erase k d) ≡ (if j == k then none else lookup j d)
  unfolding lookup erase
  lookup-erase j k [] = ground arith
  lookup-erase j k ((i, w) ∷ d) = ground (arith, lookup-erase j k d)

  -- A sum over the rows.
  unfoldable pub sum_by : (V → ℤ) → Dict V → ℤ
  sum_by f [] = pos 0
  sum_by f ((j, v) ∷ d) = f v +ℤ sum_by f d

  pub sum_by-insert :
      (f : V → ℤ) (k : ℕ) (v : V) (d : Dict V)
      → lookup k d ≡ none
      → sum_by f (insert k v d) ≡ sum_by f d +ℤ f v
  unfolding lookup insert sum_by
  sum_by-insert f k v [] e = omega int_laws
  sum_by-insert f k v ((i, w) ∷ d) e = grind (int_laws, sum_by-insert f k v d)

  pub sum_by-adjust :
      (f : V → ℤ) (k : ℕ) (g : V → V) (a : V) (d : Dict V)
      → lookup k d ≡ some a
      → sum_by f (adjust k g d) +ℤ f a ≡ sum_by f d +ℤ f (g a)
  unfolding lookup adjust sum_by
  sum_by-adjust f k g a [] e = cc
  sum_by-adjust f k g a ((i, w) ∷ d) e = grind (int_laws, sum_by-adjust f k g a d)

  find_row-none : (p : V → Bool) (d : Dict V) → NoRow p d → find_row p d ≡ none
  unfolding find_row
  find_row-none p [] h = refl
  find_row-none p ((j, v) ∷ d) h = ground (arith, find_row-none p d h.1)

  pub find_row-test :
      (p : V → Bool) (k : ℕ) (v : V) (d : Dict V) → find_row p d ≡ some (k, v) → p v ≡ true
  unfolding find_row
  find_row-test p k v [] e = ground arith
  find_row-test p k v ((j, w) ∷ d) e = ground (arith, find_row-test p k v d)

  pub find_row-lookup :
      (p : V → Bool) (k : ℕ) (v : V) (d : Dict V)
      → HasKeys d
      → find_row p d ≡ some (k, v)
      → lookup k d ≡ some v
  unfolding find_row lookup
  find_row-lookup p k v [] keys e = ground arith
  find_row-lookup p k v ((j, w) ∷ d) keys e = ground (arith, find_row-lookup p k v d keys.1)

  -- Once the only row that satisfies a test does so no more, none does.
  pub find_row-adjust :
      (p : V → Bool) (f : V → V) (k : ℕ) (v : V) (d : Dict V)
      → HasKeys d
      → AtMostOne p d
      → find_row p d ≡ some (k, v)
      → p (f v) ≡ false
      → find_row p (adjust k f d) ≡ none
  unfolding find_row adjust lookup
  find_row-adjust p f k v [] keys one e gone = ground arith
  find_row-adjust p f k v ((j, w) ∷ d) keys one e gone = ground (
    arith,
    find_row-none p d,
    find_row-lookup p k v d keys.1,
    find_row-adjust p f k v d keys.1 one.1,
  )
