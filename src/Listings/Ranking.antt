-- ===== src/Listings/Ranking.antt =====
-- What discovery hands out: all that it finds, ranked, from an offset on.
use agent_repository.Common.{
  ℕ, suc, ◌<◌, ◌≤ℤ◌, ◌≡◌, refl, sym, subst, ap, ◌∙◌, Bool, true, false, Bool-cases, ◌⊎◌, inl, inr,
  List, [], ◌∷◌, length, arith,
}
use agent_repository.Models.{Db, Agent, Listing}
use agent_repository.Session.{Session, ok}
use agent_repository.Pages.{take, drop}
use agent_repository.Listings.{Offer, Search, is_before, place, ranked, discover}
use agent_repository.Listings.Found.{
  Among, AllOf, AllOf-Among, Meets, found, found-Meets, found-cases,
}

-- A better reputation, or the same and a price that is not higher.
abbrev pub RanksOver : Offer → Offer → Type 0
RanksOver a b =
    (b.seller.reputation_seller < a.seller.reputation_seller)
    ⊎ ((a.seller.reputation_seller ≡ b.seller.reputation_seller)
        × a.listing.base_price ≤ℤ b.listing.base_price)

-- Each offer ranks over all that follow it.
abbrev pub IsRanked : List Offer → Type 0
IsRanked [] = Unit
IsRanked (o ∷ os) = AllOf (RanksOver o) os × IsRanked os

RanksOver-trans : (a b c : Offer) → RanksOver a b → RanksOver b c → RanksOver a c
RanksOver-trans a b c (inl p) (inl q) = inl (omega arith)
RanksOver-trans a b c (inl p) (inr q) = inl (ground (arith, q))
RanksOver-trans a b c (inr p) (inl q) = inl (ground (arith, p))
RanksOver-trans a b c (inr p) (inr q) = inr (p.0 ∙ q.0, ground (arith, p, q))

is_before-RanksOver : (a b : Offer) → is_before a b ≡ true → RanksOver a b
unfolding is_before
is_before-RanksOver a b p = ground arith

after-RanksOver : (a b : Offer) → is_before a b ≡ false → RanksOver b a
unfolding is_before
after-RanksOver a b p = ground arith

all-over :
    (a b : Offer) (os : List Offer)
    → RanksOver a b
    → AllOf (RanksOver b) os
    → AllOf (RanksOver a) os
all-over a b [] h all = tt
all-over a b (o ∷ os) h all = (RanksOver-trans a b o h all.0, all-over a b os h all.1)

place_in : (o x : Offer) (xs : List Offer) → is_before o x ≡ true → place o (x ∷ xs) ≡ o ∷ x ∷ xs
unfolding place
place_in o x xs e = ground arith

place_later :
    (o x : Offer) (xs : List Offer) → is_before o x ≡ false → place o (x ∷ xs) ≡ x ∷ place o xs
unfolding place
place_later o x xs e = ground arith

place-all :
    (P : Offer → Type 0) (o : Offer) (os : List Offer) → P o → AllOf P os → AllOf P (place o os)
unfolding place
place-all P o [] h all = (h, tt)
place-all P o (x ∷ xs) h all = elim (Bool-cases (is_before o x)) [
  | inl first ↦ subst (AllOf P) (sym (place_in o x xs first)) (h, all)
  | inr later ↦ subst (AllOf P) (sym (place_later o x xs later)) (all.0, place-all P o xs h all.1)
]

place-IsRanked : (o : Offer) (os : List Offer) → IsRanked os → IsRanked (place o os)
unfolding place
place-IsRanked o [] h = (tt, tt)
place-IsRanked o (x ∷ xs) h = elim (Bool-cases (is_before o x)) [
  | inl first ↦
      let over = is_before-RanksOver o x first in
      subst IsRanked (sym (place_in o x xs first)) ((over, all-over o x xs over h.0), h)
  | inr later ↦
      subst IsRanked (sym (place_later o x xs later))
        (place-all (RanksOver x) o xs (after-RanksOver o x later) h.0, place-IsRanked o xs h.1)
]

ranked-IsRanked : (os : List Offer) → IsRanked (ranked os)
unfolding ranked
ranked-IsRanked [] = tt
ranked-IsRanked (o ∷ os) = place-IsRanked o (ranked os) (ranked-IsRanked os)

place-times : (o : Offer) (os : List Offer) → length (place o os) ≡ suc (length os)
unfolding place
place-times o [] = refl
place-times o (x ∷ xs) = ground (arith, place-times o xs)

length-ranked : (os : List Offer) → length (ranked os) ≡ length os
unfolding ranked
length-ranked [] = refl
length-ranked (o ∷ os) = place-times o (ranked os) ∙ ap suc (length-ranked os)

Among-place : (x o : Offer) (os : List Offer) → Among x (o ∷ os) → Among x (place o os)
unfolding place
Among-place x o [] m = m
Among-place x o (y ∷ ys) m = elim (Bool-cases (is_before o y)) [
  | inl first ↦ subst (Among x) (sym (place_in o y ys first)) m
  | inr later ↦ subst (Among x) (sym (place_later o y ys later)) (elim m [
    | inl own ↦ inr (Among-place x o ys (inl own))
    | inr (inl e) ↦ inl e
    | inr (inr rest) ↦ inr (Among-place x o ys (inr rest))
  ])
]

place-Among : (x o : Offer) (os : List Offer) → Among x (place o os) → Among x (o ∷ os)
unfolding place
place-Among x o [] m = m
place-Among x o (y ∷ ys) m = elim (Bool-cases (is_before o y)) [
  | inl first ↦ subst (Among x) (place_in o y ys first) m
  | inr later ↦ elim (subst (Among x) (place_later o y ys later) m) [
    | inl e ↦ inr (inl e)
    | inr rest ↦ elim (place-Among x o ys rest) [
      | inl own ↦ inl own
      | inr further ↦ inr (inr further)
    ]
  ]
]

Among-ranked : (x : Offer) (os : List Offer) → Among x os → Among x (ranked os)
unfolding ranked
Among-ranked x [] m = m
Among-ranked x (o ∷ os) (inl own) = Among-place x o (ranked os) (inl own)
Among-ranked x (o ∷ os) (inr rest) = Among-place x o (ranked os) (inr (Among-ranked x os rest))

ranked-Among : (x : Offer) (os : List Offer) → Among x (ranked os) → Among x os
unfolding ranked
ranked-Among x [] m = m
ranked-Among x (o ∷ os) m = elim (place-Among x o (ranked os) m) [
  | inl own ↦ inl own
  | inr rest ↦ inr (ranked-Among x os rest)
]

-- The offers have the listing with its seller's row, or no row makes it meet the search.
abbrev pub IsCovered : (ℕ → ℕ → Bool) → Search → Db → List Offer → ℕ × Listing → Type 0
IsCovered ilike q d os (k, l) =
    ((a : Agent) × Among (record { listing_id = k; listing = l; seller = a }) os)
    ⊎ (¬ ((a : Agent) × Meets ilike q d (record { listing_id = k; listing = l; seller = a })))

ranked-IsCovered :
    (ilike : ℕ → ℕ → Bool) (q : Search) (d : Db) (r : ℕ × Listing)
    → Among r d.listings
    → IsCovered ilike q d (ranked (found ilike q d)) r
ranked-IsCovered ilike q d (k, l) m = elim (found-cases ilike q d k l m) [
  | inl (a, h) ↦ inl (a, Among-ranked _ (found ilike q d) h)
  | inr unmet ↦ inr unmet
]

-- The page of a search is cut from offers which are listings of the tables with their sellers,
-- both active, that meet the search; none that meets it is missing; each ranks over those that
-- follow it, by the better reputation and then by the lower price; the total is their number,
-- and the items are those from the offset on, up to the limit.
pub discover-IsRanked :
    (ilike : ℕ → ℕ → Bool) (q : Search) (limit offset : ℕ) (s : Session)
    → (all : List Offer) × AllOf (Meets ilike q s.db) all
      × AllOf (IsCovered ilike q s.db all) s.db.listings
      × IsRanked all
      × (discover ilike q limit offset s ≡ (
        ok (record {
          items = take limit (drop offset all);
          total = length all;
          limit = limit;
          offset = offset;
        }),
        s,
      ))
unfolding discover
discover-IsRanked ilike q limit offset s =
    let rows = found ilike q s.db in
    (
      ranked rows,
      AllOf-Among (Meets ilike q s.db) (ranked rows)
          (λ o m. found-Meets ilike q s.db o (ranked-Among o rows m)),
      AllOf-Among (IsCovered ilike q s.db (ranked rows)) s.db.listings
          (λ r m. ranked-IsCovered ilike q s.db r m),
      ranked-IsRanked rows,
      rw (length-ranked rows) refl,
    )
