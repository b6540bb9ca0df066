-- ===== src/Listings/Found.antt =====
-- Which listings discovery finds: the rows of the join that meet the search, in propositions.
use agent_repository.Common.{
  ℕ, ◌≤◌, ◌≤ℤ◌, leb_ℤ, ◌≡◌, refl, sym, subst, ◌∙◌, ap, not, if◌then◌else◌, Bool, true, false,
  Option, none, some, Option-cases, Bool-cases, ◌⊎◌, inl, inr, List, [], ◌∷◌, Dict, lookup, leb,
  arith,
}
use agent_repository.Models.{Db, Agent, Listing, ListingStatus, AgentStatus}
use agent_repository.Pages.{where_rows}
use agent_repository.Jobs.{is_active}
use agent_repository.Listings.{Offer, Search, given, is_open, is_found, offers, same_listing_status}

abbrev pub Among : {A : Type 0} → A → List A → Type 0
Among x [] = ⊥
Among x (y ∷ ys) = (x ≡ y) ⊎ Among x ys

abbrev pub AllOf : {A : Type 0} → (A → Type 0) → List A → Type 0
AllOf P [] = Unit
AllOf P (x ∷ xs) = P x × AllOf P xs

pub AllOf-Among :
    {A : Type 0} (P : A → Type 0) (xs : List A) → ((x : A) → Among x xs → P x) → AllOf P xs
AllOf-Among P [] h = tt
AllOf-Among P (x ∷ xs) h = (h x (inl refl), AllOf-Among P xs (λ y m. h y (inr m)))

-- What a search asks for, if it asks.
abbrev pub Asked : {A : Type 0} → (A → Type 0) → Option A → Type 0
Asked P none = Unit
Asked P (some a) = P a

-- An active listing of the tables with its seller, who is active, and all that the search asks for.
abbrev pub Meets : (ℕ → ℕ → Bool) → Search → Db → Offer → Type 0
Meets ilike q d o =
    Among (o.listing_id, o.listing) d.listings
    × (lookup o.listing.seller_agent_id d.agents ≡ some o.seller)
    × (o.listing.status ≡ ListingStatus.active)
    × (o.seller.status ≡ AgentStatus.active)
    × Asked (λ k. ilike k o.listing.skill_id ≡ true) q.skill
    × Asked (λ r. r ≤ o.seller.reputation_seller) q.min_rating
    × Asked (λ p. o.listing.base_price ≤ℤ p) q.max_price
    × Asked (λ b. o.seller.is_online ≡ b) q.online

-- The filter alone.
abbrev Passes : (ℕ → ℕ → Bool) → Search → Offer → Type 0
Passes ilike q o =
    (o.listing.status ≡ ListingStatus.active)
    × (o.seller.status ≡ AgentStatus.active)
    × Asked (λ k. ilike k o.listing.skill_id ≡ true) q.skill
    × Asked (λ r. r ≤ o.seller.reputation_seller) q.min_rating
    × Asked (λ p. o.listing.base_price ≤ℤ p) q.max_price
    × Asked (λ b. o.seller.is_online ≡ b) q.online

given-Asked :
    {A : Type 0} (p : A → Bool) (P : A → Type 0) (o : Option A)
    → ((a : A) → p a ≡ true → P a)
    → given p o ≡ true
    → Asked P o
given-Asked p P none h e = tt
given-Asked p P (some a) h e = h a e

Asked-given :
    {A : Type 0} (p : A → Bool) (P : A → Type 0) (o : Option A)
    → ((a : A) → P a → p a ≡ true)
    → Asked P o
    → given p o ≡ true
Asked-given p P none h e = refl
Asked-given p P (some a) h e = h a e

is_active_listing-active :
    (st : ListingStatus)
    → same_listing_status st ListingStatus.active ≡ true
    → st ≡ ListingStatus.active
unfolding same_listing_status
is_active_listing-active st e = ground arith

is_active-active : (st : AgentStatus) → is_active st ≡ true → st ≡ AgentStatus.active
unfolding is_active
is_active-active st e = ground arith

is_online-same : (b c : Bool) → (if b then c else not c) ≡ true → c ≡ b
is_online-same true c e = e
is_online-same false true e = absurd (ground arith)
is_online-same false false e = refl

same-is_online : (b c : Bool) → c ≡ b → (if b then c else not c) ≡ true
same-is_online true c e = e
same-is_online false c e = rw e refl

is_found-Passes :
    (ilike : ℕ → ℕ → Bool) (q : Search) (o : Offer) → is_found ilike q o ≡ true → Passes ilike q o
unfolding is_found is_open
is_found-Passes ilike q o e =
    ground (arith, is_active_listing-active o.listing.status, is_active-active o.seller.status)

Passes-is_found :
    (ilike : ℕ → ℕ → Bool) (q : Search) (o : Offer) → Passes ilike q o → is_found ilike q o ≡ true
unfolding is_found is_open is_active same_listing_status
Passes-is_found ilike q o h = ground (
  arith,
  Asked-given (λ k. ilike k o.listing.skill_id) _ q.skill (λ k e. e) h.2,
  Asked-given (λ r. leb r o.seller.reputation_seller) (λ r. r ≤ o.seller.reputation_seller)
      q.min_rating (λ r e. ground (arith, e)) h.3,
  Asked-given (λ p. leb_ℤ o.listing.base_price p) (λ p. o.listing.base_price ≤ℤ p) q.max_price
      (λ p e. ground (arith, e)) h.4,
  Asked-given (λ b. if b then o.seller.is_online else not o.seller.is_online)
      (λ b. o.seller.is_online ≡ b) q.online (λ b e. same-is_online b o.seller.is_online e) h.5,
)

pub Among-where_rows :
    {A : Type 0} (p : A → Bool) (x : A) (xs : List A)
    → Among x (where_rows p xs)
    → Among x xs × (p x ≡ true)
unfolding where_rows
Among-where_rows p x [] m = absurd m
Among-where_rows p x (y ∷ ys) m = elim (Bool-cases (p y)) [
  | inl kept ↦ elim (rw kept at m) [
    | inl e ↦ (inl e, ap p e ∙ kept)
    | inr later ↦ let h = Among-where_rows p x ys later in (inr h.0, h.1)
  ]
  | inr dropped ↦ let h = Among-where_rows p x ys (rw dropped at m) in (inr h.0, h.1)
]

pub where_rows-Among :
    {A : Type 0} (p : A → Bool) (x : A) (xs : List A)
    → Among x xs
    → p x ≡ true
    → Among x (where_rows p xs)
unfolding where_rows
where_rows-Among p x [] m holds = absurd m
where_rows-Among p x (y ∷ ys) m holds = elim (Bool-cases (p y)) [
  | inl kept ↦
      rw kept (elim m [ inl e ↦ inl e | inr later ↦ inr (where_rows-Among p x ys later holds) ])
  | inr dropped ↦ rw dropped (elim m [
    | inl e ↦ absurd (ground (arith, sym holds ∙ ap p e ∙ dropped))
    | inr later ↦ where_rows-Among p x ys later holds
  ])
]

-- A row of the join, and a listing without one.
joined_row :
    (agents : Dict Agent) (k : ℕ) (l : Listing) (rows : Dict Listing) (a : Agent)
    → lookup l.seller_agent_id agents ≡ some a
    → offers agents ((k, l) ∷ rows)
      ≡ record { listing_id = k; listing = l; seller = a } ∷ offers agents rows
unfolding offers
joined_row agents k l rows a e = ground arith

unjoined_row :
    (agents : Dict Agent) (k : ℕ) (l : Listing) (rows : Dict Listing)
    → lookup l.seller_agent_id agents ≡ none
    → offers agents ((k, l) ∷ rows) ≡ offers agents rows
unfolding offers
unjoined_row agents k l rows e = ground arith

-- The rows of the join.
Among-offers :
    (agents : Dict Agent) (listings : Dict Listing) (o : Offer)
    → Among o (offers agents listings)
    → Among (o.listing_id, o.listing) listings
      × (lookup o.listing.seller_agent_id agents ≡ some o.seller)
unfolding offers
Among-offers agents [] o m = absurd m
Among-offers agents ((k, l) ∷ rows) o m = elim (Option-cases (lookup l.seller_agent_id agents)) [
  | inl absent ↦
      let h =
        Among-offers agents rows o (subst (Among o) (unjoined_row agents k l rows absent) m) in
      (inr h.0, h.1)
  | inr (a, found) ↦ elim (subst (Among o) (joined_row agents k l rows a found) m) [
    | inl e ↦ (
      inl (ap (λ x. (x.listing_id, x.listing)) e),
      ap (λ x. lookup x.listing.seller_agent_id agents) e ∙ found ∙ sym (ap (λ x. some x.seller) e),
    )
    | inr later ↦ let h = Among-offers agents rows o later in (inr h.0, h.1)
  ]
]

offers-Among :
    (agents : Dict Agent) (listings : Dict Listing) (o : Offer)
    → Among (o.listing_id, o.listing) listings
    → lookup o.listing.seller_agent_id agents ≡ some o.seller
    → Among o (offers agents listings)
unfolding offers
offers-Among agents [] o m joined = absurd m
offers-Among agents ((k, l) ∷ rows) o (inl e) joined =
    let seller : lookup l.seller_agent_id agents ≡ some o.seller =
      ap (λ r. lookup r.1.seller_agent_id agents) (sym e) ∙ joined in
    let as_offer : ℕ × Listing → Offer =
      λ r. record { listing_id = r.0; listing = r.1; seller = o.seller } in
    subst (Among o) (sym (joined_row agents k l rows o.seller seller)) (inl (ap as_offer e))
offers-Among agents ((k, l) ∷ rows) o (inr later) joined =
    elim (Option-cases (lookup l.seller_agent_id agents)) [
      | inl absent ↦
          subst (Among o) (sym (unjoined_row agents k l rows absent))
            (offers-Among agents rows o later joined)
      | inr (a, found) ↦
          subst (Among o) (sym (joined_row agents k l rows a found))
            (inr (offers-Among agents rows o later joined))
    ]

-- What discovery finds of the tables, in the order of the tables.
abbrev pub found : (ℕ → ℕ → Bool) → Search → Db → List Offer
found ilike q d = where_rows (is_found ilike q) (offers d.agents d.listings)

pub found-Meets :
    (ilike : ℕ → ℕ → Bool) (q : Search) (d : Db) (o : Offer)
    → Among o (found ilike q d)
    → Meets ilike q d o
found-Meets ilike q d o m =
    let h = Among-where_rows (is_found ilike q) o (offers d.agents d.listings) m in
    let j = Among-offers d.agents d.listings o h.0 in
    let p = is_found-Passes ilike q o h.1 in (j.0, j.1, p.0, p.1, p.2, p.3, p.4, p.5)

Meets-is_found :
    (ilike : ℕ → ℕ → Bool) (q : Search) (d : Db) (o : Offer)
    → Meets ilike q d o
    → is_found ilike q o ≡ true
Meets-is_found ilike q d o (row, joined, p0, p1, p2, p3, p4, p5) =
    Passes-is_found ilike q o (p0, p1, p2, p3, p4, p5)

-- A listing of the tables is found with its seller, or does not meet the search with any.
pub found-cases :
    (ilike : ℕ → ℕ → Bool) (q : Search) (d : Db) (k : ℕ) (l : Listing)
    → Among (k, l) d.listings
    → ((a : Agent) × Among (record { listing_id = k; listing = l; seller = a }) (found ilike q d))
      ⊎ (¬ ((a : Agent) × Meets ilike q d (record { listing_id = k; listing = l; seller = a })))
found-cases ilike q d k l m = elim (Option-cases (lookup l.seller_agent_id d.agents)) [
  | inl absent ↦ inr (λ (a, h). absurd (ground (arith, sym absent ∙ h.1)))
  | inr (a, joined) ↦
      let o : Offer = record { listing_id = k; listing = l; seller = a } in
      elim (Bool-cases (is_found ilike q o)) [
        | inl kept ↦ inl (
          a,
          where_rows-Among (is_found ilike q) o (offers d.agents d.listings)
              (offers-Among d.agents d.listings o m joined) kept,
        )
        | inr dropped ↦ inr (λ (b, h).
            let p : Offer = record { listing_id = k; listing = l; seller = b } in
            let same : some b ≡ some a = sym h.1 ∙ joined in
            absurd (ground (arith, Meets-is_found ilike q d p h, same)))
      ]
]
