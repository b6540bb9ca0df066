-- ===== src/Listings.antt =====
-- app/services/listing.py: the services that sellers offer, and how buyers find them. A skill is a
-- number; the skills of an agent card and the match of a search with a skill are arguments.
pub mod Found
pub mod Ranking
pub mod Unique
use agent_repository.Common.{
  ℕ, ℤ, leb_ℤ, ◌==◌, Bool, true, false, not, ◌&&◌, ◌||◌, Option, none, some, List, [], ◌∷◌, Dict,
  lookup, contains, insert, length, leb, ltb, if◌then◌else◌,
}
use agent_repository.Models.{Agent, Listing, ListingStatus}
use agent_repository.Session.{
  ◌>>=◌, ◌>>◌, ⊤, Action, Error, not_found, not_a_party, duplicate, invalid_input, integrity_error,
  gets, or_raise, raise_if, modify_db, commit,
}
use agent_repository.Jobs.{is_active, active_agent}
use agent_repository.Pages.{Page, where_rows, select_page, take, drop}

unfoldable pub same_listing_status : ListingStatus → ListingStatus → Bool
same_listing_status ListingStatus.active st = elim st [ ListingStatus.active ↦ true | _ ↦ false ]
same_listing_status ListingStatus.paused st = elim st [ ListingStatus.paused ↦ true | _ ↦ false ]
same_listing_status ListingStatus.archived st = elim st [
  | ListingStatus.archived ↦ true
  | _ ↦ false
]

abbrev pub is_active_listing : Listing → Bool
is_active_listing l = same_listing_status l.status ListingStatus.active

unfoldable pub alike : Listing → Listing → Bool
unfolding same_listing_status
alike m l =
    m.seller_agent_id == l.seller_agent_id
    && m.skill_id == l.skill_id
    && same_listing_status m.status l.status

-- Whether a row other than `k` has the seller, the skill and the status of `l`: the constraint
-- uq_listing_seller_skill_active of app/models/listing.py.
unfoldable pub clashes : ℕ → Listing → Dict Listing → Bool
unfolding alike
clashes k l [] = false
clashes k l ((j, m) ∷ rows) = (not (k == j) && alike m l) || clashes k l rows

unfoldable pub has_skill : ℕ → List ℕ → Bool
has_skill skill [] = false
has_skill skill (x ∷ xs) = skill == x || has_skill skill xs

-- A card, if there is one, names the skill.
abbrev pub is_offered : (ℕ → List ℕ) → Option ℕ → ℕ → Bool
is_offered skills_of none skill = true
is_offered skills_of (some card) skill = has_skill skill (skills_of card)

unfoldable pub new_listing : ℕ → ℕ → Option ℕ → ℤ → Listing
new_listing seller skill description base_price = record {
  seller_agent_id = seller;
  skill_id = skill;
  description = description;
  base_price = base_price;
  status = ListingStatus.active;
}

-- The commit of a row, which a clash makes raise and roll back.
unfoldable pub save_listing : Error → ℕ → Listing → Action ⊤
unfolding clashes
save_listing e listing_id l = do
  taken ← gets (λ s. clashes listing_id l s.db.listings)
  raise_if taken e
  modify_db (λ d. record d { listings = insert listing_id l d.listings })
  commit

-- `listing_id` is drawn. The clash is found at the commit, and rolled back.
unfoldable pub create_listing : (ℕ → List ℕ) → ℕ → ℕ → ℕ → Option ℕ → ℤ → Action ⊤
unfolding new_listing save_listing active_agent has_skill
create_listing skills_of listing_id seller skill description base_price = do
  agent ← active_agent seller
  raise_if (not (is_offered skills_of agent.a2a_agent_card skill)) invalid_input
  known ← gets (λ s. contains listing_id s.db.listings)
  raise_if known integrity_error
  save_listing duplicate listing_id (new_listing seller skill description base_price)

-- The fields that are set, each to a value or to null.
pub record ListingUpdate : Type 0 where
  pub new_description : Option (Option ℕ)
  pub new_base_price : Option (Option ℤ)
  pub new_status : Option (Option ListingStatus)

abbrev pub set_or_keep : {A : Type 0} → Option A → A → A
set_or_keep none a = a
set_or_keep (some b) a = b

-- A column that may not be NULL, set or kept; `none` is NULL.
abbrev pub column : {A : Type 0} → Option (Option A) → A → Option A
column none a = some a
column (some o) a = o

unfoldable pub get_listing : ℕ → Action Listing
get_listing listing_id = do or_raise (← gets (λ s. lookup listing_id s.db.listings)) not_found

unfoldable pub updated : ListingUpdate → Listing → ℤ → ListingStatus → Listing
updated data_in listing base_price status = record listing {
  description = set_or_keep data_in.new_description listing.description;
  base_price = base_price;
  status = status;
}

-- NULL in a column and a clash are found at the commit, where nothing handles them.
unfoldable pub update_listing : ℕ → ℕ → ListingUpdate → Action ⊤
unfolding get_listing updated save_listing
update_listing listing_id seller data_in = do
  listing ← get_listing listing_id
  raise_if (not (listing.seller_agent_id == seller)) not_a_party
  base_price ← or_raise (column data_in.new_base_price listing.base_price) integrity_error
  status ← or_raise (column data_in.new_status listing.status) integrity_error
  save_listing integrity_error listing_id (updated data_in listing base_price status)

unfoldable pub get_agent_listings : ℕ → ℕ → ℕ → Action (Page (ℕ × Listing))
unfolding select_page
get_agent_listings agent_id limit offset = gets (λ s.
    select_page (λ r. r.1.seller_agent_id == agent_id && is_active_listing r.1) limit offset
      s.db.listings)

-- The join with the sellers: a listing with its seller's row.
pub record Offer : Type 0 where
  pub listing_id : ℕ
  pub listing : Listing
  pub seller : Agent

unfoldable pub offers : Dict Agent → Dict Listing → List Offer
offers agents [] = []
offers agents ((k, l) ∷ rows) =
    let rest = offers agents rows in
    elim (lookup l.seller_agent_id agents) [
      | some a ↦ record { listing_id = k; listing = l; seller = a } ∷ rest
      | none ↦ rest
    ]

-- Active offers of active sellers.
unfoldable pub is_open : Offer → Bool
unfolding is_active same_listing_status
is_open o = is_active_listing o.listing && is_active o.seller.status

abbrev pub given : {A : Type 0} → (A → Bool) → Option A → Bool
given p none = true
given p (some a) = p a

unfoldable pub browse_listings : (ℕ → ℕ → Bool) → Option ℕ → ℕ → ℕ → Action (Page Offer)
unfolding offers is_open select_page
browse_listings ilike skill limit offset = gets (λ s.
    select_page (λ o. is_open o && given (λ k. ilike k o.listing.skill_id) skill) limit offset
      (offers s.db.agents s.db.listings))

pub record Search : Type 0 where
  pub skill : Option ℕ
  pub min_rating : Option ℕ
  pub max_price : Option ℤ
  pub online : Option Bool

unfoldable pub is_found : (ℕ → ℕ → Bool) → Search → Offer → Bool
unfolding is_open
is_found ilike q o =
    is_open o
    && given (λ k. ilike k o.listing.skill_id) q.skill
    && given (λ r. leb r o.seller.reputation_seller) q.min_rating
    && given (λ p. leb_ℤ o.listing.base_price p) q.max_price
    && given (λ b. if b then o.seller.is_online else not o.seller.is_online) q.online

-- Whether an offer may stand before another: the better reputation first, then the lower price.
unfoldable pub is_before : Offer → Offer → Bool
is_before a b =
    ltb b.seller.reputation_seller a.seller.reputation_seller
    || (a.seller.reputation_seller == b.seller.reputation_seller
        && leb_ℤ a.listing.base_price b.listing.base_price)

-- `order_by(Agent.reputation_seller.desc(), Listing.base_price.asc())`
unfoldable pub place : Offer → List Offer → List Offer
unfolding is_before
place o [] = o ∷ []
place o (x ∷ xs) = let rest = place o xs in if is_before o x then o ∷ x ∷ xs else x ∷ rest

unfoldable pub ranked : List Offer → List Offer
unfolding place
ranked [] = []
ranked (o ∷ os) = place o (ranked os)

unfoldable pub discover : (ℕ → ℕ → Bool) → Search → ℕ → ℕ → Action (Page Offer)
unfolding offers is_found ranked where_rows take drop
discover ilike q limit offset = gets (λ s.
    let found = where_rows (is_found ilike q) (offers s.db.agents s.db.listings) in
    record {
      items = take limit (drop offset (ranked found));
      total = length found;
      limit = limit;
      offset = offset;
    })
