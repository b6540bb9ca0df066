-- ===== src/Listings/Unique.antt =====
-- The constraint on listings holds of every status, so that a second listing of a skill can not be
-- archived.
use agent_repository.Common.{
  ℕ, ℤ, ◌≡◌, sym, contains, subst, Option, Bool, true, false, not, ◌==◌, none, some, List, [], ◌∷◌,
  Dict, lookup, insert, lookup-insert, Bool-cases, inl, inr, arith,
}
use agent_repository.Models.{Listing, ListingStatus}
use agent_repository.Session.{
  ◌>>=◌, ◌>>◌, ⊤, Action, Session, Error, Result, ok, err, duplicate, invalid_input,
  integrity_error, not_found, not_a_party, or_raise, raise_if,
}
use agent_repository.Listings.{
  alike, same_listing_status, clashes, ListingUpdate, column, is_offered, new_listing, updated,
  save_listing, get_listing, create_listing, update_listing,
}
use agent_repository.Jobs.{active_agent}

abbrev pub archive : ListingUpdate
archive = record {
  new_description = none;
  new_base_price = none;
  new_status = some (some ListingStatus.archived);
}

clashes-found :
    (k j : ℕ) (l m : Listing) (rows : Dict Listing)
    → k == j ≡ false
    → lookup j rows ≡ some m
    → alike m l ≡ true
    → clashes k l rows ≡ true
unfolding clashes lookup
clashes-found k j l m [] other found same = ground arith
clashes-found k j l m ((i, x) ∷ rows) other found same = ground (arith, clashes-found k j l m rows)

-- A listing can not be archived while another of the same seller and skill is.
update_listing-archived :
    (k j : ℕ) (s : Session) (l m : Listing)
    → k == j ≡ false
    → lookup k s.db.listings ≡ some l
    → lookup j s.db.listings ≡ some m
    → m.seller_agent_id ≡ l.seller_agent_id
    → m.skill_id ≡ l.skill_id
    → m.status ≡ ListingStatus.archived
    → update_listing k l.seller_agent_id archive s ≡ (err integrity_error, s)
unfolding update_listing save_listing updated alike same_listing_status
update_listing-archived k j s l m other found older seller skill archived =
    let clash =
      clashes-found k j (record l { status = ListingStatus.archived }) m s.db.listings other older
        (ground arith) in
    ground (arith, clash)

-- No two rows have the seller, the skill and the status in common.
abbrev pub HasUnique : Dict Listing → Type 0
HasUnique rows = (k : ℕ) (l : Listing) → lookup k rows ≡ some l → clashes k l rows ≡ false

alike-sym : (a b : Listing) → alike a b ≡ true → alike b a ≡ true
unfolding alike same_listing_status
alike-sym a b h = ground arith

clashes-insert :
    (i k : ℕ) (m l : Listing) (rows : Dict Listing)
    → clashes i m rows ≡ false
    → (i == k ≡ false → alike l m ≡ false)
    → clashes i m (insert k l rows) ≡ false
unfolding clashes insert
clashes-insert i k m l [] clear apart = ground arith
clashes-insert i k m l ((j, x) ∷ rows) clear apart = ground (arith, clashes-insert i k m l rows)

apart_from :
    (i k : ℕ) (m l : Listing) (rows : Dict Listing)
    → clashes k l rows ≡ false
    → lookup i rows ≡ some m
    → i == k ≡ false
    → alike l m ≡ false
apart_from i k m l rows clear found other =
    ground (arith, clashes-found k i l m rows, alike-sym l m)

insert-HasUnique :
    (k : ℕ) (l : Listing) (rows : Dict Listing)
    → HasUnique rows
    → clashes k l rows ≡ false
    → HasUnique (insert k l rows)
insert-HasUnique k l rows unique clear i m at = elim (Bool-cases (i == k)) [
  | inl same ↦
      let is_new : some m ≡ some l = ground (arith, lookup-insert i k l rows) in
      ground (arith, clashes-insert i k l l rows)
  | inr other ↦
      let old : lookup i rows ≡ some m = ground (arith, lookup-insert i k l rows) in
      clashes-insert i k m l rows (unique i m old) (apart_from i k m l rows clear old)
]

-- What an operation commits keeps the constraint.
abbrev Keeps : Result ⊤ × Session → Type 0
Keeps p = HasUnique p.1.committed.listings

module _ (s : Session) (kept : HasUnique s.committed.listings) where
  bind-Keeps :
      {A : Type 0} (p : Result A × Session) (f : A → Action ⊤)
      → p.1 ≡ s
      → ((a : A) → Keeps (f a s))
      → Keeps (((λ _. p) >>= f) s)
  bind-Keeps (ok a, t) f same h = subst (λ u. Keeps (f a u)) (sym same) (h a)
  bind-Keeps (err e, t) f same h = subst (λ u. HasUnique u.committed.listings) (sym same) kept

  or_raise-Keeps :
      {A : Type 0} (o : Option A) (e : Error) (f : A → Action ⊤)
      → ((a : A) → Keeps (f a s))
      → Keeps ((or_raise o e >>= f) s)
  or_raise-Keeps none e f h = kept
  or_raise-Keeps (some a) e f h = h a

  raise_if-Keeps :
      (c : Bool) (e : Error) (m : Action ⊤) → Keeps (m s) → Keeps ((raise_if c e >> m) s)
  raise_if-Keeps true e m h = kept
  raise_if-Keeps false e m h = h

active_agent-reads : (k : ℕ) (s : Session) → (active_agent k s).1 ≡ s
unfolding active_agent
active_agent-reads k s = ground arith

save_listing-Keeps :
    (e : Error) (k : ℕ) (l : Listing) (s : Session)
    → s.committed ≡ s.db
    → HasUnique s.committed.listings
    → Keeps (save_listing e k l s)
unfolding save_listing
save_listing-Keeps e k l s fresh unique = elim (Bool-cases (clashes k l s.db.listings)) [
  | inl taken ↦ rw taken unique
  | inr clear ↦
      let rows : HasUnique s.db.listings = subst (λ d. HasUnique d.listings) fresh unique in
      rw clear (insert-HasUnique k l s.db.listings rows clear)
]

-- A new listing keeps the constraint.
create_listing-HasUnique :
    (skills_of : ℕ → List ℕ) (k seller skill : ℕ) (description : Option ℕ) (price : ℤ) (s : Session)
    → s.committed ≡ s.db
    → HasUnique s.committed.listings
    → HasUnique (create_listing skills_of k seller skill description price s).1.committed.listings
unfolding create_listing
create_listing-HasUnique skills_of k seller skill description price s fresh unique =
    let l = new_listing seller skill description price in
    let save = save_listing duplicate k l in
    let fresh_id =
      λ (u : Session). (raise_if (contains k u.db.listings) integrity_error >> save) u in
    bind-Keeps s unique (active_agent seller s)
      (λ a. raise_if (not (is_offered skills_of a.a2a_agent_card skill)) invalid_input >> fresh_id)
      (active_agent-reads seller s)
      (λ a.
        raise_if-Keeps s unique (not (is_offered skills_of a.a2a_agent_card skill)) invalid_input
          fresh_id
          (raise_if-Keeps s unique (contains k s.db.listings) integrity_error save
            (save_listing-Keeps duplicate k l s fresh unique)))

-- In a session with nothing pending, from listings of which no two have seller, skill and status
-- in common, an update commits such listings, whether it succeeds or raises.
update_listing-HasUnique :
    (k seller : ℕ) (data_in : ListingUpdate) (s : Session)
    → s.committed ≡ s.db
    → HasUnique s.committed.listings
    → HasUnique (update_listing k seller data_in s).1.committed.listings
unfolding update_listing get_listing
update_listing-HasUnique k seller data_in s fresh unique =
    let save = λ (l : Listing) (p : ℤ) (st : ListingStatus).
      save_listing integrity_error k (updated data_in l p st) in
    let with_status = λ (l : Listing) (p : ℤ).
      or_raise (column data_in.new_status l.status) integrity_error >>= save l p in
    let with_price = λ (l : Listing).
      or_raise (column data_in.new_base_price l.base_price) integrity_error >>= with_status l in
    or_raise-Keeps s unique (lookup k s.db.listings) not_found
      (λ l. raise_if (not (l.seller_agent_id == seller)) not_a_party >> with_price l)
      (λ l. raise_if-Keeps s unique (not (l.seller_agent_id == seller)) not_a_party (with_price l) (
        or_raise-Keeps s unique (column data_in.new_base_price l.base_price) integrity_error
          (with_status l)
          (λ p.
            or_raise-Keeps s unique (column data_in.new_status l.status) integrity_error (save l p)
              (λ st.
                save_listing-Keeps integrity_error k (updated data_in l p st) s fresh unique))))
