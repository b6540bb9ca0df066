-- ===== src/Tests/Reputations.antt =====
-- Examples of the results on reviews, listings, scripts and secrets.
use agent_repository.Common.{
  List, length, ℕ, pos, ◌*◌, ◌≤◌, ◌≡◌, refl, true, none, some, [], ◌∷◌, lookup, adjust, arith,
}
use agent_repository.Models.{JobStatus, EscrowStatus, Review, ReviewRole, Listing, ListingStatus}
use agent_repository.Session.{Session, ok, err, duplicate}
use agent_repository.Tests.{session, with_escrow, opened}
use agent_repository.Jobs.{new_job}
use agent_repository.Pages.{where_rows}
use agent_repository.Reviews
use agent_repository.Reviews.Once.{submit_review-once}
use agent_repository.Reviews.Scores.{reputation_score-bound}
use agent_repository.Listings
use agent_repository.Listings.Found.{AllOf, Meets}
use agent_repository.Listings.Ranking.{IsRanked, IsCovered, discover-IsRanked}
use agent_repository.Pages.{take, drop}
use agent_repository.Sandbox
use agent_repository.Sandbox.Agreed.{run_script_test-accepted}
use agent_repository.Secrets
use agent_repository.Secrets.Kept.{get_secret-set}

abbrev done : Session
done = session (with_escrow JobStatus.completed EscrowStatus.released)

submit_review-once_example :
    Reviews.submit_review 950 7 1 2 (Reviews.submit_review 900 7 1 5 done).1
    ≡ (err duplicate, (Reviews.submit_review 900 7 1 5 done).1)
unfolding Reviews.submit_review Reviews.is_reviewable Reviews.reviewee Reviews.any_row
    Reviews.update_reputation Reviews.score_of Reviews.is_about where_rows lookup adjust new_job
submit_review-once_example = submit_review-once 900 950 7 1 5 2 done refl refl

abbrev review : Review
review = record {
  job_id = 7;
  reviewer_agent_id = 1;
  reviewee_agent_id = 2;
  role = ReviewRole.client_reviewing_seller;
  rating = 5;
  created_at = 900;
}

reputation_score-bound_example :
    (Reviews.reputation_score 950 (review ∷ []) ≤ 25 * 1)
    × (Reviews.reputation_score 950 (review ∷ []) ≤ 500)
reputation_score-bound_example = reputation_score-bound 950 (review ∷ []) (omega arith, tt)

abbrev listing : ℕ → ListingStatus → Listing
listing skill st = record {
  seller_agent_id = 2;
  skill_id = skill;
  description = none;
  base_price = pos 300;
  status = st;
}

abbrev offering : Session
offering = session (record opened {
  listings = (20, listing 4 ListingStatus.active) ∷ (21, listing 4 ListingStatus.archived) ∷ [];
})

abbrev any_offer : Listings.Search
any_offer = record { skill = none; min_rating = none; max_price = some (pos 500); online = none }

discover-IsRanked_example :
    (all : List Listings.Offer) × AllOf (Meets (λ a b. true) any_offer offering.db) all
    × AllOf (IsCovered (λ a b. true) any_offer offering.db all) offering.db.listings
    × IsRanked all
    × (Listings.discover (λ a b. true) any_offer 20 0 offering ≡ (
      ok (record { items = take 20 (drop 0 all); total = length all; limit = 20; offset = 0 }),
      offering,
    ))
discover-IsRanked_example = discover-IsRanked (λ a b. true) any_offer 20 0 offering

abbrev criteria : Sandbox.ScriptCriteria
criteria = record {
  script = some (b'e' ∷ b'A' ∷ []);
  runtime = none;
  timeout_seconds = some (pos 400);
  memory_limit_mb = none;
}

run_script_test-accepted_example :
    Sandbox.validate_script_criteria (λ t. some t) criteria
    ≡ Sandbox.run_script_test (λ t. some t) (b'e' ∷ b'A' ∷ []) criteria
run_script_test-accepted_example =
    run_script_test-accepted (λ t. some t) criteria (b'e' ∷ b'A' ∷ []) refl

abbrev plain : Secrets.Fernet
plain = record {
  encrypt = λ t. b'x' ∷ t;
  decrypt = λ t. elim t [ [] ↦ none | c ∷ rest ↦ some rest ];
}

get_secret-set_example :
    let t = (Secrets.set_secret plain 2 (b'K' ∷ []) (b'v' ∷ []) (session opened)).1 in
    (Secrets.get_secret plain 2 (b'K' ∷ []) t ≡ (ok (some (b'v' ∷ [])), t))
    × ((Secrets.get_secret plain 2 (b'K' ∷ []) (Secrets.delete_secret 2 (b'K' ∷ []) t).1).0
        ≡ ok none)
get_secret-set_example = get_secret-set plain 2 (b'K' ∷ []) (b'v' ∷ []) (session opened) (λ v. refl)
