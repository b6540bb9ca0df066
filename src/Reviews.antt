-- ===== src/Reviews.antt =====
-- app/services/review.py: reviews of ended jobs, and the reputation that they make. A weight is
-- counted in halves and a score in hundredths; floats are taken as exact. Tags and comments, which
-- are only stored, are left out.
pub mod Once
pub mod Scores
use agent_repository.Common.{
  ℕ, ◌+◌, ◌-◌, ◌*◌, ◌/◌, ◌%◌, min, ◌==◌, Bool, true, false, not, ◌&&◌, ◌||◌, Option, none, some,
  List, [], ◌∷◌, ◌++◌, length, leb, ltb, if◌then◌else◌,
}
use agent_repository.Models.{Job, JobStatus, Review, ReviewRole, Agent}
use agent_repository.Session.{
  ◌>>=◌, ◌>>◌, ⊤, Action, wrong_status, not_a_party, duplicate, no_result, invalid_input, pure,
  gets, or_raise, raise_if, modify_db, commit, get_job, find_agent, write_agent,
}
use agent_repository.Jobs.{is_client, is_seller}
use agent_repository.Agents.{get_agent}
use agent_repository.Pages.{Page, where_rows, select_page}

unfoldable pub is_reviewable : JobStatus → Bool
is_reviewable JobStatus.completed = true
is_reviewable JobStatus.failed = true
is_reviewable JobStatus.resolved = true
is_reviewable _ = false

-- The one that is reviewed, and the role of the reviewer.
unfoldable pub reviewee : Job → ℕ → Option (ℕ × ReviewRole)
unfolding is_client is_seller
reviewee job reviewer =
    if is_client job reviewer
    then some (job.seller_agent_id, ReviewRole.client_reviewing_seller)
    else if is_seller job reviewer
    then some (job.client_agent_id, ReviewRole.seller_reviewing_client)
    else none

unfoldable pub any_row : {A : Type 0} → (A → Bool) → List A → Bool
any_row p [] = false
any_row p (x ∷ xs) = p x || any_row p xs

abbrev pub is_review_by : ℕ → ℕ → Review → Bool
is_review_by job_id reviewer r = r.job_id == job_id && r.reviewer_agent_id == reviewer

unfoldable pub recency_weight : ℕ → ℕ → ℕ
recency_weight now review_date =
    let age_days = (now - review_date) / 86400 in
    if leb age_days 30 then 4 else if leb age_days 90 then 3 else 2

unfoldable pub total_weight : ℕ → List Review → ℕ
total_weight now [] = 0
total_weight now (r ∷ rs) = recency_weight now r.created_at + total_weight now rs

unfoldable pub weighted_sum : ℕ → List Review → ℕ
weighted_sum now [] = 0
weighted_sum now (r ∷ rs) = r.rating * recency_weight now r.created_at + weighted_sum now rs

-- `round(a / b)`, a half to the even neighbour
unfoldable pub round_ratio : ℕ → ℕ → ℕ
round_ratio a b =
    let q = a / b in
    let twice = 2 * (a % b) in
    if ltb twice b then q else if ltb b twice then q + 1 else if q % 2 == 0 then q else q + 1

-- The weighted average, scaled down while there are fewer than 20 reviews.
unfoldable pub reputation_score : ℕ → List Review → ℕ
unfolding weighted_sum total_weight round_ratio
reputation_score now reviews =
    let confidence = min (length reviews) 20 in
    min
      (round_ratio (100 * (weighted_sum now reviews * confidence)) (20 * total_weight now reviews))
      500

unfoldable pub is_about : ℕ → ReviewRole → Review → Bool
is_about agent_id ReviewRole.client_reviewing_seller r =
    r.reviewee_agent_id == agent_id
    && elim r.role [ ReviewRole.client_reviewing_seller ↦ true | _ ↦ false ]
is_about agent_id ReviewRole.seller_reviewing_client r =
    r.reviewee_agent_id == agent_id
    && elim r.role [ ReviewRole.seller_reviewing_client ↦ true | _ ↦ false ]

unfoldable pub set_score : ReviewRole → ℕ → Agent → Agent
set_score ReviewRole.client_reviewing_seller score a = record a { reputation_seller = score }
set_score ReviewRole.seller_reviewing_client score a = record a { reputation_client = score }

unfoldable pub score_of : ℕ → ReviewRole → ℕ → List Review → Action ⊤
unfolding reputation_score set_score
score_of agent_id role now [] = pure tt
score_of agent_id role now (r ∷ rs) = do
  or_raise (← find_agent agent_id) no_result
  write_agent agent_id (set_score role (reputation_score now (r ∷ rs)))

unfoldable pub update_reputation : ℕ → ReviewRole → ℕ → Action ⊤
unfolding score_of is_about where_rows
update_reputation agent_id role now = do
  reviews ← gets (λ s. where_rows (is_about agent_id role) s.db.reviews)
  score_of agent_id role now reviews

unfoldable pub submit_review : ℕ → ℕ → ℕ → ℕ → Action ⊤
unfolding is_reviewable reviewee any_row update_reputation
submit_review now job_id reviewer rating = do
  raise_if (not (leb 1 rating && leb rating 5)) invalid_input
  job ← get_job job_id
  raise_if (not (is_reviewable job.status)) wrong_status
  (reviewee_id, role) ← or_raise (reviewee job reviewer) not_a_party
  existing ← gets (λ s. any_row (is_review_by job_id reviewer) s.db.reviews)
  raise_if existing duplicate
  modify_db λ d. record d {
    reviews =
        d.reviews
        ++ record {
          job_id = job_id;
          reviewer_agent_id = reviewer;
          reviewee_agent_id = reviewee_id;
          role = role;
          rating = rating;
          created_at = now;
        }
          ∷ [];
  }
  update_reputation reviewee_id role now
  commit

-- What is shown of an agent: a score counts from three reviews on.
pub record Reputation : Type 0 where
  pub reputation_seller : Option ℕ
  pub reputation_client : Option ℕ
  pub total_reviews_as_seller : ℕ
  pub total_reviews_as_client : ℕ

unfoldable pub get_reputation : ℕ → Action Reputation
unfolding is_about where_rows
get_reputation agent_id = do
  agent ← get_agent agent_id
  seller_count ←
      gets (λ s.
        length (where_rows (is_about agent_id ReviewRole.client_reviewing_seller) s.db.reviews))
  client_count ←
      gets (λ s.
        length (where_rows (is_about agent_id ReviewRole.seller_reviewing_client) s.db.reviews))
  pure (record {
    reputation_seller = if leb 3 seller_count then some agent.reputation_seller else none;
    reputation_client = if leb 3 client_count then some agent.reputation_client else none;
    total_reviews_as_seller = seller_count;
    total_reviews_as_client = client_count;
  })

unfoldable pub get_reviews_for_agent : ℕ → ℕ → ℕ → Action (Page Review)
unfolding select_page
get_reviews_for_agent agent_id limit offset =
    gets (λ s. select_page (λ r. r.reviewee_agent_id == agent_id) limit offset s.db.reviews)

unfoldable pub get_reviews_for_job : ℕ → Action (List Review)
unfolding where_rows
get_reviews_for_job job_id = gets (λ s. where_rows (λ r. r.job_id == job_id) s.db.reviews)
