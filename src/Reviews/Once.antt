-- ===== src/Reviews/Once.antt =====
-- A party reviews a job once.
use agent_repository.Common.{
  ℕ, ◌≡◌, ◌≢◌, ap, ◌∙◌, some, none, Option-cases, lookup, leb, Bool, true, ◌&&◌, inl, inr, List, [],
  ◌∷◌, ◌++◌, arith,
}
use agent_repository.Models.{Job, Review, ReviewRole}
use agent_repository.Session.{Session, ok, err, duplicate}
use agent_repository.Reviews.{
  any_row, is_review_by, is_reviewable, reviewee, submit_review, update_reputation, score_of,
}

any_row-last :
    (p : Review → Bool) (r : Review) (rows : List Review)
    → p r ≡ true
    → any_row p (rows ++ r ∷ []) ≡ true
unfolding any_row
any_row-last p r [] h = ground arith
any_row-last p r (x ∷ rows) h = ground (arith, any_row-last p r rows)

abbrev written : ℕ → ℕ → ℕ → ℕ → ℕ × ReviewRole → Review
written now job_id reviewer rating who = record {
  job_id = job_id;
  reviewer_agent_id = reviewer;
  reviewee_agent_id = who.0;
  role = who.1;
  rating = rating;
  created_at = now;
}

module _ (now job_id reviewer rating : ℕ) (s : Session) (job : Job)
    (found : lookup job_id s.db.jobs ≡ some job) where
  abbrev t : Session
  t = (submit_review now job_id reviewer rating s).1

  submit_review-writes :
      (who : ℕ × ReviewRole)
      → reviewee job reviewer ≡ some who
      → (submit_review now job_id reviewer rating s).0 ≡ ok tt
      → (is_reviewable job.status ≡ true)
        × (t.db.jobs ≡ s.db.jobs)
        × (t.db.reviews ≡ s.db.reviews ++ written now job_id reviewer rating who ∷ [])
  unfolding submit_review update_reputation score_of
  submit_review-writes (who, role) party success = ground arith

  stranger : reviewee job reviewer ≡ none → (submit_review now job_id reviewer rating s).0 ≢ ok tt
  unfolding submit_review
  stranger none_of_them success = ground arith

  refused :
      (who : ℕ × ReviewRole)
      → reviewee job reviewer ≡ some who
      → is_reviewable job.status ≡ true
      → any_row (is_review_by job_id reviewer) s.db.reviews ≡ true
      → leb 1 rating && leb rating 5 ≡ true
      → submit_review now job_id reviewer rating s ≡ (err duplicate, s)
  unfolding submit_review
  refused (who, role) party ended before valid = ground arith

no_job :
    (now job_id reviewer rating : ℕ) (s : Session)
    → lookup job_id s.db.jobs ≡ none
    → (submit_review now job_id reviewer rating s).0 ≢ ok tt
unfolding submit_review
no_job now job_id reviewer rating s absent success = ground arith

-- After a review that was taken, another of the same job by the same agent, with a rating that
-- is valid, is refused as a duplicate and writes nothing.
pub submit_review-once :
    (now later job_id reviewer rating again : ℕ) (s : Session)
    → (submit_review now job_id reviewer rating s).0 ≡ ok tt
    → leb 1 again && leb again 5 ≡ true
    → submit_review later job_id reviewer again (submit_review now job_id reviewer rating s).1
      ≡ (err duplicate, (submit_review now job_id reviewer rating s).1)
submit_review-once now later job_id reviewer rating again s success valid =
    elim (Option-cases (lookup job_id s.db.jobs)) [
      | inl absent ↦ absurd (no_job now job_id reviewer rating s absent success)
      | inr (job, found) ↦ elim (Option-cases (reviewee job reviewer)) [
        | inl neither ↦ absurd (stranger now job_id reviewer rating s job found neither success)
        | inr (who, party) ↦
            let (ended, jobs, reviews) =
              submit_review-writes now job_id reviewer rating s job found who party success in
            let r = written now job_id reviewer rating who in
            let by : is_review_by job_id reviewer r ≡ true = ground arith in
            refused later job_id reviewer again (submit_review now job_id reviewer rating s).1 job
              (ap (lookup job_id) jobs ∙ found) who party ended
              (ap (any_row (is_review_by job_id reviewer)) reviews
                ∙ any_row-last (is_review_by job_id reviewer) r s.db.reviews by)
              valid
      ]
    ]
