-- ===== src/Lifecycle/Histories.antt =====
-- Every request writes by steps, and so does every history of requests.
use agent_repository.Api
use agent_repository.Jobs.{dispute_job}
use agent_repository.Api.Serve.{
  Request, World, handle, serve, serve_all, begin, propose, counter, accept, fund, complete, start,
  verify, fail, abort, dispute, deliver, deadline,
}
use agent_repository.Lifecycle.{Steps, here}
use agent_repository.Lifecycle.Reached.{Reached, Post}
use agent_repository.Common.{refl, List, [], ◌∷◌}
use agent_repository.Models.{Db}
use agent_repository.Linked.{IsLinked}
use agent_repository.Session.{Result, Env, err, ⊤, Session, ok}
use agent_repository.Lifecycle.Endpoints.{
  complete_job-Post, deliver_job-Post, abort_job-Post, propose_job-Post, start_job-Post,
  accept_job-Post, counter_job-Post, fund_job-Post, fail_overdue_job-Steps, fail_job-Post,
}
use agent_repository.Lifecycle.Links.{Steps-IsLinked}
use agent_repository.Lifecycle.Verify.{verify_job-Post}

module _ (env : Env) (d : Db) (links : IsLinked d) where
  settled : (p : Result ⊤ × Session) → Post env d p → Steps env.settings d p.1.committed
  settled (ok _, t) r = r.committed
  settled (err e, t) h = h

  -- What a request leaves committed is reached by steps.
  pub handle-Steps :
      (r : Request) (s : Session) → Reached env d s → Steps env.settings d (handle r s).1.committed
  unfolding handle dispute_job
  handle-Steps (propose job caller p) s h =
      settled (Api.propose_job job caller p s) (propose_job-Post env d links job caller p s h)
  handle-Steps (counter job caller p) s h =
      settled (Api.counter_job job caller p s) (counter_job-Post env d links job caller p s h)
  handle-Steps (accept job caller hash) s h =
      settled (Api.accept_job job caller hash s) (accept_job-Post env d links job caller hash s h)
  handle-Steps (fund escrow job caller) s h =
      settled (Api.fund_job escrow job caller s) (fund_job-Post env d links escrow job caller s h)
  handle-Steps (complete job caller) s h =
      settled (Api.complete_job job caller s) (complete_job-Post env d links job caller s h)
  handle-Steps (start job caller) s h =
      settled (Api.start_job job caller s) (start_job-Post env d links job caller s h)
  handle-Steps (verify job caller) s h =
      settled (Api.verify_job job caller s) (verify_job-Post env d links job caller s h)
  handle-Steps (fail job caller) s h =
      settled (Api.fail_job job caller s) (fail_job-Post env d links job caller s h)
  handle-Steps (abort job caller) s h =
      settled (Api.abort_job job caller s) (abort_job-Post env d links job caller s h)
  handle-Steps (dispute job caller) s h = h.committed
  handle-Steps (deliver job caller result) s h =
      settled (Api.deliver_job job caller result s)
        (deliver_job-Post env d links job caller result s h)
  handle-Steps (deadline job) s h = fail_overdue_job-Steps env d links job s h

-- From tables in which each job is in step with its escrow, what a served request leaves
-- committed is reached by steps, whatever the request answers.
pub serve_refines :
    (w : World) (env : Env) (r : Request)
    → IsLinked w.tables
    → Steps env.settings w.tables (serve w (env, r)).tables
unfolding serve
serve_refines w env r links =
    handle-Steps env w.tables links r (begin env w)
      (record { env_same = refl; committed = here; written = here })

-- From tables in which each job is in step with its escrow, any history of requests, each in a
-- session and an environment of its own, ends in such tables: no escrow before funding, a funded
-- escrow with the job's parties, price and bond from funding to delivery, a released one for a
-- completed job, a refunded one for a failed job and for a cancelled job that has one.
pub serve_all-IsLinked :
    (rs : List (Env × Request)) (w : World) → IsLinked w.tables → IsLinked (serve_all w rs).tables
unfolding serve_all
serve_all-IsLinked [] w links = links
serve_all-IsLinked ((env, r) ∷ rs) w links =
    serve_all-IsLinked rs (serve w (env, r))
      (Steps-IsLinked env.settings w.tables (serve_refines w env r links) links)
