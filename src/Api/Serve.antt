-- ===== src/Api/Serve.antt =====
-- A request to the marketplace as data, its dispatch, and serving a history of requests, each in a
-- database session of its own.
use agent_repository.Common.{ℕ, Option, List, [], ◌∷◌}
use agent_repository.Models.{Db, Digest, Deliverable}
use agent_repository.Session.{⊤, Env, Redis, Session, Action}
use agent_repository.Jobs.{JobProposal, CounterProposal}
use agent_repository.Jobs
use agent_repository.Api

-- The UUID drawn for a new row stands first, then the job, then the caller.
pub data Request : Type 0 where
  propose : ℕ → ℕ → JobProposal → Request
  counter : ℕ → ℕ → CounterProposal → Request
  accept : ℕ → ℕ → Option Digest → Request
  fund : ℕ → ℕ → ℕ → Request
  complete start verify fail abort dispute : ℕ → ℕ → Request
  deliver : ℕ → ℕ → Deliverable → Request
  deadline : ℕ → Request

unfoldable pub handle : Request → Action ⊤
handle (propose job caller p) = Api.propose_job job caller p
handle (counter job caller p) = Api.counter_job job caller p
handle (accept job caller hash) = Api.accept_job job caller hash
handle (fund escrow job caller) = Api.fund_job escrow job caller
handle (complete job caller) = Api.complete_job job caller
handle (start job caller) = Api.start_job job caller
handle (verify job caller) = Api.verify_job job caller
handle (fail job caller) = Api.fail_job job caller
handle (abort job caller) = Api.abort_job job caller
handle (dispute job caller) = Jobs.dispute_job job caller
handle (deliver job caller result) = Api.deliver_job job caller result
handle (deadline job) = Api.fail_overdue_job job

pub record World : Type 0 where
  pub tables : Db
  pub redis : Redis

-- `get_db` gives a request a new session, whose open transaction is dropped at its end.
abbrev pub begin : Env → World → Session
begin env w = record { env = env; committed = w.tables; db = w.tables; redis = w.redis }

abbrev pub end : Session → World
end s = record { tables = s.committed; redis = s.redis }

unfoldable pub serve : World → Env × Request → World
serve w (env, r) = end (handle r (begin env w)).1

unfoldable pub serve_all : World → List (Env × Request) → World
serve_all w [] = w
serve_all w (r ∷ rs) = serve_all (serve w r) rs
