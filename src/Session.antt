-- ===== src/Session.antt =====
-- A request's database session: an SQLAlchemy transaction over the tables (app/database.py), Redis
-- beside it, and what the outside decides while the request runs.
-- `committed` is what other sessions see, `db` what this one has written on top of it. An exception
-- leaves both as they are: a handler that catches it goes on from there, and the end of the
-- request drops what was not committed.
pub mod Monad
pub mod Preserved
pub use Monad.*
use agent_repository.Common.{ℕ, Option, lookup, adjust}
use agent_repository.Models.{Agent, Job, Escrow}

abbrev pub get_job : ℕ → Action Job
get_job job_id = do or_raise (← gets (λ s. lookup job_id s.db.jobs)) job_not_found

-- `select(Agent).where(Agent.agent_id == agent_id)` and `scalar_one_or_none`
abbrev pub find_agent : ℕ → Action (Option Agent)
find_agent agent_id = gets (λ s. lookup agent_id s.db.agents)

abbrev pub find_escrow : ℕ → Action (Option Escrow)
find_escrow job_id = gets (λ s. lookup job_id s.db.escrows)

-- Attribute writes on a loaded row.
abbrev pub write_agent : ℕ → (Agent → Agent) → Action ⊤
write_agent k f = modify_db (λ d. record d { agents = adjust k f d.agents })

abbrev pub write_job : ℕ → (Job → Job) → Action ⊤
write_job k f = modify_db (λ d. record d { jobs = adjust k f d.jobs })

abbrev pub write_escrow : ℕ → (Escrow → Escrow) → Action ⊤
write_escrow k f = modify_db (λ d. record d { escrows = adjust k f d.escrows })
