-- ===== src/Startup/Tasks.antt =====
-- A restart loses no money of withdrawals that are under way.
use agent_repository.Common.{ℕ, ◌≡◌, refl, ◌∙◌, Bool, true, false, [], ◌∷◌, Dict, if◌then◌else◌}
use agent_repository.Models.{WithdrawalRequest}
use agent_repository.Session.{Session}
use agent_repository.Wallet.{Chain, process_withdrawal}
use agent_repository.Wallet.Books.{holdings}
use agent_repository.Wallet.Processing.{process_withdrawal-holdings}
use agent_repository.Admin.Stats.{is_open_withdrawal}
use agent_repository.Startup.{run_task, run_withdrawals}

task-holdings :
    (chain : Chain) (k : ℕ) (s : Session) (open_row : Bool)
    → holdings (if open_row then run_task (process_withdrawal chain k) s else s).committed
      ≡ holdings s.committed
unfolding run_task
task-holdings chain k s true =
    process_withdrawal-holdings chain k (record s { db = s.committed }) refl
task-holdings chain k s false = refl

-- The withdrawals that a start takes up again leave the holdings as they are.
run_withdrawals-holdings :
    (chain : Chain) (rows : Dict WithdrawalRequest) (s : Session)
    → holdings (run_withdrawals chain rows s).committed ≡ holdings s.committed
unfolding run_withdrawals
run_withdrawals-holdings chain [] s = refl
run_withdrawals-holdings chain ((k, w) ∷ rows) s =
    run_withdrawals-holdings chain rows
      (if is_open_withdrawal (k, w) then run_task (process_withdrawal chain k) s else s)
    ∙ task-holdings chain k s (is_open_withdrawal (k, w))
