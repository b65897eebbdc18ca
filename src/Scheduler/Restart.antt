-- ===== src/Scheduler/Restart.antt =====
-- What a registration makes of the job that the port's earlier process was running.
use comfy_ui_account_manager.Base.{
  ℕ, String, Bool, true, false, List, [], ◌∷◌, none, some, ◌≡◌, refl, ap, arith, ◌==◌, Bool-cases,
  inl, inr,
}
use mathlib.Core.Option
use comfy_ui_account_manager.Base.Table.{fetch_one, upsert}
use comfy_ui_account_manager.Scheduler.Rows.{Worker}
use comfy_ui_account_manager.Scheduler.Logs.{Disk}
use comfy_ui_account_manager.Scheduler.Store.{Store, has_port, if_text}
use comfy_ui_account_manager.Scheduler.Workers.{lose_old, register_worker, restart_message}
use comfy_ui_account_manager.Scheduler.Sweeping.{IsStopped, lose_job-IsStopped}

-- The worker of the port, after it registers, works on nothing.
upsert-fetch :
    (p : Worker → Bool) (f : Worker → Worker) (new : Worker) (workers : List Worker) {old : Worker}
    → ((x : Worker) → p x ≡ true → p (f x) ≡ true)
    → fetch_one p workers ≡ some old
    → fetch_one p (upsert p f new workers) ≡ some (f old)
unfolding fetch_one upsert
upsert-fetch p f new [] h e = absurd (ground arith)
upsert-fetch p f new (x ∷ workers) h e = elim (Bool-cases (p x)) [
  | inl t ↦ rw (t, h x t) (ap (Option.map f) (rw t at e))
  | inr other ↦ rw (other, other) (upsert-fetch p f new workers h (rw other at e))
]

module _ (disk : Disk) (now port pid : ℕ) (resource_class : String) (s : Store) (old : Worker)
    (prompt_id : String) (registered : fetch_one (has_port port) s.db.workers ≡ some old)
    (active : if_text old.active_prompt_id ≡ some prompt_id) where
  -- The port had a process with another pid, which was working on a prompt: after the registration no
  -- job with this prompt id runs.
  pub register_worker-IsStopped :
      (old.pid == pid) ≡ false
      → IsStopped prompt_id (register_worker disk now port pid resource_class s).db.jobs
  unfolding register_worker lose_old
  register_worker-IsStopped other =
      rw (registered, lose_old, active, other)
        (lose_job-IsStopped disk now restart_message prompt_id s)

  -- The port had a process with the same pid, which was working on a prompt: the registration leaves
  -- every job as it is, a running one included, and the port's worker then works on nothing.
  pub register_worker_forgets_job :
      (old.pid == pid) ≡ true
      → ((register_worker disk now port pid resource_class s).db.jobs ≡ s.db.jobs)
        × ((worker : Worker) × (fetch_one
                (has_port port)
                (register_worker disk now port pid resource_class s).db.workers
              ≡ some worker)
            × (worker.active_prompt_id ≡ none))
  unfolding register_worker lose_old
  register_worker_forgets_job same =
      rw (registered, lose_old, active, same)
        (refl, (_, upsert-fetch (has_port port) _ _ s.db.workers (λ x h. h) registered, refl))
