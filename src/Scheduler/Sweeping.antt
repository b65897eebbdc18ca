-- ===== src/Scheduler/Sweeping.antt =====
-- What a heartbeat leaves: no job of a stale worker runs on.
use comfy_ui_account_manager.Base.{
  ℕ, ◌≤◌, String, Bool, true, false, List, [], ◌∷◌, none, ◌≡◌, ◌⊎◌, inl, inr, refl, ap, sym, subst,
  ◌↔◌, arith, str_eq, str_eq_iff, ◌==◌, if◌then◌else◌, if_ind, or_else, Memᴰ, Bool-cases,
}
use comfy_ui_account_manager.Base.Table.{count, update, fetch_one, select}
use comfy_ui_account_manager.Base.Table.Laws.{count-update-le, count-update, count-update_gone}
use comfy_ui_account_manager.Base.Table.Members.{select-mem}
use comfy_ui_account_manager.Scheduler.Rows.{Job, Worker}
use comfy_ui_account_manager.Scheduler.Logs.{Disk, Position, log_position}
use comfy_ui_account_manager.Scheduler.Store.{
  Store, has_prompt, runs_prompt, has_port, or_default, as_lost, lose_job, log_file_of,
}
use comfy_ui_account_manager.Scheduler.Workers.{map_workers, beat, sweep, is_lost, heartbeat}

-- No job with this prompt id runs.
abbrev pub IsStopped : String → List Job → Type 0
IsStopped prompt_id jobs = count (runs_prompt prompt_id) jobs ≡ 0

module _ (disk : Disk) (now : ℕ) (message : String) (prompt_id : String) (s : Store) where
  abbrev position : Position
  position =
      (log_position disk s.line_cache (log_file_of (fetch_one (has_prompt prompt_id) s.db.jobs))).0

  -- No job starts to run.
  lose_job-le :
      (id : String)
      → count (runs_prompt id) (lose_job disk now message prompt_id s).1.db.jobs
        ≤ count (runs_prompt id) s.db.jobs
  unfolding lose_job
  lose_job-le id =
      count-update-le (runs_prompt id) (runs_prompt prompt_id) (as_lost now message position)
        s.db.jobs (λ x h k. ground arith)

  pub lose_job-IsStopped : IsStopped prompt_id (lose_job disk now message prompt_id s).1.db.jobs
  unfolding lose_job
  lose_job-IsStopped =
      count-update_gone (runs_prompt prompt_id) (as_lost now message position) s.db.jobs
        (λ x h. ground arith)

  -- A job with another prompt id is not touched.
  lose_job-other :
      (id : String)
      → str_eq prompt_id id ≡ false
      → count (runs_prompt id) (lose_job disk now message prompt_id s).1.db.jobs
        ≡ count (runs_prompt id) s.db.jobs
  unfolding lose_job
  lose_job-other id ne =
      count-update (runs_prompt id) (runs_prompt prompt_id) (as_lost now message position) s.db.jobs
        λ x h. ground (
          arith,
          str_eq_iff x.prompt_id prompt_id,
          str_eq_iff x.prompt_id id,
          str_eq_iff prompt_id id,
        )

  lose_job-updated :
      (lose_job disk now message prompt_id s).0 ≡ count (runs_prompt prompt_id) s.db.jobs
  unfolding lose_job
  lose_job-updated = refl

mem-if :
    {id x : String} {l : List String} (n : ℕ)
    → Memᴰ id (if n == 0 then l else x ∷ l)
    → (id ≡ x) × (1 ≤ n) ⊎ Memᴰ id l
mem-if n m = split (n == 0) refl m
  where
    split :
        {id x : String} {l : List String} (b : Bool)
        → (n == 0) ≡ b
        → Memᴰ id (if b then l else x ∷ l)
        → (id ≡ x) × (1 ≤ n) ⊎ Memᴰ id l
    split true e m = inr m
    split false e (Memᴰ.head p) = inl (p, ground arith)
    split false e (Memᴰ.tail m) = inr m

-- The prompt id that the loop reads of a worker.
abbrev pub lost_id : Worker → String
lost_id worker = or_else worker.active_prompt_id ""

module _ (disk : Disk) (now : ℕ) (message : ℕ → String) where
  -- The state after one round of the loop.
  abbrev round : Worker → Store → Store
  round worker s =
      map_workers (update (has_port worker.port) (λ w. record w { active_prompt_id = none }))
        (lose_job disk now (message worker.port) (lost_id worker) s).1

  sweep-keeps :
      (stale : List Worker) (s : Store) (id : String)
      → IsStopped id s.db.jobs
      → IsStopped id (sweep disk now message stale s).1.db.jobs
  unfolding sweep
  sweep-keeps [] s id e = e
  sweep-keeps (w ∷ rest) s id e =
      sweep-keeps rest (round w s) id
        (omega (arith, lose_job-le disk now (message w.port) (lost_id w) s id))

  sweep-IsStopped :
      (stale : List Worker) (s : Store) {worker : Worker}
      → Memᴰ worker stale
      → IsStopped (lost_id worker) (sweep disk now message stale s).1.db.jobs
  unfolding sweep
  sweep-IsStopped [] s m = elim m [ ]
  sweep-IsStopped (w ∷ rest) s (Memᴰ.head e) = rw e (
      sweep-keeps rest (round w s) (lost_id w)
        (lose_job-IsStopped disk now (message w.port) (lost_id w) s))
  sweep-IsStopped (w ∷ rest) s (Memᴰ.tail m) = sweep-IsStopped rest (round w s) m

  -- Whether a job with the prompt id runs.
  abbrev Runs : String → Store → Type 0
  Runs id s = 1 ≤ count (runs_prompt id) s.db.jobs

  Runs-updated :
      (w : Worker) (s : Store)
      → Runs (lost_id w) s
      → ((lose_job disk now (message w.port) (lost_id w) s).0 == 0) ≡ false
  Runs-updated w s r = ground (arith, lose_job-updated disk now (message w.port) (lost_id w) s)

  sweep-lost :
      (stale : List Worker) (s : Store) {worker : Worker}
      → Memᴰ worker stale
      → Runs (lost_id worker) s
      → Memᴰ (lost_id worker) (sweep disk now message stale s).0
  unfolding sweep
  sweep-lost [] s m r = elim m [ ]
  sweep-lost (w ∷ rest) s (Memᴰ.head e) r =
      rw (Runs-updated w s (subst (λ x. Runs (lost_id x) s) e r)) (Memᴰ.head (ap lost_id e))
  sweep-lost (w ∷ rest) s {worker} (Memᴰ.tail m) r =
      elim (Bool-cases (str_eq (lost_id w) (lost_id worker))) [
        | inl same ↦
            let e = (str_eq_iff (lost_id w) (lost_id worker)).0 same in
            rw (Runs-updated w s (subst (λ i. Runs i s) (sym e) r)) (Memᴰ.head (sym e))
        | inr other ↦
            let ih = sweep-lost rest (round w s) m (
              omega (
                arith,
                r,
                lose_job-other disk now (message w.port) (lost_id w) s (lost_id worker) other,
              )) in
            if_ind (Memᴰ (lost_id worker))
              ((lose_job disk now (message w.port) (lost_id w) s).0 == 0) (λ _. ih)
              (λ _. Memᴰ.tail ih)
      ]

  lost-sweep :
      (stale : List Worker) (s : Store) {id : String}
      → Memᴰ id (sweep disk now message stale s).0
      → Runs id s
  unfolding sweep
  lost-sweep [] s m = elim m [ ]
  lost-sweep (w ∷ rest) s {id} m =
      elim (mem-if (lose_job disk now (message w.port) (lost_id w) s).0 m) [
        | inl (e, updated) ↦
            rw e (omega (arith, updated, lose_job-updated disk now (message w.port) (lost_id w) s))
        | inr m' ↦ omega (
          arith,
          lost-sweep rest (round w s) m',
          lose_job-le disk now (message w.port) (lost_id w) s id,
        )
      ]

-- After a heartbeat no job runs that a stale worker was working on, and the heartbeat answers with
-- the prompt ids of the stale workers whose job ran.
pub heartbeat_lem :
    (disk : Disk) (message : ℕ → String) (now port pid stale_seconds : ℕ) (resource_class : String)
    (s : Store) (worker : Worker)
    → Memᴰ worker (beat now port pid (or_default resource_class) s.db.workers)
    → is_lost now stale_seconds worker ≡ true
    → let out = heartbeat disk message now port pid stale_seconds resource_class s in
      IsStopped (lost_id worker) out.1.db.jobs
      × (Memᴰ (lost_id worker) out.0 ↔ (1 ≤ count (runs_prompt (lost_id worker)) s.db.jobs))
unfolding heartbeat
heartbeat_lem disk message now port pid stale_seconds resource_class s worker m h =
    let s' : Store = map_workers (beat now port pid (or_default resource_class)) s in
    let stale = select (is_lost now stale_seconds) s'.db.workers in
    let found = select-mem (is_lost now stale_seconds) s'.db.workers m h in
    (
      sweep-IsStopped disk now message stale s' found,
      (lost-sweep disk now message stale s', sweep-lost disk now message stale s' found),
    )
