-- ===== src/Access/Blocking.antt =====
-- Failed attempts block an address, and a reset frees it.
use comfy_ui_account_manager.Base.{
  ℕ, ◌+◌, ◌*◌, String, false, ◌≡◌, ◌∙◌, refl, arith, str_eq, str_eq_refl, ltb, leb, ap,
  if◌then◌else◌,
}
use comfy_ui_account_manager.Base.Dict.{lookup-insert, lookup-erase}
use comfy_ui_account_manager.Access.IpFilter.{Library, Files, Filter, returned}
use comfy_ui_account_manager.Access.Timeout.{
  Attempts, second, timeout_duration, get_failed_attempts, count_attempt, set_timeout,
  add_failed_attempt, remove_failed_attempts, get_timeout_end_time, check_is_timed_out,
}

counted :
    (ip : String) (t : Attempts)
    → get_failed_attempts ip (count_attempt ip t) ≡ get_failed_attempts ip t + 1
unfolding count_attempt get_failed_attempts
counted ip t = rw (lookup-insert, str_eq_refl ip) refl

set_timeout-attempts :
    (now : ℕ) (ip : String) (t : Attempts)
    → get_failed_attempts ip (set_timeout now ip t) ≡ get_failed_attempts ip t
unfolding set_timeout get_failed_attempts
set_timeout-attempts now ip t = ground arith

-- The seconds of a timeout by the failed attempts before the last one, from the third on.
abbrev pub penalty : ℕ → ℕ
penalty before = if leb 8 before then 300 else if leb 5 before then 90 else 60

set_timeout-checked :
    (now at later : ℕ) (ip : String) (t : Attempts) (before : ℕ)
    → get_failed_attempts ip t ≡ before + 1
    → (check_is_timed_out at later ip (set_timeout now ip t)).0 ≡ (
        if leb 2 before
        then ltb at (now + penalty before * second)
        else (check_is_timed_out at later ip t).0)
unfolding set_timeout timeout_duration check_is_timed_out get_timeout_end_time
set_timeout-checked now at later ip t before n = ground (
  arith,
  n,
  lookup-insert t.timeout_end_time_ip (now + timeout_duration (before + 1) * second) ip ip,
  str_eq_refl ip,
)

count_attempt-checked :
    (at later : ℕ) (ip : String) (t : Attempts)
    → (check_is_timed_out at later ip (count_attempt ip t)).0 ≡ (check_is_timed_out at later ip t).0
unfolding check_is_timed_out get_timeout_end_time count_attempt
count_attempt-checked at later ip t = ground arith

-- A successful call leaves the state of its last step.
add-state :
    (lib : Library) (files : Files) (now : ℕ) (ip : String) (f : Filter) (t : Attempts)
    → (add_failed_attempt lib files now ip f t).0 ≡ returned tt
    → (add_failed_attempt lib files now ip f t).2 ≡ set_timeout now ip (count_attempt ip t)
unfolding add_failed_attempt
add-state lib files now ip f t e = ground arith

-- If `add_failed_attempt` returns, the address has one attempt more. With two or more before, it is timed
-- out from then on until 60 seconds later, 90 with five or more before and 300 with eight or more; with
-- fewer, it is timed out exactly when it was before.
pub add_failed_attempt_lem :
    (lib : Library) (files : Files) (now at later : ℕ) (ip : String) (f : Filter) (t : Attempts)
    → (add_failed_attempt lib files now ip f t).0 ≡ returned tt
    → let before = get_failed_attempts ip t in
      let t' = (add_failed_attempt lib files now ip f t).2 in
      (get_failed_attempts ip t' ≡ before + 1)
      × ((check_is_timed_out at later ip t').0 ≡ (
          if leb 2 before
          then ltb at (now + penalty before * second)
          else (check_is_timed_out at later ip t).0))
add_failed_attempt_lem lib files now at later ip f t e =
    let n = counted ip t in
    rw (add-state lib files now ip f t e) (
      set_timeout-attempts now ip (count_attempt ip t) ∙ n,
      set_timeout-checked now at later ip (count_attempt ip t) (get_failed_attempts ip t) n
          ∙ ap
              (λ timed_out.
                if leb 2 (get_failed_attempts ip t)
                then ltb at (now + penalty (get_failed_attempts ip t) * second)
                else timed_out)
              (count_attempt-checked at later ip t),
    )

-- After `remove_failed_attempts` the address has no attempts and is not timed out, and nothing changes
-- for another address.
pub remove_failed_attempts_lem :
    (now later : ℕ) (ip other : String) (t : Attempts)
    → check_is_timed_out now later other (remove_failed_attempts ip t)
      ≡ (if str_eq ip other then (false, 0, 0) else check_is_timed_out now later other t)
unfolding check_is_timed_out remove_failed_attempts get_failed_attempts get_timeout_end_time
remove_failed_attempts_lem now later ip other t =
    ground (
      arith,
      lookup-erase t.failed_attempts_ip ip other,
      lookup-erase t.timeout_end_time_ip ip other,
    )
