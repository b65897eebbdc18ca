-- ===== src/Access/Timeout.antt =====
-- The class Timeout of utils/timeout.py. Times are microseconds.
use Prim.Native.Nat.{◌/◌, ◌%◌}
use comfy_ui_account_manager.Base.{
  ℕ, String, Bool, true, false, not, ◌&&◌, Option, none, some, ◌+◌, ◌*◌, ◌-◌, ltb, leb, ◌==◌,
  or_else, if◌then◌else◌,
}
use comfy_ui_account_manager.Base.Dict.{Dict, lookup, insert, erase}
use comfy_ui_account_manager.Access.IpFilter.{
  Library, Files, Filter, Outcome, raised, returned, load_filter_list, add_to_blacklist,
}

pub record Attempts : Type 0 where
  pub blacklist_after_attempts : ℕ
  pub failed_attempts_ip : Dict ℕ
  pub timeout_end_time_ip : Dict ℕ

abbrev pub second : ℕ
second = 1000000

-- The duration, in seconds.
unfoldable pub timeout_duration : ℕ → ℕ
timeout_duration failed_attempts =
    if leb 9 failed_attempts
    then 300
    else if leb 6 failed_attempts
    then 90
    else if leb 3 failed_attempts
    then 60
    else 0

unfoldable pub get_failed_attempts : String → Attempts → ℕ
unfolding lookup
get_failed_attempts ip t = or_else (lookup ip t.failed_attempts_ip) 0

-- self._failed_attempts_ip[ip] = ... + 1
unfoldable pub count_attempt : String → Attempts → Attempts
unfolding get_failed_attempts insert
count_attempt ip t = record t {
  failed_attempts_ip = insert ip (get_failed_attempts ip t + 1) t.failed_attempts_ip;
}

-- The end of the function.
unfoldable pub set_timeout : ℕ → String → Attempts → Attempts
unfolding timeout_duration get_failed_attempts insert
set_timeout now ip t =
    let duration = timeout_duration (get_failed_attempts ip t) in
    if ltb 0 duration
    then record t {
      timeout_end_time_ip = insert ip (now + duration * second) t.timeout_end_time_ip;
    }
    else t

-- not blacklist_after_attempts == 0, and the attempts have reached it
abbrev pub is_over : String → Attempts → Bool
is_over ip t =
    not (t.blacklist_after_attempts == 0)
    && leb t.blacklist_after_attempts (get_failed_attempts ip t)

-- What `add_failed_attempt` does to the state of the process. The source looks for the text `ip` among
-- the address objects of the whitelist, and a text equals none of them: no address is left out.
unfoldable pub add_failed_attempt :
    Library → Files → ℕ → String → Filter → Attempts → Outcome (Unit {0}) × Filter × Attempts
unfolding count_attempt set_timeout
add_failed_attempt lib files now ip f t =
    let (loaded, f') = load_filter_list lib files f in
    let t' = count_attempt ip t in
    let (written, f'') = add_to_blacklist lib files ip f' in
    elim loaded [
      | raised e ↦ (raised e, f', t)
      | returned u ↦
          if is_over ip t'
          then (elim written [
            | raised e ↦ (raised e, f'', t')
            | returned file ↦ (returned tt, f'', set_timeout now ip t')
          ])
          else (returned tt, f', set_timeout now ip t')
    ]

unfoldable pub remove_failed_attempts : String → Attempts → Attempts
unfolding erase
remove_failed_attempts ip t = record t {
  failed_attempts_ip = erase ip t.failed_attempts_ip;
  timeout_end_time_ip = erase ip t.timeout_end_time_ip;
}

unfoldable pub get_timeout_end_time : String → Attempts → Option ℕ
unfolding lookup
get_timeout_end_time ip t = lookup ip t.timeout_end_time_ip

-- round(x / 1000000), to the even number where it is halfway
unfoldable pub round_seconds : ℕ → ℕ
round_seconds d =
    let q = d / second in
    let r = d % second in
    if ltb (r * 2) second then q else if ltb second (r * 2) then q + 1 else q + q % 2

-- `now` and `later` are the two readings of the clock; where the end passes between them, the source
-- rounds a negative number, which is 0 within half a second, as here.
unfoldable pub check_is_timed_out : ℕ → ℕ → String → Attempts → Bool × ℕ × ℕ
unfolding get_timeout_end_time get_failed_attempts round_seconds
check_is_timed_out now later ip t = elim (get_timeout_end_time ip t) [
  | none ↦ (false, get_failed_attempts ip t, 0)
  | some end ↦
      if ltb now end
      then (true, get_failed_attempts ip t, round_seconds (end - later))
      else (false, get_failed_attempts ip t, 0)
]
