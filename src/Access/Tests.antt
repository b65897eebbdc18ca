-- ===== src/Access/Tests.antt =====
-- The theorems on utils/ip_filter.py and utils/timeout.py at one run: a blacklist with one address, and
-- an address with two failed attempts.
use comfy_ui_account_manager.Access.Signer.{Crypto, Signer, headers, verify, verify-headers}
use comfy_ui_account_manager.Base.Int.{pos}
use comfy_ui_account_manager.Base.{
  ℕ, zero, suc, String, ap, true, false, [], ◌∷◌, none, some, ◌≡◌, refl, inr,
}
use comfy_ui_account_manager.Base.Dict.{lookup}
use comfy_ui_account_manager.Access.IpFilter.{
  Library, Files, Filter, attribute_error, raised, load_filter_list, load_ip_list,
}
use comfy_ui_account_manager.Access.Timeout.{
  Attempts, get_failed_attempts, add_failed_attempt, remove_failed_attempts, check_is_timed_out,
}
use comfy_ui_account_manager.Access.Reloading.{load_filter_list_again}
use comfy_ui_account_manager.Access.Blocking.{add_failed_attempt_lem, remove_failed_attempts_lem}

abbrev library : Library
library = record { sha256 = λ lines. "digest"; strip = λ line. line; ip_address = λ ip. some ip }

abbrev files : Files
files = record { whitelist = none; blacklist = some ("10.0.0.1" ∷ []) }

abbrev no_files : Files
no_files = record { whitelist = none; blacklist = none }

abbrev unread : Filter
unread = record { whitelist = []; blacklist = []; whitelist_hash = none; blacklist_hash = none }

load_filter_list_again_example :
    (load_filter_list library files (load_filter_list library files unread).1).0
    ≡ raised attribute_error
unfolding load_filter_list load_ip_list
load_filter_list_again_example =
    load_filter_list_again library files unread ("10.0.0.1" ∷ []) (inr refl) refl

abbrev twice : Attempts
twice = record {
  blacklist_after_attempts = 0;
  failed_attempts_ip = ("10.0.0.2", 2) ∷ [];
  timeout_end_time_ip = [];
}

abbrev thrice : Attempts
thrice = (add_failed_attempt library no_files 1000 "10.0.0.2" unread twice).2

add_failed_attempt_lem_example :
    (get_failed_attempts "10.0.0.2" thrice ≡ 3)
    × ((check_is_timed_out 2000 2000 "10.0.0.2" thrice).0 ≡ true)
unfolding add_failed_attempt load_filter_list load_ip_list get_failed_attempts lookup
add_failed_attempt_lem_example =
    add_failed_attempt_lem library no_files 1000 2000 2000 "10.0.0.2" unread twice refl

remove_failed_attempts_lem_example :
    check_is_timed_out 5 5 "10.0.0.2" (remove_failed_attempts "10.0.0.2" twice) ≡ (false, 0, 0)
remove_failed_attempts_lem_example = remove_failed_attempts_lem 5 5 "10.0.0.2" "10.0.0.2" twice

-- A whole number as so many strokes, and how many a text has.
abbrev strokes : ℕ → String
strokes zero = ""
strokes (suc n) = String.◌∷◌ "1" (strokes n)

abbrev count_strokes : String → ℕ
count_strokes String.[] = 0
count_strokes (String.◌∷◌ c t) = suc (count_strokes t)

count_strokes-strokes : (n : ℕ) → count_strokes (strokes n) ≡ n
count_strokes-strokes zero = refl
count_strokes-strokes (suc n) = ap suc (count_strokes-strokes n)

abbrev crypto : Crypto
crypto = record {
  upper = λ t. t;
  sha256 = λ body. body;
  hmac = λ secret message. message;
  print = strokes;
  parse = λ t. some (pos (count_strokes t));
}

abbrev signer : Signer
signer = record { secret = "s"; max_age_seconds = 30 }

verify-headers_example :
    verify crypto 40 "POST" "/event" "{}" (headers crypto 20 "POST" "/event" "{}" signer) signer
    ≡ true
verify-headers_example =
    verify-headers crypto 20 40 "POST" "/event" "{}" signer signer
      (λ n. ap (λ k. some (pos k)) (count_strokes-strokes n)) refl
