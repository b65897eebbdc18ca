-- ===== src/Access/Signer.antt =====
-- `InternalSigner` of utils/internal_api.py: the signature of a request between two instances. Times are
-- whole seconds.
use Prim.Native.String.{◌++◌ as concat}
use comfy_ui_account_manager.Base.{
  ℕ, ◌+◌, ◌-◌, String, Bool, true, false, Option, none, some, max, ◌≡◌, arith, str_eq, str_eq_refl,
  leb, if◌then◌else◌,
}
use comfy_ui_account_manager.Base.Int.{ℤ, pos, negsuc}

-- str.upper, SHA-256 and HMAC as hexadecimal text, and str and int on whole numbers.
pub record Crypto : Type 0 where
  pub upper : String → String
  pub sha256 : String → String
  pub hmac : String → String → String
  pub print : ℕ → String
  pub parse : String → Option ℤ

pub record Signer : Type 0 where
  pub secret : String
  pub max_age_seconds : ℕ

-- `__init__`, with the secret that was loaded or created
unfoldable pub new_signer : String → ℕ → Signer
new_signer secret max_age = record { secret = secret; max_age_seconds = max 5 max_age }

unfoldable pub canonical : Crypto → String → String → String → String → String
canonical c method path timestamp body =
    concat (c.upper method)
      (concat "\n" (concat path (concat "\n" (concat timestamp (concat "\n" (c.sha256 body))))))

-- The two headers.
pub record Headers : Type 0 where
  pub timestamp : String
  pub signature : String

unfoldable pub headers : Crypto → ℕ → String → String → String → Signer → Headers
unfolding canonical
headers c now method path body signer =
    let timestamp = c.print now in
    record {
      timestamp = timestamp;
      signature = c.hmac signer.secret (canonical c method path timestamp body);
    }

-- abs(now - time)
abbrev pub distance : ℕ → ℤ → ℕ
distance now (pos n) = (now - n) + (n - now)
distance now (negsuc n) = now + n + 1

-- `verify`, after the timestamp is parsed
unfoldable pub verify_at :
    Crypto → ℕ → String → String → String → Headers → Signer → Option ℤ → Bool
unfolding canonical
verify_at c now method path body h signer none = false
verify_at c now method path body h signer (some time) =
    if leb (distance now time) signer.max_age_seconds
    then str_eq (c.hmac signer.secret (canonical c method path h.timestamp body)) h.signature
    else false

unfoldable pub verify : Crypto → ℕ → String → String → String → Headers → Signer → Bool
unfolding verify_at
verify c now method path body h signer =
    verify_at c now method path body h signer (c.parse h.timestamp)

-- Where int reads what str writes: an instance accepts the headers that another one with the same secret
-- made for the same method, path and body, exactly if their clocks differ by at most its max_age_seconds.
pub verify-headers :
    (c : Crypto) (now later : ℕ) (method path body : String) (sender receiver : Signer)
    → ((n : ℕ) → c.parse (c.print n) ≡ some (pos n))
    → sender.secret ≡ receiver.secret
    → verify c later method path body (headers c now method path body sender) receiver
      ≡ leb ((later - now) + (now - later)) receiver.max_age_seconds
unfolding verify verify_at headers
verify-headers c now later method path body sender receiver reads same =
    rw
      (
        reads now,
        same,
        str_eq_refl (c.hmac receiver.secret (canonical c method path (c.print now) body)),
      )
      (as_test (leb ((later - now) + (now - later)) receiver.max_age_seconds))
  where
    as_test : (b : Bool) → (if b then true else false) ≡ b
    as_test b = ground arith
