-- ===== src/Recovery/Verdicts.antt =====
-- What the verdict of a check can be: a row stays pending for at most seven days and 19 failures in a row.
use Prim.Native.Nat.{min, ◌^◌}
use comfy_ui_account_manager.Base.{
  ℕ, zero, suc, ◌+◌, ◌*◌, ◌-◌, ◌≤◌, String, true, List, ◌≡◌, refl, subst, inl, inr, arith, ltb,
  Bool-cases,
}
use comfy_ui_account_manager.Recovery.Checks.{
  Attempt, done, query_error, superseded, exception, ◌>>=◌, query, require_lost, or_exception,
  Joined, Outside, download, Verdict, decide, attempt, verdict_of,
}
use comfy_ui_account_manager.Recovery.Cycle.{delay}
use comfy_ui_account_manager.Recovery.Providers.{
  Outcome, task_succeeded, task_failed, task_pending, result,
}
use comfy_ui_account_manager.Recovery.Rows.{is_pending, Row, second}

>>=-eq-done :
    {A B : Type 0} {b : B} (x : Attempt A) (next : A → Attempt B)
    → (x >>= next) ≡ done b
    → (a : A) × (next a ≡ done b)
>>=-eq-done (done a) next e = (a, e)
>>=-eq-done (query_error m) next e = absurd (ground (arith, e))
>>=-eq-done superseded next e = absurd (ground (arith, e))
>>=-eq-done exception next e = absurd (ground (arith, e))

-- An attempt that leaves the row pending resets its failures.
abbrev Resets : Verdict → Type 0
Resets v = is_pending v.state ≡ true → v.failures ≡ 0

done-injective : {A : Type 0} {a b : A} → done a ≡ done b → a ≡ b
done-injective e = cc

decide-Resets :
    (out : Outside) (j : Joined) (o : Outcome × List String) {v : Verdict}
    → decide out j o ≡ done v
    → Resets v
unfolding decide
decide-Resets out j (task_succeeded, urls) e =
    let (references, made) = >>=-eq-done (download out j urls) _ e in
    subst Resets (done-injective made) (λ p. ground (arith, p))
decide-Resets out j (task_failed, urls) e = subst Resets (done-injective e) (λ p. ground (arith, p))
decide-Resets out j (task_pending, urls) e = subst Resets (done-injective e) (λ p. refl)

attempt-Resets :
    (now : ℕ) (out : Outside) (j : Joined) {v : Verdict} → attempt now out j ≡ done v → Resets v
unfolding attempt
attempt-Resets now out j e = elim (Bool-cases (ltb (7 * 86400 * second) (now - j.row.created_at))) [
  | inl old ↦ absurd (ground (arith, rw old at e))
  | inr young ↦
      let (body, e1) = >>=-eq-done (query out.answer) _ (rw young at e) in
      let (outcome, e2) =
        >>=-eq-done (or_exception (result out.py out.lower j.row.provider body)) _ e1 in
      let (lost, e3) = >>=-eq-done (require_lost j.row.prompt_id out.jobs_after_query) _ e2 in
      decide-Resets out j outcome e3
]

failures_of_pending :
    (row : Row) (a : Attempt Verdict)
    → ((v : Verdict) → a ≡ done v → Resets v)
    → is_pending (verdict_of row a).state ≡ true
    → (verdict_of row a).failures ≤ 19
unfolding verdict_of
failures_of_pending row (done v) resets p = omega (arith, resets v refl p)
failures_of_pending row superseded resets p = ground (arith, p)
failures_of_pending row (query_error m) resets p = ground (arith, p)
failures_of_pending row exception resets p = ground (arith, p)

module _ (now : ℕ) (out : Outside) (j : Joined) where
  pub verdict-failures :
      is_pending (verdict_of j.row (attempt now out j)).state ≡ true
      → (verdict_of j.row (attempt now out j)).failures ≤ 19
  verdict-failures =
      failures_of_pending j.row (attempt now out j) (λ v e. attempt-Resets now out j e)

  pub verdict-age :
      is_pending (verdict_of j.row (attempt now out j)).state ≡ true
      → now ≤ j.row.created_at + 7 * 86400 * second
  unfolding attempt verdict_of
  verdict-age p = elim (Bool-cases (ltb (7 * 86400 * second) (now - j.row.created_at))) [
    | inl old ↦ absurd (ground (arith, rw old at p))
    | inr young ↦ ground (arith, young)
  ]

two_pow_pos : (k : ℕ) → 1 ≤ 2 ^ k
two_pow_pos zero = omega arith
two_pow_pos (suc k) = omega (arith, two_pow_pos k)

pub delay-bounds : (n : ℕ) → (30 * second ≤ delay n) × (delay n ≤ 1800 * second)
unfolding delay
delay-bounds n = ground (arith, two_pow_pos (min n 6))
