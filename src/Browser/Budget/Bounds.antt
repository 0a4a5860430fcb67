-- ===== src/Browser/Budget/Bounds.antt =====
-- Histories of a navigationBudget, internal/browser/proxy.go: its limits, and what follows a policy
-- error.
use hemera.Base.{
  ◌∙◌, ltb, ◌++◌, subst, sym, ◌≤◌, Bool, true, false, ◌≡◌, refl, some, none, List, [], ◌∷◌, arith,
}
use hemera.Browser.Budget.{
  Limits, Failure, Budget, Call, new_budget, step, failure, authorizes, authorizes_proxy, consumes,
  consumes_decoded, fails_policy, fails_infrastructure, fails, stops,
}

unfoldable pub run : Budget → List Call → Budget
run b [] = b
run b (c ∷ cs) = run (step c b).1 cs

pub record IsWithin (b : Budget) : Type 0 where
  pub requests_le : b.requests ≤ b.config.max_requests
  pub proxy_le : b.proxy_requests ≤ b.config.max_requests
  pub redirects_le : b.redirects ≤ b.config.max_redirects
  pub redirects_counted : b.redirects ≤ b.requests
  pub transfer_le : b.transfer_bytes ≤ b.config.max_transfer_bytes
  pub decoded_le : b.decoded_bytes ≤ b.config.max_transfer_bytes
  pub stopped : (e : Failure) → b.policy_err ≡ some e → b.done ≡ true

step-IsWithin : (c : Call) (b : Budget) → IsWithin b → IsWithin (step c b).1
unfolding step
step-IsWithin (authorizes (some e) redirect) b v = v
step-IsWithin (authorizes none redirect) b v = ground arith
step-IsWithin authorizes_proxy b v = ground arith
step-IsWithin (consumes n) b v = ground arith
step-IsWithin (consumes_decoded n) b v = ground arith
step-IsWithin (fails_policy e) b v = ground arith
step-IsWithin (fails_infrastructure e) b v = ground arith
step-IsWithin (fails e) b v = ground arith
step-IsWithin stops b v = ground arith

new_budget-IsWithin : (config : Limits) → IsWithin (new_budget config)
unfolding new_budget
new_budget-IsWithin config = ground arith

run-keeps : (cs : List Call) (b : Budget) → IsWithin b → IsWithin (run b cs)
unfolding run
run-keeps [] b v = v
run-keeps (c ∷ cs) b v = run-keeps cs _ (step-IsWithin c b v)

step-config : (c : Call) (b : Budget) → (step c b).1.config ≡ b.config
unfolding step
step-config (authorizes (some e) redirect) b = refl
step-config (authorizes none redirect) b = ground arith
step-config authorizes_proxy b = ground arith
step-config (consumes n) b = ground arith
step-config (consumes_decoded n) b = ground arith
step-config (fails_policy e) b = ground arith
step-config (fails_infrastructure e) b = ground arith
step-config (fails e) b = ground arith
step-config stops b = refl

run-config : (cs : List Call) (b : Budget) → (run b cs).config ≡ b.config
unfolding run
run-config [] b = refl
run-config (c ∷ cs) b = run-config cs _ ∙ step-config c b

new_budget-config : (config : Limits) → (new_budget config).config ≡ config
unfolding new_budget
new_budget-config config = refl

-- Whatever a navigation calls on its budget, in any order, the configuration stays, every counter
-- stays within its limit, each redirect was counted as a request, and a budget with a policy error
-- has closed its channel.
pub run-IsWithin :
    (config : Limits) (cs : List Call)
    → (run (new_budget config) cs).config ≡ config × IsWithin (run (new_budget config) cs)
run-IsWithin config cs =
    (run-config cs _ ∙ new_budget-config config, run-keeps cs _ (new_budget-IsWithin config))

-- The counters of a budget.
abbrev pub SameCounts : Budget → Budget → Type 0
SameCounts a b =
    a.requests ≡ b.requests
    × a.proxy_requests ≡ b.proxy_requests
    × a.redirects ≡ b.redirects
    × a.transfer_bytes ≡ b.transfer_bytes
    × a.decoded_bytes ≡ b.decoded_bytes

record IsEnded (e : Failure) (b a : Budget) : Type 0 where
  kept : a.policy_err ≡ some e
  closed : b.done ≡ true → a.done ≡ true
  counts : SameCounts a b

step-IsEnded :
    (c : Call) (b : Budget) (e : Failure) → b.policy_err ≡ some e → IsEnded e b (step c b).1
unfolding step
step-IsEnded (authorizes (some e') redirect) b e h = ground arith
step-IsEnded (authorizes none redirect) b e h = ground arith
step-IsEnded authorizes_proxy b e h = ground arith
step-IsEnded (consumes n) b e h = ground arith
step-IsEnded (consumes_decoded n) b e h = ground arith
step-IsEnded (fails_policy e') b e h = ground arith
step-IsEnded (fails_infrastructure e') b e h = ground arith
step-IsEnded (fails e') b e h = ground arith
step-IsEnded stops b e h = ground arith

IsEnded-trans : {e : Failure} {a b c : Budget} → IsEnded e a b → IsEnded e b c → IsEnded e a c
IsEnded-trans p q = record {
  kept = q.kept;
  closed = λ d. q.closed (p.closed d);
  counts = (
    q.counts.0 ∙ p.counts.0,
    q.counts.1 ∙ p.counts.1,
    q.counts.2 ∙ p.counts.2,
    q.counts.3 ∙ p.counts.3,
    q.counts.4 ∙ p.counts.4,
  );
}

run-keeps_IsEnded :
    (cs : List Call) (b : Budget) (e : Failure) → b.policy_err ≡ some e → IsEnded e b (run b cs)
unfolding run
run-keeps_IsEnded [] b e h = record {
  kept = h;
  closed = λ d. d;
  counts = (refl, refl, refl, refl, refl);
}
run-keeps_IsEnded (c ∷ cs) b e h =
    IsEnded-trans (step-IsEnded c b e h) (run-keeps_IsEnded cs _ e ((step-IsEnded c b e h).kept))

run-append : (xs ys : List Call) (b : Budget) → run b (xs ++ ys) ≡ run (run b xs) ys
unfolding run
run-append [] ys b = refl
run-append (c ∷ xs) ys b = run-append xs ys _

-- Whether a call asks for something that the budget counts.
abbrev pub asks : Call → Bool
asks (authorizes none _) = true
asks (authorizes (some _) _) = false
asks authorizes_proxy = true
asks (consumes n) = ltb 0 n
asks (consumes_decoded n) = ltb 0 n
asks (fails_policy _) = false
asks (fails_infrastructure _) = false
asks (fails _) = false
asks stops = false

step-refuses :
    (c : Call) (b : Budget) (e : Failure)
    → b.policy_err ≡ some e
    → asks c ≡ true
    → (step c b).0 ≡ some e
unfolding step
step-refuses (authorizes (some e') redirect) b e h a = ground arith
step-refuses (authorizes none redirect) b e h a = ground arith
step-refuses authorizes_proxy b e h a = ground arith
step-refuses (consumes n) b e h a = ground arith
step-refuses (consumes_decoded n) b e h a = ground arith
step-refuses (fails_policy e') b e h a = ground arith
step-refuses (fails_infrastructure e') b e h a = ground arith
step-refuses (fails e') b e h a = ground arith
step-refuses stops b e h a = ground arith

-- Once a navigation has recorded a policy error, after any further calls the channel is closed,
-- failure returns that error, no counter has changed, and a call that asks for a request or for
-- bytes is refused with that error.
pub run-refuses :
    (config : Limits) (before after : List Call) (e : Failure) (c : Call)
    → (run (new_budget config) before).policy_err ≡ some e
    → asks c ≡ true
    → ((run (new_budget config) (before ++ after)).done ≡ true)
      × (failure (run (new_budget config) (before ++ after)) ≡ some e)
      × SameCounts (run (new_budget config) (before ++ after)) (run (new_budget config) before)
      × ((step c (run (new_budget config) (before ++ after))).0 ≡ some e)
unfolding failure
run-refuses config before after e c h a =
    let start = run (new_budget config) before in
    let ended =
      subst (IsEnded e start) (sym (run-append before after (new_budget config)))
        (run-keeps_IsEnded after start e h) in
    (
      ended.closed ((run-IsWithin config before).1.stopped e h),
      rw ended.kept refl,
      ended.counts,
      step-refuses c _ e ended.kept a,
    )
