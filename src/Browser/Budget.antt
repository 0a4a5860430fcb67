-- ===== src/Browser/Budget.antt =====
-- navigationBudget of internal/browser/proxy.go: the limits of one navigation, and the errors that it
-- records. Each method holds the mutex throughout, so it is one step: it returns its error, if any, and
-- the new budget. The limits and counters do not wrap: a count is compared with what is left.
pub mod Bounds
pub mod Copy
use hemera.Base.{
  ℕ, ◌+◌, ◌-◌, Bool, true, false, ◌&&◌, not, leb, ltb, ◌==◌, Option, some, none, if◌then◌else◌,
}

pub record Limits : Type 0 where
  pub max_requests : ℕ
  pub max_redirects : ℕ
  pub max_transfer_bytes : ℕ

-- The errors that isPolicyError tells apart by errors.Is, and any other one.
pub data Failure : Type 0 where
  request_limit redirect_limit transfer_limit concurrency_limit unsupported_target : Failure
  invalid_url forbidden_destination : Failure
  other : ℕ → Failure

-- isPolicyError
unfoldable pub is_policy_error : Failure → Bool
is_policy_error (other _) = false
is_policy_error request_limit = true
is_policy_error redirect_limit = true
is_policy_error transfer_limit = true
is_policy_error concurrency_limit = true
is_policy_error unsupported_target = true
is_policy_error invalid_url = true
is_policy_error forbidden_destination = true

pub record Budget : Type 0 where
  pub config : Limits
  -- the channel `done` is closed
  pub done : Bool
  pub requests : ℕ
  pub proxy_requests : ℕ
  pub redirects : ℕ
  pub transfer_bytes : ℕ
  pub decoded_bytes : ℕ
  pub policy_err : Option Failure
  pub infra_err : Option Failure

abbrev pub Step : Type 0
Step = Option Failure × Budget

-- newNavigationBudget
unfoldable pub new_budget : Limits → Budget
new_budget config = record {
  config = config;
  done = false;
  requests = 0;
  proxy_requests = 0;
  redirects = 0;
  transfer_bytes = 0;
  decoded_bytes = 0;
  policy_err = none;
  infra_err = none;
}

abbrev authorized : Bool → Budget → Step
authorized redirect b =
    if leb b.config.max_requests b.requests
    then (some request_limit, b)
    else (let counted : Budget = record b { requests = b.requests + 1 } in
        if redirect
        then (if leb b.config.max_redirects b.redirects
            then (some redirect_limit, counted)
            else (none, record counted { redirects = b.redirects + 1 }))
        else (none, counted))

abbrev unless_failed : Option Failure → Budget → Step → Step
unless_failed none b step = step
unless_failed (some e) b step = (some e, b)

-- authorize: `parsed` is the error of parseBrowserURL, if any
unfoldable pub authorize : Option Failure → Bool → Budget → Step
authorize parsed redirect b =
    unless_failed parsed b (unless_failed b.policy_err b (authorized redirect b))

-- authorizeProxy
unfoldable pub authorize_proxy : Budget → Step
authorize_proxy b = unless_failed b.policy_err b (
    if leb b.config.max_requests b.proxy_requests
    then (some request_limit, b)
    else (none, record b { proxy_requests = b.proxy_requests + 1 }))

-- consume
unfoldable pub consume : ℕ → Budget → Step
consume count b =
    if count == 0
    then (none, b)
    else unless_failed b.policy_err b (
        if ltb (b.config.max_transfer_bytes - b.transfer_bytes) count
        then (some transfer_limit, b)
        else (none, record b { transfer_bytes = b.transfer_bytes + count }))

-- consumeDecoded
unfoldable pub consume_decoded : ℕ → Budget → Step
consume_decoded count b =
    if count == 0
    then (none, b)
    else unless_failed b.policy_err b (
        if ltb (b.config.max_transfer_bytes - b.decoded_bytes) count
        then (some transfer_limit, b)
        else (none, record b { decoded_bytes = b.decoded_bytes + count }))

-- stop, which closes the channel once
unfoldable pub stop : Budget → Budget
stop b = record b { done = true }

abbrev first_error : Option Failure → Failure → Option Failure
first_error none e = some e
first_error (some old) e = some old

abbrev is_none : Option Failure → Bool
is_none none = true
is_none (some _) = false

-- failPolicy; none is a nil error
unfoldable pub fail_policy : Option Failure → Budget → Budget
unfolding stop
fail_policy none b = b
fail_policy (some e) b = if is_none b.policy_err then stop (record b { policy_err = some e }) else b

-- failInfrastructure
unfoldable pub fail_infrastructure : Option Failure → Budget → Budget
fail_infrastructure none b = b
fail_infrastructure (some e) b = if is_none b.infra_err then record b { infra_err = some e } else b

-- fail
unfoldable pub fail : Option Failure → Budget → Budget
unfolding fail_policy fail_infrastructure is_policy_error
fail none b = b
fail (some e) b =
    if is_policy_error e then fail_policy (some e) b else fail_infrastructure (some e) b

-- failure: the policy error, or else the infrastructure error
unfoldable pub failure : Budget → Option Failure
failure b = elim b.policy_err [ some e ↦ some e | none ↦ b.infra_err ]

-- The calls that a navigation makes on its budget, in any order.
pub data Call : Type 0 where
  authorizes : Option Failure → Bool → Call
  authorizes_proxy : Call
  consumes consumes_decoded : ℕ → Call
  fails_policy fails_infrastructure fails : Option Failure → Call
  stops : Call

unfoldable pub step : Call → Budget → Step
unfolding authorize authorize_proxy consume consume_decoded stop fail_policy fail_infrastructure
    fail
step (authorizes parsed redirect) b = authorize parsed redirect b
step authorizes_proxy b = authorize_proxy b
step (consumes n) b = consume n b
step (consumes_decoded n) b = consume_decoded n b
step (fails_policy e) b = (none, fail_policy e b)
step (fails_infrastructure e) b = (none, fail_infrastructure e b)
step (fails e) b = (none, fail e b)
step stops b = (none, stop b)
