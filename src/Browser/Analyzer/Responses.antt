-- ===== src/Browser/Analyzer/Responses.antt =====
-- From the responses that the browser reports to the signals of the browser analyzer: capture.go and
-- analyzer.go of internal/browser together.
use hemera.Base.{
  ◌≡◌, refl, sym, ◌∙◌, ap, subst, inl, inr, Bool, true, false, ◌||◌, ◌==◌, Bytes, bytes, bytes_eq,
  bytes_eq_iff, ok, List, [], ◌∷◌, In, In-append_left, In-append_right, Bool-cases, arith,
}
use mathlib.Core.Bool.{false≢true}
use hemera.Float.{Float64}
use hemera.Text.{Text}
use hemera.Model.{SignalType, Signal}
use hemera.Analysis.{CapabilityCoverage, complete}
use hemera.Scanner.Completer.Backed.{Declares}
use hemera.Browser.Capture.{CaptureLibrary, CaptureCollector, CaptureResponse, new_collector}
use hemera.Browser.Capture.Histories.{CaptureEvent, handle_all}
use hemera.Browser.Capture.Complete.{reported, handle_all_complete}
use hemera.Browser.Capture.Snapshot.{BoundedDomSnapshot, snapshot_bounded}
use hemera.Browser.Capture.Snapshot.Cookies.{CaptureCookie}
use hemera.Browser.Analyzer.{
  FinishedCapture, status_if, covers, browser_capability_coverage, is_empty, unless,
  response_signal, response_signals, capture_signals, normalize_capture, form_signals,
  transaction_signals, request_signals,
}
use hemera.Browser.Analyzer.Exact.{normalize_capture_exact}

differ : (a b : Bytes) → bytes_eq a b ≡ false → ¬ (a ≡ b)
differ a b h e = false≢true (sym h ∙ (bytes_eq_iff a b).1 e)

other_type :
    (c : CapabilityCoverage) (t u : SignalType) (missing : Bool) {A : Type 0}
    → bytes_eq t u ≡ false
    → covers t missing ≡ c
    → c.signal_type ≡ u
    → A
other_type c t u missing h same e = absurd (differ t u h (ap (λ x. x.signal_type) same ∙ e))

status_if-complete : (missing : Bool) → status_if missing ≡ complete → missing ≡ false
status_if-complete false h = refl
status_if-complete true h = cc

-- Only the entry of the type says that the responses are complete.
Declares-responses :
    (f : FinishedCapture)
    → Declares (bytes "network_response") (browser_capability_coverage f false)
    → f.result.responses_truncated ≡ false
unfolding browser_capability_coverage bytes_eq
Declares-responses f (c, inl same, e, s) = other_type c _ _ _ refl same e
Declares-responses f (c, inr (inl same), e, s) =
    let open_channel = status_if-complete _ (ap (λ x. x.status) same ∙ s) in
    ground (arith, open_channel)
Declares-responses f (c, inr (inr (inl same)), e, s) = other_type c _ _ _ refl same e
Declares-responses f (c, inr (inr (inr (inl same))), e, s) = other_type c _ _ _ refl same e
Declares-responses f (c, inr (inr (inr (inr (inl same)))), e, s) = other_type c _ _ _ refl same e
Declares-responses f (c, inr (inr (inr (inr (inr (inl same))))), e, s) =
    other_type c _ _ _ refl same e
Declares-responses f (c, inr (inr (inr (inr (inr (inr i))))), e, s) = absurd i

module _ (F : Type 0) ⦃fl : Float64 F⦄ where
  In-response_signals :
      (r : CaptureResponse) (rs : List CaptureResponse)
      → In r rs
      → (r.status == 0) ≡ false
      → is_empty r.url ≡ false
      → In (response_signal {F = F} r) (response_signals rs)
  unfolding response_signals
  In-response_signals r [] i h g = absurd i
  In-response_signals r (x ∷ rs) (inl same) h g =
      let kept : ((x.status == 0) || is_empty x.url) ≡ false =
        subst (λ y. ((y.status == 0) || is_empty y.url) ≡ false) (sym same) (rw (h, g) refl) in
      rw (unless, kept) (inl (ap response_signal same))
  In-response_signals r (x ∷ rs) (inr i) h g =
      elim (Bool-cases ((x.status == 0) || is_empty x.url)) [
        | inl skipped ↦ rw (unless, skipped) (In-response_signals r rs i h g)
        | inr kept ↦ rw (unless, kept) (inr (In-response_signals r rs i h g))
      ]

module _ {F : Type 0} ⦃fl : Float64 F⦄ ⦃tx : Text⦄ (lib : CaptureLibrary F) (is_ip : Bytes → Bool)
    (to_upper : Bytes → Bytes) where
  In-capture_signals :
      (f : FinishedCapture) (s : Signal F)
      → In s (response_signals f.result.responses)
      → In s (capture_signals to_upper f)
  unfolding capture_signals
  In-capture_signals f s i =
      let r = f.result in
      In-append_right s (request_signals to_upper r.final_url r.requests) _ (
        In-append_right s (transaction_signals to_upper r.transactions) _ (
          In-append_right s (form_signals r.final_url f.form_submissions) _
            (In-append_left s (response_signals r.responses) _ i)))

  snapshot-responses :
      (final_url : Bytes) (s : BoundedDomSnapshot) (cookies : List CaptureCookie)
      (c : CaptureCollector F)
      → ((snapshot_bounded lib is_ip final_url s cookies c).0.responses ≡ c.responses)
        × ((snapshot_bounded lib is_ip final_url s cookies c).0.responses_truncated
            ≡ c.truncated.responses)
  unfolding snapshot_bounded
  snapshot-responses final_url s cookies c = (refl, refl)

  -- Take a capture whose result is the bounded snapshot of a collector after any reported events,
  -- which normalizeCapture turns into signals, and for which browserCapabilityCoverage declares the
  -- network responses complete: then every response that the browser reported with an accepted URL,
  -- with a status and a URL that are not empty, has its signal among them.
  pub reported_responses :
      (es : List (CaptureEvent F)) (final_url : Bytes) (s : BoundedDomSnapshot)
      (cookies : List CaptureCookie) (f : FinishedCapture) (signals : List (Signal F))
      (r : CaptureResponse)
      → f.result
        ≡ (snapshot_bounded lib is_ip final_url s cookies (handle_all lib es new_collector)).0
      → normalize_capture to_upper f ≡ ok signals
      → Declares (bytes "network_response") (browser_capability_coverage f false)
      → In r (reported lib es)
      → (r.status == 0) ≡ false
      → is_empty r.url ≡ false
      → In (response_signal r) signals
  reported_responses es final_url s cookies f signals r taken normalized declared i h g =
      let c = handle_all lib es new_collector in
      let (responses, flag) = snapshot-responses final_url s cookies c in
      let nothing_left_out : c.truncated.responses ≡ false =
        sym flag ∙ sym (ap (λ x. x.responses_truncated) taken) ∙ Declares-responses f declared in
      let (exact, _) = handle_all_complete lib es nothing_left_out in
      let held : f.result.responses ≡ reported lib es =
        ap (λ x. x.responses) taken ∙ responses ∙ exact in
      let (valid, own, members) = normalize_capture_exact to_upper f signals normalized in
      (members (response_signal r)).1 (
        In-capture_signals f (response_signal r)
          (In-response_signals F r f.result.responses (subst (In r) (sym held) i) h g))
