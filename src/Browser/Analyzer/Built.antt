-- ===== src/Browser/Analyzer/Built.antt =====
-- The signals that normalizeCapture of internal/browser/analyzer.go makes.
use hemera.Base.{bytes, ◌≡◌, refl, Bool, true, false, Bytes, List, [], ◌∷◌, All, All-append}
use hemera.Float.{Float64}
use hemera.Text.{Text}
use hemera.Model.{SignalType, Signal}
use hemera.Analysis.{source_browser}
use hemera.Browser.Capture.{CaptureRequest, CaptureResponse, CaptureTransaction}
use hemera.Browser.Capture.Snapshot.Cookies.{CaptureCookie}
use hemera.Browser.Analyzer.{
  FormSubmission, FinishedCapture, unless, browser_signal, response_signals, form_signals,
  resource_signals, cookie_signals, dom_signals, request_signals, transaction_signals,
  capture_signals,
}

module _ {F : Type 0} ⦃fl : Float64 F⦄ where
  -- A signal of the browser analyzer.
  pub record IsBrowserSignal (s : Signal F) : Type 0 where
    pub certain : s.confidence ≡ fl.of_ℕ 1
    pub own : s.source ≡ source_browser

  built :
      (t : SignalType) (key value url : Bytes) → IsBrowserSignal (browser_signal t key value url)
  built t key value url = record { certain = refl; own = refl }

  All-unless :
      (skipped : Bool) (s : Signal F) (rest : List (Signal F))
      → IsBrowserSignal s
      → All IsBrowserSignal rest
      → All IsBrowserSignal (unless skipped s rest)
  All-unless true s rest v vs = vs
  All-unless false s rest v vs = (v, vs)

module _ (F : Type 0) ⦃fl : Float64 F⦄ where
  All-response_signals :
      (rs : List CaptureResponse) → All (IsBrowserSignal {F = F}) (response_signals rs)
  unfolding response_signals
  All-response_signals [] = tt
  All-response_signals (r ∷ rs) = All-unless _ _ _ (built _ _ _ _) (All-response_signals rs)

  All-form_signals :
      (u : Bytes) (fs : List FormSubmission) → All (IsBrowserSignal {F = F}) (form_signals u fs)
  unfolding form_signals
  All-form_signals u [] = tt
  All-form_signals u (f ∷ fs) = All-unless _ _ _ (built _ _ _ _) (All-form_signals u fs)

  All-resource_signals :
      (t : SignalType) (u : Bytes) (us : List Bytes)
      → All (IsBrowserSignal {F = F}) (resource_signals t u us)
  unfolding resource_signals
  All-resource_signals t u [] = tt
  All-resource_signals t u (x ∷ us) = All-unless _ _ _ (built _ _ _ _) (All-resource_signals t u us)

  All-cookie_signals :
      (u : Bytes) (cs : List CaptureCookie) → All (IsBrowserSignal {F = F}) (cookie_signals u cs)
  unfolding cookie_signals
  All-cookie_signals u [] = tt
  All-cookie_signals u (c ∷ cs) = All-unless _ _ _ (built _ _ _ _) (All-cookie_signals u cs)

  All-dom_signals : (u dom : Bytes) → All (IsBrowserSignal {F = F}) (dom_signals u dom)
  unfolding dom_signals
  All-dom_signals u dom = All-unless _ _ [] (built _ _ _ _) tt

module _ (F : Type 0) ⦃fl : Float64 F⦄ ⦃tx : Text⦄ (to_upper : Bytes → Bytes) where
  All-request_signals :
      (u : Bytes) (rs : List CaptureRequest)
      → All (IsBrowserSignal {F = F}) (request_signals to_upper u rs)
  unfolding request_signals
  All-request_signals u [] = tt
  All-request_signals u (r ∷ rs) = All-unless _ _ _ (built _ _ _ _) (All-request_signals u rs)

  All-transaction_signals :
      (ts : List CaptureTransaction)
      → All (IsBrowserSignal {F = F}) (transaction_signals to_upper ts)
  unfolding transaction_signals
  All-transaction_signals [] = tt
  All-transaction_signals (t ∷ ts) = All-unless _ _ _ (built _ _ _ _) (All-transaction_signals ts)

  pub All-capture_signals :
      (f : FinishedCapture) → All (IsBrowserSignal {F = F}) (capture_signals to_upper f)
  unfolding capture_signals
  All-capture_signals f =
      let r = f.result in
      All-append _ _ _ (All-request_signals r.final_url r.requests) (
        All-append _ _ _ (All-transaction_signals r.transactions) (
          All-append _ _ _ (All-form_signals F r.final_url f.form_submissions) (
            All-append _ _ _ (All-response_signals F r.responses) (
              All-append _ _ _ (All-dom_signals F r.final_url r.dom) (
                All-append _ _ _
                  (All-resource_signals F (bytes "script_url") r.final_url r.script_urls)
                  (All-append _ _ _
                    (All-resource_signals F (bytes "iframe_url") r.final_url r.iframe_urls)
                    (All-cookie_signals F r.final_url r.cookies)))))))
