-- ===== src/Browser/Capture/Complete.antt =====
-- The responses that captureCollector, internal/browser/capture.go, holds, against those that the browser
-- reported.
use hemera.Base.{
  leb, ◌≡◌, refl, sym, ◌∙◌, ap, ap₂, inl, inr, Bool, true, false, ◌&&◌, not, Bytes, Option, some,
  none, List, [], ◌∷◌, ◌++◌, length, Bool-cases, arith,
}
use mathlib.Core.List.{append-nil, append_assoc}
use hemera.Float.{Float64}
use hemera.Text.{Text}
use hemera.Browser.Capture.{
  CaptureLibrary, CaptureCollector, CaptureTransaction, CaptureResponse, ResponseObservation,
  UrlClass, accepted, rejected, oversized_dropped, is_oversized, new_collector,
  warning_response_limit, url_class, classify_url, clean_metadata,
}
use hemera.Browser.Capture.Items.{
  put_response, add_classified, append_classified, append_response, add_request, begin_request,
  fail_request, patch_transaction, patch_total, if_positive, patch_pending, observe_response,
  observe_redirect, finish_request,
}
use hemera.Browser.Capture.Histories.{
  CaptureEvent, begins, adds_request, adds_response, responds, redirects, finishes, fails, handle,
  handle_all,
}
use hemera.Browser.Capture.Unchanged.{
  Kept, Kept-trans, warn-Kept, classify_url-Kept, add_classified-Kept, patch_pending-Kept,
  begin_request-Kept, patched-Kept, fail_request-Kept,
}

module _ {F : Type 0} (lib : CaptureLibrary F) ⦃fl : Float64 F⦄ ⦃tx : Text⦄ where
  -- The response that an observation stands for, if its URL is accepted.
  abbrev pub response_of : ResponseObservation F → UrlClass → List CaptureResponse
  response_of r (accepted url) =
      record {
        url = url;
        status = r.status;
        mime_type = clean_metadata lib r.mime_type;
        resource_type = clean_metadata lib r.resource_type;
      }
      ∷ []
  response_of r rejected = []
  response_of r oversized_dropped = []

  -- The responses that an event reports.
  abbrev pub observation_of : CaptureEvent F → Option (ResponseObservation F)
  observation_of (adds_response r) = some r
  observation_of (responds id r) = some r
  observation_of (redirects id r timestamp) = some r
  observation_of (begins id method raw resource_type timestamp) = none
  observation_of (adds_request method raw resource_type) = none
  observation_of (finishes id wire_bytes timestamp) = none
  observation_of (fails id) = none

  abbrev pub responses_in : Option (ResponseObservation F) → List CaptureResponse
  responses_in none = []
  responses_in (some r) = response_of r (url_class lib r.raw_url)

  abbrev pub fits : Option (ResponseObservation F) → Bool
  fits none = true
  fits (some r) = not (is_oversized (url_class lib r.raw_url))

  abbrev pub reported : List (CaptureEvent F) → List CaptureResponse
  reported [] = []
  reported (e ∷ es) = responses_in (observation_of e) ++ reported es

  abbrev pub all_fit : List (CaptureEvent F) → Bool
  all_fit [] = true
  all_fit (e ∷ es) = fits (observation_of e) && all_fit es

  -- If no response was left out after the step to `d`, none was before, and `o` was recorded.
  abbrev Records : Option (ResponseObservation F) → CaptureCollector F → CaptureCollector F → Type 0
  Records o c d =
      d.truncated.responses ≡ false
      → (c.truncated.responses ≡ false)
        × (d.responses ≡ c.responses ++ responses_in o)
        × (fits o ≡ true)

  Kept-Records : (c d : CaptureCollector F) → Kept c d → Records none c d
  Kept-Records c d (e, f) h = (sym f ∙ h, e ∙ sym (append-nil c.responses), refl)

  Records-Kept :
      (o : Option (ResponseObservation F)) (b c d : CaptureCollector F)
      → Kept b c
      → Records o c d
      → Records o b d
  Records-Kept o b c d (e, f) r h =
      let (x, y, z) = r h in (sym f ∙ x, y ∙ ap (λ l. l ++ responses_in o) e, z)

  Kept-after :
      (o : Option (ResponseObservation F)) (b c d : CaptureCollector F)
      → Records o b c
      → Kept c d
      → Records o b d
  Kept-after o b c d r (e, f) h = let (x, y, z) = r (sym f ∙ h) in (x, e ∙ y, z)

  put_response-Records :
      (r : CaptureResponse) (c : CaptureCollector F)
      → (put_response r c).truncated.responses ≡ false
      → (c.truncated.responses ≡ false) × ((put_response r c).responses ≡ c.responses ++ (r ∷ []))
  put_response-Records r c h = elim (Bool-cases (leb 4096 (length c.responses))) [
    | inl e ↦
        let full = record c { truncated = record (c.truncated) { responses = true } } in
        cc ((warn-Kept warning_response_limit full).1, rw (put_response, e) at h)
    | inr e ↦ rw (put_response, e) ((rw (put_response, e) at h), refl)
  ]

  append_classified-Records :
      (r : ResponseObservation F) (x : UrlClass × CaptureCollector F)
      → (append_classified lib r x).truncated.responses ≡ false
      → (x.1.truncated.responses ≡ false)
        × ((append_classified lib r x).responses ≡ x.1.responses ++ response_of r x.0)
        × (not (is_oversized x.0) ≡ true)
  append_classified-Records r (accepted url, c) h =
      let (e, f) = put_response-Records _ c h in (e, f, refl)
  append_classified-Records r (rejected, c) h = (h, sym (append-nil c.responses), refl)
  append_classified-Records r (oversized_dropped, c) h = cc

  classify_url-class :
      (raw : Bytes) (c : CaptureCollector F) → (classify_url lib raw c).0 ≡ url_class lib raw
  unfolding classify_url
  classify_url-class raw c = refl

  append_response-Records :
      (r : ResponseObservation F) (c : CaptureCollector F)
      → Records (some r) c (append_response lib r c)
  unfolding append_response
  append_response-Records r c h =
      let x = classify_url lib r.raw_url c in
      let (e, f, g) = append_classified-Records r x h in
      let (same, flag) = classify_url-Kept lib r.raw_url c in
      let class = classify_url-class r.raw_url c in
      (
        sym flag ∙ e,
        f ∙ ap₂ (λ l k. l ++ response_of r k) same class,
        ap (λ k. not (is_oversized k)) (sym class) ∙ g,
      )

  handle-Records :
      (e : CaptureEvent F) (c : CaptureCollector F) → Records (observation_of e) c (handle lib e c)
  unfolding handle add_request observe_response observe_redirect finish_request
  handle-Records (begins id method raw resource_type timestamp) c =
      Kept-Records c (begin_request lib id method raw resource_type timestamp c)
        (begin_request-Kept lib id method raw resource_type timestamp c)
  handle-Records (adds_request method raw resource_type) c =
      let x = classify_url lib raw c in
      Kept-Records c (add_classified lib method resource_type x) (
        Kept-trans c x.1 (add_classified lib method resource_type x) (classify_url-Kept lib raw c)
          (add_classified-Kept lib method resource_type x))
  handle-Records (adds_response r) c = append_response-Records r c
  handle-Records (responds id r) c =
      let d = append_response lib r c in
      Kept-after (some r) c d (patch_pending lib id (patch_transaction lib r) d)
        (append_response-Records r c) (patch_pending-Kept lib id (patch_transaction lib r) d)
  handle-Records (redirects id r timestamp) c =
      let d = append_response lib r c in
      let f = λ (start : F) (t : CaptureTransaction).
        patch_total lib timestamp start (patch_transaction lib r start t) in
      Kept-after (some r) c d (fail_request id (patch_pending lib id f d))
        (append_response-Records r c) (patched-Kept lib id f d)
  handle-Records (finishes id wire_bytes timestamp) c =
      let f = λ (start : F) (t : CaptureTransaction).
        patch_total lib timestamp start
          (record t { wire_bytes = if_positive wire_bytes t.wire_bytes }) in
      Kept-Records c (fail_request id (patch_pending lib id f c)) (patched-Kept lib id f c)
  handle-Records (fails id) c = Kept-Records c (fail_request id c) (fail_request-Kept id c)

  handle_all-Records :
      (es : List (CaptureEvent F)) (c : CaptureCollector F)
      → (handle_all lib es c).truncated.responses ≡ false
      → (c.truncated.responses ≡ false)
        × ((handle_all lib es c).responses ≡ c.responses ++ reported es)
        × (all_fit es ≡ true)
  unfolding handle_all
  handle_all-Records [] c h = (h, sym (append-nil c.responses), refl)
  handle_all-Records (e ∷ es) c h =
      let (f, g, k) = handle_all-Records es (handle lib e c) h in
      let (x, y, z) = handle-Records e c f in
      (
        x,
        g
            ∙ ap (λ l. l ++ reported es) y
            ∙ append_assoc c.responses (responses_in (observation_of e)) (reported es),
        ground (arith, z, k),
      )

  -- Whatever the browser reports to a new collector, in any order: if the collector does not say
  -- that responses were left out, it holds exactly the reported responses with an accepted URL, in
  -- order, and no reported response had a URL above the size limit.
  pub handle_all_complete :
      (es : List (CaptureEvent F))
      → (handle_all lib es new_collector).truncated.responses ≡ false
      → ((handle_all lib es new_collector).responses ≡ reported es) × (all_fit es ≡ true)
  handle_all_complete es h = let (x, y, z) = handle_all-Records es new_collector h in (y, z)
