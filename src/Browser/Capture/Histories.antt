-- ===== src/Browser/Capture/Histories.antt =====
-- Histories of captureCollector, internal/browser/capture.go: the events of the browser, in the order in
-- which their handlers take the mutex.
use hemera.Base.{
  ℕ, inl, inr, ◌||◌, not, Bytes, bytes_eq, List, [], ◌∷◌, lookup, Bool-cases, Option-cases, arith,
}
use hemera.Float.{Float64}
use hemera.Text.{Text}
use hemera.Browser.Capture.{
  CaptureLibrary, CaptureCollector, CaptureTransaction, ResponseObservation, UrlClass, accepted,
  rejected, oversized_dropped, is_oversized, new_collector, url_class, classify_url, clean_metadata,
}
use hemera.Browser.Capture.Items.{
  add_classified, append_classified, append_response, request_of, add_request, begin_request,
  is_pending, fail_request, patch_pending, observe_response, observe_redirect, finish_request,
}
use hemera.Browser.Capture.Bounds.{
  IsBounded, warn-IsBounded, set_truncated-IsBounded, append_request-IsBounded,
  put_response-IsBounded, fail_request-IsBounded, patch_at-IsBounded, open_transaction-IsBounded,
}
use hemera.Browser.Capture.Short.{IsShort, url_class-IsShort}

pub data CaptureEvent (F : Type 0) : Type 0 where
  begins : Bytes → Bytes → Bytes → Bytes → F → CaptureEvent F
  adds_request : Bytes → Bytes → Bytes → CaptureEvent F
  adds_response : ResponseObservation F → CaptureEvent F
  responds : Bytes → ResponseObservation F → CaptureEvent F
  redirects : Bytes → ResponseObservation F → F → CaptureEvent F
  finishes : Bytes → ℕ → F → CaptureEvent F
  fails : Bytes → CaptureEvent F

module _ {F : Type 0} (lib : CaptureLibrary F) ⦃fl : Float64 F⦄ ⦃tx : Text⦄ where
  unfoldable pub handle : CaptureEvent F → CaptureCollector F → CaptureCollector F
  handle (begins id method raw_url resource_type timestamp) c =
      begin_request lib id method raw_url resource_type timestamp c
  handle (adds_request method raw_url resource_type) c =
      add_request lib method raw_url resource_type c
  handle (adds_response r) c = append_response lib r c
  handle (responds id r) c = observe_response lib id r c
  handle (redirects id r timestamp) c = observe_redirect lib id r timestamp c
  handle (finishes id wire_bytes timestamp) c = finish_request lib id wire_bytes timestamp c
  handle (fails id) c = fail_request id c

  unfoldable pub handle_all : List (CaptureEvent F) → CaptureCollector F → CaptureCollector F
  handle_all [] c = c
  handle_all (e ∷ es) c = handle_all es (handle e c)

  classify_url-IsBounded :
      (raw : Bytes) (c : CaptureCollector F)
      → IsBounded c
      → IsShort (classify_url lib raw c).0 × IsBounded (classify_url lib raw c).1
  unfolding classify_url
  classify_url-IsBounded raw c v = elim (Bool-cases (is_oversized (url_class lib raw))) [
    | inl e ↦ rw (classify_url, e) (url_class-IsShort lib raw, warn-IsBounded _ c v)
    | inr e ↦ rw (classify_url, e) (url_class-IsShort lib raw, v)
  ]

  add_classified-IsBounded :
      (method resource_type : Bytes) (x : UrlClass × CaptureCollector F)
      → IsShort x.0
      → IsBounded x.1
      → IsBounded (add_classified lib method resource_type x)
  add_classified-IsBounded method resource_type (accepted url, c) short v =
      append_request-IsBounded _ c short v
  add_classified-IsBounded method resource_type (rejected, c) short v = v
  add_classified-IsBounded method resource_type (oversized_dropped, c) short v =
      set_truncated-IsBounded _ c v

  append_classified-IsBounded :
      (r : ResponseObservation F) (x : UrlClass × CaptureCollector F)
      → IsShort x.0
      → IsBounded x.1
      → IsBounded (append_classified lib r x)
  append_classified-IsBounded r (accepted url, c) short v = put_response-IsBounded _ c short v
  append_classified-IsBounded r (rejected, c) short v = v
  append_classified-IsBounded r (oversized_dropped, c) short v = set_truncated-IsBounded _ c v

  request_of-IsBounded :
      (method resource_type : Bytes) (class : UrlClass) (c : CaptureCollector F)
      → IsShort class
      → IsBounded c
      → IsBounded (request_of lib method resource_type class c)
  request_of-IsBounded method resource_type (accepted url) c short v =
      append_request-IsBounded _ c short v
  request_of-IsBounded method resource_type rejected c short v = v
  request_of-IsBounded method resource_type oversized_dropped c short v = v

  append_response-IsBounded :
      (r : ResponseObservation F) (c : CaptureCollector F)
      → IsBounded c
      → IsBounded (append_response lib r c)
  unfolding append_response
  append_response-IsBounded r c v =
      let (short, w) = classify_url-IsBounded r.raw_url c v in
      append_classified-IsBounded r (classify_url lib r.raw_url c) short w

  patch_pending-IsBounded :
      (id : Bytes) (f : F → CaptureTransaction → CaptureTransaction) (c : CaptureCollector F)
      → IsBounded c
      → IsBounded (patch_pending lib id f c)
  patch_pending-IsBounded id f c v = elim (Option-cases (lookup id c.pending)) [
    | inl e ↦ rw (patch_pending, e) v
    | inr (p, e) ↦ rw (patch_pending, e) (patch_at-IsBounded p.index (f p.start_timestamp) c v)
  ]

  begin_request-IsBounded :
      (id method raw resource_type : Bytes) (timestamp : F) (c : CaptureCollector F)
      → IsBounded c
      → IsBounded (begin_request lib id method raw resource_type timestamp c)
  unfolding begin_request
  begin_request-IsBounded id method raw resource_type timestamp c v =
      let (short, w) = classify_url-IsBounded raw c v in
      let class = (classify_url lib raw c).0 in
      let d =
        request_of lib (clean_metadata lib method) (clean_metadata lib resource_type) class
          (classify_url lib raw c).1 in
      let u : IsBounded d = request_of-IsBounded _ _ class (classify_url lib raw c).1 short w in
      elim (Bool-cases (bytes_eq id [] || not (lib.is_utf8 raw))) [
        | inl e ↦ rw (begin_request, e) u
        | inr e ↦ elim (Bool-cases (is_pending (lookup id d.pending))) [
          | inl f ↦ rw (begin_request, e, f) u
          | inr f ↦ rw (begin_request, e, f) (open_transaction-IsBounded id _ timestamp d u)
        ]
      ]

  handle-IsBounded :
      (e : CaptureEvent F) (c : CaptureCollector F) → IsBounded c → IsBounded (handle e c)
  unfolding handle add_request observe_response observe_redirect finish_request
  handle-IsBounded (begins id method raw resource_type timestamp) c v =
      begin_request-IsBounded id method raw resource_type timestamp c v
  handle-IsBounded (adds_request method raw resource_type) c v =
      let (short, w) = classify_url-IsBounded raw c v in
      add_classified-IsBounded method resource_type (classify_url lib raw c) short w
  handle-IsBounded (adds_response r) c v = append_response-IsBounded r c v
  handle-IsBounded (responds id r) c v =
      patch_pending-IsBounded id _ (append_response lib r c) (append_response-IsBounded r c v)
  handle-IsBounded (redirects id r timestamp) c v =
      fail_request-IsBounded id _
        (patch_pending-IsBounded id _ (append_response lib r c) (append_response-IsBounded r c v))
  handle-IsBounded (finishes id wire_bytes timestamp) c v =
      fail_request-IsBounded id _ (patch_pending-IsBounded id _ c v)
  handle-IsBounded (fails id) c v = fail_request-IsBounded id c v

  handle_all-keeps :
      (es : List (CaptureEvent F)) (c : CaptureCollector F)
      → IsBounded c
      → IsBounded (handle_all es c)
  unfolding handle_all
  handle_all-keeps [] c v = v
  handle_all-keeps (e ∷ es) c v = handle_all-keeps es (handle e c) (handle-IsBounded e c v)

  -- Whatever the browser reports to a new collector, in any order: it holds at most 4096 requests,
  -- responses, transactions and open correlations, each correlation points to a recorded
  -- transaction, no recorded URL of a request or a response is above 8192 bytes, and no warning
  -- occurs twice.
  pub handle_all-IsBounded : (es : List (CaptureEvent F)) → IsBounded (handle_all es new_collector)
  handle_all-IsBounded es = handle_all-keeps es new_collector (record {
    requests_le = omega arith;
    responses_le = omega arith;
    transactions_le = omega arith;
    pending_le = omega arith;
    correlated = tt;
    request_urls = tt;
    response_urls = tt;
    warnings_unique = tt;
    warnings_warned = λ w i. absurd i;
  })
