-- ===== src/Browser/Capture/Oversized.antt =====
-- What captureCollector, internal/browser/capture.go, does with a URL above its size limit.
use hemera.Base.{
  ℕ, ltb, leb, ◌≡◌, ◌<◌, refl, ◌∙◌, ap, Bool, true, false, ◌||◌, not, Bytes, bytes_eq, has, [],
  length, lookup, Bool-cases, inl, inr, arith,
}
use hemera.Float.{Float64}
use hemera.Text.{Text}
use hemera.Browser.Capture.{
  CaptureLibrary, CaptureCollector, CaptureTransaction, oversized_dropped, max_browser_url_bytes,
  warning_url_limit, warning_transaction_limit, warn, url_class, classify_url, clean_metadata,
}
use hemera.Browser.Capture.Items.{
  append_transaction, open_transaction, add_classified, add_request, begin_request, is_pending,
  opened, correlate,
}

module _ {F : Type 0} where
  -- The requests and the truncation flags of two states are the same.
  abbrev Same : CaptureCollector F → CaptureCollector F → Type 0
  Same c d = (c.requests ≡ d.requests) × (c.truncated ≡ d.truncated)

  warn-Same : (w : Bytes) (c : CaptureCollector F) → Same (warn w c) c
  unfolding warn
  warn-Same w c = elim (Bool-cases (has w c.warned)) [
    | inl e ↦ rw (warn, e) (refl, refl)
    | inr e ↦ rw (warn, e) (refl, refl)
  ]

  append_transaction-Same :
      (t : CaptureTransaction) (c : CaptureCollector F) → Same (append_transaction t c).1 c
  unfolding append_transaction
  append_transaction-Same t c = elim (Bool-cases (leb 4096 (length c.transactions))) [
    | inl e ↦ rw (append_transaction, e) (warn-Same warning_transaction_limit c)
    | inr e ↦ rw (append_transaction, e) (refl, refl)
  ]

  correlate-Same :
      (id : Bytes) (index : ℕ) (timestamp : F) (x : Bool × CaptureCollector F)
      (c : CaptureCollector F)
      → Same x.1 c
      → Same (correlate id index timestamp x) c
  correlate-Same id index timestamp (false, d) c h = h
  correlate-Same id index timestamp (true, d) c h = h

  open_transaction-Same :
      (id : Bytes) (t : CaptureTransaction) (timestamp : F) (c : CaptureCollector F)
      → Same (open_transaction id t timestamp c) c
  unfolding open_transaction
  open_transaction-Same id t timestamp c = elim (Bool-cases (leb 4096 (length c.pending))) [
    | inl e ↦ rw (open_transaction, e) (warn-Same warning_transaction_limit c)
    | inr e ↦
        rw (open_transaction, e)
          (correlate-Same id (length c.transactions) timestamp (append_transaction t c) c
            (append_transaction-Same t c))
  ]

module _ {F : Type 0} (lib : CaptureLibrary F) ⦃fl : Float64 F⦄ ⦃tx : Text⦄ where
  url_class_oversized : (raw : Bytes) → 8192 < length raw → url_class lib raw ≡ oversized_dropped
  unfolding url_class
  url_class_oversized raw h =
      let long : ltb max_browser_url_bytes (length raw) ≡ true = ground arith in
      rw (url_class, long) refl

  classify_url_oversized :
      (raw : Bytes) (c : CaptureCollector F)
      → 8192 < length raw
      → classify_url lib raw c ≡ (oversized_dropped, warn warning_url_limit c)
  unfolding classify_url
  classify_url_oversized raw c h = rw (classify_url, url_class_oversized raw h) refl

  begin_request_oversized :
      (id method raw resource_type : Bytes) (timestamp : F) (c : CaptureCollector F)
      → 8192 < length raw
      → Same (begin_request lib id method raw resource_type timestamp c) c
  unfolding begin_request classify_url
  begin_request_oversized id method raw resource_type timestamp c h =
      let class = url_class_oversized raw h in
      let noted = warn-Same warning_url_limit c in
      let w = warn warning_url_limit c in
      elim (Bool-cases (bytes_eq id [] || not (lib.is_utf8 raw))) [
        | inl e ↦ rw (begin_request, class, e) noted
        | inr e ↦ elim (Bool-cases (is_pending (lookup id w.pending))) [
          | inl f ↦ rw (begin_request, class, e, f) noted
          | inr f ↦
              let t = opened (clean_metadata lib method) [] (clean_metadata lib resource_type) in
              let (same, flags) = open_transaction-Same id t timestamp w in
              rw (begin_request, class, e, f) (same ∙ noted.0, flags ∙ noted.1)
        ]
      ]

  add_request_oversized :
      (method raw resource_type : Bytes) (c : CaptureCollector F)
      → 8192 < length raw
      → ((add_request lib method raw resource_type c).requests ≡ c.requests)
        × ((add_request lib method raw resource_type c).truncated.requests ≡ true)
  unfolding add_request
  add_request_oversized method raw resource_type c h =
      let classified =
        ap (add_classified lib method resource_type) (classify_url_oversized raw c h) in
      (
        ap (λ d. d.requests) classified ∙ (warn-Same warning_url_limit c).0,
        ap (λ d. d.truncated.requests) classified,
      )

  -- A request with a URL above 8192 bytes is recorded by neither beginRequest nor addRequest;
  -- addRequest sets the truncation flag of the requests, and beginRequest leaves all flags as they
  -- are.
  pub oversized_requests :
      (id method raw resource_type : Bytes) (timestamp : F) (c : CaptureCollector F)
      → 8192 < length raw
      → ((begin_request lib id method raw resource_type timestamp c).requests ≡ c.requests)
        × ((begin_request lib id method raw resource_type timestamp c).truncated ≡ c.truncated)
        × ((add_request lib method raw resource_type c).requests ≡ c.requests)
        × ((add_request lib method raw resource_type c).truncated.requests ≡ true)
  oversized_requests id method raw resource_type timestamp c h =
      let (same, flags) = begin_request_oversized id method raw resource_type timestamp c h in
      let (same', flag) = add_request_oversized method raw resource_type c h in
      (same, flags, same', flag)
