-- ===== src/Browser/Capture/Unchanged.antt =====
-- The operations of captureCollector, internal/browser/capture.go, that leave the responses as they are.
use hemera.Base.{
  ℕ, leb, ◌≡◌, refl, ◌∙◌, inl, inr, Bool, true, false, ◌||◌, not, Bytes, bytes_eq, has, [], length,
  get_elem?, lookup, Bool-cases, Option-cases,
}
use hemera.Float.{Float64}
use hemera.Text.{Text}
use hemera.Browser.Capture.{
  CaptureLibrary, CaptureCollector, CaptureTransaction, CaptureRequest, UrlClass, accepted,
  rejected, oversized_dropped, is_oversized, warn, url_class, classify_url, clean_metadata,
}
use hemera.Browser.Capture.Items.{
  append_request, append_transaction, add_classified, request_of, url_or_empty, open_transaction,
  correlate, begin_request, is_pending, opened, fail_request, patch_pending, patch_at,
}

module _ {F : Type 0} where
  -- The responses and their truncation flag of two states are the same.
  abbrev pub Kept : CaptureCollector F → CaptureCollector F → Type 0
  Kept c d = (d.responses ≡ c.responses) × (d.truncated.responses ≡ c.truncated.responses)

  pub Kept-trans : (b c d : CaptureCollector F) → Kept b c → Kept c d → Kept b d
  Kept-trans b c d (e, f) (e', f') = (e' ∙ e, f' ∙ f)

  pub warn-Kept : (w : Bytes) (c : CaptureCollector F) → Kept c (warn w c)
  unfolding warn
  warn-Kept w c = elim (Bool-cases (has w c.warned)) [
    | inl e ↦ rw (warn, e) (refl, refl)
    | inr e ↦ rw (warn, e) (refl, refl)
  ]

  pub append_request-Kept :
      (r : CaptureRequest) (c : CaptureCollector F) → Kept c (append_request r c)
  unfolding append_request
  append_request-Kept r c = elim (Bool-cases (leb 4096 (length c.requests))) [
    | inl e ↦
        rw (append_request, e)
          (warn-Kept _ (record c { truncated = record (c.truncated) { requests = true } }))
    | inr e ↦ rw (append_request, e) (refl, refl)
  ]

  pub append_transaction-Kept :
      (t : CaptureTransaction) (c : CaptureCollector F) → Kept c (append_transaction t c).1
  unfolding append_transaction
  append_transaction-Kept t c = elim (Bool-cases (leb 4096 (length c.transactions))) [
    | inl e ↦ rw (append_transaction, e) (warn-Kept _ c)
    | inr e ↦ rw (append_transaction, e) (refl, refl)
  ]

  pub correlate-Kept :
      (id : Bytes) (index : ℕ) (timestamp : F) (c : CaptureCollector F)
      (x : Bool × CaptureCollector F)
      → Kept c x.1
      → Kept c (correlate id index timestamp x)
  correlate-Kept id index timestamp c (false, d) h = h
  correlate-Kept id index timestamp c (true, d) h = h

  pub open_transaction-Kept :
      (id : Bytes) (t : CaptureTransaction) (timestamp : F) (c : CaptureCollector F)
      → Kept c (open_transaction id t timestamp c)
  unfolding open_transaction
  open_transaction-Kept id t timestamp c = elim (Bool-cases (leb 4096 (length c.pending))) [
    | inl e ↦ rw (open_transaction, e) (warn-Kept _ c)
    | inr e ↦
        rw (open_transaction, e)
          (correlate-Kept id (length c.transactions) timestamp c (append_transaction t c)
            (append_transaction-Kept t c))
  ]

  pub patch_at-Kept :
      (i : ℕ) (f : CaptureTransaction → CaptureTransaction) (c : CaptureCollector F)
      → Kept c (patch_at i f c)
  patch_at-Kept i f c = elim (Option-cases (get_elem? c.transactions i)) [
    | inl e ↦ rw (patch_at, e) (refl, refl)
    | inr (t, e) ↦ rw (patch_at, e) (refl, refl)
  ]

  pub fail_request-Kept : (id : Bytes) (c : CaptureCollector F) → Kept c (fail_request id c)
  unfolding fail_request
  fail_request-Kept id c = (refl, refl)

module _ {F : Type 0} (lib : CaptureLibrary F) ⦃fl : Float64 F⦄ ⦃tx : Text⦄ where
  pub classify_url-Kept : (raw : Bytes) (c : CaptureCollector F) → Kept c (classify_url lib raw c).1
  unfolding classify_url
  classify_url-Kept raw c = elim (Bool-cases (is_oversized (url_class lib raw))) [
    | inl e ↦ rw (classify_url, e) (warn-Kept _ c)
    | inr e ↦ rw (classify_url, e) (refl, refl)
  ]

  pub request_of-Kept :
      (method resource_type : Bytes) (class : UrlClass) (c : CaptureCollector F)
      → Kept c (request_of lib method resource_type class c)
  request_of-Kept method resource_type (accepted url) c = append_request-Kept _ c
  request_of-Kept method resource_type rejected c = (refl, refl)
  request_of-Kept method resource_type oversized_dropped c = (refl, refl)

  pub add_classified-Kept :
      (method resource_type : Bytes) (x : UrlClass × CaptureCollector F)
      → Kept x.1 (add_classified lib method resource_type x)
  add_classified-Kept method resource_type (accepted url, c) = append_request-Kept _ c
  add_classified-Kept method resource_type (rejected, c) = (refl, refl)
  add_classified-Kept method resource_type (oversized_dropped, c) = (refl, refl)

  pub patch_pending-Kept :
      (id : Bytes) (f : F → CaptureTransaction → CaptureTransaction) (c : CaptureCollector F)
      → Kept c (patch_pending lib id f c)
  patch_pending-Kept id f c = elim (Option-cases (lookup id c.pending)) [
    | inl e ↦ rw (patch_pending, e) (refl, refl)
    | inr (p, e) ↦ rw (patch_pending, e) (patch_at-Kept p.index (f p.start_timestamp) c)
  ]

  pub begin_request-Kept :
      (id method raw resource_type : Bytes) (timestamp : F) (c : CaptureCollector F)
      → Kept c (begin_request lib id method raw resource_type timestamp c)
  unfolding begin_request
  begin_request-Kept id method raw resource_type timestamp c =
      let x = classify_url lib raw c in
      let d =
        request_of lib (clean_metadata lib method) (clean_metadata lib resource_type) x.0 x.1 in
      let t =
        opened (clean_metadata lib method) (url_or_empty lib x.0)
          (clean_metadata lib resource_type) in
      let u : Kept c d =
        Kept-trans c x.1 d (classify_url-Kept raw c) (
          request_of-Kept (clean_metadata lib method) (clean_metadata lib resource_type) x.0 x.1) in
      elim (Bool-cases (bytes_eq id [] || not (lib.is_utf8 raw))) [
        | inl e ↦ rw (begin_request, e) u
        | inr e ↦ elim (Bool-cases (is_pending (lookup id d.pending))) [
          | inl f ↦ rw (begin_request, e, f) u
          | inr f ↦
              rw (begin_request, e, f)
                (Kept-trans c d (open_transaction id t timestamp d) u
                  (open_transaction-Kept id t timestamp d))
        ]
      ]

  pub patched-Kept :
      (id : Bytes) (f : F → CaptureTransaction → CaptureTransaction) (c : CaptureCollector F)
      → Kept c (fail_request id (patch_pending lib id f c))
  patched-Kept id f c =
      let d = patch_pending lib id f c in
      Kept-trans c d (fail_request id d) (patch_pending-Kept id f c) (fail_request-Kept id d)
