-- ===== src/Browser/Capture/Bounds.antt =====
-- Histories of captureCollector, internal/browser/capture.go: its limits.
pub mod Entries
use hemera.Base.{
  delete_key, Unique-snoc, ℕ, zero, suc, ◌+◌, ◌≤◌, ◌<◌, ltb, leb, ◌≡◌, refl, sym, ◌∙◌, ap, subst,
  ◌⊎◌, inl, inr, Bool, true, false, ◌||◌, not, Bytes, bytes_eq, has, In→has, Option, some, none,
  if◌then◌else◌, List, [], ◌∷◌, ◌++◌, length, length-append, length-set, get_elem?, set, All,
  All-append, All-map_imp, In, In-append, Unique, Table, lookup, put, Bool-cases, Option-cases,
  arith,
}
use hemera.Float.{Float64}
use hemera.Text.{Text}
use hemera.Browser.Capture.{
  CaptureLibrary, CaptureCollector, ChannelTruncation, CaptureTransaction, ResponseObservation,
  CaptureRequest, CaptureResponse, PendingTransaction, UrlClass, accepted, rejected,
  oversized_dropped, is_oversized, new_collector, max_capture_items, max_browser_url_bytes,
  warning_request_limit, warning_response_limit, warning_url_limit, warning_transaction_limit, warn,
  url_class, class_of_parsed, classify_url, clean_metadata,
}
use hemera.Browser.Capture.Items.{
  append_request, append_transaction, append_response, put_response, add_classified,
  append_classified, request_of, open_transaction, correlate, add_request, begin_request,
  is_pending, opened, fail_request, patch_at, patch_pending, observe_response, observe_redirect,
  finish_request,
}
use hemera.Browser.Capture.Bounds.Entries.{
  below, length-put_new, All-put, length-delete_key, All-delete_key,
}

-- The limits of a collector.
pub record IsBounded {F : Type 0} (c : CaptureCollector F) : Type 0 where
  pub requests_le : length c.requests ≤ 4096
  pub responses_le : length c.responses ≤ 4096
  pub transactions_le : length c.transactions ≤ 4096
  pub pending_le : length c.pending ≤ 4096
  pub correlated : All (λ e. e.1.index < length c.transactions) c.pending
  pub request_urls : All (λ r. length r.url ≤ 8192) c.requests
  pub response_urls : All (λ r. length r.url ≤ 8192) c.responses
  pub warnings_unique : Unique c.warnings
  pub warnings_warned : (w : Bytes) → In w c.warnings → In w c.warned

module _ {F : Type 0} where
  pub warn-IsBounded : (w : Bytes) (c : CaptureCollector F) → IsBounded c → IsBounded (warn w c)
  unfolding warn
  warn-IsBounded w c v = elim (Bool-cases (has w c.warned)) [
    | inl e ↦ rw (warn, e) v
    | inr e ↦
        rw (warn, e)
          (record {
            requests_le = v.requests_le;
            responses_le = v.responses_le;
            transactions_le = v.transactions_le;
            pending_le = v.pending_le;
            correlated = v.correlated;
            request_urls = v.request_urls;
            response_urls = v.response_urls;
            warnings_unique =
                Unique-snoc w c.warnings v.warnings_unique
                  (λ i. cc (In→has w c.warned (v.warnings_warned w i), e));
            warnings_warned = λ x i. elim (In-append x c.warnings (w ∷ []) i) [
              | inl j ↦ inr (v.warnings_warned x j)
              | inr j ↦ elim j [ inl same ↦ inl same | inr z ↦ absurd z ]
            ];
          })
  ]

  abbrev pub set_truncated : ChannelTruncation → CaptureCollector F → CaptureCollector F
  set_truncated t c = record c { truncated = t }

  pub set_truncated-IsBounded :
      (t : ChannelTruncation) (c : CaptureCollector F) → IsBounded c → IsBounded (set_truncated t c)
  set_truncated-IsBounded t c v = record {
    requests_le = v.requests_le;
    responses_le = v.responses_le;
    transactions_le = v.transactions_le;
    pending_le = v.pending_le;
    correlated = v.correlated;
    request_urls = v.request_urls;
    response_urls = v.response_urls;
    warnings_unique = v.warnings_unique;
    warnings_warned = v.warnings_warned;
  }

  pub append_request-IsBounded :
      (r : CaptureRequest) (c : CaptureCollector F)
      → length r.url ≤ 8192
      → IsBounded c
      → IsBounded (append_request r c)
  unfolding append_request
  append_request-IsBounded r c short v = elim (Bool-cases (leb 4096 (length c.requests))) [
    | inl e ↦ rw (append_request, e) (warn-IsBounded _ _ (set_truncated-IsBounded _ c v))
    | inr e ↦
        rw (append_request, e)
          (record {
            requests_le = omega (arith, length-append c.requests (r ∷ []), below _ e);
            responses_le = v.responses_le;
            transactions_le = v.transactions_le;
            pending_le = v.pending_le;
            correlated = v.correlated;
            request_urls = All-append _ c.requests (r ∷ []) v.request_urls (short, tt);
            response_urls = v.response_urls;
            warnings_unique = v.warnings_unique;
            warnings_warned = v.warnings_warned;
          })
  ]

  pub put_response-IsBounded :
      (r : CaptureResponse) (c : CaptureCollector F)
      → length r.url ≤ 8192
      → IsBounded c
      → IsBounded (put_response r c)
  put_response-IsBounded r c short v = elim (Bool-cases (leb 4096 (length c.responses))) [
    | inl e ↦ rw e (warn-IsBounded _ _ (set_truncated-IsBounded _ c v))
    | inr e ↦ rw e (record {
      requests_le = v.requests_le;
      responses_le = omega (arith, length-append c.responses (r ∷ []), below _ e);
      transactions_le = v.transactions_le;
      pending_le = v.pending_le;
      correlated = v.correlated;
      request_urls = v.request_urls;
      response_urls = All-append _ c.responses (r ∷ []) v.response_urls (short, tt);
      warnings_unique = v.warnings_unique;
      warnings_warned = v.warnings_warned;
    })
  ]

  pub fail_request-IsBounded :
      (id : Bytes) (c : CaptureCollector F) → IsBounded c → IsBounded (fail_request id c)
  unfolding fail_request
  fail_request-IsBounded id c v = record {
    requests_le = v.requests_le;
    responses_le = v.responses_le;
    transactions_le = v.transactions_le;
    pending_le = omega (arith, length-delete_key id c.pending, v.pending_le);
    correlated = All-delete_key _ id c.pending v.correlated;
    request_urls = v.request_urls;
    response_urls = v.response_urls;
    warnings_unique = v.warnings_unique;
    warnings_warned = v.warnings_warned;
  }

  pub patch_at-IsBounded :
      (i : ℕ) (f : CaptureTransaction → CaptureTransaction) (c : CaptureCollector F)
      → IsBounded c
      → IsBounded (patch_at i f c)
  patch_at-IsBounded i f c v = elim (Option-cases (get_elem? c.transactions i)) [
    | inl e ↦ rw (patch_at, e) v
    | inr (t, e) ↦
        rw (patch_at, e)
          (let same = length-set c.transactions i (f t) in
            record {
              requests_le = v.requests_le;
              responses_le = v.responses_le;
              transactions_le = subst (λ n. n ≤ 4096) (sym same) v.transactions_le;
              pending_le = v.pending_le;
              correlated = subst (λ n. All (λ e. e.1.index < n) c.pending) (sym same) v.correlated;
              request_urls = v.request_urls;
              response_urls = v.response_urls;
              warnings_unique = v.warnings_unique;
              warnings_warned = v.warnings_warned;
            })
  ]

  append_transaction-IsBounded :
      (t : CaptureTransaction) (c : CaptureCollector F)
      → IsBounded c
      → IsBounded (append_transaction t c).1
        × (((append_transaction t c).0 ≡ true)
            → (length c.transactions < length (append_transaction t c).1.transactions)
              × ((append_transaction t c).1.pending ≡ c.pending))
  unfolding append_transaction
  append_transaction-IsBounded t c v = elim (Bool-cases (leb 4096 (length c.transactions))) [
    | inl e ↦ rw (append_transaction, e) (warn-IsBounded _ c v, λ z. cc)
    | inr e ↦
        rw (append_transaction, e)
          (
            (record {
              requests_le = v.requests_le;
              responses_le = v.responses_le;
              transactions_le = omega (arith, length-append c.transactions (t ∷ []), below _ e);
              pending_le = v.pending_le;
              correlated =
                  All-map_imp _ _ c.pending
                    (λ p h. omega (arith, h, length-append c.transactions (t ∷ []))) v.correlated;
              request_urls = v.request_urls;
              response_urls = v.response_urls;
              warnings_unique = v.warnings_unique;
              warnings_warned = v.warnings_warned;
            }),
            λ z. (omega (arith, length-append c.transactions (t ∷ [])), refl),
          )
  ]

  correlate-IsBounded :
      (id : Bytes) (index : ℕ) (timestamp : F) (x : Bool × CaptureCollector F)
      → IsBounded x.1
      → (x.0 ≡ true → (index < length x.1.transactions) × (length x.1.pending < 4096))
      → IsBounded (correlate id index timestamp x)
  correlate-IsBounded id index timestamp (false, c) v h = v
  correlate-IsBounded id index timestamp (true, c) v h =
      let (known, room) = h refl in
      record {
        requests_le = v.requests_le;
        responses_le = v.responses_le;
        transactions_le = v.transactions_le;
        pending_le = omega (
          arith,
          length-put_new id (record { index = index; start_timestamp = timestamp }) c.pending,
          room,
        );
        correlated =
            All-put _ id (record { index = index; start_timestamp = timestamp }) c.pending
              (λ j. known) v.correlated;
        request_urls = v.request_urls;
        response_urls = v.response_urls;
        warnings_unique = v.warnings_unique;
        warnings_warned = v.warnings_warned;
      }

  pub open_transaction-IsBounded :
      (id : Bytes) (t : CaptureTransaction) (timestamp : F) (c : CaptureCollector F)
      → IsBounded c
      → IsBounded (open_transaction id t timestamp c)
  unfolding open_transaction
  open_transaction-IsBounded id t timestamp c v = elim (Bool-cases (leb 4096 (length c.pending))) [
    | inl e ↦ rw (open_transaction, e) (warn-IsBounded _ c v)
    | inr e ↦
        let (w, f) = append_transaction-IsBounded t c v in
        rw (open_transaction, e)
          (correlate-IsBounded id (length c.transactions) timestamp (append_transaction t c) w
            (λ stored.
              let (known, same) = f stored in
              (known, subst (λ p. length p < 4096) (sym same) (below _ e))))
  ]
