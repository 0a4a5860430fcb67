-- ===== src/Browser/Capture/Items.antt =====
-- The operations of captureCollector, internal/browser/capture.go, that record what the browser reports.
use hemera.Base.{
  delete_key, ℕ, ltb, leb, Bool, true, false, ◌||◌, not, Bytes, bytes_eq, Option, some, none,
  if◌then◌else◌, [], ◌∷◌, ◌++◌, length, get_elem?, set, lookup, put,
}
use hemera.Float.{Float64}
use hemera.Text.{Text}
use hemera.Browser.Capture.{
  CaptureLibrary, CaptureTiming, CaptureTransaction, ResponseObservation, CaptureRequest,
  CaptureResponse, CaptureCollector, UrlClass, accepted, rejected, oversized_dropped,
  max_capture_items, warning_request_limit, warning_response_limit, warning_transaction_limit, warn,
  clean_metadata, classify_url, bounded_duration_ms,
}

abbrev pub is_pending : {V : Type 0} → Option V → Bool
is_pending none = false
is_pending (some _) = true

module _ {F : Type 0} where
  -- appendRequestLocked
  unfoldable pub append_request : CaptureRequest → CaptureCollector F → CaptureCollector F
  append_request r c =
      if leb max_capture_items (length c.requests)
      then warn warning_request_limit
          (record c { truncated = record (c.truncated) { requests = true } })
      else record c { requests = c.requests ++ (r ∷ []) }

  -- appendTransactionLocked
  unfoldable pub append_transaction :
      CaptureTransaction → CaptureCollector F → Bool × CaptureCollector F
  append_transaction t c =
      if leb max_capture_items (length c.transactions)
      then (false, warn warning_transaction_limit c)
      else (true, record c { transactions = c.transactions ++ (t ∷ []) })

  abbrev pub put_response : CaptureResponse → CaptureCollector F → CaptureCollector F
  put_response r c =
      if leb max_capture_items (length c.responses)
      then warn warning_response_limit
          (record c { truncated = record (c.truncated) { responses = true } })
      else record c { responses = c.responses ++ (r ∷ []) }

  -- failRequest, and `delete(c.pending, id)` of the others
  unfoldable pub fail_request : Bytes → CaptureCollector F → CaptureCollector F
  fail_request id c = record c { pending = delete_key id c.pending }

-- what follows appendTransactionLocked in beginRequest
abbrev pub correlate : {F : Type 0} → Bytes → ℕ → F → Bool × CaptureCollector F → CaptureCollector F
correlate id index timestamp (false, c) = c
correlate id index timestamp (true, c) = record c {
  pending = put id (record { index = index; start_timestamp = timestamp }) c.pending;
}

-- beginRequest after its test that the identifier is free
unfoldable pub open_transaction :
    {F : Type 0} → Bytes → CaptureTransaction → F → CaptureCollector F → CaptureCollector F
open_transaction id t timestamp c =
    if leb max_capture_items (length c.pending)
    then warn warning_transaction_limit c
    else correlate id (length c.transactions) timestamp (append_transaction t c)

abbrev no_timing : CaptureTiming
no_timing = record {
  queue_ms = 0;
  dns_ms = 0;
  connect_ms = 0;
  tls_ms = 0;
  ttfb_ms = 0;
  total_ms = 0;
}

-- a transaction of which only the request is known
abbrev pub opened : Bytes → Bytes → Bytes → CaptureTransaction
opened method url resource_type = record {
  method = method;
  url = url;
  status = 0;
  mime_type = [];
  resource_type = resource_type;
  protocol = [];
  connection_reused = false;
  wire_bytes = 0;
  timing = no_timing;
}

abbrev pub if_positive : ℕ → ℕ → ℕ
if_positive new old = if ltb 0 new then new else old

abbrev if_present : Bytes → Bytes → Bytes
if_present new old = if not (bytes_eq new []) then new else old

-- `pending.index < len(c.transactions)`, and then the change of that transaction
abbrev pub patch_at :
    {F : Type 0}
    → ℕ
    → (CaptureTransaction → CaptureTransaction)
    → CaptureCollector F
    → CaptureCollector F
patch_at i f c = elim (get_elem? c.transactions i) [
  | none ↦ c
  | some t ↦ record c { transactions = set c.transactions i (f t) }
]

module _ {F : Type 0} (lib : CaptureLibrary F) ⦃fl : Float64 F⦄ ⦃tx : Text⦄ where
  -- what follows classifyURL in addRequest
  abbrev pub add_classified : Bytes → Bytes → UrlClass × CaptureCollector F → CaptureCollector F
  add_classified method resource_type (accepted url, c) =
      append_request
        (record {
          method = clean_metadata lib method;
          url = url;
          resource_type = clean_metadata lib resource_type;
        })
        c
  add_classified method resource_type (rejected, c) = c
  add_classified method resource_type (oversized_dropped, c) = record c {
    truncated = record (c.truncated) { requests = true };
  }

  -- addRequest
  unfoldable pub add_request : Bytes → Bytes → Bytes → CaptureCollector F → CaptureCollector F
  add_request method raw_url resource_type c =
      add_classified method resource_type (classify_url lib raw_url c)

  -- what follows classifyURL in appendResponseLocked
  abbrev pub append_classified :
      ResponseObservation F → UrlClass × CaptureCollector F → CaptureCollector F
  append_classified r (accepted url, c) =
      put_response
        (record {
          url = url;
          status = r.status;
          mime_type = clean_metadata lib r.mime_type;
          resource_type = clean_metadata lib r.resource_type;
        })
        c
  append_classified r (rejected, c) = c
  append_classified r (oversized_dropped, c) = record c {
    truncated = record (c.truncated) { responses = true };
  }

  -- appendResponseLocked
  unfoldable pub append_response : ResponseObservation F → CaptureCollector F → CaptureCollector F
  append_response r c = append_classified r (classify_url lib r.raw_url c)

  -- what beginRequest does with a cleaned URL
  abbrev pub request_of : Bytes → Bytes → UrlClass → CaptureCollector F → CaptureCollector F
  request_of method resource_type class c = elim class [
    | accepted url ↦
        append_request (record { method = method; url = url; resource_type = resource_type }) c
    | rejected ↦ c
    | oversized_dropped ↦ c
  ]

  -- the first result of cleanURL
  abbrev pub url_or_empty : UrlClass → Bytes
  url_or_empty (accepted url) = url
  url_or_empty rejected = []
  url_or_empty oversized_dropped = []

  -- beginRequest
  unfoldable pub begin_request :
      Bytes → Bytes → Bytes → Bytes → F → CaptureCollector F → CaptureCollector F
  begin_request id method raw_url resource_type timestamp c =
      let clean_method = clean_metadata lib method in
      let (class, c') = classify_url lib raw_url c in
      let c'' = request_of clean_method (clean_metadata lib resource_type) class c' in
      if bytes_eq id [] || not (lib.is_utf8 raw_url)
      then c''
      else if is_pending (lookup id c''.pending)
      then c''
      else open_transaction id
          (opened clean_method (url_or_empty class) (clean_metadata lib resource_type)) timestamp
          c''

  -- patchTransactionLocked
  unfoldable pub patch_transaction :
      ResponseObservation F → F → CaptureTransaction → CaptureTransaction
  patch_transaction r start t = record t {
    status = r.status;
    mime_type = if_present (clean_metadata lib r.mime_type) t.mime_type;
    protocol = if_present (clean_metadata lib r.protocol) t.protocol;
    connection_reused = r.connection_reused;
    timing = record (t.timing) {
      dns_ms = if_positive r.timing.dns_ms t.timing.dns_ms;
      connect_ms = if_positive r.timing.connect_ms t.timing.connect_ms;
      tls_ms = if_positive r.timing.tls_ms t.timing.tls_ms;
      ttfb_ms = if_positive r.timing.ttfb_ms t.timing.ttfb_ms;
      queue_ms =
          if_positive (bounded_duration_ms lib (fl.sub r.request_time start)) t.timing.queue_ms;
    };
  }

  abbrev pub patch_total : F → F → CaptureTransaction → CaptureTransaction
  patch_total timestamp start t = record t {
    timing = record (t.timing) {
      total_ms = if_positive (bounded_duration_ms lib (fl.sub timestamp start)) t.timing.total_ms;
    };
  }

  -- the change of the transaction that an identifier is correlated with
  abbrev pub patch_pending :
      Bytes
      → (F → CaptureTransaction → CaptureTransaction)
      → CaptureCollector F
      → CaptureCollector F
  patch_pending id f c = elim (lookup id c.pending) [
    | none ↦ c
    | some p ↦ patch_at p.index (f p.start_timestamp) c
  ]

  -- observeResponse
  unfoldable pub observe_response :
      Bytes → ResponseObservation F → CaptureCollector F → CaptureCollector F
  observe_response id r c = patch_pending id (patch_transaction r) (append_response r c)

  -- observeRedirect
  unfoldable pub observe_redirect :
      Bytes → ResponseObservation F → F → CaptureCollector F → CaptureCollector F
  observe_redirect id r timestamp c = fail_request id (
      patch_pending id (λ start t. patch_total timestamp start (patch_transaction r start t))
        (append_response r c))

  -- finishRequest
  unfoldable pub finish_request : Bytes → ℕ → F → CaptureCollector F → CaptureCollector F
  finish_request id wire_bytes timestamp c = fail_request id (
      patch_pending id
        (λ start t.
          patch_total timestamp start
            (record t { wire_bytes = if_positive wire_bytes t.wire_bytes }))
        c)
