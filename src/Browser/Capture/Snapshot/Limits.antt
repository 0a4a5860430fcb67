-- ===== src/Browser/Capture/Snapshot/Limits.antt =====
-- The limits of the result of snapshotBounded, internal/browser/capture.go.
use hemera.Base.{
  ℕ, zero, suc, ◌≤◌, ltb, ◌==◌, ◌≡◌, refl, sym, subst, inl, inr, Bool, Bytes, if◌then◌else◌, List,
  [], ◌∷◌, length, length-append, take, All, All-append, Bool-cases, arith,
}
use hemera.Text.{Text}
use hemera.Browser.Capture.{
  CaptureLibrary, CaptureCollector, CaptureTransaction, UrlClass, accepted, rejected,
  oversized_dropped, classify_url,
}
use hemera.Browser.Capture.Bounds.{IsBounded}
use hemera.Browser.Capture.Short.{IsShort, classify_url-IsShort}
use hemera.Browser.Capture.Snapshot.{
  BoundedDomSnapshot, CaptureResult, rune_limit, truncate_utf8, insert_transaction,
  sorted_transactions, Cleaned, clean_one, clean_resource_urls, bounded_dom, snapshot_bounded,
}
use hemera.Browser.Capture.Snapshot.Cookies.{CaptureCookie, sort_cookies, cookie_set}

length-take : {A : Type 0} (n : ℕ) (xs : List A) → length (take n xs) ≤ n
length-take zero xs = omega arith
length-take (suc n) [] = omega arith
length-take (suc n) (x ∷ xs) = omega (arith, length-take n xs)

rune_limit_le : (value : Bytes) (n : ℕ) → rune_limit value n ≤ n
unfolding rune_limit
rune_limit_le value zero = omega arith
rune_limit_le value (suc n) = ground (arith, rune_limit_le value n)

length-truncate_utf8 : (value : Bytes) (n : ℕ) → length (truncate_utf8 value n) ≤ n
unfolding truncate_utf8
length-truncate_utf8 value n =
    ground (arith, rune_limit_le value n, length-take (rune_limit value n) value)

length-insert_transaction :
    (t : CaptureTransaction) (ts : List CaptureTransaction)
    → length (insert_transaction t ts) ≡ suc (length ts)
unfolding insert_transaction
length-insert_transaction t [] = refl
length-insert_transaction t (s ∷ ss) = ground (arith, length-insert_transaction t ss)

length-sorted_transactions :
    (ts : List CaptureTransaction) → length (sorted_transactions ts) ≡ length ts
unfolding sorted_transactions
length-sorted_transactions [] = refl
length-sorted_transactions (t ∷ ts) =
    omega
      (arith, length-insert_transaction t (sorted_transactions ts), length-sorted_transactions ts)

-- At most 4096 URLs, each within its limit.
abbrev pub AreUrls : List Bytes → Type 0
AreUrls urls = (length urls ≤ 4096) × All (λ u. length u ≤ 8192) urls

module _ {F : Type 0} (lib : CaptureLibrary F) ⦃tx : Text⦄ where
  clean_one-AreUrls :
      (w : Bytes) (x : UrlClass × CaptureCollector F) (st : Cleaned F)
      → IsShort x.0
      → AreUrls st.urls
      → AreUrls (clean_one lib w x st).urls
  clean_one-AreUrls w (accepted url, c) st short (n, all) =
      elim (Bool-cases (length st.urls == 4096)) [
        | inl e ↦ rw (clean_one, e) (n, all)
        | inr e ↦
            rw (clean_one, e)
              (
                ground (arith, length-append st.urls (url ∷ [])),
                All-append _ st.urls (url ∷ []) all (short, tt),
              )
      ]
  clean_one-AreUrls w (rejected, c) st short v = v
  clean_one-AreUrls w (oversized_dropped, c) st short v = v

  clean_resource_urls-AreUrls :
      (w : Bytes) (raws : List Bytes) (st : Cleaned F)
      → AreUrls st.urls
      → AreUrls (clean_resource_urls lib w raws st).urls
  unfolding clean_resource_urls
  clean_resource_urls-AreUrls w [] st v = v
  clean_resource_urls-AreUrls w (raw ∷ raws) st v = clean_resource_urls-AreUrls w raws _ (
      clean_one-AreUrls w (classify_url lib raw st.collector) st
        (classify_url-IsShort lib raw st.collector) v)

  length-bounded_dom :
      (is_ip : Bytes → Bool) (dom : Bytes) → length (bounded_dom lib is_ip dom) ≤ 2097152
  length-bounded_dom is_ip dom = ground (arith, length-truncate_utf8 dom 2097152)

cut_le :
    {A : Type 0} (n : ℕ) (xs : List A) → length (if ltb n (length xs) then take n xs else xs) ≤ n
cut_le n xs = ground (arith, length-take n xs)

-- The limits of a result.
pub record IsLimited (r : CaptureResult) : Type 0 where
  pub requests_le : length r.requests ≤ 4096
  pub responses_le : length r.responses ≤ 4096
  pub transactions_le : length r.transactions ≤ 4096
  pub cookies_le : length r.cookies ≤ 4096
  pub dom_le : length r.dom ≤ 2097152
  pub scripts : AreUrls r.script_urls
  pub iframes : AreUrls r.iframe_urls
  pub request_urls : All (λ x. length x.url ≤ 8192) r.requests
  pub response_urls : All (λ x. length x.url ≤ 8192) r.responses

module _ {F : Type 0} (lib : CaptureLibrary F) (is_ip : Bytes → Bool) ⦃tx : Text⦄ where
  -- From a collector within its limits, whatever the page yields, the result of snapshotBounded has
  -- at most 4096 requests, responses, transactions, script URLs, iframe URLs and cookies, a text of
  -- at most 2 MiB, and no URL of a request, a response, a script or an iframe above 8192 bytes.
  pub snapshot_bounded-IsLimited :
      (final_url : Bytes) (s : BoundedDomSnapshot) (cookies : List CaptureCookie)
      (c : CaptureCollector F)
      → IsBounded c
      → IsLimited (snapshot_bounded lib is_ip final_url s cookies c).0
  unfolding snapshot_bounded
  snapshot_bounded-IsLimited final_url s cookies c v = record {
    requests_le = v.requests_le;
    responses_le = v.responses_le;
    transactions_le =
        subst (λ n. n ≤ 4096) (sym (length-sorted_transactions c.transactions)) v.transactions_le;
    cookies_le = cut_le 4096 (sort_cookies (cookie_set lib is_ip cookies));
    dom_le = length-bounded_dom lib is_ip s.dom;
    scripts = clean_resource_urls-AreUrls lib _ s.script_urls _ (omega arith, tt);
    iframes = clean_resource_urls-AreUrls lib _ s.iframe_urls _ (omega arith, tt);
    request_urls = v.request_urls;
    response_urls = v.response_urls;
  }
