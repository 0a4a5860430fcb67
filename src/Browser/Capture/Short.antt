-- ===== src/Browser/Capture/Short.antt =====
-- The size of the URLs that classifyURL of internal/browser/capture.go accepts.
use hemera.Base.{◌≤◌, Bytes, Option, some, none, length, arith}
use hemera.Text.{Text}
use hemera.Browser.Capture.{
  CaptureLibrary, CaptureCollector, WebUrl, UrlClass, accepted, rejected, oversized_dropped,
  url_class, class_of_parsed, classify_url,
}

-- An accepted URL is within the limit.
abbrev pub IsShort : UrlClass → Type 0
IsShort (accepted url) = length url ≤ 8192
IsShort rejected = Unit
IsShort oversized_dropped = Unit

module _ {F : Type 0} (lib : CaptureLibrary F) ⦃tx : Text⦄ where
  class_of_parsed-IsShort : (o : Option WebUrl) → IsShort (class_of_parsed lib o)
  class_of_parsed-IsShort none = tt
  class_of_parsed-IsShort (some u) = ground arith

  pub url_class-IsShort : (raw : Bytes) → IsShort (url_class lib raw)
  unfolding url_class
  url_class-IsShort raw = ground (arith, class_of_parsed-IsShort (lib.parse raw))

  pub classify_url-IsShort :
      (raw : Bytes) (c : CaptureCollector F) → IsShort (classify_url lib raw c).0
  unfolding classify_url
  classify_url-IsShort raw c = url_class-IsShort raw
