-- ===== src/Scanner/Pages.antt =====
-- internal/scanner/multipage.go: one scan for each of a list of pages. `page i` is the world that the
-- i-th scan meets, `before i` the error of the context ahead of it, counted from 0.
use hemera.Base.{
  ℕ, zero, suc, ◌≤◌, ltb, ◌≡◌, refl, ap, ◌↔◌, Bool, true, false, Bytes, Option, some, none, Result,
  ok, err, if◌then◌else◌, List, [], ◌∷◌, length, take, ◌==◌, arith,
}
use hemera.Float.{Float64}
use hemera.Text.{Text}
use hemera.Scanner.{Scanner}
use hemera.Scanner.Run.{Moment, ScanError}
use hemera.Scanner.Scan.{ScanResult, scan}

abbrev max_pages : ℕ
max_pages = 10

pub record PageResult (E F : Type 0) : Type 0 where
  pub url : Bytes
  pub outcome : Result (ScanError E) (ScanResult E F)

pub data PagesError (E : Type 0) : Type 0 where
  no_pages : PagesError E
  page_limit : ℕ → PagesError E
  canceled_before : Bytes → E → PagesError E

abbrev has_failed : {E A : Type 0} → Result E A → Bool
has_failed (ok _) = false
has_failed (err _) = true

-- MultiResult.FailedPages
unfoldable pub failed_pages : {E F : Type 0} → List (PageResult E F) → ℕ
failed_pages [] = 0
failed_pages (p ∷ ps) = if has_failed p.outcome then suc (failed_pages ps) else failed_pages ps

module _ {W E F : Type 0} ⦃fl : Float64 F⦄ ⦃tx : Text⦄ (s : Scanner W E F)
    (ctx : W → Moment → Option E) (page : ℕ → W) (before : ℕ → Option E) where
  abbrev pub scan_page : ℕ → Bytes → PageResult E F
  scan_page i url = record { url = url; outcome = (scan s ctx (page i) url).1 }

  -- the loop over the pages
  unfoldable pub scan_each : ℕ → List Bytes → List (PageResult E F) × Option (PagesError E)
  scan_each i [] = ([], none)
  scan_each i (url ∷ urls) = elim (before i) [
    | some e ↦ ([], some (canceled_before url e))
    | none ↦ let (pages, e) = scan_each (suc i) urls in (scan_page i url ∷ pages, e)
  ]

  -- ScanPages: the pages, and the error of the whole
  unfoldable pub scan_pages : List Bytes → List (PageResult E F) × Option (PagesError E)
  scan_pages urls =
      if length urls == 0
      then ([], some no_pages)
      else if ltb max_pages (length urls)
      then ([], some (page_limit (length urls)))
      else scan_each 0 urls

  -- One scan for each page.
  abbrev pub every_page : ℕ → List Bytes → List (PageResult E F)
  every_page i [] = []
  every_page i (url ∷ urls) = scan_page i url ∷ every_page (suc i) urls

  -- The context first has an error ahead of page `k`, or never, and then `k` is the number of pages.
  abbrev pub StopsAt : ℕ → ℕ → List Bytes → Type 0
  StopsAt i k [] = k ≡ 0
  StopsAt i zero (url ∷ urls) = (e : E) × (before i ≡ some e)
  StopsAt i (suc k) (url ∷ urls) = (before i ≡ none) × StopsAt (suc i) k urls

  abbrev Scans : ℕ → List Bytes → List (PageResult E F) × Option (PagesError E) → ℕ → Type 0
  Scans i urls (pages, e) k =
      (pages ≡ take k (every_page i urls)) × ((e ≡ none) ↔ (k ≡ length urls))

  scan_each-Scans :
      (i k : ℕ) (urls : List Bytes) → StopsAt i k urls → Scans i urls (scan_each i urls) k
  unfolding scan_each
  scan_each-Scans i k [] h = rw h (refl, ((λ e. refl), (λ e. refl)))
  scan_each-Scans i zero (url ∷ urls) (e, stop) =
      rw (stop, scan_each) (refl, ((λ x. cc), (λ x. absurd (omega arith))))
  scan_each-Scans i (suc k) (url ∷ urls) (go_on, h) =
      let (pages, (f, g)) = scan_each-Scans (suc i) k urls h in
      rw (go_on, scan_each)
        (ap (λ x. scan_page i url ∷ x) pages, ((λ e. ap suc (f e)), (λ x. g (omega arith))))

  -- On one to ten pages, ScanPages returns one outcome, that of its own scan, for each page ahead
  -- of which the context has no error, in order and up to the first that has one, whatever the
  -- scans return; and it has no error exactly if these are all the pages.
  pub scan_pages-prefix :
      (urls : List Bytes) (k : ℕ)
      → 1 ≤ length urls
      → length urls ≤ 10
      → StopsAt 0 k urls
      → ((scan_pages urls).0 ≡ take k (every_page 0 urls))
        × (((scan_pages urls).1 ≡ none) ↔ (k ≡ length urls))
  unfolding scan_pages
  scan_pages-prefix urls k some_page few h =
      let present : (length urls == 0) ≡ false = ground arith in
      let within : ltb max_pages (length urls) ≡ false = ground arith in
      rw (present, within) (scan_each-Scans 0 k urls h)
