-- ===== src/Sorted.antt =====
-- sort.Strings of Go's standard library, and deduplicateSorted, of which internal/rules
-- (condition_coverage.go) and internal/scanner (scanner.go) have one copy each.
pub mod Order
pub mod Distinct
use hemera.Base.{
  Bool, true, false, Bytes, bytes_eq, bytes_lt, Option, some, none, List, [], ◌∷◌, if◌then◌else◌,
}

unfoldable pub insert_string : Bytes → List Bytes → List Bytes
insert_string s [] = s ∷ []
insert_string s (t ∷ ts) = if bytes_lt t s then t ∷ insert_string s ts else s ∷ t ∷ ts

-- sort.Strings
unfoldable pub sort_strings : List Bytes → List Bytes
unfolding insert_string
sort_strings [] = []
sort_strings (s ∷ ss) = insert_string s (sort_strings ss)

-- `len(result) > 0 && result[len(result)-1] == item`
abbrev pub repeats : Option Bytes → Bytes → Bool
repeats none item = false
repeats (some last) item = bytes_eq last item

-- the loop of deduplicateSorted, after `last`
unfoldable pub drop_repeats : Option Bytes → List Bytes → List Bytes
drop_repeats last [] = []
drop_repeats last (item ∷ items) =
    let rest = drop_repeats (if repeats last item then last else some item) items in
    if repeats last item then rest else item ∷ rest

-- deduplicateSorted
unfoldable pub deduplicate_sorted : List Bytes → List Bytes
unfolding sort_strings drop_repeats
deduplicate_sorted items = drop_repeats none (sort_strings items)
