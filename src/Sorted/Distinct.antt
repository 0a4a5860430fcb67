-- ===== src/Sorted/Distinct.antt =====
-- deduplicateSorted against its purpose: the distinct members, in ascending order.
use hemera.Base.{
  ◌≡◌, ◌∙◌, ap, subst, ◌↔◌, ◌⊎◌, inl, inr, true, false, Bytes, bytes_eq_iff, bytes_eq→eq, bytes_lt,
  Option, some, none, List, [], ◌∷◌, All, All-In, All-of_In, All-map_imp, In, Bool-cases, arith,
}
use mathlib.Core.Option.{some-injective}
use hemera.Sorted.{insert_string, sort_strings, repeats, drop_repeats, deduplicate_sorted}
use hemera.Sorted.Order.{
  bytes_lt_trans, bytes_lt_total, bytes_lt_asymm, not_lt_trans, IsSorted, IsAscending,
}

In-insert_string : (a s : Bytes) (ts : List Bytes) → In a (insert_string s ts) ↔ In a (s ∷ ts)
unfolding insert_string
In-insert_string a s [] = (λ h. h, λ h. h)
In-insert_string a s (t ∷ ts) =
    let (f, g) = In-insert_string a s ts in
    elim (Bool-cases (bytes_lt t s)) [
      | inl e ↦
          rw (e, insert_string)
            (
              (λ h. elim h [
                | inl x ↦ inr (inl x)
                | inr y ↦ elim (f y) [ inl x ↦ inl x | inr z ↦ inr (inr z) ]
              ]),
              (λ h. elim h [
                | inl x ↦ inr (g (inl x))
                | inr y ↦ elim y [ inl x ↦ inl x | inr z ↦ inr (g (inr z)) ]
              ]),
            )
      | inr e ↦ rw (e, insert_string) (λ h. h, λ h. h)
    ]

pub In-sort_strings : (a : Bytes) (xs : List Bytes) → In a (sort_strings xs) ↔ In a xs
unfolding sort_strings
In-sort_strings a [] = (λ h. h, λ h. h)
In-sort_strings a (x ∷ xs) =
    let (f, g) = In-insert_string a x (sort_strings xs) in
    let (f', g') = In-sort_strings a xs in
    (
      (λ h. elim (f h) [ inl e ↦ inl e | inr i ↦ inr (f' i) ]),
      (λ h. elim h [ inl e ↦ g (inl e) | inr i ↦ g (inr (g' i)) ]),
    )

insert_string-IsSorted : (s : Bytes) (ts : List Bytes) → IsSorted ts → IsSorted (insert_string s ts)
unfolding insert_string
insert_string-IsSorted s [] v = (tt, tt)
insert_string-IsSorted s (t ∷ ts) (first, v) = elim (Bool-cases (bytes_lt t s)) [
  | inl e ↦
      let above =
        λ (y : Bytes) (i : In y (insert_string s ts)). below y ((In-insert_string y s ts).0 i) e in
      rw (e, insert_string) (All-of_In _ (insert_string s ts) above, insert_string-IsSorted s ts v)
  | inr e ↦
      rw (e, insert_string)
        ((e, All-map_imp _ _ ts (λ y h. not_lt_trans s t y e h) first), (first, v))
]
  where
    below : (y : Bytes) → In y (s ∷ ts) → bytes_lt t s ≡ true → bytes_lt y t ≡ false
    below y (inl same) e = subst (λ z. bytes_lt z t ≡ false) same (bytes_lt_asymm t s e)
    below y (inr i) e = All-In (λ z. bytes_lt z t ≡ false) y ts first i

sort_strings-IsSorted : (xs : List Bytes) → IsSorted (sort_strings xs)
unfolding sort_strings
sort_strings-IsSorted [] = tt
sort_strings-IsSorted (x ∷ xs) =
    insert_string-IsSorted x (sort_strings xs) (sort_strings-IsSorted xs)

abbrev Above : Option Bytes → Bytes → Type 0
Above none y = Unit
Above (some l) y = bytes_lt l y ≡ true

abbrev NotBelow : Option Bytes → Bytes → Type 0
NotBelow none y = Unit
NotBelow (some l) y = bytes_lt y l ≡ false

new-Above :
    (last : Option Bytes) (x : Bytes) → NotBelow last x → repeats last x ≡ false → Above last x
new-Above none x h e = tt
new-Above (some l) x h e = bytes_lt_total x l h (λ same. unequal same)
  where
    unequal : x ≡ l → ⊥
    unequal same = ground (arith, bytes_eq_iff l x, e)

Above-trans :
    (last : Option Bytes) (x y : Bytes) → Above last x → bytes_lt x y ≡ true → Above last y
Above-trans none x y h k = tt
Above-trans (some l) x y h k = bytes_lt_trans l x y h k

drop_repeats-IsAscending :
    (last : Option Bytes) (xs : List Bytes)
    → All (NotBelow last) xs
    → IsSorted xs
    → All (Above last) (drop_repeats last xs) × IsAscending (drop_repeats last xs)
unfolding drop_repeats
drop_repeats-IsAscending last [] h v = (tt, tt)
drop_repeats-IsAscending last (x ∷ xs) (h, hs) (first, v) = elim (Bool-cases (repeats last x)) [
  | inl e ↦ rw (e, drop_repeats) (drop_repeats-IsAscending last xs hs v)
  | inr e ↦
      let (above, ascending) = drop_repeats-IsAscending (some x) xs first v in
      let here = new-Above last x h e in
      rw (e, drop_repeats)
        ((here, All-map_imp _ _ _ (λ y k. Above-trans last x y here k) above), (above, ascending))
]

In-drop_repeats :
    (a : Bytes) (last : Option Bytes) (xs : List Bytes)
    → (In a (drop_repeats last xs) → In a xs)
      × (In a xs → (last ≡ some a) ⊎ In a (drop_repeats last xs))
unfolding drop_repeats
In-drop_repeats a last [] = (λ h. h, λ h. absurd h)
In-drop_repeats a last (x ∷ xs) = elim (Bool-cases (repeats last x)) [
  | inl e ↦
      let (f, g) = In-drop_repeats a last xs in
      rw (e, drop_repeats)
        (
          (λ h. inr (f h)),
          (λ h. elim h [ inl same ↦ inl (known last e ∙ ap some same) | inr i ↦ g i ]),
        )
  | inr e ↦
      let (f, g) = In-drop_repeats a (some x) xs in
      rw (e, drop_repeats)
        (
          (λ h. elim h [ inl same ↦ inl same | inr i ↦ inr (f i) ]),
          (λ h. elim h [
            | inl same ↦ inr (inl same)
            | inr i ↦ elim (g i) [
              | inl same ↦ inr (inl (some-injective _ _ same))
              | inr j ↦ inr (inr j)
            ]
          ]),
        )
]
  where
    known : (last : Option Bytes) → repeats last x ≡ true → last ≡ some x
    known none e = cc
    known (some l) e = ap some (bytes_eq→eq l x e)

In-deduplicate_sorted : (a : Bytes) (xs : List Bytes) → In a (deduplicate_sorted xs) ↔ In a xs
unfolding deduplicate_sorted
In-deduplicate_sorted a xs =
    let (f, g) = In-drop_repeats a none (sort_strings xs) in
    let (f', g') = In-sort_strings a xs in
    (λ h. f' (f h), λ h. elim (g (g' h)) [ inl e ↦ cc | inr i ↦ i ])

-- deduplicateSorted gives a strictly ascending list with exactly the members of its argument.
pub deduplicate_sorted-IsAscending :
    (xs : List Bytes)
    → IsAscending (deduplicate_sorted xs) × ((a : Bytes) → In a (deduplicate_sorted xs) ↔ In a xs)
unfolding deduplicate_sorted
deduplicate_sorted-IsAscending xs = (
  (drop_repeats-IsAscending none (sort_strings xs) (All-of_In _ _ (λ a i. tt))
      (sort_strings-IsSorted xs)).1,
  λ a. In-deduplicate_sorted a xs,
)
