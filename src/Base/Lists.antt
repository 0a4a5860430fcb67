-- ===== src/Base/Lists.antt =====
-- Lists over the native numbers: lengths, positions, and predicates on all members.
use Prim.Native.Nat.{ℕ, zero, suc, ◌+◌, ◌<◌}
use mathlib.Core.Path.{◌≡◌, refl, sym, ap, subst}
use hemera.Base.Tests.{◌==◌, if◌then◌else◌}
use mathlib.Core.Logic.{◌⊎◌, inl, inr}
use mathlib.Core.Option.{Option, none, some}
use mathlib.Core.List.{List, [], ◌∷◌, ◌++◌, map}
use mathlib.Core.Option.{some-injective}
use native.Mathlib.Omega.{arith}

module _ {ℓ} {A : Type ℓ} where
  abbrev pub length : List A → ℕ
  length [] = 0
  length (x ∷ xs) = suc (length xs)

  abbrev pub get_elem? : List A → ℕ → Option A
  get_elem? [] i = none
  get_elem? (x ∷ xs) zero = some x
  get_elem? (x ∷ xs) (suc i) = get_elem? xs i

  -- A write out of bounds changes nothing.
  abbrev pub set : List A → ℕ → A → List A
  set [] i v = []
  set (x ∷ xs) zero v = v ∷ xs
  set (x ∷ xs) (suc i) v = x ∷ set xs i v

  abbrev pub drop : ℕ → List A → List A
  drop zero xs = xs
  drop (suc n) [] = []
  drop (suc n) (x ∷ xs) = drop n xs

  abbrev pub take : ℕ → List A → List A
  take zero xs = []
  take (suc n) [] = []
  take (suc n) (x ∷ xs) = x ∷ take n xs

  pub length-append : (xs ys : List A) → length (xs ++ ys) ≡ length xs + length ys
  length-append [] ys = omega arith
  length-append (x ∷ xs) ys = omega (arith, length-append xs ys)

  abbrev pub All {κ} : (A → Type κ) → List A → Type κ
  All P [] = Unit
  All P (x ∷ xs) = P x × All P xs

  pub All-append {κ} : (P : A → Type κ) (xs ys : List A) → All P xs → All P ys → All P (xs ++ ys)
  All-append P [] ys _ q = q
  All-append P (x ∷ xs) ys (p, ps) q = (p, All-append P xs ys ps q)

  pub All-map_imp {κ μ} :
      (P : A → Type κ) (Q : A → Type μ) (xs : List A) → ((x : A) → P x → Q x) → All P xs → All Q xs
  All-map_imp P Q [] f _ = tt
  All-map_imp P Q (x ∷ xs) f (p, ps) = (f x p, All-map_imp P Q xs f ps)

-- Membership, as a type by recursion that the tactics take apart.
abbrev pub In : {A : Type 0} → A → List A → Type 0
In a [] = ⊥
In a (x ∷ xs) = (x ≡ a) ⊎ In a xs

pub In-append : {A : Type 0} (a : A) (xs ys : List A) → In a (xs ++ ys) → In a xs ⊎ In a ys
In-append a [] ys h = inr h
In-append a (x ∷ xs) ys (inl e) = inl (inl e)
In-append a (x ∷ xs) ys (inr h) = elim (In-append a xs ys h) [ inl p ↦ inl (inr p) | inr q ↦ inr q ]

pub In-append_left : {A : Type 0} (a : A) (xs ys : List A) → In a xs → In a (xs ++ ys)
In-append_left a [] ys h = absurd h
In-append_left a (x ∷ xs) ys (inl e) = inl e
In-append_left a (x ∷ xs) ys (inr h) = inr (In-append_left a xs ys h)

pub In-append_right : {A : Type 0} (a : A) (xs ys : List A) → In a ys → In a (xs ++ ys)
In-append_right a [] ys h = h
In-append_right a (x ∷ xs) ys h = inr (In-append_right a xs ys h)

pub All-In : {A : Type 0} (P : A → Type 0) (a : A) (xs : List A) → All P xs → In a xs → P a
All-In P a [] h i = absurd i
All-In P a (x ∷ xs) (p, ps) (inl e) = subst P e p
All-In P a (x ∷ xs) (p, ps) (inr i) = All-In P a xs ps i

pub All-of_In : {A : Type 0} (P : A → Type 0) (xs : List A) → ((a : A) → In a xs → P a) → All P xs
All-of_In P [] f = tt
All-of_In P (x ∷ xs) f = (f x (inl refl), All-of_In P xs (λ a i. f a (inr i)))

module _ {ℓ} {A : Type ℓ} where
  pub length-set : (xs : List A) (i : ℕ) (v : A) → length (set xs i v) ≡ length xs
  length-set [] i v = refl
  length-set (x ∷ xs) zero v = refl
  length-set (x ∷ xs) (suc i) v = ap suc (length-set xs i v)

  pub get_elem?-set :
      (xs : List A) (i j : ℕ) (v : A)
      → i < length xs
      → get_elem? (set xs i v) j ≡ (if i == j then some v else get_elem? xs j)
  get_elem?-set [] i j v h = absurd (omega arith)
  get_elem?-set (x ∷ xs) zero zero v h = refl
  get_elem?-set (x ∷ xs) zero (suc j) v h = ground arith
  get_elem?-set (x ∷ xs) (suc i) zero v h = ground arith
  get_elem?-set (x ∷ xs) (suc i) (suc j) v h = ground (arith, get_elem?-set xs i j v)

  pub get_elem?-lt : (xs : List A) (i : ℕ) → i < length xs → (a : A) × (get_elem? xs i ≡ some a)
  get_elem?-lt [] i h = absurd (omega arith)
  get_elem?-lt (x ∷ xs) zero h = (x, refl)
  get_elem?-lt (x ∷ xs) (suc i) h = get_elem?-lt xs i (omega arith)

  pub get_elem?_bound : (xs : List A) (i : ℕ) (a : A) → get_elem? xs i ≡ some a → i < length xs
  get_elem?_bound [] i a h = cc
  get_elem?_bound (x ∷ xs) zero a h = omega arith
  get_elem?_bound (x ∷ xs) (suc i) a h = omega (arith, get_elem?_bound xs i a h)

-- The two lists have one length, and `P` holds at each position.
abbrev pub Pairs : {A B : Type 0} → (A → B → Type 0) → List A → List B → Type 0
Pairs P [] [] = Unit
Pairs P (a ∷ as') (b ∷ bs) = P a b × Pairs P as' bs
Pairs P _ _ = ⊥

-- No member occurs twice.
abbrev pub Unique : {A : Type 0} → List A → Type 0
Unique [] = Unit
Unique (x ∷ xs) = (¬ (In x xs)) × Unique xs

pub Unique-snoc :
    {A : Type 0} (x : A) (xs : List A) → Unique xs → ¬ (In x xs) → Unique (xs ++ (x ∷ []))
Unique-snoc x [] u n = ((λ i. i), tt)
Unique-snoc x (y ∷ ys) (m, u) n = (
  (λ i. elim (In-append y ys (x ∷ []) i) [
    | inl j ↦ m j
    | inr j ↦ elim j [ inl e ↦ n (inl (sym e)) | inr z ↦ z ]
  ]),
  Unique-snoc x ys u (λ i. n (inr i)),
)

pub In-map : {A B : Type 0} (f : A → B) (a : A) (xs : List A) → In a xs → In (f a) (map f xs)
In-map f a [] i = absurd i
In-map f a (x ∷ xs) (inl e) = inl (ap f e)
In-map f a (x ∷ xs) (inr i) = inr (In-map f a xs i)

pub length-map : {A B : Type 0} (f : A → B) (xs : List A) → length (map f xs) ≡ length xs
length-map f [] = refl
length-map f (x ∷ xs) = ap suc (length-map f xs)

module _ {A B : Type 0} (P : A → B → Type 0) where
  pub Pairs-left :
      (as' : List A) (bs : List B) (a : A) → Pairs P as' bs → In a as' → (b : B) × In b bs × P a b
  Pairs-left [] bs a p i = absurd i
  Pairs-left (x ∷ xs) [] a p i = absurd p
  Pairs-left (x ∷ xs) (y ∷ ys) a (p, ps) (inl e) = (y, inl refl, subst (λ z. P z y) e p)
  Pairs-left (x ∷ xs) (y ∷ ys) a (p, ps) (inr i) =
      let (b, j, q) = Pairs-left xs ys a ps i in (b, inr j, q)

  pub Pairs-right :
      (as' : List A) (bs : List B) (b : B) → Pairs P as' bs → In b bs → (a : A) × In a as' × P a b
  Pairs-right [] [] b p i = absurd i
  Pairs-right (x ∷ xs) [] b p i = absurd p
  Pairs-right [] (y ∷ ys) b p i = absurd p
  Pairs-right (x ∷ xs) (y ∷ ys) b (p, ps) (inl e) = (x, inl refl, subst (λ z. P x z) e p)
  Pairs-right (x ∷ xs) (y ∷ ys) b (p, ps) (inr i) =
      let (a, j, q) = Pairs-right xs ys b ps i in (a, inr j, q)

  pub Pairs-imp :
      (Q : A → B → Type 0) (as' : List A) (bs : List B)
      → ((a : A) (b : B) → In a as' → In b bs → P a b → Q a b)
      → Pairs P as' bs
      → Pairs Q as' bs
  Pairs-imp Q [] [] f p = tt
  Pairs-imp Q (x ∷ xs) [] f p = absurd p
  Pairs-imp Q [] (y ∷ ys) f p = absurd p
  Pairs-imp Q (x ∷ xs) (y ∷ ys) f (p, ps) =
      (f x y (inl refl) (inl refl) p, Pairs-imp Q xs ys (λ a b i j. f a b (inr i) (inr j)) ps)

pub In-map_inv :
    {A B : Type 0} (f : A → B) (b : B) (xs : List A)
    → In b (map f xs)
    → (a : A) × In a xs × (f a ≡ b)
In-map_inv f b [] i = absurd i
In-map_inv f b (x ∷ xs) (inl e) = (x, inl refl, e)
In-map_inv f b (x ∷ xs) (inr i) = let (a, j, e) = In-map_inv f b xs i in (a, inr j, e)

-- A member, by its position.
pub In-of_get_elem? : {A : Type 0} (xs : List A) (k : ℕ) {a : A} → get_elem? xs k ≡ some a → In a xs
In-of_get_elem? [] k h = cc
In-of_get_elem? (x ∷ xs) zero h = inl (some-injective _ _ h)
In-of_get_elem? (x ∷ xs) (suc k) h = inr (In-of_get_elem? xs k h)
