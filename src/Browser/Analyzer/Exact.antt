-- ===== src/Browser/Analyzer/Exact.antt =====
-- normalizeCapture of internal/browser/analyzer.go: what its sorting and its removal of repetitions do with
-- the signals.
use hemera.Base.{
  ◌≡◌, sym, ◌∙◌, ap, subst, ◌⊎◌, inl, inr, ◌↔◌, true, Bytes, bytes_eq→eq, &&-eq-true, Option, some,
  none, ok, >>=-eq-ok, ok_injective, List, [], ◌∷◌, All, In, All-In, All-of_In, Bool-cases,
  Option-cases,
}
use mathlib.Core.Option.{some-injective}
use hemera.Float.{Float64}
use hemera.Text.{Text}
use hemera.Model.{Signal, IsValidSignal, validate_signal, validate_signal-IsValidSignal}
use hemera.Browser.Analyzer.{
  FinishedCapture, capture_signals, signal_lt, insert_signal, sort_signals, same_signal,
  repeats_last, unique_signals, normalize_capture,
}
use hemera.Browser.Analyzer.Built.{IsBrowserSignal, All-capture_signals}

module _ {F : Type 0} ⦃fl : Float64 F⦄ where
  In-insert_signal :
      (x s : Signal F) (ss : List (Signal F)) → In x (insert_signal s ss) ↔ ((s ≡ x) ⊎ In x ss)
  unfolding insert_signal
  In-insert_signal x s [] = ((λ h. h), (λ h. h))
  In-insert_signal x s (t ∷ ts) =
      let (f, g) = In-insert_signal x s ts in
      elim (Bool-cases (signal_lt t s)) [
        | inr e ↦ rw e ((λ h. h), (λ h. h))
        | inl e ↦ rw e (
          (λ h. elim h [
            | inl k ↦ inr (inl k)
            | inr k ↦ elim (f k) [ inl m ↦ inl m | inr m ↦ inr (inr m) ]
          ]),
          (λ h. elim h [
            | inl k ↦ inr (g (inl k))
            | inr k ↦ elim k [ inl m ↦ inl m | inr m ↦ inr (g (inr m)) ]
          ]),
        )
      ]

  In-sort_signals : (x : Signal F) (ss : List (Signal F)) → In x (sort_signals ss) ↔ In x ss
  unfolding sort_signals
  In-sort_signals x [] = ((λ h. h), (λ h. h))
  In-sort_signals x (s ∷ ss) =
      let (f, g) = In-insert_signal x s (sort_signals ss) in
      let (f', g') = In-sort_signals x ss in
      (
        (λ h. elim (f h) [ inl k ↦ inl k | inr k ↦ inr (f' k) ]),
        (λ h. g (elim h [ inl k ↦ inl k | inr k ↦ inr (g' k) ])),
      )

  same_signal→eq :
      (s t : Signal F) → IsBrowserSignal s → IsBrowserSignal t → same_signal s t ≡ true → s ≡ t
  unfolding same_signal
  same_signal→eq s t v w h =
      let (h₄, _) = (&&-eq-true _ _).0 h in
      let (h₃, e) = (&&-eq-true _ _).0 h₄ in
      let (h₂, d) = (&&-eq-true _ _).0 h₃ in
      let (h₁, c) = (&&-eq-true _ _).0 h₂ in
      let (a, b) = (&&-eq-true _ _).0 h₁ in
      let p = bytes_eq→eq s.type t.type a in
      let q = bytes_eq→eq s.source t.source b in
      let r = bytes_eq→eq s.key t.key c in
      let x = bytes_eq→eq s.value t.value d in
      let y = bytes_eq→eq s.url t.url e in
      let z : s.confidence ≡ t.confidence = v.certain ∙ sym w.certain in
      λ i. record { type = p i; source = q i; key = r i; value = x i; url = y i; confidence = z i }

  abbrev MaySkip : Option (Signal F) → Type 0
  MaySkip none = Unit
  MaySkip (some last) = IsBrowserSignal last

  repeated :
      (last : Option (Signal F)) (s : Signal F)
      → MaySkip last
      → IsBrowserSignal s
      → repeats_last last s ≡ true
      → last ≡ some s
  repeated none s v w h = cc
  repeated (some last) s v w h = ap some (same_signal→eq last s v w h)

  module _ ⦃tx : Text⦄ where
    -- What the last loop keeps of a list: its members, but perhaps the signal before it.
    abbrev Keeps : Option (Signal F) → List (Signal F) → List (Signal F) → Type 0
    Keeps last ss out =
        All IsValidSignal out
        × ((x : Signal F) → In x out → In x ss)
        × ((x : Signal F) → In x ss → In x out ⊎ (last ≡ some x))

    unique_signals-Keeps :
        (last : Option (Signal F)) (ss out : List (Signal F))
        → MaySkip last
        → All IsBrowserSignal ss
        → unique_signals last ss ≡ ok out
        → Keeps last ss out
    unfolding unique_signals
    unique_signals-Keeps last [] out v vs h =
        subst (Keeps last []) (ok_injective h) (tt, (λ x i. i), (λ x i. absurd i))
    unique_signals-Keeps last (s ∷ ss) out v (w, vs) h = elim (Option-cases (validate_signal s)) [
      | inr (e, bad) ↦ cc (rw (unique_signals, bad) at h)
      | inl good ↦ elim (Bool-cases (repeats_last last s)) [
        | inl again ↦
            let (valid, f, g) =
              unique_signals-Keeps last ss out v vs (rw (unique_signals, good, again) at h) in
            let is_last = repeated last s v w again in
            (
              valid,
              (λ x i. inr (f x i)),
              (λ x. elim [ inl same ↦ inr (is_last ∙ ap some same) | inr i ↦ g x i ]),
            )
        | inr new ↦
            let (rest, e, e') =
              >>=-eq-ok (unique_signals (some s) ss) _ (rw (unique_signals, good, new) at h) in
            let (valid, f, g) = unique_signals-Keeps (some s) ss rest w vs e in
            subst (Keeps last (s ∷ ss)) (ok_injective e') (
              ((validate_signal-IsValidSignal s).0 good, valid),
              (λ x. elim [ inl same ↦ inl same | inr i ↦ inr (f x i) ]),
              (λ x. elim [
                | inl same ↦ inl (inl same)
                | inr i ↦ elim (g x i) [
                  | inl k ↦ inl (inr k)
                  | inr same ↦ inl (inl (some-injective _ _ same))
                ]
              ]),
            )
      ]
    ]

    module _ (to_upper : Bytes → Bytes) where
      -- If normalizeCapture gives signals, each of them is valid, is of the browser source and has
      -- confidence 1, and they are exactly those that its loops made of the capture.
      pub normalize_capture_exact :
          (f : FinishedCapture) (signals : List (Signal F))
          → normalize_capture to_upper f ≡ ok signals
          → All IsValidSignal signals
            × All IsBrowserSignal signals
            × ((s : Signal F) → In s signals ↔ In s (capture_signals to_upper f))
      unfolding normalize_capture
      normalize_capture_exact f signals h =
          let built = All-capture_signals F to_upper f in
          let sorted =
            All-of_In IsBrowserSignal (sort_signals (capture_signals to_upper f))
              (λ s i. All-In IsBrowserSignal s _ built ((In-sort_signals s _).0 i)) in
          let (valid, f', g) = unique_signals-Keeps none _ signals tt sorted h in
          (
            valid,
            All-of_In IsBrowserSignal signals (λ s i. All-In IsBrowserSignal s _ sorted (f' s i)),
            λ s. (
              (λ i. (In-sort_signals s _).0 (f' s i)),
              (λ i. elim (g s ((In-sort_signals s _).1 i)) [ inl k ↦ k | inr e ↦ cc ]),
            ),
          )
