-- ===== src/Tests/Walks.antt =====
-- Two rules, of which the first requires the second, and the walks over them.
use hemera.Base.{
  ◌≡◌, ◌≢◌, refl, subst, true, Bytes, bytes, bytes_eq, ok, err, if◌then◌else◌, Table, lookup, put,
  List, [], ◌∷◌, In, inl, inr, arith, Within,
}
use hemera.Scoring.Eligibility.{eligible}
use hemera.Scoring.Eligibility.Correct.{Walks, eligible_lem}
use hemera.Rules.Validate.{no_fuel}
use hemera.Rules.Validate.Graph.{Visit, visiting, visited, visit, visit_all}
use hemera.Rules.Validate.Graph.Acyclic.{visit_all-Within, visit_all_ends}

abbrev front : Bytes
front = bytes "front"

abbrev back : Bytes
back = bytes "back"

abbrev both : List Bytes
both = front ∷ back ∷ []

abbrev needs : Bytes → List Bytes
needs id = if bytes_eq id front then back ∷ [] else []

Within-two : Within needs 2 front
unfolding bytes_eq
Within-two d (inl e) = subst (Within needs 1) e (λ d' i. absurd i)
Within-two d (inr i) = absurd i

eligible_lem_example : Walks (λ _. true) needs front (eligible (λ _. true) needs 2 front [])
eligible_lem_example =
    eligible_lem (λ _. true) needs 2 front [] Within-two (λ id b e. unfold lookup in cc)

known_both : (id : Bytes) → In id both → (d : Bytes) → In d (needs id) → In d both
unfolding bytes_eq
known_both id (inl e) d = subst (λ x. In d (needs x) → In d both) e (λ i. inr i)
known_both id (inr (inl e)) d = subst (λ x. In d (needs x) → In d both) e (λ i. absurd i)
known_both id (inr (inr i)) d = absurd i

abbrev all_marked : Table Visit
all_marked = put front visited (put back visited (put front visiting []))

walked : visit_all (visit needs 3) both [] ≡ ok all_marked
unfolding visit_all visit lookup put bytes_eq
walked = refl

visit_all-Within_example : Within needs 2 front
visit_all-Within_example =
    visit_all-Within needs both known_both 3 all_marked walked front (inl refl)

visit_all_ends_example : visit_all (visit needs 3) both [] ≢ err no_fuel
visit_all_ends_example = visit_all_ends needs both known_both 3 (omega arith)
