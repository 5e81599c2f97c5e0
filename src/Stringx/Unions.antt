-- ===== src/Stringx/Unions.antt =====
-- `Union` of core/stringx/strings.go. The set is an association list in the order of one iteration.
use go_zero_update.Common.{◌≡◌, ap, ◌∙◌, ◌||◌, List, [], ◌∷◌, map, arith}
use go_zero_update.Common.Texts.{bytes}
use go_zero_update.Common.Maps.{is_some, lookup, store, lookup-store, store-Distinct, Distinct}
use go_zero_update.Stringx.{Text}
use go_zero_update.Stringx.Keywords.{Placeholder}
use go_zero_update.Stringx.Keywords.Occurrences.{has_text}
use go_zero_update.Stringx.Keywords.Filtering.{TextsOnce, has_text-lookup, Distinct-TextsOnce}

-- The loops that fill the set.
unfoldable pub put_all : List (Text × Placeholder) → List Text → List (Text × Placeholder)
put_all set [] = set
put_all set (each ∷ texts) = put_all (store bytes each tt set) texts

unfoldable pub union : List Text → List Text → List Text
unfolding put_all
union first second = map (λ p. p.0) (put_all (put_all [] first) second)

lookup-put_all :
    (texts : List Text) (set : List (Text × Placeholder)) (k : Text)
    → is_some (lookup bytes k (put_all set texts))
      ≡ (is_some (lookup bytes k set) || has_text texts k)
unfolding put_all has_text
lookup-put_all [] set k = ground arith
lookup-put_all (each ∷ texts) set k =
    lookup-put_all texts (store bytes each tt set) k
    ∙ ap (λ o. is_some o || has_text texts k) (lookup-store bytes each k tt set)
    ∙ ground arith

put_all-Distinct :
    (texts : List Text) (set : List (Text × Placeholder))
    → Distinct bytes set
    → Distinct bytes (put_all set texts)
unfolding put_all
put_all-Distinct [] set d = d
put_all-Distinct (each ∷ texts) set d =
    put_all-Distinct texts (store bytes each tt set) (store-Distinct bytes each tt set d)

-- `Union` returns just the texts of its two lists, each once.
pub union-has_text :
    (first second : List Text)
    → ((k : Text) → has_text (union first second) k ≡ (has_text first k || has_text second k))
      × TextsOnce (union first second)
unfolding union lookup
union-has_text first second =
    let one = put_all [] first in
    let both = put_all one second in
    (
      λ k.
          has_text-lookup both k
          ∙ lookup-put_all second one k
          ∙ ap (λ b. b || has_text second k) (lookup-put_all first [] k),
      Distinct-TextsOnce both (put_all-Distinct second one (put_all-Distinct first [] tt)),
    )
