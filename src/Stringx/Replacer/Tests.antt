-- ===== src/Stringx/Replacer/Tests.antt =====
-- The replacer of core/stringx/replacer.go at concrete inputs, with a sort of scopes.
use go_zero_update.Common.{
  ℕ, ◌≡◌, refl, inl, inr, Bool, true, false, ◌||◌, List, [], ◌∷◌, some, ◌==◌, if◌then◌else◌, arith,
  Bool-cases,
}
use go_zero_update.Stringx.{Text}
use go_zero_update.Stringx.Trie.{Scope}
use go_zero_update.Stringx.Keywords.Occurrences.{has_scope}
use go_zero_update.Stringx.Replacer.{Replacer, new_replacer, before, replace}
use go_zero_update.Stringx.Replacer.Greedy.{greedy}
use go_zero_update.Stringx.Replacer.Replacing
use go_zero_update.Stringx.Replacer.Replacing.{Ordered, Sorts, keys_of}

insert_scope : (Scope → Scope → Bool) → Scope → List Scope → List Scope
insert_scope less v [] = v ∷ []
insert_scope less v (u ∷ us) =
    let rest = insert_scope less v us in if less u v then u ∷ rest else v ∷ u ∷ us

insertion_sort : (Scope → Scope → Bool) → List Scope → List Scope
unfolding insert_scope
insertion_sort less [] = []
insertion_sort less (v ∷ vs) = insert_scope less v (insertion_sort less vs)

has_scope-insert_scope :
    (a b : ℕ) (v : Scope) (us : List Scope)
    → has_scope a b (insert_scope before v us) ≡ has_scope a b (v ∷ us)
unfolding has_scope insert_scope
has_scope-insert_scope a b v [] = refl
has_scope-insert_scope a b v (u ∷ us) = ground (arith, has_scope-insert_scope a b v us)

insert_scope-Ordered :
    (v : Scope) (us : List Scope) → Ordered us → Ordered (insert_scope before v us)
unfolding has_scope insert_scope
insert_scope-Ordered v [] o = ((λ a b h. absurd (ground (arith, h))), tt)
insert_scope-Ordered v (u ∷ us) o = elim (Bool-cases (before u v)) [
  | inl e ↦ rw e (
    (λ a b h. elim (Bool-cases (has_scope a b us)) [
      | inl f ↦ o.0 a b f
      | inr f ↦ ground (arith, has_scope-insert_scope a b v us, h, f, e)
    ]),
    insert_scope-Ordered v us (o.1),
  )
  | inr e ↦ rw e (
    (λ a b h. elim (Bool-cases (has_scope a b us)) [
      | inl f ↦ ground (arith, o.0 a b f, e)
      | inr f ↦ ground (arith, h, f, e)
    ]),
    o,
  )
]

has_scope-insertion_sort :
    (a b : ℕ) (vs : List Scope) → has_scope a b (insertion_sort before vs) ≡ has_scope a b vs
unfolding has_scope insertion_sort
has_scope-insertion_sort a b [] = refl
has_scope-insertion_sort a b (v ∷ vs) = ground (
  arith,
  has_scope-insert_scope a b v (insertion_sort before vs),
  has_scope-insertion_sort a b vs,
)

insertion_sort-Ordered : (vs : List Scope) → Ordered (insertion_sort before vs)
unfolding insertion_sort
insertion_sort-Ordered [] = tt
insertion_sort-Ordered (v ∷ vs) =
    insert_scope-Ordered v (insertion_sort before vs) (insertion_sort-Ordered vs)

insertion_sort-Sorts : Sorts insertion_sort
insertion_sort-Sorts = record { same = has_scope-insertion_sort; ordered = insertion_sort-Ordered }

-- The words ab and abc, and a text with both.
abbrev two_words : List (Text × Text)
two_words = (b'a' ∷ b'b' ∷ [], b'x' ∷ []) ∷ (b'a' ∷ b'b' ∷ b'c' ∷ [], b'a' ∷ []) ∷ []

abbrev abcb : Text
abcb = b'a' ∷ b'b' ∷ b'c' ∷ b'b' ∷ []

-- The first round makes of it ab, and the second one x.
replaced_twice :
    greedy two_words (keys_of two_words) 0 (greedy two_words (keys_of two_words) 0 abcb) ≡ b'x' ∷ []
unfolding greedy go_zero_update.Stringx.Keywords.Occurrences.has_text
    go_zero_update.Common.Texts.bytes_eq go_zero_update.Stringx.Replacer.substitute
    go_zero_update.Common.Maps.lookup
replaced_twice = refl

replace-greedy_example :
    (r : Replacer) × ((new_replacer two_words ≡ some r)
      × (replace insertion_sort r abcb
          ≡ some (
              greedy two_words
                (keys_of two_words)
                0
                (greedy two_words (keys_of two_words) 0 abcb))))
replace-greedy_example = Replacing.replace-greedy insertion_sort insertion_sort-Sorts two_words abcb
