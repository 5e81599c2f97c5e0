-- ===== src/Stringx/Replacer/Replacing.antt =====
-- `Replace` of core/stringx/replacer.go replaces from the left the longest word at each rune, twice.
use go_zero_update.Common.{
  ℕ, ◌+◌, ◌-◌, ◌<◌, ◌≤◌, ◌≡◌, refl, sym, ap, ◌∙◌, inl, inr, Bool, true, false, List, [], ◌∷◌, ◌++◌,
  some, ◌==◌, ltb, length, map, drop, arith, Bool-cases,
}
use go_zero_update.Stringx.{Text}
use go_zero_update.Stringx.Trie.{Scope, find}
use go_zero_update.Stringx.Trie.Adding.{has_word}
use go_zero_update.Stringx.Trie.Matches.{matches_from}
use go_zero_update.Stringx.Trie.Finding.{new_trie-find}
use go_zero_update.Stringx.Keywords.{slice}
use go_zero_update.Stringx.Keywords.Masks.{slice-cut}
use go_zero_update.Stringx.Keywords.Occurrences.{cut, occurs, has_scope, has_scope-occurs}
use go_zero_update.Stringx.Replacer.{
  Replacer, new_replacer, before, substitute, replace_from, do_replace, replace_rounds, replace,
}
use go_zero_update.Stringx.Replacer.Greedy.{greedy}
use go_zero_update.Stringx.Replacer.Walks.{take_rest, drop_end, walk, jump, no_more}

-- No scope stands before an earlier one in the order of `doReplace`.
abbrev pub Ordered : List Scope → Type 0
Ordered [] = Unit
Ordered (v ∷ scopes) =
    ((a b : ℕ) → has_scope a b scopes ≡ true → before (record { start = a; stop = b }) v ≡ false)
    × Ordered scopes

-- `sort.Slice` keeps the elements and orders them.
pub record Sorts (sort_slice : (Scope → Scope → Bool) → List Scope → List Scope) : Type 0 where
  pub same : (a b : ℕ) (l : List Scope) → has_scope a b (sort_slice before l) ≡ has_scope a b l
  pub ordered : (l : List Scope) → Ordered (sort_slice before l)

other_scope :
    (v : Scope) (scopes : List Scope) (a b : ℕ)
    → v.start < a
    → has_scope a b (v ∷ scopes) ≡ has_scope a b scopes
unfolding has_scope
other_scope v scopes a b h = ground (arith, h)

module _ (v : Scope) (scopes : List Scope) where
  none_before :
      (a b : ℕ)
      → ((c d : ℕ)
          → has_scope c d scopes ≡ true
          → before (record { start = c; stop = d }) v ≡ false)
      → a < v.start
      → has_scope a b (v ∷ scopes) ≡ false
  unfolding has_scope
  none_before a b o h = elim (Bool-cases (has_scope a b scopes)) [
    | inl e ↦ absurd (ground (arith, o a b e, h))
    | inr e ↦ ground (arith, e, h)
  ]

  none_longer :
      (c : ℕ)
      → ((a d : ℕ)
          → has_scope a d scopes ≡ true
          → before (record { start = a; stop = d }) v ≡ false)
      → v.stop < c
      → has_scope v.start c (v ∷ scopes) ≡ false
  unfolding has_scope
  none_longer c o h = elim (Bool-cases (has_scope v.start c scopes)) [
    | inl e ↦ absurd (ground (arith, o v.start c e, h))
    | inr e ↦ ground (arith, e, h)
  ]

module _ (mapping : List (Text × Text)) (words : List Text) (chars : Text) where
  replace_from-skip :
      (index : ℕ) (v : Scope) (scopes : List Scope)
      → ltb v.start index ≡ true
      → replace_from mapping chars index (v ∷ scopes) ≡ replace_from mapping chars index scopes
  unfolding replace_from
  replace_from-skip index v scopes h = rw (replace_from, h) refl

  replace_from-write :
      (index : ℕ) (v : Scope) (scopes : List Scope) (text key rest : Text)
      → ltb v.start index ≡ false
      → slice chars index v.start ≡ some text
      → slice chars v.start v.stop ≡ some key
      → replace_from mapping chars v.stop scopes ≡ some rest
      → replace_from mapping chars index (v ∷ scopes)
        ≡ some (text ++ (substitute mapping key ++ rest))
  unfolding replace_from
  replace_from-write index v scopes text key rest h e f g = rw (replace_from, h, e, f, g) refl

  replace_from_end :
      (index : ℕ)
      → index ≤ length chars
      → replace_from mapping chars index [] ≡ some (drop index chars)
  unfolding replace_from
  replace_from_end index h = elim (Bool-cases (ltb index (length chars))) [
    | inl e ↦
        rw e
          (slice-cut chars index (length chars) h (omega arith) ∙ ap some (take_rest index chars))
    | inr e ↦ rw e (ap some (sym (drop_end index chars (ground (arith, e)))))
  ]

  occurs_inside : (a b : ℕ) → occurs words chars a b ≡ true → (a < b) × (b ≤ length chars)
  unfolding occurs
  occurs_inside a b h = (ground (arith, h), ground (arith, h))

  replace_from-greedy :
      (scopes : List Scope) (index : ℕ)
      → index ≤ length chars
      → Ordered scopes
      → ((a b : ℕ) → index ≤ a → has_scope a b scopes ≡ occurs words chars a b)
      → replace_from mapping chars index scopes ≡ some (greedy mapping words 0 (drop index chars))
  unfolding has_scope
  replace_from-greedy [] index h o all =
      replace_from_end index h
      ∙ ap some (sym (no_more mapping words chars index h (λ a b f. sym (all a b f))))
  replace_from-greedy (v ∷ scopes) index h o all = elim (Bool-cases (ltb v.start index)) [
    | inl e ↦
        replace_from-skip index v scopes e
        ∙ replace_from-greedy scopes index h (o.1)
            (λ a b f. sym (other_scope v scopes a b (ground (arith, e, f))) ∙ all a b f)
    | inr e ↦
        let from : index ≤ v.start = ground (arith, e) in
        let here : occurs words chars v.start v.stop ≡ true =
          sym (all v.start v.stop from) ∙ ground arith in
        let (wide, inside) = occurs_inside v.start v.stop here in
        let before_it : (a b : ℕ) → index ≤ a → a < v.start → occurs words chars a b ≡ false =
          λ a b f g. sym (all a b f) ∙ none_before v scopes a b (o.0) g in
        let longer : (c : ℕ) → v.stop < c → occurs words chars v.start c ≡ false =
          λ c f. sym (all v.start c from) ∙ none_longer v scopes c (o.0) f in
        let rest = replace_from-greedy scopes v.stop inside (o.1) (λ a b f.
          sym (other_scope v scopes a b (omega (arith, f, wide)))
          ∙ all a b (omega (arith, f, wide, from))) in
        let d = v.start - index in
        let last : drop (index + d) chars ≡ drop v.start chars =
          ap (λ n. drop n chars) (omega (arith, from)) in
        replace_from-write index v scopes (cut chars index v.start) (cut chars v.start v.stop)
          (greedy mapping words 0 (drop v.stop chars)) e
          (slice-cut chars index v.start from (omega (arith, wide, inside)))
          (slice-cut chars v.start v.stop (omega (arith, wide)) inside) rest
        ∙ ap some (
            sym (
              walk mapping words chars d index (omega (arith, from, wide, inside))
                (λ a b f g. before_it a b f (omega (arith, g, from)))
              ∙ ap (λ l. cut chars index v.start ++ greedy mapping words 0 l) last
              ∙ ap (λ l. cut chars index v.start ++ l)
                  (jump mapping words chars v.start v.stop here longer)))
  ]

-- The keys of a map.
abbrev pub keys_of : List (Text × Text) → List Text
keys_of mapping = map (λ p. p.0) mapping

module _ (sort_slice : (Scope → Scope → Bool) → List Scope → List Scope) (sorts : Sorts sort_slice)
    (r : Replacer)
    (search : (chars : Text)
      → find r.node chars ≡ some (matches_from (has_word (keys_of r.mapping)) 0 [] chars)) where
  nothing_found :
      (chars : Text) (scopes : List Scope)
      → (length scopes == 0) ≡ true
      → (a b : ℕ) → has_scope a b scopes ≡ false
  unfolding has_scope
  nothing_found chars [] h a b = refl
  nothing_found chars (v ∷ scopes) h a b = absurd (ground (arith, h))

  -- `doReplace`, and a text where it replaces nothing.
  do_replace-greedy :
      (chars : Text)
      → (replaced : Bool) × ((do_replace sort_slice r chars
            ≡ some (greedy r.mapping (keys_of r.mapping) 0 chars, replaced))
          × (replaced ≡ false → greedy r.mapping (keys_of r.mapping) 0 chars ≡ chars))
  unfolding do_replace
  do_replace-greedy chars =
      let words = keys_of r.mapping in
      let scopes = matches_from (has_word words) 0 [] chars in
      elim (Bool-cases (length scopes == 0)) [
        | inl e ↦
            let same = no_more r.mapping words chars 0 (omega arith) (λ a b f.
              sym (has_scope-occurs words chars a b) ∙ nothing_found chars scopes e a b) in
            (false, (rw (do_replace, search chars, e, same) refl, λ h. same))
        | inr e ↦
            let run =
              replace_from-greedy r.mapping words chars (sort_slice before scopes) 0 (omega arith)
                (sorts.ordered scopes)
                (λ a b f. sorts.same a b scopes ∙ has_scope-occurs words chars a b) in
            (true, (rw (do_replace, search chars, e, run) refl, λ h. absurd (ground (arith, h))))
      ]

  replace_rounds-greedy :
      (chars : Text)
      → replace_rounds sort_slice 2 r chars
        ≡ some
            (greedy r.mapping (keys_of r.mapping) 0 (greedy r.mapping (keys_of r.mapping) 0 chars))
  unfolding replace_rounds
  replace_rounds-greedy chars =
      let words = keys_of r.mapping in
      let once = greedy r.mapping words 0 chars in
      let (first, (run, kept)) = do_replace-greedy chars in
      let (second, (again, _)) = do_replace-greedy once in
      elim (Bool-cases first) [
        | inr e ↦
            rw (replace_rounds, run, e) (ap some (sym (ap (greedy r.mapping words 0) (kept e))))
        | inl e ↦ elim (Bool-cases second) [
          | inl f ↦ rw (replace_rounds, run, e, again, f) refl
          | inr f ↦ rw (replace_rounds, run, e, again, f) refl
        ]
      ]

-- A replacer of any map of texts in UTF-8 is made, and `Replace` replaces from the left the longest
-- key at each rune, and does so again in the text that this gives. `sort.Slice` keeps the elements
-- and orders them.
pub replace-greedy :
    (sort_slice : (Scope → Scope → Bool) → List Scope → List Scope)
    → Sorts sort_slice
    → (mapping : List (Text × Text)) (chars : Text)
    → (r : Replacer) × ((new_replacer mapping ≡ some r)
        × (replace sort_slice r chars
            ≡ some (greedy mapping (keys_of mapping) 0 (greedy mapping (keys_of mapping) 0 chars))))
unfolding new_replacer replace
replace-greedy sort_slice sorts mapping chars =
    let (t, (built, search)) = new_trie-find (keys_of mapping) in
    let r : Replacer = record { node = t; mapping = mapping } in
    (r, (rw (new_replacer, built) refl, replace_rounds-greedy sort_slice sorts r search chars))
