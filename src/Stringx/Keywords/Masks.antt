-- ===== src/Stringx/Keywords/Masks.antt =====
-- The loops of core/stringx/trie.go over the scopes that a search found: the keywords, and the masks.
use go_zero_update.Common.{
  ℕ, zero, suc, ◌+◌, ◌-◌, ◌<◌, ◌≤◌, ◌≡◌, refl, sym, ap, ◌∙◌, inl, inr, Bool, true, false, ◌&&◌,
  ◌||◌, List, [], ◌∷◌, Option, some, ◌==◌, ltb, leb, if◌then◌else◌, length, get_or, set, length-set,
  get_or-set_self, get_or-set_ne, arith, Bool-cases,
}
use go_zero_update.Common.Texts.{bytes, bytes_eq}
use go_zero_update.Common.Maps.{is_some, lookup, store, lookup-store, store-Distinct, Distinct}
use go_zero_update.Stringx.{Text}
use go_zero_update.Stringx.Trie.{Scope}
use go_zero_update.Stringx.Keywords.{
  Placeholder, slice, collect_from, mask_from, replace_with_asterisk, replace_all,
}
use go_zero_update.Stringx.Keywords.Occurrences.{cut, has_scope}

-- Scopes that are in a text of a length.
abbrev pub InRange : ℕ → List Scope → Type 0
InRange n scopes = (a b : ℕ) → has_scope a b scopes ≡ true → (a ≤ b) × (b ≤ n)

head-InRange :
    (n : ℕ) (v : Scope) (scopes : List Scope)
    → InRange n (v ∷ scopes)
    → (v.start ≤ v.stop) × (v.stop ≤ n)
unfolding has_scope
head-InRange n v scopes h = h v.start v.stop (ground arith)

tail-InRange : (n : ℕ) (v : Scope) (scopes : List Scope) → InRange n (v ∷ scopes) → InRange n scopes
unfolding has_scope
tail-InRange n v scopes h = λ a b e. h a b (ground (arith, e))

pub slice-cut :
    (chars : Text) (a b : ℕ) → a ≤ b → b ≤ length chars → slice chars a b ≡ some (cut chars a b)
unfolding slice
slice-cut chars a b h e = ground (arith, h, e)

unfoldable pub cut_in : Text → Text → List Scope → Bool
cut_in k chars [] = false
cut_in k chars (v ∷ scopes) = bytes_eq (cut chars v.start v.stop) k || cut_in k chars scopes

-- What the loop of `collectKeywords` leaves.
pub record Collected (chars : Text) (keys : List (Text × Placeholder)) (scopes : List Scope)
    (run : Option (List (Text × Placeholder))) : Type 0 where
  pub after : List (Text × Placeholder)
  pub result : run ≡ some after
  pub keys_found :
      (k : Text)
      → is_some (lookup bytes k after) ≡ (is_some (lookup bytes k keys) || cut_in k chars scopes)
  pub distinct : Distinct bytes keys → Distinct bytes after

pub collect_from-Collected :
    (chars : Text) (scopes : List Scope) (keys : List (Text × Placeholder))
    → InRange (length chars) scopes
    → Collected chars keys scopes (collect_from chars keys scopes)
unfolding collect_from cut_in
collect_from-Collected chars [] keys h = record {
  after = keys;
  result = refl;
  keys_found = λ k. ground arith;
  distinct = λ d. d;
}
collect_from-Collected chars (v ∷ scopes) keys h =
    let (a, b) = head-InRange (length chars) v scopes h in
    let key = cut chars v.start v.stop in
    let rest =
      collect_from-Collected chars scopes (store bytes key tt keys)
        (tail-InRange (length chars) v scopes h) in
    rw (collect_from, slice-cut chars v.start v.stop a b)
      (record {
        after = rest.after;
        result = rest.result;
        keys_found = λ k.
            rest.keys_found k
            ∙ ap (λ o. is_some o || cut_in k chars scopes) (lookup-store bytes key k tt keys)
            ∙ ground arith;
        distinct = λ d. rest.distinct (store-Distinct bytes key tt keys d);
      })

-- A text with the runes masked that a test picks.
pub record Masked (mask : ℕ) (chars : Text) (picked : ℕ → Bool) (run : Option Text) : Type 0 where
  pub after : Text
  pub result : run ≡ some after
  pub size : length after ≡ length chars
  pub runes_after :
      (i : ℕ) → i < length chars → get_or after i 0 ≡ (if picked i then mask else get_or chars i 0)

mask_from-Masked :
    (mask n : ℕ) (chars : Text) (i : ℕ)
    → i + n ≤ length chars
    → Masked mask chars (λ j. leb i j && ltb j (i + n)) (mask_from mask n chars i)
unfolding mask_from
mask_from-Masked mask zero chars i h = record {
  after = chars;
  result = refl;
  size = refl;
  runes_after = λ j e. ground arith;
}
mask_from-Masked mask (suc n) chars i h =
    let inside : ltb i (length chars) ≡ true = ground (arith, h) in
    let rest =
      mask_from-Masked mask n (set chars i mask) (i + 1)
        (omega (arith, h, length-set chars i mask)) in
    rw (mask_from, inside)
      (record {
        after = rest.after;
        result = rest.result;
        size = rest.size ∙ length-set chars i mask;
        runes_after = λ j e.
            rest.runes_after j (omega (arith, e, length-set chars i mask))
            ∙ elim (Bool-cases (i == j)) [
              | inl f ↦
                  let same : i ≡ j = ground (arith, f) in
                  let here =
                    ap (λ k. get_or (set chars i mask) k 0) (sym same)
                    ∙ get_or-set_self chars i mask 0 (omega (arith, h)) in
                  ground (arith, f, here)
              | inr f ↦
                  ground (arith, f, get_or-set_ne chars i j mask 0 (λ s. ground (arith, f, s)))
            ];
      })

unfoldable pub in_scopes : ℕ → List Scope → Bool
in_scopes i [] = false
in_scopes i (v ∷ scopes) = (leb v.start i && ltb i v.stop) || in_scopes i scopes

pub replace_all-Masked :
    (mask : ℕ) (scopes : List Scope) (chars : Text)
    → InRange (length chars) scopes
    → Masked mask chars (λ i. in_scopes i scopes) (replace_all mask chars scopes)
unfolding replace_all in_scopes
replace_all-Masked mask [] chars h = record {
  after = chars;
  result = refl;
  size = refl;
  runes_after = λ j e. refl;
}
replace_all-Masked mask (v ∷ scopes) chars h =
    let (a, b) = head-InRange (length chars) v scopes h in
    let here = mask_from-Masked mask (v.stop - v.start) chars v.start (omega (arith, a, b)) in
    let rest = replace_all-Masked mask scopes here.after (λ c d e.
      let (f, g) = tail-InRange (length chars) v scopes h c d e in
      (f, omega (arith, g, here.size))) in
    record {
      after = rest.after;
      result = rw (replace_all, replace_with_asterisk, here.result) rest.result;
      size = rest.size ∙ here.size;
      runes_after = λ j e.
          rest.runes_after j (omega (arith, e, here.size))
          ∙ ground (arith, here.runes_after j e, a);
    }
