-- ===== src/Collection/Fifo/Runs.antt =====
-- Whole runs of the queue of core/collection/fifo.go.
use go_zero_update.Common.{
  ℕ, ◌<◌, ◌≡◌, refl, sym, ap, ◌∙◌, Bool, List, [], ◌∷◌, ◌++◌, Outcome, returns, ◌>>=◌, ◌==◌, length,
}
use go_zero_update.Common.Circular
use go_zero_update.Collection.Fifo.{Queue, new_queue, is_empty, put, take_first}
use go_zero_update.Collection.Fifo.Refine.{
  contents, IsValid, first, rest, new_queue-IsValid, put-contents, take_first-contents,
}

pub data Call {ℓ} (A : Type ℓ) : Type ℓ where
  put_call : A → Call A
  take_call : Call A
  empty_call : Call A

-- What a caller sees: nothing, the two results of `Take`, or the answer of `Empty`.
pub data Reply {ℓ} (A : Type ℓ) : Type ℓ where
  done : Reply A
  took : A × Bool → Reply A
  empty : Bool → Reply A

module _ {ℓ} {A : Type ℓ} (nil : A) where
  pub run : Queue A → List (Call A) → Outcome (List (Reply A))
  run q [] = returns []
  run q (put_call x ∷ calls) = do q' ← put nil q x; replies ← run q' calls; returns (done ∷ replies)
  run q (take_call ∷ calls) = do
    (reply, q') ← take_first nil q
    replies ← run q' calls
    returns (took reply ∷ replies)
  run q (empty_call ∷ calls) = do replies ← run q calls; returns (empty (is_empty nil q) ∷ replies)

  -- The same calls on a list that holds what is queued.
  pub run_list : List A → List (Call A) → List (Reply A)
  run_list xs [] = []
  run_list xs (put_call x ∷ calls) = done ∷ run_list (xs ++ x ∷ []) calls
  run_list xs (take_call ∷ calls) = took (first nil xs) ∷ run_list (rest xs) calls
  run_list xs (empty_call ∷ calls) = empty (length xs == 0) ∷ run_list xs calls

  is_empty-contents : (q : Queue A) → is_empty nil q ≡ (length (contents nil q) == 0)
  unfolding is_empty contents
  is_empty-contents q =
      sym (ap (λ k. k == 0) (Circular.length-circular nil q.elements q.head q.count))

  run-run_list :
      (q : Queue A) (calls : List (Call A))
      → IsValid nil q
      → run q calls ≡ returns (run_list (contents nil q) calls)
  unfolding run run_list
  run-run_list q [] v = refl
  run-run_list q (put_call x ∷ calls) v =
      let (q', eq, valid, more) = put-contents nil q x v in
      ap (λ o. o >>= λ s. run s calls >>= λ r. returns (done ∷ r)) eq
      ∙ ap (λ o. o >>= λ r. returns (done ∷ r)) (run-run_list q' calls valid)
      ∙ ap (λ l. returns (done ∷ run_list l calls)) more
  run-run_list q (take_call ∷ calls) v =
      let (q', eq, valid, left) = take_first-contents nil q v in
      ap (λ o. o >>= λ (a, s). run s calls >>= λ r. returns (took a ∷ r)) eq
      ∙ ap (λ o. o >>= λ r. returns (took (first nil (contents nil q)) ∷ r))
          (run-run_list q' calls valid)
      ∙ ap (λ l. returns (took (first nil (contents nil q)) ∷ run_list l calls)) left
  run-run_list q (empty_call ∷ calls) v =
      ap (λ o. o >>= λ r. returns (empty (is_empty nil q) ∷ r)) (run-run_list q calls v)
      ∙ ap (λ b. returns (empty b ∷ run_list (contents nil q) calls)) (is_empty-contents q)

  -- From a new queue of a positive size no sequence of calls panics, and its replies are those of
  -- a first-in first-out list without a bound.
  pub run-new_queue :
      (size : ℕ) (calls : List (Call A))
      → 0 < size
      → run (new_queue nil size) calls ≡ returns (run_list [] calls)
  unfolding new_queue contents
  run-new_queue size calls h =
      run-run_list (new_queue nil size) calls (new_queue-IsValid nil size h)
