-- ===== src/Collection/Fifo.antt =====
-- core/collection/fifo.go: the growing circular FIFO queue.
pub mod Refine
pub mod Runs
use go_zero_update.Common.{
  ℕ, ◌+◌, ◌-◌, ◌%◌, Bool, true, false, ◌&&◌, Option, none, some, List, [], ◌∷◌, ◌++◌, ltb, ◌==◌,
  if◌then◌else◌, Outcome, returns, panics, length, get_or, set, take, drop, replicate, copy,
}

-- `Queue`. The elements are `any` in Go: here they are of any type `A`.
pub record Queue {ℓ} (A : Type ℓ) : Type ℓ where
  pub elements : List A
  pub size : ℕ
  pub head : ℕ
  pub tail : ℕ
  pub count : ℕ

-- `nil` is the value that `make` fills a slice with.
module _ {ℓ} {A : Type ℓ} (nil : A) where
  -- `NewQueue`, at a size that is not negative.
  pub new_queue : ℕ → Queue A
  new_queue size = record {
    elements = replicate size nil;
    size = size;
    head = 0;
    tail = 0;
    count = 0;
  }

  pub is_empty : Queue A → Bool
  is_empty q = q.count == 0

  -- The two calls of `copy` in `Put`, the second at the slice `nodes[len(q.elements)-q.head:]`.
  grown : Queue A → List A
  grown q =
      let nodes = copy (replicate (length q.elements + q.size) nil) (drop q.head q.elements) in
      let start = length q.elements - q.head in
      take start nodes ++ copy (drop start nodes) (take q.head q.elements)

  grow : Queue A → Queue A
  unfolding grown
  grow q =
      if q.head == q.tail && ltb 0 q.count
      then record q { head = 0; tail = length q.elements; elements = grown q }
      else q

  -- The write to `q.elements[q.tail]` and what follows it: it panics out of range.
  append_element : Queue A → A → Outcome (Queue A)
  append_element q element =
      if ltb q.tail (length q.elements)
      then returns (record q {
        elements = set q.elements q.tail element;
        tail = (q.tail + 1) % length q.elements;
        count = q.count + 1;
      })
      else panics

  pub put : Queue A → A → Outcome (Queue A)
  unfolding grow append_element
  put q element = append_element (grow q) element

  -- `Take`: the element and `true`, or `nil` and `false`.
  pub take_first : Queue A → Outcome ((A × Bool) × Queue A)
  take_first q =
      if q.count == 0
      then returns ((nil, false), q)
      else if ltb q.head (length q.elements)
      then returns (
        (get_or q.elements q.head nil, true),
        record q { head = (q.head + 1) % length q.elements; count = q.count - 1 },
      )
      else panics
