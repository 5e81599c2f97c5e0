-- ===== src/Stringx.antt =====
-- core/stringx/strings.go: helpers for texts and for lists of texts.
--
-- A text of runes is the list of its runes. A loop over the indices of a slice runs on the rounds that
-- are left, and reads and writes the slice as the loop in the code does.
mod Tests
pub mod Compaction
pub mod Joining
pub mod Trie
pub mod Keywords
pub mod Replacer
pub mod Starts
pub mod Unions
use go_zero_update.Common.{
  ℕ, zero, suc, ◌+◌, ◌-◌, Bool, true, false, ◌||◌, not, List, [], ◌∷◌, ◌++◌, Option, none, some,
  ltb, ◌==◌, if◌then◌else◌, length, get_or, set, take, drop, Outcome, returns, panics,
}
use go_zero_update.Common.Int.{ℤ, pos, negsuc}
use go_zero_update.Common.Texts.{bytes_eq}

abbrev pub Text : Type 0
Text = List ℕ

-- The loop of `Filter`, at the index `i` with `n` runes kept.
unfoldable pub filter_from : (ℕ → Bool) → ℕ → ℕ → ℕ → Text → Text × ℕ
filter_from drops zero i n chars = (chars, n)
filter_from drops (suc k) i n chars =
    let x = get_or chars i 0 in
    filter_from drops k (i + 1) (if drops x then n else n + 1)
      (if ltb n i then set chars n x else chars)

unfoldable pub filter : Text → (ℕ → Bool) → Text
unfolding filter_from
filter s drops = let (chars, n) = filter_from drops (length s) 0 0 s in take n chars

-- The loop of `Remove` for one text.
unfoldable pub remove_from : Text → ℕ → ℕ → ℕ → List Text → List Text × ℕ
remove_from str zero i n out = (out, n)
remove_from str (suc k) i n out =
    let v = get_or out i [] in
    remove_from str k (i + 1) (if bytes_eq v str then n else n + 1)
      (if bytes_eq v str then out else set out n v)

unfoldable pub remove_one : Text → List Text → List Text
unfolding remove_from
remove_one str out = let (out', n) = remove_from str (length out) 0 0 out in take n out'

unfoldable pub remove : List Text → List Text → List Text
unfolding remove_one
remove strings [] = strings
remove strings (str ∷ strs) = remove (remove_one str strings) strs

-- `i == n`.
abbrev pub is_int : ℕ → ℤ → Bool
is_int i (pos n) = i == n
is_int i (negsuc n) = false

-- The loop of `FirstN` over `ellipsis`.
unfoldable pub append_each : Text → List Text → Text
append_each ret [] = ret
append_each ret (each ∷ ellipsis) = append_each (ret ++ each) ellipsis

-- The loop of `FirstN` over the runes, from the rune at `i`.
unfoldable pub first_n_from : Text → ℤ → List Text → ℕ → Text → Text
unfolding append_each
first_n_from s n ellipsis i [] = s
first_n_from s n ellipsis i (c ∷ rest) =
    let later = first_n_from s n ellipsis (i + 1) rest in
    if is_int i n then append_each (take i s) ellipsis else later

unfoldable pub first_n : Text → ℤ → List Text → Text
unfolding first_n_from
first_n s n ellipsis = first_n_from s n ellipsis 0 s

unfoldable pub has_empty : List Text → Bool
has_empty [] = false
has_empty (arg ∷ args) = let rest = has_empty args in if length arg == 0 then true else rest

unfoldable pub not_empty : List Text → Bool
unfolding has_empty
not_empty args = not (has_empty args)

unfoldable pub total_size : List Text → ℕ
total_size [] = 0
total_size (e ∷ elem) = length e + total_size elem

-- The second loop of `Join`.
unfoldable pub join_from : ℕ → Text → List Text → Text
join_from sep buf [] = buf
join_from sep buf (e ∷ elem) =
    join_from sep
      (if length e == 0 then buf else (if ltb 0 (length buf) then buf ++ sep ∷ [] else buf) ++ e)
      elem

unfoldable pub join_texts : ℕ → List Text → Text
unfolding join_from total_size
join_texts sep elem = if total_size elem == 0 then [] else join_from sep [] elem

-- `ErrInvalidStartPosition` and `ErrInvalidStopPosition`.
pub data SubstrResult : Type 0 where
  substring : Text → SubstrResult
  invalid_start : SubstrResult
  invalid_stop : SubstrResult

-- `start < 0 || start > length`.
unfoldable pub out_of_range : ℤ → ℕ → Bool
out_of_range (pos n) size = ltb size n
out_of_range (negsuc n) size = true

unfoldable pub nat_of : ℤ → ℕ
nat_of (pos n) = n
nat_of (negsuc n) = 0

-- `Substr`; the slice of Go panics if it ends before it starts.
unfoldable pub substr : Text → ℤ → ℤ → Outcome SubstrResult
unfolding out_of_range nat_of
substr rs start stop =
    if out_of_range start (length rs)
    then returns invalid_start
    else if out_of_range stop (length rs)
    then returns invalid_stop
    else if ltb (nat_of stop) (nat_of start)
    then panics
    else returns (substring (take (nat_of stop - nat_of start) (drop (nat_of start) rs)))

unfoldable pub take_one : Text → Text → Text
take_one valid or = if ltb 0 (length valid) then valid else or

-- `TakeWithPriority`, with the results of its functions.
unfoldable pub take_with_priority : List Text → Text
take_with_priority [] = []
take_with_priority (val ∷ fns) =
    let rest = take_with_priority fns in if ltb 0 (length val) then val else rest
