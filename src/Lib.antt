-- ===== src/Lib.antt =====
-- go-zero: a verification library for the core packages of this web and RPC framework.
--
-- The library has one module for each package that it models, below it one module for each file
-- of the package, and below that the proofs.
-- - Common: Boolean tests, panics (`Outcome`), Go slices as lists (`Common.Lists`), a slice read
--   as a ring of indices (`Common.Circular`), tables of a function (`Common.Table`), Go maps as
--   association lists (`Common.Maps`), stores of shared objects (`Common.Store`), texts and what
--   is used of the package strings (`Common.Texts`), integers (`Common.Int`).
-- - Collection: core/collection. `Collection.Fifo` is `Queue` of fifo.go, with `put` and
--   `take_first` for `Put` and `Take`; `Collection.Ring` is `Ring` of ring.go, with `add` and
--   `take_all` for `Add` and `Take`; `Collection.RollingWindow` is `RollingWindow` of
--   rollingwindow.go, with `update_offset`, `add` and `reduce` for `updateOffset`, `Add` and
--   `Reduce`; `Collection.SafeMap` is `SafeMap` of safemap.go, with `get`, `set`, `del`, `range`
--   and `size` for `Get`, `Set`, `Del`, `Range` and `Size`; `Collection.Cache` is the cache of
--   cache.go, with `do_get`, `set_with_expire` and `del` for `doGet`, `SetWithExpire` and `Del`,
--   and `lru_add` and `lru_remove` for `add` and `remove` of `keyLru`. The calls of its timing
--   wheel are results; `Take` and the statistics are not modelled. `Collection.TimingWheel` is
--   the wheel of timingwheel.go, with `set_task`, `move_task`, `remove_task`, `on_tick` and
--   `drain_all` for the methods of these names, `visit` and `scan` for the loop of
--   `scanAndRunTasks`, and `step` for a round of `run`. Its tasks are in a store, since a slot
--   and the table of the timers share them, and the calls of `execute` are a list. `Due` says how
--   many ticks a timer is away, `Timers` to `Drains` what the events do to that.
-- - Breaker: core/breaker. `Breaker.Bucket` is bucket.go; `Breaker.History` and `Breaker.Google`
--   are googlebreaker.go, with `history`, `accept`, `do_req` and `allow` for `history`, `accept`,
--   `doReq` and `allow`. `Breaker.ErrorWindow` is the `errorWindow` of breaker.go.
--   `Breaker.Counts` says what `history` reports, over `Collection.RollingWindow.Totals` and
--   `Collection.RollingWindow.Streaks`. The breaker's statistics are a rolling window of 40
--   buckets of `Breaker.Bucket`.
-- - Search: core/search. `Search.Tree` is tree.go, with `add_route` and `search_route` for
--   `Tree.Add` and `Tree.Search`, and `add`, `next` and `match` for the functions of these names.
--   `Search.Tree.Segments` describes routes and paths by their segments, `Search.Tree.Keys` what
--   a tree holds, and the modules `Adding`, `Invariant`, `Finding` and `Runs` hold the proofs.
-- - Rest: rest. `Rest.Router` is router/patrouter.go over `Search.Tree`, with `handle` and
--   `serve_http` for `Handle` and `ServeHTTP`, `methods_allowed` for `methodsAllowed`, and
--   `match_wildcards` and `find_wildcard` for the loops over the wildcard routes.
--   `Rest.Router.Guards` says which routes the checks of `Handle` keep out. The request is the
--   method and the path, a reply says which handler runs with which variables.
-- - Goctl: tools/goctl. `Goctl.Token` is pkg/parser/api/token/token.go, and `Goctl.Scanner` is
--   pkg/parser/api/scanner/scanner.go, with `read_while` for the loops that read while a rune
--   passes a test; the methods for durations are in `Units`, those for the other tokens in
--   `Literals` (`scan_string` is `scanString`, and so on), and `next_token` in `Switch` is
--   `NextToken`. A scanner at a place of its input is `Reads.at`; `Durations` and `Words` say
--   what the methods read, and `Tokens` and `Runs` put them together.
-- - Stringx: core/stringx. `Stringx` is strings.go, with `filter`, `first_n`, `remove`,
--   `join_texts` and `substr` for `Filter`, `FirstN`, `Remove`, `Join` and `Substr`, and `union`
--   in `Stringx.Unions` for `Union`; `Stringx.Starts` is about `first_n`, `Stringx.Compaction`
--   has the loops that move what they keep to the front of a slice, and `Stringx.Joining` has
--   `Join`. `Stringx.Trie` is node.go, a store of nodes by their numbers, with `add`, `build` and
--   `find`; its children go from the names of the nodes (`Stringx.Trie.Names`,
--   `Stringx.Trie.Growing`, `Stringx.Trie.Adding`) over the links (`Stringx.Trie.Links`,
--   `Stringx.Trie.Fails`) and the queue of `build` (`Stringx.Trie.Queueing`,
--   `Stringx.Trie.Steps`, `Stringx.Trie.Building`) to the search (`Stringx.Trie.Advancing`,
--   `Stringx.Trie.Finding`), which is compared with the plain one of `Stringx.Trie.Matches`.
--   `Stringx.Keywords` is trie.go, with `filter_text` and `find_keywords` for `Filter` and
--   `FindKeywords`, and `Stringx.Replacer` is replacer.go; `Stringx.Replacer.Greedy` is what it
--   is compared with. Converting a text to runes and back is left out: a text is its runes, of
--   which a text that is not UTF-8 has U+FFFD, and the keys of a replacer are UTF-8. `sort.Slice`
--   is a parameter, of which the theorem on `replace` assumes that it keeps the scopes and orders
--   them. The loop over the queue has one round for each node, and a loop along the links one
--   round more than the depth of its node.
--
-- The conventions. A method that changes its receiver returns the new receiver. A method under a
-- mutex is one step, so the mutexes are left out. A reading of the clock is an argument of the
-- function that reads it, one for each call of `timex.Now` or `timex.Since`; the theorems say
-- what they ask of the clock. A Go panic is `Outcome.panics`. Counters are natural numbers. A Go
-- map is an association list, in the order of one iteration over it. A text is the list of its
-- bytes. `any` is a type parameter, with its nil as an argument where the code fills a slice with
-- it.
--
-- The loops are recursion on the rounds left or on a list. Only those of `Goctl.Scanner` run on
-- fuel, one round more than the runes that are left, and `Goctl.Scanner.Tokens` shows that this
-- is enough for each.
--
-- Parameters, since they are no code of the repository: float64 (the record `Float` of
-- `Breaker.Google`, with the laws `FloatLaws` of finite numbers in range where a theorem needs
-- them; the numbers of `Breaker.Thousandths` obey these), the answers of the random generator,
-- and for `Breaker.ErrorWindow` the functions `format` and `join` for `fmt.Sprintf` and
-- `strings.Join`, and for `Rest.Router` the function `clean` for `path.Clean`.
--
-- Not modelled of these packages: the set of core/collection, `Reverse`, `Contains`,
-- `ToCamelCase` and the random texts of core/stringx, and the wrappers of the breaker. Nor are
-- network, storage and process code, logging and metrics, and the rest of the code generator
-- under tools/.
pub mod Common
pub mod Collection
pub mod Breaker
pub mod Search
pub mod Rest
pub mod Goctl
pub mod Stringx
