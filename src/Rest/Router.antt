-- ===== src/Rest/Router.antt =====
-- rest/router/patrouter.go: the router, over one search tree for each method, with wildcard routes.
--
-- `path.Clean` is the parameter `clean`. A method is a text. A handler that is nil is `none`; a
-- request is the path of its URL, and a reply says which handler is called with which variables, or
-- what the router writes itself.
pub mod Serving
pub mod Wildcards
pub mod Replies
pub mod Handling
pub mod Effects
pub mod Patterns
pub mod Runs
pub mod Guards
use go_zero_update.Common.{
  ℕ, ◌≡◌, Bool, true, false, ◌||◌, not, List, [], ◌∷◌, ◌++◌, Option, none, some, ltb, if◌then◌else◌,
  Outcome, returns, panics, ◌>>=◌, drop,
}
use go_zero_update.Common.Maps.{is_some, lookup, store}
use go_zero_update.Common.Texts.{has_prefix, trim_prefix, count_byte, contains_byte, join}
use go_zero_update.Search.Tree.{
  Bytes, slash, bytes, bytes_eq, is_nil, starts, Node, AddError, Params, new_node, add_route,
  search_route,
}
use go_zero_update.Search.Tree.Segments.{split}

abbrev pub star : ℕ
star = b'*'

-- `patRouter`.
pub record PatRouter {ℓ} (H : Type ℓ) : Type ℓ where
  pub trees : List (Bytes × Node H)
  pub wildcard_routes : List (Bytes × List (Bytes × Option H))
  pub not_found : Option H
  pub not_allowed : Option H

-- The errors of `Handle`.
pub data HandleError : Type 0 where
  invalid_method : HandleError
  invalid_path : HandleError
  many_wildcards : HandleError
  wildcard_not_last : HandleError
  duplicated_wildcard : HandleError
  in_tree : AddError → HandleError

-- What `ServeHTTP` does: a handler runs, with variables if `pathvar.WithVars` has set some, or the
-- router answers by itself, in the end with the methods of the header `Allow`.
pub data Reply {ℓ} (H : Type ℓ) : Type ℓ where
  handled : H → Option Params → Reply H
  not_found_handled : H → Reply H
  not_found_page : Reply H
  not_allowed_handled : H → Reply H
  not_allowed_page : List Bytes → Reply H

-- `validMethod`.
unfoldable pub valid_method : Bytes → Bool
valid_method m =
    bytes_eq m (b'D' ∷ b'E' ∷ b'L' ∷ b'E' ∷ b'T' ∷ b'E' ∷ [])
    || bytes_eq m (b'G' ∷ b'E' ∷ b'T' ∷ [])
    || bytes_eq m (b'H' ∷ b'E' ∷ b'A' ∷ b'D' ∷ [])
    || bytes_eq m (b'O' ∷ b'P' ∷ b'T' ∷ b'I' ∷ b'O' ∷ b'N' ∷ b'S' ∷ [])
    || bytes_eq m (b'P' ∷ b'A' ∷ b'T' ∷ b'C' ∷ b'H' ∷ [])
    || bytes_eq m (b'P' ∷ b'O' ∷ b'S' ∷ b'T' ∷ [])
    || bytes_eq m (b'P' ∷ b'U' ∷ b'T' ∷ [])

-- The prefix and the name of a wildcard route: the loop over its parts, with those before.
unfoldable pub find_wildcard : List Bytes → List Bytes → Bytes × Bytes
find_wildcard before [] = ([], [])
find_wildcard before (part ∷ parts) =
    if starts star part
    then (
      if is_nil before then slash ∷ [] else join slash before ++ slash ∷ [],
      trim_prefix (star ∷ []) part,
    )
    else find_wildcard (before ++ part ∷ []) parts

unfoldable pub wildcard_of : Bytes → Bytes × Bytes
wildcard_of route = find_wildcard [] (split route)

-- `parts[len(parts)-1]`.
unfoldable pub last_part : List Bytes → Bytes
last_part [] = []
last_part (part ∷ []) = part
last_part (part ∷ next ∷ parts) = last_part (next ∷ parts)

abbrev pub or_new {ℓ} : {A : Type ℓ} → A → Option A → A
or_new a none = a
or_new a (some b) = b

abbrev pub tree_error : Option AddError → Option HandleError
tree_error none = none
tree_error (some e) = some (in_tree e)

module _ {ℓ} {H : Type ℓ} where
  -- `NewRouter`.
  unfoldable pub new_router : PatRouter H
  new_router = record { trees = []; wildcard_routes = []; not_found = none; not_allowed = none }

  -- `Handle` for a path with a wildcard.
  unfoldable pub handle_wildcard :
      PatRouter H → Bytes → Bytes → Option H → Option HandleError × PatRouter H
  handle_wildcard r method path handler =
      let routes = or_new [] (lookup bytes method r.wildcard_routes) in
      if ltb 1 (count_byte star path)
      then (some many_wildcards, r)
      else if not (starts star (last_part (split path)))
      then (some wildcard_not_last, r)
      else if is_some (lookup bytes path routes)
      then (some duplicated_wildcard, r)
      else (
        none,
        record r {
          wildcard_routes = store bytes method (store bytes path handler routes) r.wildcard_routes;
        },
      )

  -- `Handle` for any other path: a new tree is kept also if it refuses the route.
  unfoldable pub handle_tree :
      PatRouter H → Bytes → Bytes → Option H → Option HandleError × PatRouter H
  handle_tree r method path handler =
      let (err, tree) =
        add_route (or_new (new_node none) (lookup bytes method r.trees)) path handler in
      (tree_error err, record r { trees = store bytes method tree r.trees })

  -- `SetNotFoundHandler` and `SetNotAllowedHandler`.
  pub set_not_found : PatRouter H → Option H → PatRouter H
  set_not_found r handler = record r { not_found = handler }

  pub set_not_allowed : PatRouter H → Option H → PatRouter H
  set_not_allowed r handler = record r { not_allowed = handler }

  -- The loop over the wildcard routes of a method, with the name and the value of the variable.
  unfoldable pub match_wildcards :
      Bytes → List (Bytes × Option H) → Option (Option H × (Bytes × Bytes))
  match_wildcards path [] = none
  match_wildcards path ((route, handler) ∷ routes) =
      if has_prefix (wildcard_of route).0 path
      then some (handler, ((wildcard_of route).1, trim_prefix (wildcard_of route).0 path))
      else match_wildcards path routes

  -- The two loops of `methodsAllowed`.
  unfoldable pub tree_methods : Bytes → Bytes → List (Bytes × Node H) → Outcome (List Bytes)
  tree_methods method path [] = returns []
  tree_methods method path ((m, tree) ∷ trees) =
      let more = tree_methods method path trees in
      if bytes_eq m method
      then more
      else (search_route tree path >>= λ found.
          more >>= λ ms. returns (if is_some found then m ∷ ms else ms))

  unfoldable pub wildcard_methods :
      Bytes → Bytes → List (Bytes × List (Bytes × Option H)) → List Bytes
  wildcard_methods method path [] = []
  wildcard_methods method path ((m, routes) ∷ rest) =
      if bytes_eq m method
      then wildcard_methods method path rest
      else if is_some (match_wildcards path routes)
      then m ∷ wildcard_methods method path rest
      else wildcard_methods method path rest

  unfoldable pub methods_allowed : PatRouter H → Bytes → Bytes → Outcome (List Bytes)
  methods_allowed r method path = tree_methods method path r.trees >>= λ ms.
      returns (ms ++ wildcard_methods method path r.wildcard_routes)

  -- `handleNotFound`, and the end of `ServeHTTP`.
  abbrev pub reply_not_found : Option H → Reply H
  reply_not_found none = not_found_page
  reply_not_found (some h) = not_found_handled h

  abbrev pub reply_not_allowed : Option H → List Bytes → Reply H
  reply_not_allowed none ms = not_allowed_page ms
  reply_not_allowed (some h) ms = not_allowed_handled h

  -- The three steps of `ServeHTTP`: the tree of the method, its wildcard routes, and the refusals.
  unfoldable pub search_method : PatRouter H → Bytes → Bytes → Outcome (Option (H × Params))
  search_method r method path = elim (lookup bytes method r.trees) [
    | none ↦ returns none
    | some tree ↦ search_route tree path
  ]

  unfoldable pub serve_wildcard : PatRouter H → Bytes → Bytes → Option (Option H × (Bytes × Bytes))
  serve_wildcard r method path =
      match_wildcards path (or_new [] (lookup bytes method r.wildcard_routes))

  unfoldable pub refuse : PatRouter H → Bytes → Bytes → Outcome (Reply H)
  refuse r method path = methods_allowed r method path >>= λ ms.
      returns
        (if is_nil ms then reply_not_found r.not_found else reply_not_allowed r.not_allowed ms)

  -- A call of a handler, which panics if it is nil.
  abbrev pub call : Option H → Bytes × Bytes → Outcome (Reply H)
  call none var = panics
  call (some h) var = returns (handled h (some (var ∷ [])))

  unfoldable pub serve_clean : PatRouter H → Bytes → Bytes → Outcome (Reply H)
  unfolding search_method serve_wildcard
  serve_clean r method path = search_method r method path >>= λ found. elim found [
    | some (h, params) ↦ returns (handled h (if is_nil params then none else some params))
    | none ↦ elim (serve_wildcard r method path) [
      | some (handler, var) ↦ call handler var
      | none ↦ refuse r method path
    ]
  ]

  module _ (clean : Bytes → Bytes) where
    -- `Handle`.
    unfoldable pub handle :
        PatRouter H → Bytes → Bytes → Option H → Option HandleError × PatRouter H
    unfolding handle_wildcard handle_tree
    handle r method path handler =
        if not (valid_method method)
        then (some invalid_method, r)
        else if not (starts slash path)
        then (some invalid_path, r)
        else if contains_byte star (clean path)
        then handle_wildcard r method (clean path) handler
        else handle_tree r method (clean path) handler

    -- `ServeHTTP`.
    unfoldable pub serve_http : PatRouter H → Bytes → Bytes → Outcome (Reply H)
    serve_http r method url_path = serve_clean r method (clean url_path)
