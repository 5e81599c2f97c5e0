-- ===== src/Rest/Router/Runs.antt =====
-- Calls of `Handle` and then a request, for rest/router/patrouter.go.
use go_zero_update.Common.{◌≡◌, List, [], ◌∷◌, Option}
use go_zero_update.Search.Tree.{Bytes, slash}
use go_zero_update.Rest.Router.{PatRouter, new_router, handle, serve_http}
use go_zero_update.Rest.Router.Replies.{IsValid, Right, serve_clean-Right}
use go_zero_update.Rest.Router.Handling.{new_router-IsValid, handle-IsValid}

module _ {ℓ} {H : Type ℓ} (clean : Bytes → Bytes) where
  -- Calls of `Handle` with these methods, paths and handlers.
  unfoldable pub handle_all : List (Bytes × (Bytes × Option H)) → PatRouter H → PatRouter H
  handle_all [] r = r
  handle_all ((method, (path, handler)) ∷ calls) r =
      handle_all calls (handle clean r method path handler).1

  handle_all-IsValid :
      (calls : List (Bytes × (Bytes × Option H))) (r : PatRouter H)
      → IsValid r
      → IsValid (handle_all calls r)
  unfolding handle_all
  handle_all-IsValid [] r v = v
  handle_all-IsValid ((method, (path, handler)) ∷ calls) r v =
      handle_all-IsValid calls (handle clean r method path handler).1
        (handle-IsValid clean r method path handler v)

  -- After any calls of `Handle` on a new router `ServeHTTP` does what it should for every request
  -- whose clean path begins with a slash. A route of the method that matches the path comes first,
  -- with the parameters of the match. If there is none, a wildcard route of the method whose prefix
  -- fits is taken, with the rest of the path as its variable; only a nil handler of it panics. If
  -- there is none either, the request is refused: the list of the methods allowed has exactly the
  -- other methods with a route or a wildcard route for the path, and an empty list means not found.
  pub serve_http-Right :
      (calls : List (Bytes × (Bytes × Option H))) (method url_path p : Bytes)
      → clean url_path ≡ slash ∷ p
      → Right
          (handle_all calls new_router)
          method
          p
          (serve_http clean (handle_all calls new_router) method url_path)
  unfolding serve_http
  serve_http-Right calls method url_path p e = rw e (
      serve_clean-Right (handle_all calls new_router) method p
        (handle_all-IsValid calls new_router new_router-IsValid))
