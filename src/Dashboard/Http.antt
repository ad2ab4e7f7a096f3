-- ===== src/Dashboard/Http.antt =====
-- src/threevn_dashboard/threevn_dashboard/http_server.py: the routes. The socket, the headers and
-- the
-- bytes of a body belong to `http.server`; the file system is an argument, and so are the version
-- block and the state that the handler is bound to.
pub mod Status
mod Samples
use vn_robotics.Prelude.{
  ℕ, Bool, true, false, not, ◌||◌, String, Option, none, some, List, [], ◌∷◌, if◌then◌else◌, ◌==◌,
  string_eq, number_eq,
}
use vn_robotics.Py.Text.{before, rstrip_by, text_or}

-- What a reply carries.
pub data Body (V S R : Type 0) : Type 0 where
  liveness : Body V S R
  readiness : (ready : Bool) (reasons : List R) → Body V S R
  version : V → Body V S R
  state : S → Body V S R
  not_found : (path : Option String) → Body V S R
  file : (name content_type : String) → Body V S R

pub data Reply (V S R : Type 0) : Type 0 where
  sent : (status : ℕ) → Body V S R → Reply V S R
  -- _stream
  streamed : Reply V S R

-- A path that is resolved: whether it begins with the static directory, whether it is a file, and
-- what type is guessed for it.
pub record Resolved : Type 0 where
  pub within : Bool
  pub is_file : Bool
  pub guessed : Option String

abbrev pub is_slash : ℕ → Bool
is_slash c = c == 47

-- self.path.split('?', 1)[0].rstrip('/') or '/'
unfoldable pub route_of : String → String
unfolding before rstrip_by
route_of path = text_or (rstrip_by is_slash (before 63 path)) "/"

module _ {V S R : Type 0} where
  -- _send_static
  unfoldable pub send_static : (String → Resolved) → String → Reply V S R
  send_static resolve name =
      let path = resolve name in
      if not path.within || not path.is_file
      then sent 404 (not_found none)
      else sent 200
          (file name (elim path.guessed [ none ↦ "application/octet-stream" | some t ↦ t ]))

  unfoldable pub do_get :
      (String → Resolved) → Bool × List R → V → S → (path : String) → Reply V S R
  unfolding send_static
  do_get resolve (ready, reasons) version_info snapshot path =
      let route = route_of path in
      if route == "/"
      then send_static resolve "index.html"
      else if route == "/healthz"
      then sent 200 liveness
      else if route == "/readyz"
      then sent (if ready then 200 else 503) (readiness ready reasons)
      else if route == "/api/version"
      then sent 200 (version version_info)
      else if route == "/api/state"
      then sent 200 (state snapshot)
      else if route == "/api/stream"
      then streamed
      else sent 404 (not_found (some route))

  abbrev pub status_of : Reply V S R → Option ℕ
  status_of (sent status body) = some status
  status_of streamed = none
