-- ===== src/Vcs/Http.antt =====
-- Requests to repositories over HTTP: libs/vcs/src/git_http.cpp, `GitSmartHttpService::handle`.
pub mod Access
use endorium_nexus.Vcs.Names.{is_valid_repository_name}
use endorium_nexus.Vcs.Cgi.{GitHttpResponse, ProcessResult, text_response, parse_cgi_response}
use endorium_nexus.Prelude.{
  ltb, leb, ◌==◌, if◌then◌else◌, ltb→lt, lt→ltb, le→ltb, leb→le, ==_iff, tests, Bool-cases,
  Option-cases, length, get_elem?, set, take, drop, is_empty, any, keep, All, All-append,
  length-append, length-set, length-take, length-drop, take-append-drop, take-append, drop-append,
  get_elem?-lt, get_elem?-append, set-append, Outcome, ok, reject, fault, ◌>>=◌, ◌>>◌, reject_if,
  attempt, byte_at, Outcome-cases, Ensures, Ends, returns, rejects, Ensures-bind, Ensures-ok,
  Ensures-ne-fault, Ensures-map, Ensures-attempt, Ensures-guard, Ensures-if, byte_at-append,
  byte_at-behind, slice, slice-append, slice-Ensures, byte_at-lt, byte_at-Ensures, Text, codes,
  text_eq, text_eq_refl, text_eq→eq, text_eq_iff, ℤ, pos, negsuc, is_digit, decimal_value,
  unsigned_value, negated, signed_value, stoi, find_char, starts_with, find_text, contains,
  contains-append, ends_with, to_lower, to_lower_idem, map-to_lower_idem, ℕ, zero, suc, ◌+◌, ◌-◌,
  ◌*◌, ◌/◌, ◌%◌, ◌^◌, ◌≤◌, ◌<◌, min, max, ◌≡◌, refl, sym, ap, ◌∙◌, ◌≢◌, ◌↔◌, ◌⊎◌, inl, inr, Bool,
  true, false, not, ◌&&◌, ◌||◌, Option, none, some, List, [], ◌∷◌, ◌++◌, map, append_assoc,
  append-nil, arith,
}

pub data GitHttpMethod : Type 0 where
  get : GitHttpMethod
  post : GitHttpMethod

pub record GitHttpRequest : Type 0 where
  pub method : GitHttpMethod
  pub repository_name : Text
  pub path_info : Text
  pub query_string : Text
  pub content_type : Text
  pub body : Text
  pub authenticated : Bool
  pub can_read : Bool
  pub can_write : Bool
  pub remote_user : Text
  pub token_id : Text

pub record Repository : Type 0 where
  pub id : Text
  pub name : Text
  pub description : Text
  pub is_private : Bool
  pub http_push_enabled : Bool
  pub default_branch : Text
  pub created_at : Text
  pub updated_at : Text
  pub storage_exists : Bool
  pub head_target : Text

unfoldable pub is_write_request : GitHttpRequest → Bool
is_write_request request =
    contains request.path_info (codes "git-receive-pack")
    || contains request.query_string (codes "service=git-receive-pack")

unfoldable pub auth_required : GitHttpResponse
auth_required =
    text_response 401 (codes "authentication required\n")
      ((codes "WWW-Authenticate", codes "Basic realm=\"Endorium Nexus Git\"") ∷ [])

-- The repositories over a state `S`: the database, the files and the git processes. A routine that
-- throws returns `none`; `record_event` gets the repository's id, the actor, the action and a detail,
-- and what it throws is dropped by the caller.
pub record RepositoryService (S : Type 0) : Type 0 where
  pub find_by_name : Text → S → S × Option (Option Repository)
  pub repair_storage : Text → S → S × Option (Option Repository)
  pub record_event : Text → Text → Text → Text → S → S
  pub run_git_http_backend : GitHttpRequest → S → S × Option ProcessResult

unfoldable pub is_success : GitHttpResponse → Bool
is_success response = elim response.status_code [
  | pos n ↦ leb 200 n && ltb n 400
  | negsuc n ↦ false
]

unfoldable pub action_of : Bool → Bool → Text
action_of success write =
    if success
    then (if write then codes "push" else codes "fetch")
    else if write
    then codes "push.failed"
    else codes "fetch.failed"

unfoldable pub detail_of : GitHttpRequest → Text
detail_of request =
    if is_empty request.query_string
    then request.path_info
    else request.path_info ++ codes "?" ++ request.query_string

module _ {S : Type 0} (repositories : RepositoryService S) where
  unfoldable pub record_event_best_effort : Repository → GitHttpRequest → Text → Text → S → S
  record_event_best_effort repository request action detail =
      repositories.record_event repository.id
        (if is_empty request.remote_user then codes "anonymous" else request.remote_user) action
        detail

  -- What follows the run of git.
  unfoldable pub answered :
      Repository → GitHttpRequest → Bool → S × Option ProcessResult → S × Option GitHttpResponse
  answered repository request write (state, none) = (state, none)
  answered repository request write (state, some process) =
      let response = parse_cgi_response process in
      (
        record_event_best_effort repository request (action_of (is_success response) write)
            (detail_of request) state,
        some response,
      )

  -- The checks, and git behind them, for a repository whose storage exists.
  unfoldable pub serve : Repository → GitHttpRequest → S → S × Option GitHttpResponse
  serve repository request state =
      let write = is_write_request request in
      let event = record_event_best_effort repository request in
      if repository.is_private && not request.can_read
      then (event (codes "fetch.denied") request.path_info state, some auth_required)
      else if write && not repository.http_push_enabled
      then (
        event (codes "push.denied") (codes "http push disabled") state,
        some (text_response 403 (codes "git push is disabled for this repository\n") []),
      )
      else if write && not request.can_write
      then (
        event (codes "push.denied") (codes "write token required") state,
        some (
            if request.authenticated || request.can_read
            then text_response 403 (codes "git write token required\n") []
            else auth_required),
      )
      else answered repository request write (repositories.run_git_http_backend request state)

  -- The result of a repair: the repository as it is now, or nothing.
  unfoldable pub repaired :
      GitHttpRequest → S × Option (Option Repository) → S × Option GitHttpResponse
  repaired request (state, none) = (state, none)
  repaired request (state, some none) =
      (state, some (text_response 500 (codes "repository storage is unavailable\n") []))
  repaired request (state, some (some repository)) =
      if repository.storage_exists
      then serve repository request state
      else (state, some (text_response 500 (codes "repository storage is unavailable\n") []))

  unfoldable pub found :
      GitHttpRequest → S × Option (Option Repository) → S × Option GitHttpResponse
  found request (state, none) = (state, none)
  found request (state, some none) =
      (state, some (text_response 404 (codes "repository not found\n") []))
  found request (state, some (some repository)) =
      if repository.storage_exists
      then serve repository request state
      else repaired request (repositories.repair_storage repository.id state)

  unfoldable pub handle : GitHttpRequest → S → S × Option GitHttpResponse
  handle request state =
      if not (is_valid_repository_name request.repository_name)
      then (state, some (text_response 404 (codes "repository not found\n") []))
      else found request (repositories.find_by_name request.repository_name state)
