-- ===== src/Vcs/Http/Access.antt =====
-- Who may read and push: git runs only for requests that the repository's settings and the request's
-- rights allow.
use endorium_nexus.Vcs.Cgi.{GitHttpResponse, ProcessResult}
use endorium_nexus.Vcs.Http.{
  GitHttpRequest, Repository, RepositoryService, is_write_request, record_event_best_effort, serve,
  repaired, found, handle,
}
use endorium_nexus.Prelude.{
  Text, pos, ◌≡◌, refl, ◌⊎◌, Bool, true, false, not, ◌&&◌, ◌||◌, Option, none, some, arith,
}

-- A read needs a public repository or the right to read; a push needs pushes over HTTP and the right
-- to write as well.
abbrev pub allows : Repository → GitHttpRequest → Bool
allows repository request =
    (not repository.is_private || request.can_read)
    && (not (is_write_request request) || (repository.http_push_enabled && request.can_write))

-- One event is recorded, and the response is 401 or 403.
pub record Refuses {S : Type 0} (repositories : RepositoryService S) (repository : Repository)
    (request : GitHttpRequest) (before : S) (result : S × Option GitHttpResponse) : Type 0 where
  pub action : Text
  pub detail : Text
  pub response : GitHttpResponse
  pub is_result : result ≡ (
    record_event_best_effort repositories repository request action detail before,
    some response,
  )
  pub status : (response.status_code ≡ pos 401) ⊎ (response.status_code ≡ pos 403)

-- The same repositories with another git.
abbrev pub with_git :
    {S : Type 0}
    → RepositoryService S
    → (GitHttpRequest → S → S × Option ProcessResult)
    → RepositoryService S
with_git repositories git = record repositories { run_git_http_backend = git }

module _ {S : Type 0} (repositories : RepositoryService S)
    (git : GitHttpRequest → S → S × Option ProcessResult) (request : GitHttpRequest)
    (pushes : is_write_request request ≡ true) (may_not : request.can_write ≡ false) where
  serve_ignores :
      (repository : Repository) (state : S)
      → serve repositories repository request state
        ≡ serve (with_git repositories git) repository request state
  unfolding serve record_event_best_effort
  serve_ignores repository state = ground (arith, pushes, may_not)

  repaired_ignores :
      (r : S × Option (Option Repository))
      → repaired repositories request r ≡ repaired (with_git repositories git) request r
  unfolding repaired
  repaired_ignores (state, none) = refl
  repaired_ignores (state, some none) = refl
  repaired_ignores (state, some (some repository)) = ground (arith, serve_ignores repository state)

  found_ignores :
      (r : S × Option (Option Repository))
      → found repositories request r ≡ found (with_git repositories git) request r
  unfolding found
  found_ignores (state, none) = refl
  found_ignores (state, some none) = refl
  found_ignores (state, some (some repository)) = ground (
    arith,
    serve_ignores repository state,
    repaired_ignores (repositories.repair_storage repository.id state),
  )

  -- A push without the right to write never reaches git, whatever is stored: the result and the
  -- state behind it are the same with any other git in its place.
  pub handle_ignores_git :
      (state : S)
      → handle repositories request state ≡ handle (with_git repositories git) request state
  unfolding handle
  handle_ignores_git state =
      ground (arith, found_ignores (repositories.find_by_name request.repository_name state))
