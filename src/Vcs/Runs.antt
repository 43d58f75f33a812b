-- ===== src/Vcs/Runs.antt =====
-- Concrete runs of the repositories' checks, and their theorems at concrete inputs.
use endorium_nexus.Vcs.Names.{is_alnum, is_word_character, last_byte, is_valid_repository_name}
use endorium_nexus.Vcs.Names.Safety.{IsComponent, is_valid_repository_name-IsComponent}
use endorium_nexus.Vcs.Cgi.{
  strip_trailing_cr, trim_left, lines_of, header_field, header_line, header_lines, find_separator,
  split_response, parse_cgi_response,
}
use endorium_nexus.Vcs.Http.{
  post, GitHttpRequest, Repository, RepositoryService, is_write_request, handle,
}
use endorium_nexus.Vcs.Http.Access.{with_git, handle_ignores_git}
use endorium_nexus.Prelude.{
  any, codes, text_eq, pos, is_digit, decimal_value, unsigned_value, signed_value, stoi, find_char,
  starts_with, find_text, contains, ends_with, ℕ, ◌+◌, ◌≡◌, refl, true, false, none, some, [], ◌∷◌,
}

-- A reply of git with a status and one header.
parsed :
    parse_cgi_response (record {
      exit_code = 0;
      stdout_text = codes "Status: 404 Not Found\r\nA: \tb\r\n\r\nbody\n";
      stderr_text = [];
    })
    ≡ record { status_code = pos 404; headers = (codes "A", codes "b") ∷ []; body = codes "body\n" }
unfolding parse_cgi_response find_separator find_text starts_with split_response lines_of
    header_lines header_line header_field strip_trailing_cr trim_left find_char text_eq stoi
    signed_value unsigned_value decimal_value is_digit
parsed = refl

name_passes : is_valid_repository_name (codes "my-repo") ≡ true
unfolding is_valid_repository_name last_byte is_alnum is_word_character contains find_text
    starts_with ends_with text_eq any
name_passes = refl

-- A name that climbs out of the root is refused.
name_fails : is_valid_repository_name (codes "a/../b") ≡ false
unfolding is_valid_repository_name last_byte is_alnum is_word_character contains find_text
    starts_with ends_with text_eq any
name_fails = refl

is_valid_repository_name-IsComponent_example : IsComponent (codes "my-repo")
is_valid_repository_name-IsComponent_example =
    is_valid_repository_name-IsComponent (codes "my-repo") name_passes

abbrev push : GitHttpRequest
push = record {
  method = post;
  repository_name = codes "my-repo";
  path_info = codes "/my-repo.git/git-receive-pack";
  query_string = [];
  content_type = [];
  body = codes "0000";
  authenticated = true;
  can_read = true;
  can_write = false;
  remote_user = codes "ada";
  token_id = [];
}

abbrev stored : Repository
stored = record {
  id = codes "7";
  name = codes "my-repo";
  description = [];
  is_private = true;
  http_push_enabled = true;
  default_branch = codes "main";
  created_at = [];
  updated_at = [];
  storage_exists = true;
  head_target = [];
}

-- The state counts the events; git says yes to everything.
abbrev repositories : RepositoryService ℕ
repositories = record {
  find_by_name = λ name n. (n, some (some stored));
  repair_storage = λ id n. (n, some none);
  record_event = λ id actor action detail n. n + 1;
  run_git_http_backend = λ request n. (
    n + 100,
    some (record { exit_code = 0; stdout_text = codes "\r\n\r\nok"; stderr_text = [] }),
  );
}

push_is_write : is_write_request push ≡ true
unfolding is_write_request contains find_text starts_with
push_is_write = refl

handle_ignores_git_example :
    handle repositories push 0 ≡ handle (with_git repositories (λ request n. (n + 5, none))) push 0
handle_ignores_git_example =
    handle_ignores_git repositories (λ request n. (n + 5, none)) push push_is_write refl 0
