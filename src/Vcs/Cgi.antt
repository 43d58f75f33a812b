-- ===== src/Vcs/Cgi.antt =====
-- The reply of `git http-backend` as an HTTP response: libs/vcs/src/git_http.cpp, `parse_cgi_response`.
use endorium_nexus.Prelude.{
  ◌==◌, if◌then◌else◌, take, drop, is_empty, Text, codes, text_eq, ℤ, pos, stoi, find_char,
  find_text, ℕ, ◌+◌, not, ◌&&◌, ◌||◌, Option, none, some, List, [], ◌∷◌, ◌++◌,
}

pub record GitHttpResponse : Type 0 where
  pub status_code : ℤ
  pub headers : List (Text × Text)
  pub body : Text

pub record ProcessResult : Type 0 where
  pub exit_code : ℕ
  pub stdout_text : Text
  pub stderr_text : Text

-- `headers` are those in front of the content type.
unfoldable pub text_response : ℕ → Text → List (Text × Text) → GitHttpResponse
text_response status body headers = record {
  status_code = pos status;
  headers = headers ++ (codes "Content-Type", codes "text/plain; charset=utf-8") ∷ [];
  body = body;
}

unfoldable pub strip_trailing_cr : Text → Text
strip_trailing_cr [] = []
strip_trailing_cr (c ∷ []) = if c == 13 then [] else c ∷ []
strip_trailing_cr (c ∷ d ∷ s) = c ∷ strip_trailing_cr (d ∷ s)

unfoldable pub trim_left : Text → Text
trim_left [] = []
trim_left (c ∷ s) = let rest = trim_left s in if c == b' ' || c == 9 then rest else c ∷ s

-- std::getline until the stream ends; the last line counts only if it holds something.
unfoldable pub lines_of : Text → Text → List Text
lines_of [] current = if is_empty current then [] else current ∷ []
lines_of (c ∷ s) current =
    let next_line = lines_of s [] in
    let same_line = lines_of s (current ++ c ∷ []) in
    if c == 10 then current ∷ next_line else same_line

unfoldable pub header_field : Text → Text → GitHttpResponse → GitHttpResponse
header_field key value response =
    if text_eq key (codes "Status")
    then record response {
      status_code = elim (stoi value) [ none ↦ pos 500 | some status ↦ status ];
    }
    else record response { headers = response.headers ++ (key, value) ∷ [] }

unfoldable pub header_line : Text → GitHttpResponse → GitHttpResponse
header_line line response = elim (find_char b':' line) [
  | none ↦ response
  | some colon ↦ header_field (take colon line) (trim_left (drop (colon + 1) line)) response
]

unfoldable pub header_lines : List Text → GitHttpResponse → GitHttpResponse
header_lines [] response = response
header_lines (line ∷ lines) response =
    header_lines lines (header_line (strip_trailing_cr line) response)

-- Where the headers end, and how many bytes separate them from the body.
unfoldable pub find_separator : Text → Option (ℕ × ℕ)
find_separator output = elim (find_text output (13 ∷ 10 ∷ 13 ∷ 10 ∷ [])) [
  | none ↦ elim (find_text output (10 ∷ 10 ∷ [])) [
    | none ↦ none
    | some separator ↦ some (separator, 2)
  ]
  | some separator ↦ some (separator, 4)
]

unfoldable pub split_response : Text → ℕ → ℕ → GitHttpResponse
split_response output separator separator_size =
    header_lines (lines_of (take separator output) []) (record {
      status_code = pos 200;
      headers = [];
      body = drop (separator + separator_size) output;
    })

unfoldable pub parse_cgi_response : ProcessResult → GitHttpResponse
parse_cgi_response process =
    let failed = not (process.exit_code == 0) in
    if is_empty process.stdout_text && failed
    then text_response 500
        (if is_empty process.stderr_text
          then codes "git http-backend failed\n"
          else process.stderr_text)
        []
    else elim (find_separator process.stdout_text) [
      | none ↦ record {
        status_code = if failed then pos 500 else pos 200;
        headers = [];
        body = process.stdout_text;
      }
      | some (separator, size) ↦ split_response process.stdout_text separator size
    ]
