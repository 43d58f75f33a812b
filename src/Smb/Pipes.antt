-- ===== src/Smb/Pipes.antt =====
-- Named pipes: smb.cpp, `pipe_cache_key` to `pipe_response_chunk`, with the part of `read_response`
-- and `write_response` that moves bytes through a pipe.
--
-- The two caches are functions from the key of a pipe to its bytes: an entry that is erased and one
-- that is empty behave alike.
pub mod Streams
use endorium_nexus.Smb.Requests.{Smb2RequestInfo}
use endorium_nexus.Prelude.{
  ltb, leb, ◌==◌, if◌then◌else◌, ltb→lt, lt→ltb, le→ltb, leb→le, ==_iff, tests, Bool-cases,
  Option-cases, length, get_elem?, set, take, drop, is_empty, any, keep, All, All-append,
  length-append, length-set, length-take, length-drop, take-append-drop, take-append, drop-append,
  drop-append_le, get_elem?-lt, get_elem?-append, set-append, Outcome, ok, reject, fault, ◌>>=◌,
  ◌>>◌, reject_if, attempt, byte_at, Outcome-cases, Ensures, Ends, returns, rejects, Ensures-bind,
  Ensures-ok, Ensures-ne-fault, Ensures-map, Ensures-attempt, Ensures-guard, Ensures-if, Returns,
  returned, Returns-bind, Returns-attempt, Returns-option, Returns-if, Returns-ok, Returns-Ensures,
  Returns-value, slice-Returns, byte_at-append, byte_at-behind, slice, slice-append, slice-Ensures,
  byte_at-lt, byte_at-Ensures, Text, codes, text_eq, text_eq_refl, text_eq→eq, text_eq_iff, ℤ, pos,
  negsuc, digits_of, to_string, digit_in, digits_run, wrapped, unsigned_run, prefixed_run, run_of,
  signed_run, stoul, is_space, trim_start, trim_end, behind_last, before_last, is_digit,
  decimal_value, unsigned_value, negated, signed_value, stoi, find_char, starts_with,
  starts_with-append, find_text, contains, contains-append, ends_with, to_lower, to_lower_idem,
  map-to_lower_idem, ℕ, zero, suc, ◌+◌, ◌-◌, ◌*◌, ◌/◌, ◌%◌, ◌^◌, ◌≤◌, ◌<◌, min, max, ◌≡◌, refl, sym,
  ap, ◌∙◌, ◌≢◌, ◌↔◌, ◌⊎◌, inl, inr, Bool, true, false, not, ◌&&◌, ◌||◌, Option, none, some, List,
  [], ◌∷◌, ◌++◌, map, append_assoc, append-nil, arith,
}

abbrev pub PipeCacheKey : Type 0
PipeCacheKey = ℕ × ℕ × ℕ

abbrev pub Cache : Type 0
Cache = PipeCacheKey → List ℕ

unfoldable pub pipe_cache_key : Smb2RequestInfo → PipeCacheKey
pipe_cache_key request = (request.session_id, request.file_id_persistent, request.file_id_volatile)

unfoldable pub same_key : PipeCacheKey → PipeCacheKey → Bool
same_key (a, b, c) (d, e, f) = a == d && b == e && c == f

-- cache[key] = bytes, or `erase` when there are none.
unfoldable pub store : PipeCacheKey → List ℕ → Cache → Cache
store key bytes cache other = if same_key other key then bytes else cache other

unfoldable pub u16_of : List ℕ → ℕ
u16_of (a ∷ b ∷ rest) = a + b * 256
u16_of bytes = 0

-- read_u16: 0 behind the end.
unfoldable pub read_u16_or_zero : List ℕ → ℕ → ℕ
read_u16_or_zero input offset = u16_of (drop offset input)

unfoldable pub dce_rpc_expected_fragment_size : List ℕ → Option ℕ
dce_rpc_expected_fragment_size [] = none
dce_rpc_expected_fragment_size (first ∷ rest) =
    let input = first ∷ rest in
    let fragment_size = read_u16_or_zero input 8 in
    if ltb (length input) 16
    then (if first == 5 then none else some (length input))
    else if not (first == 5)
    then some (length input)
    else if ltb fragment_size 16 || ltb (1024 * 1024) fragment_size
    then some (length input)
    else some fragment_size

-- The fragment that the pending bytes begin with, if they have all of it, and the bytes behind it.
unfoldable pub take_fragment : List ℕ → Option ℕ → Option (List ℕ) × List ℕ
take_fragment pending none = (none, pending)
take_fragment pending (some expected_size) =
    if ltb (length pending) expected_size
    then (none, pending)
    else (some (take expected_size pending), drop expected_size pending)

unfoldable pub complete_pipe_rpc_fragment : Cache → Smb2RequestInfo → Option (List ℕ) × Cache
complete_pipe_rpc_fragment cache request =
    let key = pipe_cache_key request in
    let pending = cache key ++ request.write_data in
    let (fragment, rest) = take_fragment pending (dce_rpc_expected_fragment_size pending) in
    (fragment, store key rest cache)

unfoldable pub queue_pipe_response : Cache → PipeCacheKey → List ℕ → Cache
queue_pipe_response cache key output =
    let cached = cache key in
    if is_empty output
    then cache
    else if is_empty cached
    then store key output cache
    else store key (cached ++ output) cache

unfoldable pub pipe_response_chunk : Cache → Smb2RequestInfo → List ℕ → Bool → List ℕ × Cache
pipe_response_chunk cache request output cache_remainder =
    let limit = request.max_output_response in
    if limit == 0 || leb (length output) limit
    then (output, cache)
    else if cache_remainder
    then (take limit output, queue_pipe_response cache (pipe_cache_key request) (drop limit output))
    else (take limit output, cache)

-- A read from a pipe: `none` is the status that the pipe is empty.
unfoldable pub read_pipe : Cache → Smb2RequestInfo → Option (List ℕ) × Cache
read_pipe cache request =
    let key = pipe_cache_key request in
    let cached = cache key in
    let count =
      min (length cached)
        (if request.read_length == 0 then length cached else request.read_length) in
    if is_empty cached
    then (none, cache)
    else (some (take count cached), store key (drop count cached) cache)

module _ (answer : List ℕ → List ℕ) where
  -- The part of a write that feeds a pipe; `answer` is `rpc_named_pipe_response`.
  unfoldable pub feed_pipe : Cache → Cache → Smb2RequestInfo → Cache × Cache
  feed_pipe requests responses request =
      let (fragment, later) = complete_pipe_rpc_fragment requests request in
      (
        later,
        elim fragment [
          | none ↦ responses
          | some rpc_input ↦
              if is_empty rpc_input
              then responses
              else queue_pipe_response responses (pipe_cache_key request) (answer rpc_input)
        ],
      )
