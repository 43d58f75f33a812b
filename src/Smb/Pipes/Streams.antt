-- ===== src/Smb/Pipes/Streams.antt =====
-- A pipe carries a stream of bytes: what is written comes out in fragments, in order and with nothing
-- lost, whatever other pipes do, and reading empties it.
use endorium_nexus.Smb.Requests.{Smb2RequestInfo}
use endorium_nexus.Smb.Pipes.{
  PipeCacheKey, Cache, pipe_cache_key, same_key, store, dce_rpc_expected_fragment_size,
  take_fragment, complete_pipe_rpc_fragment, read_pipe,
}
use endorium_nexus.Prelude.{
  ltb, ◌==◌, if◌then◌else◌, Bool-cases, length, drop, is_empty, length-drop, take-append-drop, ℕ,
  zero, suc, ◌-◌, ◌≤◌, ◌<◌, min, ◌≡◌, refl, sym, ap, ◌∙◌, inl, inr, true, false, Option, none, some,
  List, [], ◌∷◌, ◌++◌, map, append_assoc, append-nil, arith,
}

same_key_refl : (k : PipeCacheKey) → same_key k k ≡ true
unfolding same_key
same_key_refl (a, b, c) = ground arith

same_key→eq : (j k : PipeCacheKey) → same_key j k ≡ true → j ≡ k
unfolding same_key
same_key→eq (a, b, c) (d, e, f) h =
    let first : a ≡ d = ground (arith, h) in
    let second : b ≡ e = ground (arith, h) in
    let third : c ≡ f = ground (arith, h) in rw (first, second, third)

module _ (key : PipeCacheKey) (bytes : List ℕ) (cache : Cache) (other : PipeCacheKey) where
  store_same : same_key other key ≡ true → store key bytes cache other ≡ bytes
  unfolding store
  store_same h = rw h

  store_other : same_key other key ≡ false → store key bytes cache other ≡ cache other
  unfolding store
  store_other h = rw h

-- The bytes of one pipe among the bytes of all.
abbrev pub bytes_of : PipeCacheKey → List (PipeCacheKey × List ℕ) → List ℕ
bytes_of k [] = []
bytes_of k ((key, bytes) ∷ rest) = (if same_key k key then bytes else []) ++ bytes_of k rest

bytes_of-append :
    (k : PipeCacheKey) (xs ys : List (PipeCacheKey × List ℕ))
    → bytes_of k (xs ++ ys) ≡ bytes_of k xs ++ bytes_of k ys
bytes_of-append k [] ys = refl
bytes_of-append k ((key, bytes) ∷ xs) ys =
    rw (bytes_of-append k xs ys)
      (sym (append_assoc (if same_key k key then bytes else []) (bytes_of k xs) (bytes_of k ys)))

abbrev pub bytes_or_none : Option (List ℕ) → List ℕ
bytes_or_none none = []
bytes_or_none (some bytes) = bytes

take_fragment-append :
    (pending : List ℕ) (size : Option ℕ)
    → bytes_or_none (take_fragment pending size).0 ++ (take_fragment pending size).1 ≡ pending
unfolding take_fragment
take_fragment-append pending none = refl
take_fragment-append pending (some size) = elim (Bool-cases (ltb (length pending) size)) [
  | inl e ↦ rw e
  | inr e ↦ rw e (take-append-drop size pending)
]

without_nil : (front back : List ℕ) → (front ++ []) ++ back ≡ front ++ back
without_nil front back = ap (λ l. l ++ back) (append-nil front)

-- The fragment that a write completes, under the pipe's key.
abbrev pub emitted : Smb2RequestInfo → Option (List ℕ) → List (PipeCacheKey × List ℕ)
emitted request fragment = (pipe_cache_key request, bytes_or_none fragment) ∷ []

-- Many writes: the fragments that they complete, and the bytes that are left pending.
abbrev pub run_writes : Cache → List Smb2RequestInfo → List (PipeCacheKey × List ℕ) × Cache
run_writes cache [] = ([], cache)
run_writes cache (request ∷ requests) =
    let (fragment, later) = complete_pipe_rpc_fragment cache request in
    let (rest, last) = run_writes later requests in (emitted request fragment ++ rest, last)

abbrev pub written : Smb2RequestInfo → PipeCacheKey × List ℕ
written request = (pipe_cache_key request, request.write_data)

write_step :
    (k : PipeCacheKey) (cache : Cache) (request : Smb2RequestInfo)
    → bytes_of k (emitted request (complete_pipe_rpc_fragment cache request).0)
        ++ (complete_pipe_rpc_fragment cache request).1 k
      ≡ cache k ++ bytes_of k (written request ∷ [])
unfolding complete_pipe_rpc_fragment
write_step k cache request =
    let key = pipe_cache_key request in
    let pending : List ℕ = cache key ++ request.write_data in
    let size : Option ℕ = dce_rpc_expected_fragment_size pending in
    let split = take_fragment-append pending size in
    elim (Bool-cases (same_key k key)) [
      | inl e ↦
          let at : cache k ≡ cache key = ap cache (same_key→eq k key e) in
          rw (e, store_same key (take_fragment pending size).1 cache k e, at)
            (without_nil _ (take_fragment pending size).1
              ∙ split
              ∙ ap (λ l. cache key ++ l) (sym (append-nil request.write_data)))
      | inr e ↦
          rw (e, store_other key (take_fragment pending size).1 cache k e)
            (sym (append-nil (cache k)))
    ]

-- For each pipe, the fragments that any writes to any pipes complete, and what is left pending after
-- them, are together exactly the bytes that were pending and the bytes that the writes bring.
pub run_writes_lem :
    (k : PipeCacheKey) (requests : List Smb2RequestInfo) (cache : Cache)
    → bytes_of k (run_writes cache requests).0 ++ (run_writes cache requests).1 k
      ≡ cache k ++ bytes_of k (map written requests)
run_writes_lem k [] cache = sym (append-nil (cache k))
run_writes_lem k (request ∷ requests) cache =
    let later : Cache = (complete_pipe_rpc_fragment cache request).1 in
    let first : List ℕ =
      bytes_of k (emitted request (complete_pipe_rpc_fragment cache request).0) in
    let this : List ℕ = bytes_of k (written request ∷ []) in
    let more : List ℕ = bytes_of k (map written requests) in
    let rest = run_writes_lem k requests later in
    ap (λ l. l ++ (run_writes later requests).1 k)
      (bytes_of-append k (emitted request (complete_pipe_rpc_fragment cache request).0)
        (run_writes later requests).0)
    ∙ append_assoc first _ _
    ∙ ap (λ l. first ++ l) rest
    ∙ sym (append_assoc first (later k) more)
    ∙ ap (λ l. l ++ more) (write_step k cache request)
    ∙ append_assoc (cache k) this more
    ∙ ap (λ l. cache k ++ l) (sym (bytes_of-append k (written request ∷ []) (map written requests)))

-- A read again and again.
abbrev pub run_reads : ℕ → Cache → Smb2RequestInfo → List ℕ × Cache
run_reads zero cache request = ([], cache)
run_reads (suc n) cache request =
    let (bytes, later) = read_pipe cache request in
    let (more, last) = run_reads n later request in (bytes_or_none bytes ++ more, last)

empty_size : (bytes : List ℕ) → is_empty bytes ≡ true → length bytes ≡ 0
empty_size [] h = refl
empty_size (b ∷ bytes) h = cc

size_empty : (bytes : List ℕ) → length bytes ≤ 0 → bytes ≡ []
size_empty [] h = refl
size_empty (b ∷ bytes) h = absurd (omega arith)

full_size : (bytes : List ℕ) → is_empty bytes ≡ false → 0 < length bytes
full_size [] h = cc
full_size (b ∷ bytes) h = omega arith

count_positive : (size wanted : ℕ) → 0 < size → 0 < min size (if wanted == 0 then size else wanted)
count_positive size wanted h = elim (Bool-cases (wanted == 0)) [
  | inl e ↦ rw e (omega (arith, h))
  | inr e ↦ let some_wanted : 0 < wanted = ground arith in rw e (omega (arith, h, some_wanted))
]

abbrev Drains : Cache → PipeCacheKey → Option (List ℕ) × Cache → Type 0
Drains cache key r =
    (bytes_or_none r.0 ++ r.1 key ≡ cache key) × (length (r.1 key) ≤ length (cache key) - 1)

read_step :
    (cache : Cache) (request : Smb2RequestInfo)
    → Drains cache (pipe_cache_key request) (read_pipe cache request)
unfolding read_pipe
read_step cache request =
    let key = pipe_cache_key request in
    let cached : List ℕ = cache key in
    let count : ℕ =
      min (length cached)
        (if request.read_length == 0 then length cached else request.read_length) in
    let here = store_same key (drop count cached) cache key (same_key_refl key) in
    elim (Bool-cases (is_empty cached)) [
      | inl e ↦
          let none_left : length cached ≡ 0 = empty_size cached e in
          rw e (refl, omega (arith, none_left))
      | inr e ↦
          rw (e, here)
            (
              take-append-drop count cached,
              omega (
                arith,
                length-drop count cached,
                count_positive (length cached) request.read_length (full_size cached e),
              ),
            )
    ]

-- A client that keeps reading a pipe, at most so many bytes at a time or as many as there are, gets
-- after as many reads as there are bytes all of them in their order, and the pipe is empty.
pub run_reads_drains :
    (reads : ℕ) (cache : Cache) (request : Smb2RequestInfo)
    → length (cache (pipe_cache_key request)) ≤ reads
    → ((run_reads reads cache request).0 ≡ cache (pipe_cache_key request))
      × ((run_reads reads cache request).1 (pipe_cache_key request) ≡ [])
run_reads_drains zero cache request h =
    let nothing : cache (pipe_cache_key request) ≡ [] =
      size_empty (cache (pipe_cache_key request)) h in
    (sym nothing, nothing)
run_reads_drains (suc reads) cache request h =
    let step = read_step cache request in
    let (rest, empty) =
      run_reads_drains reads (read_pipe cache request).1 request (omega (arith, step.1, h)) in
    (ap (λ l. bytes_or_none (read_pipe cache request).0 ++ l) rest ∙ step.0, empty)
