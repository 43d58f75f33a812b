-- ===== src/Smb/Overlay.antt =====
-- Files that clients write to the SYSVOL and NETLOGON shares: smb.cpp, the overlay in
-- `write_response` and the reading of its contents in `read_response`. A `size_t` has 64 bits.
use endorium_nexus.Prelude.{
  ltb, leb, ◌==◌, if◌then◌else◌, Bool-cases, length, take, drop, is_empty, length-append, Outcome,
  ok, reject, fault, ◌>>=◌, ℕ, zero, suc, ◌+◌, ◌-◌, ◌%◌, ◌^◌, ◌≤◌, ◌<◌, min, max, ◌≡◌, refl, sym,
  ap, inl, inr, true, false, ◌||◌, Option, none, some, List, [], ◌∷◌, ◌++◌, append-nil, arith,
}

unfoldable pub zeros : ℕ → List ℕ
zeros zero = []
zeros (suc count) = 0 ∷ zeros count

-- `std::copy` of the data into the buffer: a place outside it is a fault.
unfoldable pub copy_into : List ℕ → ℕ → List ℕ → Outcome (List ℕ)
copy_into buffer offset data_bytes =
    if leb (offset + length data_bytes) (length buffer)
    then ok (take offset buffer ++ (data_bytes ++ drop (offset + length data_bytes) buffer))
    else fault

-- `vector::resize` to a greater size, with zeros: above the largest size that a vector of bytes can
-- have, 2 ^ 63 - 1, it throws std::length_error, here `reject`.
unfoldable pub grow : List ℕ → ℕ → Outcome (List ℕ)
grow buffer end =
    if ltb (2 ^ 63 - 1) end then reject else ok (buffer ++ zeros (end - length buffer))

-- The buffer after a write: it is made longer to the sum of the offset and the size, which wraps.
unfoldable pub write_overlay : List ℕ → ℕ → List ℕ → Outcome (List ℕ)
write_overlay buffer write_offset write_data =
    let end = (write_offset + length write_data) % 2 ^ 64 in
    let resized = if ltb (length buffer) end then grow buffer end else ok buffer in
    resized >>= λ grown. copy_into grown write_offset write_data

-- What is read from a content: `none` is the status that its end is reached.
unfoldable pub read_content : List ℕ → ℕ → ℕ → Option (List ℕ)
read_content content_text read_offset read_length =
    let available = length content_text - read_offset in
    let count = min available (if read_length == 0 then available else read_length) in
    if is_empty content_text || leb (length content_text) read_offset
    then none
    else some (take count (drop read_offset content_text))

length-zeros : (count : ℕ) → length (zeros count) ≡ count
unfolding zeros
length-zeros zero = refl
length-zeros (suc count) = omega (arith, length-zeros count)

length-grown :
    (buffer : List ℕ) (end : ℕ)
    → length (buffer ++ zeros (end - length buffer)) ≡ max (length buffer) end
length-grown buffer end =
    omega (
      arith,
      length-append buffer (zeros (end - length buffer)),
      length-zeros (end - length buffer),
    )

grown_lem :
    (buffer : List ℕ) (end : ℕ)
    → end < 2 ^ 63
    → (if ltb (length buffer) end then grow buffer end else ok buffer)
      ≡ ok (buffer ++ zeros (end - length buffer))
unfolding grow zeros
grown_lem buffer end h =
    let possible : ltb (2 ^ 63 - 1) end ≡ false = ground (arith, h) in
    elim (Bool-cases (ltb (length buffer) end)) [
      | inl e ↦ rw (e, possible)
      | inr e ↦
          let none_left : end - length buffer ≡ 0 = ground (arith, e) in
          rw (e, none_left) (ap ok (sym (append-nil buffer)))
    ]

grow_fails :
    (buffer : List ℕ) (end : ℕ)
    → length buffer < 2 ^ 63
    → 2 ^ 63 ≤ end
    → (if ltb (length buffer) end then grow buffer end else ok buffer) ≡ reject
unfolding grow
grow_fails buffer end small h =
    let longer : ltb (length buffer) end ≡ true = ground (arith, small, h) in
    let beyond : ltb (2 ^ 63 - 1) end ≡ true = ground (arith, h) in rw (longer, beyond) refl

copy_fits :
    (buffer : List ℕ) (offset : ℕ) (data_bytes : List ℕ)
    → offset + length data_bytes ≤ length buffer
    → copy_into buffer offset data_bytes
      ≡ ok (take offset buffer ++ (data_bytes ++ drop (offset + length data_bytes) buffer))
unfolding copy_into
copy_fits buffer offset data_bytes h = ground arith

copy_fails :
    (buffer : List ℕ) (offset : ℕ) (data_bytes : List ℕ)
    → length buffer < offset + length data_bytes
    → copy_into buffer offset data_bytes ≡ fault
unfolding copy_into
copy_fails buffer offset data_bytes h = ground arith

module _ (buffer : List ℕ) (write_offset : ℕ) (write_data : List ℕ) where
  -- The buffer with zeros behind it up to the end of the write.
  abbrev pub padded : List ℕ
  padded = buffer ++ zeros (write_offset + length write_data - length buffer)

  -- Where the bytes of a write at an offset stand in what it leaves.
  abbrev pub overwritten : List ℕ
  overwritten =
      take write_offset padded ++ (write_data ++ drop (write_offset + length write_data) padded)

  -- To a buffer that a vector can have, a write whose end is below 2 ^ 63 puts its bytes at its
  -- offset, behind the old bytes or zeros, and leaves the rest; one whose end is from 2 ^ 63 up to
  -- below 2 ^ 64 throws std::length_error; one whose end is 2 ^ 64 or more copies outside the buffer.
  -- The end is the offset, below 2 ^ 64, and the size of the data, below 2 ^ 63.
  pub write_overlay_lem :
      length buffer < 2 ^ 63
      → write_offset < 2 ^ 64
      → length write_data < 2 ^ 63
      → write_overlay buffer write_offset write_data ≡ (
          if ltb (write_offset + length write_data) (2 ^ 63)
          then ok overwritten
          else if ltb (write_offset + length write_data) (2 ^ 64)
          then reject
          else fault)
  unfolding write_overlay
  write_overlay_lem small offset_small data_small =
      let sum : ℕ = write_offset + length write_data in
      elim (Bool-cases (ltb sum (2 ^ 63))) [
        | inl e ↦
            let whole : sum % 2 ^ 64 ≡ sum = ground arith in
            rw (e, whole, grown_lem buffer sum (ground (arith, e)))
              (copy_fits padded write_offset write_data (omega (arith, length-grown buffer sum)))
        | inr e ↦ elim (Bool-cases (ltb sum (2 ^ 64))) [
          | inl e2 ↦
              let whole : sum % 2 ^ 64 ≡ sum = ground arith in
              rw (e, e2, whole, grow_fails buffer sum small (ground (arith, e))) refl
          | inr e2 ↦
              let end : ℕ = sum % 2 ^ 64 in
              let short : end < 2 ^ 63 = ground arith in
              let long : length buffer < sum = ground arith in
              let shorter : end < sum = ground arith in
              rw (e, e2, grown_lem buffer end short)
                (copy_fails (buffer ++ zeros (end - length buffer)) write_offset write_data
                  (omega (arith, length-grown buffer end, shorter, long)))
        ]
      ]
