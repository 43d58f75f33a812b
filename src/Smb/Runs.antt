-- ===== src/Smb/Runs.antt =====
-- Concrete runs of pipes and files, and their theorems at concrete inputs.
use endorium_nexus.Smb.Requests.{Smb2RequestInfo}
use endorium_nexus.Smb.Pipes.{
  Cache, pipe_cache_key, dce_rpc_expected_fragment_size, read_u16_or_zero, u16_of, take_fragment,
  complete_pipe_rpc_fragment, same_key, store,
}
use endorium_nexus.Smb.Pipes.Streams.{
  bytes_of, written, run_writes, run_writes_lem, run_reads, run_reads_drains,
}
use endorium_nexus.Smb.Overlay.{write_overlay, overwritten, write_overlay_lem}
use endorium_nexus.Prelude.{
  ltb, if◌then◌else◌, ok, reject, fault, ℕ, ◌+◌, ◌-◌, ◌^◌, ◌≡◌, refl, true, false, List, [], ◌∷◌,
  ◌++◌, map, arith,
}

-- A request on the pipe of a file.
abbrev on_pipe : ℕ → List ℕ → Smb2RequestInfo
on_pipe file bytes = record {
  valid = true;
  netbios_framed = true;
  smb1_multiprotocol_negotiate = false;
  command = 9;
  selected_dialect = 0;
  tree_id = 1;
  session_id = 7;
  message_id = 1;
  tree_path = [];
  create_name = [];
  ioctl_ctl_code = 0;
  file_id_persistent = file;
  file_id_volatile = 2;
  read_offset = 0;
  read_length = 2;
  write_offset = 0;
  query_output_length = 0;
  query_info_type = 0;
  query_file_info_class = 0;
  set_info_type = 0;
  set_file_info_class = 0;
  max_output_response = 0;
  security_blob = [];
  ioctl_input = [];
  write_data = bytes;
  dialects = [];
}

abbrev nothing_cached : Cache
nothing_cached key = []

-- A fragment of 17 bytes in two writes, and a write to another pipe between them.
abbrev three_writes : List Smb2RequestInfo
three_writes =
    on_pipe 3 (5 ∷ 0 ∷ 0 ∷ 3 ∷ 16 ∷ 0 ∷ 0 ∷ 0 ∷ 17 ∷ [])
    ∷ on_pipe 4 (9 ∷ [])
    ∷ on_pipe 3 (0 ∷ 0 ∷ 0 ∷ 1 ∷ 0 ∷ 0 ∷ 0 ∷ 42 ∷ 5 ∷ [])
    ∷ []

fragment :
    bytes_of (7, 3, 2) (run_writes nothing_cached three_writes).0
    ≡ 5 ∷ 0 ∷ 0 ∷ 3 ∷ 16 ∷ 0 ∷ 0 ∷ 0 ∷ 17 ∷ 0 ∷ 0 ∷ 0 ∷ 1 ∷ 0 ∷ 0 ∷ 0 ∷ 42 ∷ []
unfolding pipe_cache_key dce_rpc_expected_fragment_size read_u16_or_zero u16_of take_fragment
    complete_pipe_rpc_fragment same_key store
fragment = refl

run_writes_lem_example :
    bytes_of (7, 3, 2) (run_writes nothing_cached three_writes).0
      ++ (run_writes nothing_cached three_writes).1 (7, 3, 2)
    ≡ nothing_cached (7, 3, 2) ++ bytes_of (7, 3, 2) (map written three_writes)
run_writes_lem_example = run_writes_lem (7, 3, 2) three_writes nothing_cached

abbrev five_cached : Cache
five_cached key = 1 ∷ 2 ∷ 3 ∷ 4 ∷ 5 ∷ []

run_reads_drains_example :
    ((run_reads 5 five_cached (on_pipe 3 [])).0 ≡ five_cached (pipe_cache_key (on_pipe 3 [])))
    × ((run_reads 5 five_cached (on_pipe 3 [])).1 (pipe_cache_key (on_pipe 3 [])) ≡ [])
run_reads_drains_example = run_reads_drains 5 five_cached (on_pipe 3 []) (omega arith)

-- A write of two bytes in front of the last place that 64 bits can name.
write_overlay_lem_example : write_overlay (1 ∷ []) (2 ^ 64 - 1) (8 ∷ 9 ∷ []) ≡ (
    if ltb (2 ^ 64 - 1 + 2) (2 ^ 63)
    then ok (overwritten (1 ∷ []) (2 ^ 64 - 1) (8 ∷ 9 ∷ []))
    else if ltb (2 ^ 64 - 1 + 2) (2 ^ 64)
    then reject
    else fault)
write_overlay_lem_example =
    write_overlay_lem (1 ∷ []) (2 ^ 64 - 1) (8 ∷ 9 ∷ []) (omega arith) (omega arith) (omega arith)
