-- ===== src/Smb/Requests.antt =====
-- The fields of an SMB2 request: libs/protocol/include/nexus/protocol/smb.hpp, `Smb2RequestInfo`.
use endorium_nexus.Prelude.{Text, ℕ, Bool, List}

pub record Smb2RequestInfo : Type 0 where
  pub valid : Bool
  pub netbios_framed : Bool
  pub smb1_multiprotocol_negotiate : Bool
  pub command : ℕ
  pub selected_dialect : ℕ
  pub tree_id : ℕ
  pub session_id : ℕ
  pub message_id : ℕ
  pub tree_path : Text
  pub create_name : Text
  pub ioctl_ctl_code : ℕ
  pub file_id_persistent : ℕ
  pub file_id_volatile : ℕ
  pub read_offset : ℕ
  pub read_length : ℕ
  pub write_offset : ℕ
  pub query_output_length : ℕ
  pub query_info_type : ℕ
  pub query_file_info_class : ℕ
  pub set_info_type : ℕ
  pub set_file_info_class : ℕ
  pub max_output_response : ℕ
  pub security_blob : List ℕ
  pub ioctl_input : List ℕ
  pub write_data : List ℕ
  pub dialects : List ℕ
