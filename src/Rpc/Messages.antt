-- ===== src/Rpc/Messages.antt =====
-- The messages of proto/sync_service.proto: a record for each message and a data type for each
-- oneof. An enumeration of proto3 is open, so a type is a number. An absent message reads as its
-- default.
use file_sync_tool.Base.{ℕ, Bool, false, List, []}
use file_sync_tool.Base.Int.{ℤ, pos}
use file_sync_tool.Base.Text.{Bytes}

pub record ListFilesRequest : Type 0 where
  pub directory : Bytes
  pub recursive : Bool

pub record FileEntry : Type 0 where
  pub name : Bytes
  pub path : Bytes
  pub is_directory : Bool
  pub size : ℤ
  pub mtime : ℤ
  pub mode : ℕ

pub record ListFilesResponse : Type 0 where
  pub files : List FileEntry
  pub directory : Bytes
  pub total_count : ℤ

pub record GetFileMetaRequest : Type 0 where
  pub file_path : Bytes

pub record FileMeta : Type 0 where
  pub name : Bytes
  pub path : Bytes
  pub size : ℤ
  pub mtime : ℤ
  pub ctime : ℤ
  pub mode : ℕ
  pub md5 : Bytes
  pub is_directory : Bool
  pub exists : Bool

pub record GetFileMetaResponse : Type 0 where
  pub meta : FileMeta
  pub success : Bool
  pub error : Bytes

abbrev pub rpc_list_files : ℕ
rpc_list_files = 1

abbrev pub rpc_get_file_meta : ℕ
rpc_get_file_meta = 2

pub data RequestPayload : Type 0 where
  no_request : RequestPayload
  list_files : ListFilesRequest → RequestPayload
  get_file_meta : GetFileMetaRequest → RequestPayload

pub record RpcRequest : Type 0 where
  pub type : ℕ
  pub payload : RequestPayload

pub data ResponsePayload : Type 0 where
  no_response : ResponsePayload
  files_listed : ListFilesResponse → ResponsePayload
  meta_found : GetFileMetaResponse → ResponsePayload

pub record RpcResponse : Type 0 where
  pub type : ℕ
  pub success : Bool
  pub error : Bytes
  pub payload : ResponsePayload

-- A message with no field set.
abbrev pub no_files : ListFilesResponse
no_files = record { files = []; directory = []; total_count = pos 0 }

abbrev pub no_meta : FileMeta
no_meta = record {
  name = [];
  path = [];
  size = pos 0;
  mtime = pos 0;
  ctime = pos 0;
  mode = 0;
  md5 = [];
  is_directory = false;
  exists = false;
}

-- request.list_files() and request.get_file_meta(), which are default messages where another is
-- set.
abbrev pub list_files_of : RequestPayload → ListFilesRequest
list_files_of no_request = record { directory = []; recursive = false }
list_files_of (list_files r) = r
list_files_of (get_file_meta r) = record { directory = []; recursive = false }

abbrev pub get_file_meta_of : RequestPayload → GetFileMetaRequest
get_file_meta_of no_request = record { file_path = [] }
get_file_meta_of (list_files r) = record { file_path = [] }
get_file_meta_of (get_file_meta r) = r
