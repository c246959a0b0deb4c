-- ===== src/Rpc/Handlers.antt =====
-- What the RPC server answers: RpcServer::setBaseDirectory, handleListFiles, listDirectory,
-- handleGetFileMeta and the switch of handleRpcClient (src/rpc/RpcServer.cpp). The recursion of
-- listDirectory runs on fuel, one for each level of directories; what it fills in has no part in
-- it. The times of the last change that stat gives, and the names of a directory, are arguments.
use file_sync_tool.Base.{
  ℕ, zero, suc, ◌+◌, ◌%◌, Bool, true, false, ◌&&◌, ◌==◌, Option, none, some, List, [], ◌∷◌, ◌++◌,
  if◌then◌else◌,
}
use file_sync_tool.Base.Int.{ℤ, pos}
use file_sync_tool.Base.Text.{Bytes, codes}
use file_sync_tool.Wire.{of_word, to_word, two32}
use file_sync_tool.Disk.{Disk, Stat}
use file_sync_tool.Digest.{Hash, calculate_file_md5}
use file_sync_tool.Metadata.{is_dir}
use file_sync_tool.Scan.{is_dots}
use file_sync_tool.Rpc.Messages.{
  ListFilesRequest, FileEntry, ListFilesResponse, GetFileMetaRequest, FileMeta, GetFileMetaResponse,
  RpcRequest, RpcResponse, ResponsePayload, no_response, files_listed, meta_found, rpc_list_files,
  rpc_get_file_meta, no_files, no_meta, list_files_of, get_file_meta_of,
}

-- baseDirectory += '/' and fullRel += '/', where there is text that does not end in one.
unfoldable pub with_slash : Bytes → Bytes
with_slash [] = []
with_slash (b ∷ []) = if b == 47 then b ∷ [] else b ∷ (47 ∷ [])
with_slash (b ∷ (c ∷ cs)) = b ∷ with_slash (c ∷ cs)

-- substr(find_last_of('/') + 1), `none` where there is no slash.
abbrev pub or_here : ℕ → Bytes → Option Bytes → Option Bytes
or_here b bs (some name) = some name
or_here b bs none = if b == 47 then some bs else none

unfoldable pub after_slash : Bytes → Option Bytes
after_slash [] = none
after_slash (b ∷ bs) = or_here b bs (after_slash bs)

abbrev pub or_whole : Bytes → Option Bytes → Bytes
or_whole path none = path
or_whole path (some name) = name

-- The int32 that counts one more, its overflow taken to wrap.
abbrev pub next_count : ℤ → ℤ
next_count c = of_word two32 ((to_word two32 c + 1) % two32)

module _ (D : Disk) (H : Hash) (entries : D.State → Bytes → Option (List Bytes))
    (ctime : D.State → Bytes → ℤ) (base : Bytes) (s : D.State) where
  abbrev pub entry_of : Bytes → Bytes → Stat → FileEntry
  entry_of name path st = record {
    name = name;
    path = path;
    is_directory = is_dir st.mode;
    size = pos st.size;
    mtime = st.mtime;
    mode = st.mode;
  }

  abbrev pub add_file : FileEntry → ListFilesResponse → ListFilesResponse
  add_file e response = record response {
    files = response.files ++ (e ∷ []);
    total_count = next_count response.total_count;
  }

  -- The body of the loop for a name, with the call on a subdirectory.
  abbrev pub add_name :
      (Bytes → ListFilesResponse → ListFilesResponse)
      → Bool
      → Bytes
      → Bytes
      → Option Stat
      → ListFilesResponse
      → ListFilesResponse
  add_name sub recursive name path none response = response
  add_name sub recursive name path (some st) response =
      let response' = add_file (entry_of name path st) response in
      let deeper = sub path response' in if recursive && is_dir st.mode then deeper else response'

  unfoldable pub add_names :
      (Bytes → ListFilesResponse → ListFilesResponse)
      → Bool
      → Bytes
      → List Bytes
      → ListFilesResponse
      → ListFilesResponse
  add_names sub recursive full_rel [] response = response
  add_names sub recursive full_rel (name ∷ names) response =
      let path = full_rel ++ name in
      let added =
        add_names sub recursive full_rel names
          (add_name sub recursive name path (D.stat s (base ++ path)) response) in
      let skipped = add_names sub recursive full_rel names response in
      if is_dots name then skipped else added

  abbrev pub in_opened :
      Option (List Bytes) → (List Bytes → ListFilesResponse) → ListFilesResponse → ListFilesResponse
  in_opened none fill response = response
  in_opened (some names) fill response = fill names

  -- RpcServer::listDirectory
  unfoldable pub list_into : ℕ → Bool → Bytes → ListFilesResponse → ListFilesResponse
  unfolding add_names with_slash
  list_into zero recursive rel_dir response = response
  list_into (suc fuel) recursive rel_dir response =
      in_opened (entries s (base ++ with_slash rel_dir))
        (λ names.
          add_names (list_into fuel recursive) recursive (with_slash rel_dir) names response)
        response

  abbrev pub list_stated : ℕ → ListFilesRequest → Option Stat → Option ListFilesResponse
  list_stated fuel request none = none
  list_stated fuel request (some st) =
      let response =
        list_into fuel request.recursive request.directory
          (record no_files { directory = request.directory }) in
      if is_dir st.mode then some response else none

  -- RpcServer::handleListFiles, `none` where it returns false.
  unfoldable pub handle_list_files : ℕ → ListFilesRequest → Option ListFilesResponse
  unfolding list_into
  handle_list_files fuel request = list_stated fuel request (D.stat s (base ++ request.directory))

  abbrev pub meta_stated : Bytes → Option Stat → FileMeta
  meta_stated path none = no_meta
  meta_stated path (some st) = record {
    name = or_whole path (after_slash path);
    path = path;
    size = pos st.size;
    mtime = st.mtime;
    ctime = ctime s (base ++ path);
    mode = st.mode;
    md5 = if is_dir st.mode then [] else calculate_file_md5 H (D.open_read s (base ++ path));
    is_directory = is_dir st.mode;
    exists = true;
  }

  -- RpcServer::handleGetFileMeta, which always returns true.
  unfoldable pub handle_get_file_meta : GetFileMetaRequest → GetFileMetaResponse
  unfolding after_slash
  handle_get_file_meta request = record {
    meta = meta_stated request.file_path (D.stat s (base ++ request.file_path));
    success = true;
    error = [];
  }

  abbrev pub failed : ℕ → Bytes → RpcResponse
  failed type error = record { type = type; success = false; error = error; payload = no_response }

  abbrev pub answered : ℕ → ResponsePayload → RpcResponse
  answered type payload = record { type = type; success = true; error = []; payload = payload }

  abbrev pub respond_listed : ℕ → Option ListFilesResponse → RpcResponse
  respond_listed type none = failed type (codes "processing failed")
  respond_listed type (some response) = answered type (files_listed response)

  -- The switch of handleRpcClient and what it sets in the response.
  unfoldable pub respond_to : ℕ → RpcRequest → RpcResponse
  unfolding handle_list_files handle_get_file_meta
  respond_to fuel request =
      let listed =
        respond_listed request.type (handle_list_files fuel (list_files_of request.payload)) in
      let found =
        answered request.type
          (meta_found (handle_get_file_meta (get_file_meta_of request.payload))) in
      if request.type == rpc_list_files
      then listed
      else if request.type == rpc_get_file_meta
      then found
      else failed request.type (codes "unknown RPC type")
