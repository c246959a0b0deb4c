-- ===== src/Examples/Listing.antt =====
-- A listing by the RPC server at a concrete input.
use file_sync_tool.Base.{
  ℕ, ◌%◌, ◌≡◌, ◌↔◌, refl, sym, ap, ◌∙◌, subst, unwrap, true≢false, inl, inr, true, false, Option,
  none, some, List, [], ◌∷◌, ◌++◌, length, if◌then◌else◌, In,
}
use file_sync_tool.Base.Int.{pos}
use file_sync_tool.Base.Text.{Bytes, codes, bytes_eq}
use file_sync_tool.Wire.{of_word, two32}
use file_sync_tool.Disk.{Stat}
use file_sync_tool.Disk.Memory.{Node, Files, memory}
use file_sync_tool.Metadata.{is_dir}
use file_sync_tool.Scan.{is_dots}
use file_sync_tool.Rpc.Messages.{ListFilesRequest, ListFilesResponse, FileEntry}
use file_sync_tool.Rpc.Handlers.{with_slash, handle_list_files}
use file_sync_tool.Rpc.Listing.{handle_list_files-Standing}
use file_sync_tool.Rpc.Listing.Names.{IsListed, Standing, Depth}
use file_sync_tool.Examples.Scanning.{length_hash, leads_down}
use file_sync_tool.Examples.Calls.{no_time}

-- A directory with a file and a directory in it, which has a file of its own.
abbrev shelf : Files
shelf p =
    if bytes_eq (codes "base/d") p
    then some (Node.dir 493)
    else if bytes_eq (codes "base/d/e") p
    then some (Node.dir 493)
    else if bytes_eq (codes "base/d/e/x") p
    then some (Node.file (codes "hello") 420)
    else none

abbrev names_on_shelf : Files → Bytes → Option (List Bytes)
names_on_shelf s p =
    if bytes_eq (codes "base/d/") p
    then some (codes "." ∷ (codes "e" ∷ []))
    else if bytes_eq (codes "base/d/e/") p
    then some (codes "x" ∷ [])
    else none

abbrev all_below : ListFilesRequest
all_below = record { directory = codes "d"; recursive = true }

abbrev Reaches : ℕ → Bytes → Type 0
Reaches n rel = Depth memory length_hash names_on_shelf no_time (codes "base/") shelf true n rel

abbrev Shows : Bytes → Bytes → Stat → Type 0
Shows rel name st =
    IsListed memory length_hash names_on_shelf no_time (codes "base/") shelf rel name st

leaf_depth : Reaches 1 (codes "d/e")
unfolding with_slash bytes_eq
leaf_depth name st l again dir =
    leaf name st (subst (In name) (unwrap (sym l.opens)) l.listed) l.stated dir
  where
    leaf :
        (name : Bytes) (st : Stat)
        → In name (codes "x" ∷ [])
        → memory.stat shelf (codes "base/" ++ (codes "d/e/" ++ name)) ≡ some st
        → is_dir st.mode ≡ true
        → ⊥
    leaf name st (inr nowhere) e d = nowhere
    leaf name st (inl same) e d = true≢false (
        sym d
        ∙ ap leads_down (sym e)
        ∙ ap (λ r. leads_down (memory.stat shelf (codes "base/d/e/" ++ r))) (sym same))

shelf_depth : Reaches 2 (codes "d")
unfolding with_slash bytes_eq
shelf_depth name st l again dir =
    level name (subst (In name) (unwrap (sym l.opens)) l.listed) l.real
  where
    level :
        (name : Bytes)
        → In name (codes "." ∷ (codes "e" ∷ []))
        → is_dots name ≡ false
        → Reaches 1 (codes "d/" ++ name)
    level name (inl same) real = absurd (true≢false (ap is_dots same ∙ real))
    level name (inr (inl same)) real = subst (λ r. Reaches 1 (codes "d/" ++ r)) same leaf_depth
    level name (inr (inr nowhere)) real = absurd nowhere

handle_list_files-Standing_example :
    (r : ListFilesResponse) × (handle_list_files memory length_hash names_on_shelf no_time
        (codes "base/")
        shelf
        2
        all_below
      ≡ some r)
    × ((e : FileEntry)
        → In e r.files
          ↔ Standing memory length_hash names_on_shelf no_time
              (codes "base/")
              shelf
              true
              (codes "d")
              e)
    × (r.total_count ≡ of_word two32 (length r.files % two32))
    × (r.directory ≡ codes "d")
unfolding bytes_eq
handle_list_files-Standing_example =
    handle_list_files-Standing memory length_hash names_on_shelf no_time (codes "base/") shelf 2
      all_below (record { size = 4096; mtime = pos 0; mode = 16877 }) refl refl shelf_depth
