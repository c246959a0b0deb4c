-- ===== src/Examples/Scanning.antt =====
-- Digests, free space and the search for changes at concrete inputs.
use file_sync_tool.Base.{
  ℕ, zero, suc, ◌%◌, ◌<◌, ◌≡◌, ◌↔◌, refl, sym, subst, ap, ◌∙◌, inl, inr, Bool, true, false, Option,
  ◌*◌, none, some, List, [], ◌∷◌, ◌++◌, arith, append_assoc, append-nil, length, take, drop,
  replicate, if◌then◌else◌, true≢false, In, All,
}
use file_sync_tool.Base.Int.{pos}
use file_sync_tool.Base.Text.{Bytes, codes, bytes_eq}
use file_sync_tool.Disk.{Stat}
use file_sync_tool.Disk.Memory.{Node, Files, memory}
use file_sync_tool.Metadata.{
  SyncTask, is_dir, find, wanted, need_sync, moved_path, compare_metadata,
}
use file_sync_tool.Digest.{Hash, IsHash, calculate_md5, calculate_file_md5, calculate_partial_md5}
use file_sync_tool.Digest.Laws.{digest, taken, calculate_md5-digest, calculate_partial_md5-digest}
use file_sync_tool.Wire.{two64}
use file_sync_tool.Space.{Volume, check_dest_space}
use file_sync_tool.Space.Laws.{Enough, check_dest_space_iff}
use file_sync_tool.Scan.{list_directory, detect_changes}
use file_sync_tool.Scan.Total.{Levels}
use file_sync_tool.Scan.Changes.{IsChange, detect_changes-IsChange}

-- A hash that tells the length of the content.
abbrev pub length_hash : Hash
length_hash = record {
  Context = Bytes;
  init = [];
  update = λ c bs. c ++ bs;
  final = λ c. (length c % 256) ∷ replicate 15 0;
}

zeros : (n : ℕ) → All (λ (b : ℕ). b < 256) (replicate n 0)
zeros zero = tt
zeros (suc n) = (omega arith, zeros n)

length_hash-IsHash : IsHash length_hash
length_hash-IsHash = record {
  update-append = λ c xs ys. append_assoc c xs ys;
  update_nil = λ c. append-nil c;
  final_length = λ c. refl;
  final_bytes = λ c. (omega arith, zeros 15);
}

calculate_md5-digest_example :
    (calculate_md5 length_hash (some (codes "abc"))
      ≡ digest length_hash length_hash-IsHash (codes "abc"))
    × (calculate_file_md5 length_hash (some (codes "abc"))
        ≡ digest length_hash length_hash-IsHash (codes "abc"))
    × (length (calculate_md5 length_hash (some (codes "abc"))) ≡ 32)
calculate_md5-digest_example = calculate_md5-digest length_hash length_hash-IsHash (codes "abc")

calculate_partial_md5-digest_example :
    calculate_partial_md5 length_hash (some (codes "abcd")) (pos 1) 2
    ≡ digest length_hash length_hash-IsHash (take (taken 2 3) (drop 1 (codes "abcd")))
calculate_partial_md5-digest_example =
    calculate_partial_md5-digest length_hash length_hash-IsHash (codes "abcd") 1 2

abbrev volume : Volume
volume = record { available = 10; fragment_size = 512; block_size = 4096 }

abbrev one_volume : Bytes → Option Volume
one_volume dir = some volume

check_dest_space_iff_example :
    (check_dest_space one_volume (codes "b/x") (pos 5000) ≡ true) ↔ Enough (10 * 4096 % two64) 5000
check_dest_space_iff_example = check_dest_space_iff one_volume (codes "b/x") volume 5000 refl

-- The source has a file and a directory with a file, the destination the file alone.
abbrev tree : Files
tree p =
    if bytes_eq (codes "a/x") p
    then some (Node.file (codes "hello") 420)
    else if bytes_eq (codes "a/d") p
    then some (Node.dir 493)
    else if bytes_eq (codes "a/d/y") p
    then some (Node.file (codes "abc") 420)
    else if bytes_eq (codes "b/x") p
    then some (Node.file (codes "hello") 420)
    else none

abbrev names : Files → Bytes → Option (List Bytes)
names s p =
    if bytes_eq (codes "a") p
    then some (codes "." ∷ (codes "x" ∷ (codes "d" ∷ [])))
    else if bytes_eq (codes "a/d") p
    then some (codes "y" ∷ [])
    else if bytes_eq (codes "b") p
    then some (codes ".." ∷ (codes "x" ∷ []))
    else none

abbrev pub leads_down : Option Stat → Bool
leads_down none = false
leads_down (some st) = is_dir st.mode

-- A path that is no directory has no levels below it.
no_levels :
    {A : Type 0} (p q : Bytes) (st : Stat)
    → leads_down (memory.stat tree p) ≡ false
    → p ≡ q
    → memory.stat tree q ≡ some st
    → is_dir st.mode ≡ true
    → A
no_levels p q st flat same e d = absurd (
    true≢false
      (sym d ∙ ap leads_down (sym e) ∙ ap (λ r. leads_down (memory.stat tree r)) (sym same) ∙ flat))

abbrev Deep : ℕ → Bytes → Type 0
Deep n dir = Levels memory length_hash names tree n dir

low_levels : Deep 1 (codes "a/d")
unfolding list_directory bytes_eq
low_levels q st (inl same) e d = no_levels (codes "a/d/y") q st refl same e d
low_levels q st (inr nowhere) e d = absurd nowhere

source_levels : Deep 2 (codes "a")
unfolding list_directory bytes_eq
source_levels q st (inl same) e d = no_levels (codes "a/x") q st refl same e d
source_levels q st (inr (inl same)) e d = subst (Deep 1) same low_levels
source_levels q st (inr (inr nowhere)) e d = absurd nowhere

dest_levels : Deep 2 (codes "b")
unfolding list_directory bytes_eq
dest_levels q st (inl same) e d = no_levels (codes "b/x") q st refl same e d
dest_levels q st (inr nowhere) e d = absurd nowhere

detect_changes-IsChange_example :
    (tasks : List SyncTask) × (detect_changes memory length_hash names tree 2
        (codes "a")
        (codes "b")
      ≡ some tasks)
    × ((task : SyncTask)
        → In task tasks ↔ IsChange memory length_hash names tree (codes "a") (codes "b") task)
detect_changes-IsChange_example =
    detect_changes-IsChange memory length_hash names tree (codes "a") (codes "b") 2 source_levels
      dest_levels

-- The tasks are for the directory and the file in it.
abbrev sources_of : Option (List SyncTask) → List Bytes
sources_of none = []
sources_of (some []) = []
sources_of (some (t ∷ ts)) = t.src_path ∷ sources_of (some ts)

two_tasks :
    sources_of (detect_changes memory length_hash names tree 2 (codes "a") (codes "b"))
    ≡ codes "a/d" ∷ (codes "a/d/y" ∷ [])
unfolding detect_changes bytes_eq calculate_md5 compare_metadata need_sync find moved_path wanted
two_tasks = refl
