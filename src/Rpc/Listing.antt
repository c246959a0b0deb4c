-- ===== src/Rpc/Listing.antt =====
-- handleListFiles lists exactly what stands in, or under, the directory.
pub mod Growth
pub mod Names
use file_sync_tool.Base.{
  ℕ, zero, suc, ◌%◌, ◌≡◌, ◌↔◌, refl, sym, ap, ◌∙◌, subst, ◌⊎◌, inl, inr, Bool, true, false, ◌&&◌,
  Option, none, some, List, [], ◌∷◌, ◌++◌, arith, length, length-append, if◌then◌else◌, Bool-cases,
  unwrap, none≢some, true≢false, In,
}
use file_sync_tool.Base.Int.{ℤ}
use file_sync_tool.Base.Text.{Bytes}
use file_sync_tool.Wire.{of_word, two32}
use file_sync_tool.Disk.{Disk, Stat}
use file_sync_tool.Digest.{Hash}
use file_sync_tool.Metadata.{is_dir}
use file_sync_tool.Scan.{is_dots}
use file_sync_tool.Rpc.Messages.{ListFilesRequest, FileEntry, ListFilesResponse, no_files}
use file_sync_tool.Rpc.Handlers.{
  with_slash, entry_of, add_file, add_name, add_names, in_opened, list_into, list_stated,
  handle_list_files,
}
use file_sync_tool.Rpc.Listing.Growth.{Grows, Grows-as, Grows-none, Grows-then, In-snoc}
use file_sync_tool.Rpc.Listing.Names.{
  Adds, AllDescend, Depth, Descends, IsListed, Reached, Standing, add_file-Grows, add_name-Grows,
  add_names-Grows, and_true, path_of, here, below,
}

module _ (D : Disk) (H : Hash) (entries : D.State → Bytes → Option (List Bytes))
    (ctime : D.State → Bytes → ℤ) (base : Bytes) (s : D.State) where
  module _ (recursive : Bool) (sub : Bytes → ListFilesResponse → ListFilesResponse)
      (rel : Bytes) where
    abbrev Seen : List Bytes → FileEntry → Type 0
    Seen names =
        (Reached D H entries ctime base s) recursive ((Standing D H entries ctime base s) recursive)
          sub rel names

    Standing-Seen :
        (names : List Bytes) (e : FileEntry)
        → entries s (base ++ with_slash rel) ≡ some names
        → (Standing D H entries ctime base s) recursive rel e
        → Seen names e
    Standing-Seen names e o (here _ _ name st l same) = (
      name,
      subst (In name) (unwrap (sym l.opens ∙ o)) l.listed,
      l.real,
      subst
          (λ k.
            (Adds D H entries ctime base s) recursive
              ((Standing D H entries ctime base s) recursive) sub name (with_slash rel ++ name) k e)
          (sym l.stated) (inl same),
    )
    Standing-Seen names e o (below _ _ name st l again dir low) = (
      name,
      subst (In name) (unwrap (sym l.opens ∙ o)) l.listed,
      l.real,
      subst
          (λ k.
            (Adds D H entries ctime base s) recursive
              ((Standing D H entries ctime base s) recursive) sub name (with_slash rel ++ name) k e)
          (sym l.stated) (inr (again, dir, low)),
    )

    Seen-Standing :
        (names : List Bytes) (e : FileEntry)
        → entries s (base ++ with_slash rel) ≡ some names
        → Seen names e
        → (Standing D H entries ctime base s) recursive rel e
    Seen-Standing names e o (name, there, real, adds) =
        stood (D.stat s (base ++ (with_slash rel ++ name))) refl adds
      where
        stood :
            (k : Option Stat)
            → D.stat s (base ++ (with_slash rel ++ name)) ≡ k
            → (Adds D H entries ctime base s) recursive
                ((Standing D H entries ctime base s) recursive)
                sub
                name
                (with_slash rel ++ name)
                k
                e
            → (Standing D H entries ctime base s) recursive rel e
        stood none q a = absurd a
        stood (some st) q (inl same) =
            here rel e name st
              (record { names = names; opens = o; listed = there; real = real; stated = q }) same
        stood (some st) q (inr (again, dir, low)) =
            below rel e name st
              (record { names = names; opens = o; listed = there; real = real; stated = q }) again
              dir low

    opens_of :
        (e : FileEntry)
        → (Standing D H entries ctime base s) recursive rel e
        → (names : List Bytes) × (entries s (base ++ with_slash rel) ≡ some names)
    opens_of e (here _ _ name st l same) = (l.names, l.opens)
    opens_of e (below _ _ name st l again dir low) = (l.names, l.opens)

    in_opened-Grows :
        (o : Option (List Bytes)) (r : ListFilesResponse)
        → entries s (base ++ with_slash rel) ≡ o
        → ((names : List Bytes)
            → o ≡ some names
            → (AllDescend D H entries ctime base s) recursive
                ((Standing D H entries ctime base s) recursive)
                sub
                rel
                names)
        → Grows ((Standing D H entries ctime base s) recursive rel) r (
            in_opened D H entries ctime base s o
              (λ names. add_names D H entries ctime base s sub recursive (with_slash rel) names r)
              r)
    in_opened-Grows none r e low =
        Grows-none ((Standing D H entries ctime base s) recursive rel) r
          (λ x standing. none≢some (sym e ∙ (opens_of x standing).1))
    in_opened-Grows (some names) r e low =
        Grows-as (Seen names) ((Standing D H entries ctime base s) recursive rel) r _
          ((add_names-Grows D H entries ctime base s) recursive
            ((Standing D H entries ctime base s) recursive) sub rel names r (low names refl))
          (λ x. (Standing-Seen names x e, Seen-Standing names x e))

  list_into-Grows :
      (fuel : ℕ) (recursive : Bool) (rel : Bytes) (r : ListFilesResponse)
      → (Depth D H entries ctime base s) recursive fuel rel
      → Grows
          ((Standing D H entries ctime base s) recursive rel)
          r
          (list_into D H entries ctime base s fuel recursive rel r)
  unfolding list_into
  list_into-Grows zero recursive rel r deep = absurd deep
  list_into-Grows (suc fuel) recursive rel r deep =
      in_opened-Grows recursive (list_into D H entries ctime base s fuel recursive) rel
        (entries s (base ++ with_slash rel)) r refl
        (λ names opens name there real st stated again dir r1.
          list_into-Grows fuel recursive (with_slash rel ++ name) r1 (
            deep name st
              (record {
                names = names;
                opens = opens;
                listed = there;
                real = real;
                stated = stated;
              })
              again dir))

  -- Where the fuel covers the levels that the listing goes down (one, if it is not recursive),
  -- handleListFiles answers a request for a directory that stat finds with exactly the entries that
  -- stand in it and, for a recursive request, at any depth below it, each with its name, path,
  -- kind, size, time and mode, and with the directory as asked for and their number, cut to the 32
  -- bits of an int32.
  pub handle_list_files-Standing :
      (fuel : ℕ) (request : ListFilesRequest) (st : Stat)
      → D.stat s (base ++ request.directory) ≡ some st
      → is_dir st.mode ≡ true
      → (Depth D H entries ctime base s) request.recursive fuel request.directory
      → (r : ListFilesResponse) × (handle_list_files D H entries ctime base s fuel request ≡ some r)
        × ((e : FileEntry)
            → In e r.files
              ↔ (Standing D H entries ctime base s) request.recursive request.directory e)
        × (r.total_count ≡ of_word two32 (length r.files % two32))
        × (r.directory ≡ request.directory)
  unfolding handle_list_files
  handle_list_files-Standing fuel request st e dir deep =
      let r0 : ListFilesResponse = record no_files { directory = request.directory } in
      let r : ListFilesResponse =
        list_into D H entries ctime base s fuel request.recursive request.directory r0 in
      let g = list_into-Grows fuel request.recursive request.directory r0 deep in
      (
        r,
        ap (list_stated D H entries ctime base s fuel request) e
            ∙ ap (λ b. if b then some r else none) dir,
        (λ x. (
          (λ there. elim ((g.entries x).0 there) [
            | inl nowhere ↦ absurd nowhere
            | inr standing ↦ standing
          ]),
          (λ standing. (g.entries x).1 (inr standing)),
        )),
        g.counted (unfold of_word in refl),
        g.directory,
      )
