-- ===== src/Rpc/Listing/Names.antt =====
-- What one name of a directory adds to a listing of the RPC server (src/rpc/RpcServer.cpp).
use file_sync_tool.Base.{
  ℕ, zero, suc, ◌≡◌, refl, sym, ap, ◌∙◌, subst, ◌⊎◌, inl, inr, Bool, true, false, ◌&&◌, Option,
  none, some, List, [], ◌∷◌, ◌++◌, if◌then◌else◌, Bool-cases, true≢false, In,
}
use file_sync_tool.Base.Int.{ℤ}
use file_sync_tool.Base.Text.{Bytes}
use file_sync_tool.Disk.{Disk, Stat}
use file_sync_tool.Digest.{Hash}
use file_sync_tool.Metadata.{is_dir}
use file_sync_tool.Scan.{is_dots}
use file_sync_tool.Rpc.Messages.{FileEntry, ListFilesResponse}
use file_sync_tool.Rpc.Handlers.{with_slash, entry_of, add_file, add_name, add_names}
use file_sync_tool.Rpc.Listing.Growth.{
  Grows, Grows-as, Grows-none, Grows-then, IsCounted-snoc, In-snoc,
}

module _ (D : Disk) (H : Hash) (entries : D.State → Bytes → Option (List Bytes))
    (ctime : D.State → Bytes → ℤ) (base : Bytes) (s : D.State) where
  -- A name of an opened directory that stat finds.
  pub record IsListed (rel name : Bytes) (st : Stat) : Type 0 where
    pub names : List Bytes
    pub opens : entries s (base ++ with_slash rel) ≡ some names
    pub listed : In name names
    pub real : is_dots name ≡ false
    pub stated : D.stat s (base ++ (with_slash rel ++ name)) ≡ some st

  -- The entries of a listing: those of the directory, and with `recursive` those below them.
  pub data Standing (recursive : Bool) : Bytes → FileEntry → Type 0 where
    here :
        (rel : Bytes) (e : FileEntry) (name : Bytes) (st : Stat)
        → IsListed rel name st
        → entry_of D H entries ctime base s name (with_slash rel ++ name) st ≡ e
        → Standing recursive rel e
    below :
        (rel : Bytes) (e : FileEntry) (name : Bytes) (st : Stat)
        → IsListed rel name st
        → recursive ≡ true
        → is_dir st.mode ≡ true
        → Standing recursive (with_slash rel ++ name) e
        → Standing recursive rel e

  -- A tree of at most so many levels, where the listing goes down.
  abbrev pub Depth : Bool → ℕ → Bytes → Type 0
  Depth recursive zero rel = ⊥
  Depth recursive (suc n) rel =
      (name : Bytes) (st : Stat)
      → IsListed rel name st
      → recursive ≡ true
      → is_dir st.mode ≡ true
      → Depth recursive n (with_slash rel ++ name)

  pub add_file-Grows :
      (x : FileEntry) (r : ListFilesResponse)
      → Grows (λ e. x ≡ e) r (add_file D H entries ctime base s x r)
  add_file-Grows x r = record {
    entries = λ e. In-snoc e r.files x;
    counted = IsCounted-snoc x r;
    directory = refl;
  }

  pub and_true : (a b : Bool) → (a && b) ≡ true → (a ≡ true) × (b ≡ true)
  and_true true true h = (refl, refl)
  and_true true false h = absurd (true≢false (sym h))
  and_true false b h = absurd (true≢false (sym h))

  module _ (recursive : Bool) (Deep : Bytes → FileEntry → Type 0)
      (sub : Bytes → ListFilesResponse → ListFilesResponse) where
    -- What a name with its status adds.
    abbrev pub Adds : Bytes → Bytes → Option Stat → FileEntry → Type 0
    Adds name path none e = ⊥
    Adds name path (some st) e =
        (entry_of D H entries ctime base s name path st ≡ e)
        ⊎ ((recursive ≡ true) × (is_dir st.mode ≡ true) × Deep path e)

    abbrev pub Descends : Bytes → Option Stat → Type 0
    Descends path o =
        (st : Stat)
        → o ≡ some st
        → recursive ≡ true
        → is_dir st.mode ≡ true
        → (r : ListFilesResponse) → Grows (Deep path) r (sub path r)

    pub add_name-Grows :
        (name path : Bytes) (o : Option Stat) (r : ListFilesResponse)
        → Descends path o
        → Grows (Adds name path o) r (add_name D H entries ctime base s sub recursive name path o r)
    add_name-Grows name path none r low = Grows-none _ r (λ e a. a)
    add_name-Grows name path (some st) r low =
        let x : FileEntry = entry_of D H entries ctime base s name path st in
        let r1 : ListFilesResponse = add_file D H entries ctime base s x r in
        elim (Bool-cases (recursive && is_dir st.mode)) [
          | inl down ↦
              let (again, dir) = and_true recursive (is_dir st.mode) down in
              subst (Grows (Adds name path (some st)) r)
                (sym (ap (λ b. if b then sub path r1 else r1) down))
                (Grows-then (λ e. x ≡ e) (Deep path) (Adds name path (some st)) r r1 (sub path r1)
                  (add_file-Grows x r) (low st refl again dir r1)
                  λ e. (
                    (λ a. elim a [ inl same ↦ inl same | inr m ↦ inr m.2 ]),
                    (λ which. elim which [
                      | inl same ↦ inl same
                      | inr deep ↦ inr (again, dir, deep)
                    ]),
                  ))
          | inr flat ↦
              subst (Grows (Adds name path (some st)) r)
                (sym (ap (λ b. if b then sub path r1 else r1) flat))
                (Grows-as (λ e. x ≡ e) (Adds name path (some st)) r r1 (add_file-Grows x r)
                  λ e. (
                    (λ a. elim a [
                      | inl same ↦ same
                      | inr m ↦
                          absurd (true≢false (sym (ap (λ b. b && is_dir st.mode) m.0 ∙ m.1) ∙ flat))
                    ]),
                    (λ same. inl same),
                  ))
        ]

    module _ (rel : Bytes) where
      abbrev pub path_of : Bytes → Bytes
      path_of name = with_slash rel ++ name

      abbrev pub Reached : List Bytes → FileEntry → Type 0
      Reached names e =
          (name : Bytes) × In name names
          × (is_dots name ≡ false)
          × Adds name (path_of name) (D.stat s (base ++ path_of name)) e

      abbrev pub AllDescend : List Bytes → Type 0
      AllDescend names =
          (name : Bytes)
          → In name names
          → is_dots name ≡ false
          → Descends (path_of name) (D.stat s (base ++ path_of name))

      pub add_names-Grows :
          (names : List Bytes) (r : ListFilesResponse)
          → AllDescend names
          → Grows
              (Reached names)
              r
              (add_names D H entries ctime base s sub recursive (with_slash rel) names r)
      unfolding add_names
      add_names-Grows [] r low = Grows-none _ r (λ e a. a.1)
      add_names-Grows (name ∷ names) r low =
          let r1 : ListFilesResponse =
            add_name D H entries ctime base s sub recursive name (path_of name)
              (D.stat s (base ++ path_of name)) r in
          let later : AllDescend names = λ n there real. low n (inr there) real in
          let skipped = add_names D H entries ctime base s sub recursive (with_slash rel) names r in
          let added = add_names D H entries ctime base s sub recursive (with_slash rel) names r1 in
          elim (Bool-cases (is_dots name)) [
            | inl dots ↦
                subst (Grows (Reached (name ∷ names)) r)
                  (sym (ap (λ b. if b then skipped else added) dots))
                  (Grows-as (Reached names) (Reached (name ∷ names)) r skipped
                    (add_names-Grows names r later)
                    λ e. (
                      (λ a. elim a.1 [
                        | inl same ↦ absurd (true≢false (sym dots ∙ ap is_dots same ∙ a.2))
                        | inr there ↦ (a.0, there, a.2, a.3)
                      ]),
                      (λ a. (a.0, inr a.1, a.2, a.3)),
                    ))
            | inr real ↦
                subst (Grows (Reached (name ∷ names)) r)
                  (sym (ap (λ b. if b then skipped else added) real))
                  (Grows-then (Adds name (path_of name) (D.stat s (base ++ path_of name)))
                    (Reached names) (Reached (name ∷ names)) r r1 added
                    (add_name-Grows name (path_of name) (D.stat s (base ++ path_of name)) r
                      (low name (inl refl) real))
                    (add_names-Grows names r1 later)
                    λ e. (
                      (λ a. elim a.1 [
                        | inl same ↦ inl (
                            subst (λ n. Adds n (path_of n) (D.stat s (base ++ path_of n)) e)
                              (sym same) a.3)
                        | inr there ↦ inr (a.0, there, a.2, a.3)
                      ]),
                      (λ which. elim which [
                        | inl first ↦ (name, inl refl, real, first)
                        | inr a ↦ (a.0, inr a.1, a.2, a.3)
                      ]),
                    ))
          ]
