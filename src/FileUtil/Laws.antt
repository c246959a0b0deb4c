-- ===== src/FileUtil/Laws.antt =====
-- What createDirectory makes and what it leaves alone.
use file_sync_tool.Base.{
  ℕ, ◌≡◌, ◌≢◌, refl, sym, ap, ◌∙◌, subst, ◌⊎◌, inl, inr, Bool, true, false, none, some, List, [],
  ◌∷◌, ◌++◌, arith, All, ◌==◌, if◌then◌else◌, Bool-cases, Option-cases,
}
use file_sync_tool.Base.Text.{Bytes}
use file_sync_tool.Disk.{Disk, IsLawful}
use file_sync_tool.FileUtil.{
  parent, prefixes, ensure_directory, ensure_directories, create_directory,
}

-- The parent of a path that grows by one byte.
parent-append :
    (x : Bytes) (c : ℕ) → parent (x ++ c ∷ []) ≡ (if c == b'/' then some x else parent x)
unfolding parent
parent-append [] c = refl
parent-append (d ∷ ds) c = ground (arith, parent-append ds c)

parent-slash :
    (x : Bytes) (c : ℕ) {q : Bytes} → (c == b'/') ≡ true → parent (x ++ c ∷ []) ≡ some q → x ≡ q
parent-slash x c e h = let p : parent (x ++ c ∷ []) ≡ some x = parent-append x c ∙ rw e in cc

parent-plain : (x : Bytes) (c : ℕ) → (c == b'/') ≡ false → parent (x ++ c ∷ []) ≡ parent x
parent-plain x c e = parent-append x c ∙ rw e

prefixes-slash :
    (x : Bytes) (c : ℕ) (cs : Bytes)
    → (c == b'/') ≡ true
    → prefixes x (c ∷ cs) ≡ x ∷ prefixes (x ++ c ∷ []) cs
unfolding prefixes
prefixes-slash x c cs e = rw e

prefixes-plain :
    (x : Bytes) (c : ℕ) (cs : Bytes)
    → (c == b'/') ≡ false
    → prefixes x (c ∷ cs) ≡ prefixes (x ++ c ∷ []) cs
unfolding prefixes
prefixes-plain x c cs e = rw e

module _ (D : Disk) where
  abbrev pub Exists : D.State → Bytes → Type 0
  Exists s p = (p ≡ []) ⊎ (D.stat s p ≢ none)

  -- The directory that a path stands in is there.
  abbrev pub ParentExists : D.State → Bytes → Type 0
  ParentExists s p = (q : Bytes) → parent p ≡ some q → Exists s q

  -- A disk on which mkdir works for the paths of `Dir`, once the directory above is there, and
  -- which stays so.
  pub record Makes (Dir : Bytes → Type 0) (Good : D.State → Type 0) : Type 0 where
    pub mkdir_works :
        (s : D.State) (p : Bytes) (mode : ℕ)
        → Good s
        → Dir p
        → D.stat s p ≡ none
        → ParentExists s p
        → (t : D.State) × (D.mkdir s p mode ≡ some t) × Good t

module _ (D : Disk) where
  -- The three ways of one round: there already, made, or refused.
  ensure_cases {ℓ} :
      (P : Bool × D.State → Type ℓ) (s : D.State) (p : Bytes) (mode : ℕ)
      → (Exists D s p → P (true, s))
      → ((t : D.State) → D.stat s p ≡ none → D.mkdir s p mode ≡ some t → P (true, t))
      → (D.stat s p ≡ none → D.mkdir s p mode ≡ none → P (false, s))
      → P (ensure_directory D s p mode)
  unfolding ensure_directory
  ensure_cases P s [] mode there made refused = there (inl refl)
  ensure_cases P s (c ∷ cs) mode there made refused = elim (Option-cases (D.stat s (c ∷ cs))) [
    | inr (st, e) ↦ rw (e, ensure_directory) (there (inr (λ n. cc)))
    | inl e ↦ elim (Option-cases (D.mkdir s (c ∷ cs) mode)) [
      | inr (t, k) ↦ rw (e, k, ensure_directory) (made t e k)
      | inl k ↦ rw (e, k, ensure_directory) (refused e k)
    ]
  ]

module _ (D : Disk) (L : IsLawful D) where
  ensure_directory-content :
      (s : D.State) (p : Bytes) (mode : ℕ) (q : Bytes)
      → D.content (ensure_directory D s p mode).1 q ≡ D.content s q
  ensure_directory-content s p mode q =
      ensure_cases D (λ r. D.content r.1 q ≡ D.content s q) s p mode (λ _. refl)
        (λ t _ k. L.content-mkdir s p q mode k) (λ _ _. refl)

  -- A directory that is there stays.
  ensure_directory-keeps :
      (s : D.State) (p : Bytes) (mode : ℕ) (q : Bytes)
      → Exists D s q
      → Exists D (ensure_directory D s p mode).1 q
  ensure_directory-keeps s p mode q (inl e) = inl e
  ensure_directory-keeps s p mode q (inr e) =
      ensure_cases D (λ r. Exists D r.1 q) s p mode (λ _. inr e)
        (λ t _ k. inr (L.stat-mkdir s p q mode k e)) (λ _ _. inr e)

  ensure_directory-Exists :
      (s : D.State) (p : Bytes) (mode : ℕ)
      → (ensure_directory D s p mode).0 ≡ true
      → Exists D (ensure_directory D s p mode).1 p
  ensure_directory-Exists s p mode =
      ensure_cases D (λ r. r.0 ≡ true → Exists D r.1 p) s p mode (λ there _. there)
        (λ t _ k _. inr (L.stat-mkdir_self s p mode k)) (λ _ _ h. cc)

  ensure_directories-content :
      (s : D.State) (ps : List Bytes) (mode : ℕ) (q : Bytes)
      → D.content (ensure_directories D s ps mode).1 q ≡ D.content s q
  unfolding ensure_directories
  ensure_directories-content s [] mode q = refl
  ensure_directories-content s (p ∷ ps) mode q = ground (
    arith,
    ensure_directory-content s p mode q,
    ensure_directories-content (ensure_directory D s p mode).1 ps mode q,
  )

  ensure_directories-keeps :
      (s : D.State) (ps : List Bytes) (mode : ℕ) (q : Bytes)
      → Exists D s q
      → Exists D (ensure_directories D s ps mode).1 q
  unfolding ensure_directories
  ensure_directories-keeps s [] mode q h = h
  ensure_directories-keeps s (p ∷ ps) mode q h =
      let made : Exists D (ensure_directory D s p mode).1 q = ensure_directory-keeps s p mode q h in
      elim (Bool-cases (ensure_directory D s p mode).0) [
        | inl e ↦
            rw (e, ensure_directories)
              (ensure_directories-keeps (ensure_directory D s p mode).1 ps mode q made)
        | inr e ↦ rw (e, ensure_directories) made
      ]

  ensure_directories-true :
      (s : D.State) (p : Bytes) (ps : List Bytes) (mode : ℕ)
      → (ensure_directory D s p mode).0 ≡ true
      → ensure_directories D s (p ∷ ps) mode
        ≡ ensure_directories D (ensure_directory D s p mode).1 ps mode
  unfolding ensure_directories
  ensure_directories-true s p ps mode e = rw (e, ensure_directories)

  ensure_directories-false :
      (s : D.State) (p : Bytes) (ps : List Bytes) (mode : ℕ)
      → (ensure_directory D s p mode).0 ≡ false
      → (ensure_directories D s (p ∷ ps) mode).0 ≡ false
  unfolding ensure_directories
  ensure_directories-false s p ps mode e = rw (e, ensure_directories)

  ensure_directories-Exists :
      (s : D.State) (ps : List Bytes) (mode : ℕ)
      → (ensure_directories D s ps mode).0 ≡ true
      → All (Exists D (ensure_directories D s ps mode).1) ps
  ensure_directories-Exists s [] mode h = tt
  ensure_directories-Exists s (p ∷ ps) mode h =
      let t : D.State = (ensure_directory D s p mode).1 in
      elim (Bool-cases (ensure_directory D s p mode).0) [
        | inl e ↦
            let same = ensure_directories-true s p ps mode e in
            subst (λ r. All (Exists D r.1) (p ∷ ps)) (sym same)
              (
                ensure_directories-keeps t ps mode p (ensure_directory-Exists s p mode e),
                ensure_directories-Exists t ps mode (sym (ap (λ r. r.0) same) ∙ h),
              )
        | inr e ↦ cc (ensure_directories-false s p ps mode e)
      ]

  -- createDirectory changes no file, whether it succeeds or not.
  pub create_directory-content :
      (s : D.State) (path : Bytes) (mode : ℕ) (q : Bytes)
      → D.content (create_directory D s path mode).1 q ≡ D.content s q
  unfolding create_directory
  create_directory-content s path mode q = ensure_directories-content s (prefixes [] path) mode q

  -- Where createDirectory returns true, the path and every directory above it exist.
  pub create_directory-Exists :
      (s : D.State) (path : Bytes) (mode : ℕ)
      → (create_directory D s path mode).0 ≡ true
      → All (Exists D (create_directory D s path mode).1) (prefixes [] path)
  create_directory-Exists s path mode h =
      unfold create_directory in
      ensure_directories-Exists s (prefixes [] path) mode (unfold create_directory in h)

  module _ (Dir : Bytes → Type 0) (Good : D.State → Type 0) (M : Makes D Dir Good) where
    abbrev Done : Bool × D.State → Type 0
    Done r = (r.0 ≡ true) × Good r.1

    ensure_directory-Done :
        (s : D.State) (p : Bytes) (mode : ℕ)
        → Good s
        → (p ≢ [] → Dir p)
        → ParentExists D s p
        → Done (ensure_directory D s p mode)
    ensure_directory-Done s [] mode g dir above = unfold ensure_directory in (refl, g)
    ensure_directory-Done s (c ∷ cs) mode g dir above =
        ensure_cases D Done s (c ∷ cs) mode (λ _. (refl, g))
          (λ t e k.
            let (u, made, good) = M.mkdir_works s (c ∷ cs) mode g (dir (λ h. cc)) e above in
            (refl, subst Good (cc made) good))
          (λ e k. let (u, made, _) = M.mkdir_works s (c ∷ cs) mode g (dir (λ h. cc)) e above in cc)

    abbrev pub Dirs : List Bytes → Type 0
    Dirs = All (λ p. p ≢ [] → Dir p)

    -- The directories are made from the top down, so each finds the one above it.
    prefixes-Done :
        (s : D.State) (before cs : Bytes) (mode : ℕ)
        → Good s
        → Dirs (prefixes before cs)
        → ParentExists D s before
        → Done (ensure_directories D s (prefixes before cs) mode)
    unfolding prefixes
    prefixes-Done s before [] mode g dirs above =
        let (made, good) = ensure_directory-Done s before mode g dirs.0 above in
        subst Done (sym (ensure_directories-true s before [] mode made))
          (unfold ensure_directories in (refl, good))
    prefixes-Done s before (c ∷ cs) mode g dirs above = elim (Bool-cases (c == b'/')) [
      | inl slash ↦
          let below : List Bytes = prefixes (before ++ c ∷ []) cs in
          let cut = prefixes-slash before c cs slash in
          let here : Dirs (before ∷ below) = subst Dirs cut dirs in
          let (made, good) = ensure_directory-Done s before mode g here.0 above in
          let t : D.State = (ensure_directory D s before mode).1 in
          subst (λ ps. Done (ensure_directories D s ps mode)) (sym cut)
            (subst Done (sym (ensure_directories-true s before below mode made)) (
              prefixes-Done t (before ++ c ∷ []) cs mode good here.1 (λ q e.
                subst (Exists D t) (parent-slash before c slash e)
                  (ensure_directory-Exists s before mode made))))
      | inr plain ↦
          let cut = prefixes-plain before c cs plain in
          subst (λ ps. Done (ensure_directories D s ps mode)) (sym cut)
            (prefixes-Done s (before ++ c ∷ []) cs mode g (subst Dirs cut dirs)
              (λ q e. above q (sym (parent-plain before c plain) ∙ e)))
    ]

    -- On a disk on which mkdir works for each missing directory on the way whose parent is there,
    -- createDirectory returns true.
    pub create_directory-Done :
        (s : D.State) (path : Bytes) (mode : ℕ)
        → Good s
        → Dirs (prefixes [] path)
        → Done (create_directory D s path mode)
    unfolding create_directory parent
    create_directory-Done s path mode g dirs = prefixes-Done s [] path mode g dirs (λ q e. cc)
