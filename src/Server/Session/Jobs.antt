-- ===== src/Server/Session/Jobs.antt =====
-- The tasks of one connection on the server, on a disk where the calls that they make succeed.
use file_sync_tool.Base.{
  ℕ, ◌+◌, ◌≡◌, refl, sym, ap, ◌∙◌, subst, Bool, true, false, some, [], ◌++◌, arith, length, inl,
  inr, Option-cases,
}
use file_sync_tool.Base.Int.{pos}
use file_sync_tool.Base.Text.{Bytes, bytes_eq}
use file_sync_tool.Action.{ok, pure, require, bind-eq}
use file_sync_tool.Wire.{encode_off}
use file_sync_tool.Sending.Laws.{NeverFails}
use file_sync_tool.Socket.Laws.{content}
use file_sync_tool.Disk.{Disk, IsLawful}
use file_sync_tool.FileUtil.{parent, prefixes, create_directory, set_file_mode}
use file_sync_tool.FileUtil.Laws.{Makes, Dirs, create_directory-Done, create_directory-content}
use file_sync_tool.Server.Tasks.{ServerTask}
use file_sync_tool.Server.Tasks.RoundTrip.{Reads-receive_off}
use file_sync_tool.Server.Session.{
  Session, must, make_parent, count_task, apply_mode, process_directory, process_file,
}
use file_sync_tool.Server.Session.Files.{receive_file_data-fresh}

-- A disk on which what the server does with the paths of `Dir` and `File` succeeds.
pub record Serves (D : Disk) (Dir File : Bytes → Type 0) (Good : D.State → Type 0) : Type 0 where
  pub makes : Makes D Dir Good
  pub opens :
      (s : D.State) (p : Bytes)
      → Good s
      → File p
      → (t : D.State) × (D.open_trunc s p ≡ some t) × Good t
  pub appends : (s : D.State) (p bs : Bytes) → Good s → File p → Good (D.append s p bs)
  pub modes :
      (s : D.State) (p : Bytes) (mode : ℕ) {t : D.State}
      → Good s
      → D.chmod s p mode ≡ some t
      → Good t

-- What one task leaves behind, `rest` of the stream being still to come.
pub record Stepped (D : Disk) (Good : D.State → Type 0) (path : Bytes) (is_directory : Bool)
    (bytes rest : Bytes) (w w' : Session D) : Type 0 where
  pub file : is_directory ≡ false → D.content w'.disk path ≡ some bytes
  pub others : (q : Bytes) → bytes_eq path q ≡ false → D.content w'.disk q ≡ D.content w.disk q
  pub left : content w'.input ≡ rest
  pub writable : NeverFails w'.writes
  pub sends : w'.sends ≡ w.sends
  pub output : w'.output ≡ w.output
  pub processed : w'.processed ≡ w.processed + 1
  pub closed : w'.closed ≡ w.closed
  pub good : Good w'.disk

module _ (D : Disk) (L : IsLawful D) (Dir File : Bytes → Type 0) (Good : D.State → Type 0)
    (S : Serves D Dir File Good) where
  -- The directories that a task needs are among those that can be made.
  abbrev pub DirsOf : Bytes → Type 0
  DirsOf path = Dirs D L Dir Good S.makes (prefixes [] path)

  abbrev pub Placed : Bool → Bytes → Type 0
  Placed true path = DirsOf path
  Placed false path = File path × ((dir : Bytes) → parent path ≡ some dir → DirsOf dir)

  must-true :
      (f : D.State → Bool × D.State) (w : Session D)
      → (f w.disk).0 ≡ true
      → must D f w ≡ (ok tt, record w { disk = (f w.disk).1 })
  must-true f w e =
      ap (λ b. require b (record w { disk = (f w.disk).1 })) e ∙ unfold require in refl

  pub directory_step :
      (base : Bytes) (task : ServerTask) (w : Session D) (rest : Bytes)
      → DirsOf (base ++ task.dest_path)
      → content w.input ≡ encode_off (pos 0) ++ rest
      → NeverFails w.writes
      → Good w.disk
      → (w' : Session D) × (process_directory D base task w ≡ (ok tt, w'))
        × Stepped D Good (base ++ task.dest_path) true [] rest w w'
  unfolding process_directory count_task
  directory_step base task w rest placed e k g =
      let path : Bytes = base ++ task.dest_path in
      let (left, run, after) = (Reads-receive_off (pos 0) (omega arith)).at w.input rest e in
      let w1 : Session D = record w { input = left } in
      let (made, good) =
        create_directory-Done D L Dir Good S.makes w.disk path task.mode g placed in
      let t : D.State = (create_directory D w.disk path task.mode).1 in
      (
        record w1 { disk = t; processed = w.processed + 1 },
        bind-eq _ _ (ap (λ r. (r.0, record w { input = r.1 })) run)
            ∙ bind-eq _ _ (must-true (λ s. create_directory D s path task.mode) w1 made),
        record {
          file = λ h. cc;
          others = λ q _. create_directory-content D L w.disk path task.mode q;
          left = after;
          writable = k;
          sends = refl;
          output = refl;
          processed = refl;
          closed = refl;
          good = good;
        },
      )

  -- What an operation on the disk alone leaves as it was.
  record SameFiles (w w' : Session D) : Type 0 where
    contents : (q : Bytes) → D.content w'.disk q ≡ D.content w.disk q
    rest_of : record w { disk = w'.disk } ≡ w'
    good : Good w'.disk

  make_parent-ok :
      (path : Bytes) (w : Session D)
      → ((dir : Bytes) → parent path ≡ some dir → DirsOf dir)
      → Good w.disk
      → (w' : Session D) × (make_parent D path w ≡ (ok tt, w')) × SameFiles w w'
  unfolding pure
  make_parent-ok path w dirs g = elim (Option-cases (parent path)) [
    | inl e ↦ (w, rw (e, make_parent), record { contents = λ q. refl; rest_of = refl; good = g })
    | inr (dir, e) ↦
        let (made, good) =
          create_directory-Done D L Dir Good S.makes w.disk dir 493 g (dirs dir e) in
        (
          record w { disk = (create_directory D w.disk dir 493).1 },
          rw (e, make_parent) (must-true (λ s. create_directory D s dir 493) w made),
          record {
            contents = create_directory-content D L w.disk dir 493;
            rest_of = refl;
            good = good;
          },
        )
  ]

  -- A failed chmod is passed over.
  apply_mode-ok :
      (path : Bytes) (mode : ℕ) (w : Session D)
      → Good w.disk
      → (w' : Session D) × (apply_mode D path mode w ≡ (ok tt, w')) × SameFiles w w'
  unfolding apply_mode
  apply_mode-ok path mode w g = elim (Option-cases (D.chmod w.disk path mode)) [
    | inl e ↦ (w, rw (e, set_file_mode), record { contents = λ q. refl; rest_of = refl; good = g })
    | inr (t, e) ↦ (
      record w { disk = t },
      rw (e, set_file_mode),
      record {
        contents = λ q. L.content-chmod w.disk path q mode e;
        rest_of = refl;
        good = S.modes w.disk path mode g e;
      },
    )
  ]

  pub file_step :
      (base : Bytes) (task : ServerTask) (bytes : Bytes) (w : Session D) (rest : Bytes)
      → Placed false (base ++ task.dest_path)
      → task.file_size ≡ pos (length bytes)
      → content w.input ≡ encode_off (pos 0) ++ (bytes ++ rest)
      → NeverFails w.writes
      → Good w.disk
      → (w' : Session D) × (process_file D base task w ≡ (ok tt, w'))
        × Stepped D Good (base ++ task.dest_path) false bytes rest w w'
  unfolding process_file count_task
  file_step base task bytes w rest placed size e k g =
      let path : Bytes = base ++ task.dest_path in
      let (left, run, after) =
        (Reads-receive_off (pos 0) (omega arith)).at w.input (bytes ++ rest) e in
      let w1 : Session D = record w { input = left } in
      let (w2, run2, s2) = make_parent-ok path w1 placed.1 g in
      let (t, opened, good) = S.opens w2.disk path s2.good placed.0 in
      let here : content w2.input ≡ bytes ++ rest =
        ap (λ (u : Session D). content u.input) (sym s2.rest_of) ∙ after in
      let (w3, run3, s3) =
        receive_file_data-fresh D L Good path (λ s bs h. S.appends s path bs h placed.0) bytes rest
          w2 opened here (subst (λ (u : Session D). NeverFails u.writes) s2.rest_of k) good in
      let (w4, run4, s4) = apply_mode-ok path task.mode w3 s3.good in
      (
        record w4 { processed = w4.processed + 1 },
        bind-eq _ _ (ap (λ r. (r.0, record w { input = r.1 })) run)
            ∙ bind-eq _ _ run2
            ∙ bind-eq _ _ (rw size run3)
            ∙ bind-eq _ _ run4,
        record {
          file = λ _. s4.contents path ∙ s3.file;
          others = λ q off. s4.contents q ∙ s3.others q off ∙ s2.contents q;
          left = ap (λ (u : Session D). content u.input) (sym s4.rest_of) ∙ s3.left;
          writable = subst (λ (u : Session D). NeverFails u.writes) s4.rest_of s3.writable;
          sends =
              ap (λ (u : Session D). u.sends) (sym s4.rest_of)
              ∙ s3.sends
              ∙ ap (λ (u : Session D). u.sends) (sym s2.rest_of);
          output =
              ap (λ (u : Session D). u.output) (sym s4.rest_of)
              ∙ s3.output
              ∙ ap (λ (u : Session D). u.output) (sym s2.rest_of);
          processed =
              ap (λ (u : Session D). u.processed + 1) (sym s4.rest_of)
              ∙ ap (λ n. n + 1)
                  (s3.processed ∙ ap (λ (u : Session D). u.processed) (sym s2.rest_of));
          closed =
              ap (λ (u : Session D). u.closed) (sym s4.rest_of)
              ∙ s3.closed
              ∙ ap (λ (u : Session D). u.closed) (sym s2.rest_of);
          good = s4.good;
        },
      )
