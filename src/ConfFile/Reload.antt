-- ===== src/ConfFile/Reload.antt =====
-- When CheckFileLoaded reads the file again.
use http2serv.Prelude.{
  ℕ, ◌-◌, ◌<◌, ◌≡◌, ◌≢◌, refl, ap, ◌∙◌, ◌⊎◌, inl, inr, Bool, true, false, ltb, ltb→lt, ltb-false→le,
  ◌==◌, ==_iff, Bool-cases, arith, ◌≤◌, sym, if◌then◌else◌,
}
use http2serv.Prelude.{List, [], ◌∷◌, Option, none, some}
use http2serv.ConfFile.{Entry, Sections}
use http2serv.ConfFile.Load.{Loaded, Disk, load_file, are_files_modified, check_file_loaded}

-- The sections at hand are used again: the last check was less than a second ago, or the file has the
-- time that was kept, and then the time of the check is set.
pub record IsCached (disk : Disk) (name : List ℕ) (file after : Loaded) : Type 0 where
  pub sections_same : after.sections ≡ file.sections
  pub time_same : after.file_time ≡ file.file_time
  pub reason :
      ((disk.now - file.last_check < 1000) × (after.last_check ≡ file.last_check))
      ⊎ ((disk.mtime name ≡ some file.file_time) × (after.last_check ≡ disk.now))

-- The file was read before, and it was checked less than a second ago or has the time that was kept.
abbrev pub IsCurrent : Disk → List ℕ → Loaded → Type 0
IsCurrent disk name file =
    (file.file_time ≢ 0)
    × ((disk.now - file.last_check < 1000) ⊎ (disk.mtime name ≡ some file.file_time))

-- The answer of AreFilesModified: with `true` nothing is changed.
unfoldable Answered : Disk → List ℕ → Loaded → Bool × Loaded → Type 0
Answered disk name file (true, after) = (after ≡ file) × ¬ IsCurrent disk name file
Answered disk name file (false, after) = IsCached disk name file after × IsCurrent disk name file

are_files_modified-Answered :
    (disk : Disk) (name : List ℕ) (file : Loaded)
    → Answered disk name file (are_files_modified disk name file)
unfolding are_files_modified Answered
are_files_modified-Answered disk name file = elim (Bool-cases (file.file_time == 0)) [
  | inl unread ↦
      let zero_time = (==_iff file.file_time 0).0 unread in
      rw unread (refl, λ current. current.0 zero_time)
  | inr read ↦
      let some_time : file.file_time ≢ 0 = ground (arith, read) in
      elim (Bool-cases (ltb (disk.now - file.last_check) 1000)) [
        | inl soon ↦
            let less = ltb→lt (disk.now - file.last_check) 1000 soon in
            let cached : IsCached disk name file file = record {
              sections_same = refl;
              time_same = refl;
              reason = inl (less, refl);
            } in
            rw (read, soon) (cached, (some_time, inl less))
        | inr late ↦
            rw (read, late)
              (late_answer some_time (ltb-false→le (disk.now - file.last_check) 1000 late)
                (disk.mtime name) refl)
      ]
]
  where
    late_answer :
        file.file_time ≢ 0
        → 1000 ≤ disk.now - file.last_check
        → (o : Option ℕ) → disk.mtime name ≡ o
        → Answered disk name file (elim o [
          | none ↦ (true, file)
          | some time ↦
              if time == file.file_time
              then (false, record file { last_check = disk.now })
              else (true, file)
        ])
    late_answer some_time late none h = (
      refl,
      λ current. elim current.1 [
        | inl soon ↦ omega (arith, soon, late)
        | inr same ↦ let no : none ≡ some file.file_time = sym h ∙ same in cc
      ],
    )
    late_answer some_time late (some time) h = elim (Bool-cases (time == file.file_time)) [
      | inl equal ↦
          let same = h ∙ ap some ((==_iff time file.file_time).0 equal) in
          let cached : IsCached disk name file (record file { last_check = disk.now }) = record {
            sections_same = refl;
            time_same = refl;
            reason = inr (same, refl);
          } in
          rw equal (cached, (some_time, inr same))
      | inr other ↦ rw other (
        refl,
        λ current. elim current.1 [
          | inl soon ↦ omega (arith, soon, late)
          | inr same ↦
              let equal : some time ≡ some file.file_time = sym h ∙ same in
              let number : time ≡ file.file_time =
                ap (λ o. elim o [ none ↦ time | some t ↦ t ]) equal in
              let no : (time == file.file_time) ≡ true = (==_iff time file.file_time).1 number in cc
        ],
      )
    ]

module _ (disk : Disk) (fuel : ℕ) (name : List ℕ) (file : Loaded) where
  after_check : Bool × Loaded → Option Loaded
  after_check checked = if checked.0 then load_file disk fuel name checked.1 else some checked.1

  after_check-answers :
      (c : Bool × Loaded)
      → Answered disk name file c
      → ((¬ IsCurrent disk name file) × (after_check c ≡ load_file disk fuel name file))
        ⊎ (IsCurrent disk name file
            × (after : Loaded) × (after_check c ≡ some after)
            × IsCached disk name file after)
  unfolding after_check Answered
  after_check-answers (true, after) (e, old) = inl (old, ap (load_file disk fuel name) e)
  after_check-answers (false, after) (h, current) = inr (current, after, refl, h)

-- CheckFileLoaded keeps the sections at hand exactly if there are some, the file was read before, and the
-- last check was less than a second ago or the file still has the time that was kept; otherwise it loads
-- the file. When it keeps them for the time of the file, the check counts from now on.
pub check_file_loaded-answers :
    (disk : Disk) (fuel : ℕ) (name : List ℕ) (file : Loaded)
    → ((¬ ((file.sections ≢ []) × IsCurrent disk name file))
        × (check_file_loaded disk fuel name file ≡ load_file disk fuel name file))
      ⊎ ((file.sections ≢ [])
          × IsCurrent disk name file
          × (after : Loaded) × (check_file_loaded disk fuel name file ≡ some after)
          × IsCached disk name file after)
unfolding check_file_loaded after_check
check_file_loaded-answers disk fuel name file =
    let answer =
      after_check-answers disk fuel name file (are_files_modified disk name file)
        (are_files_modified-Answered disk name file) in
    by_sections file.sections answer
  where
    result : List (List ℕ × List Entry) → Option Loaded
    result sections = elim sections [
      | [] ↦ load_file disk fuel name file
      | s ∷ ss ↦ after_check disk fuel name file (are_files_modified disk name file)
    ]

    by_sections :
        (sections : Sections)
        → ((¬ IsCurrent disk name file)
            × (after_check disk fuel name file (are_files_modified disk name file)
                ≡ load_file disk fuel name file))
          ⊎ (IsCurrent disk name file
              × (after : Loaded) × (after_check disk fuel name file
                    (are_files_modified disk name file)
                  ≡ some after)
              × IsCached disk name file after)
        → ((¬ ((sections ≢ []) × IsCurrent disk name file))
            × (result sections ≡ load_file disk fuel name file))
          ⊎ ((sections ≢ [])
              × IsCurrent disk name file
              × (after : Loaded) × (result sections ≡ some after)
              × IsCached disk name file after)
    by_sections [] answer = inl (λ h. h.0 refl, refl)
    by_sections (s ∷ ss) (inl (old, e)) = inl (λ h. old h.1, e)
    by_sections (s ∷ ss) (inr (current, after, e, kept)) = inr (λ q. cc, current, after, e, kept)
