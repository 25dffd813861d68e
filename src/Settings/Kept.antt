-- ===== src/Settings/Kept.antt =====
-- What the reading of the settings in settings.cpp does to the disk.
use windbg_agent.Base.{
  ◌≡◌, ◌≢◌, refl, ap, sym, subst, ◌∙◌, ◌++◌, codes, length, length-append, true, false, none, some,
  Bytes, equals, equals_iff, is_some, ◌||◌, ◌⊎◌, inl, inr, Bool-cases, arith,
}
use windbg_agent.Settings.{
  Node, folder, file, Disk, put, Host, get_settings_path, ensure_dir, write_file, save_settings,
  load_settings,
}

some-ne-none : {a : Disk} → some a ≢ none
some-ne-none e = cc

some-injective : {a b : Disk} → some a ≡ some b → a ≡ b
some-injective e = cc

module _ (host : Host) (dir : Bytes) where
  -- Nothing that was there is changed.
  abbrev pub Keeps : Disk → Disk → Type 0
  Keeps before after = (p : Bytes) → is_some (before p) ≡ true → after p ≡ before p

  put-Keeps :
      (path : Bytes) (node : Node) (disk : Disk)
      → is_some (disk path) ≡ false
      → Keeps disk (put path node disk)
  unfolding put
  put-Keeps path node disk e p h = elim (Bool-cases (equals p path)) [
    | inl same ↦
        (let eq : p ≡ path = (equals_iff p path).0 same in
          let there : is_some (disk path) ≡ true = subst (λ x. is_some (disk x) ≡ true) eq h in cc)
    | inr different ↦ rw (different, put) refl
  ]

  Keeps-trans : (a b c : Disk) → Keeps a b → Keeps b c → Keeps a c
  Keeps-trans a b c h k p there = let first = h p there in k p (rw first there) ∙ first

  -- The settings' file is not the folder.
  path-ne-dir : equals (get_settings_path dir) dir ≡ false
  unfolding get_settings_path
  path-ne-dir = elim (Bool-cases (equals (dir ++ codes "\\settings.json") dir)) [
    | inl same ↦
        (let eq = (equals_iff (dir ++ codes "\\settings.json") dir).0 same in
          let long = length-append dir (codes "\\settings.json") in
          let short : length (dir ++ codes "\\settings.json") ≡ length dir = ap length eq in
          absurd (omega (arith, long, short)))
    | inr different ↦ different
  ]

  -- The folder is there, the file is as before, and the rest is kept.
  record Ensured (before after : Disk) : Type 0 where
    kept : Keeps before after
    dir_there : is_some (after dir) ≡ true
    file_same : after (get_settings_path dir) ≡ before (get_settings_path dir)

  equals_refl : (p : Bytes) → equals p p ≡ true
  equals_refl p = (equals_iff p p).1 refl

  put-Ensured : (disk : Disk) → is_some (disk dir) ≡ false → Ensured disk (put dir folder disk)
  unfolding put
  put-Ensured disk missing = record {
    kept = put-Keeps dir folder disk missing;
    dir_there = rw (equals_refl dir, put) refl;
    file_same = rw (path-ne-dir, put) refl;
  }

  ensure_dir-cases :
      (disk : Disk)
      → (ensure_dir host dir disk ≡ none)
        ⊎ ((made : Disk) × (ensure_dir host dir disk ≡ some made) × Ensured disk made)
  unfolding ensure_dir
  ensure_dir-cases disk = elim (Bool-cases (is_some (disk dir))) [
    | inl there ↦
        inr
          (disk, rw there refl, record { kept = λ p h. refl; dir_there = there; file_same = refl })
    | inr missing ↦ elim (Bool-cases host.creates) [
      | inl c ↦ inr (put dir folder disk, rw (missing, c) refl, put-Ensured disk missing)
      | inr n ↦ inl (rw (missing, n) refl)
    ]
  ]

  ensure_dir_again :
      (disk : Disk) → is_some (disk dir) ≡ true → ensure_dir host dir disk ≡ some disk
  unfolding ensure_dir
  ensure_dir_again disk there = rw there refl

  record Written (before after : Disk) : Type 0 where
    kept : Keeps before after
    dir_same : after dir ≡ before dir
    file_written : is_some (after (get_settings_path dir)) ≡ host.opens

  dir-ne-path : equals dir (get_settings_path dir) ≡ false
  dir-ne-path = elim (Bool-cases (equals dir (get_settings_path dir))) [
    | inl same ↦
        (let eq = (equals_iff dir (get_settings_path dir)).0 same in
          let back = (equals_iff (get_settings_path dir) dir).1 (sym eq) in
          let no = path-ne-dir in cc)
    | inr different ↦ different
  ]

  write_file-Written :
      (disk : Disk)
      → is_some (disk (get_settings_path dir)) ≡ false
      → Written disk (write_file host dir disk)
  unfolding write_file put
  write_file-Written disk missing = elim (Bool-cases host.opens) [
    | inl o ↦ rw o (record {
      kept = put-Keeps (get_settings_path dir) (file host.empty_object) disk missing;
      dir_same = rw (dir-ne-path, put) refl;
      file_written = rw (equals_refl (get_settings_path dir), put) refl;
    })
    | inr n ↦ rw n (record { kept = λ p h. refl; dir_same = refl; file_written = missing })
  ]

  load_there :
      (disk : Disk)
      → is_some (disk dir) ≡ true
      → is_some (disk (get_settings_path dir)) ≡ true
      → load_settings host dir disk ≡ some disk
  unfolding load_settings
  load_there disk d f = rw (ensure_dir_again disk d, load_settings, f) refl

  load_missing :
      (disk made : Disk)
      → ensure_dir host dir disk ≡ some made
      → is_some (made dir) ≡ true
      → is_some (made (get_settings_path dir)) ≡ false
      → load_settings host dir disk ≡ some (write_file host dir made)
  unfolding load_settings save_settings
  load_missing disk made e d f =
      rw (e, load_settings, f, ensure_dir_again made d, save_settings) refl

  write_file_closed : (disk : Disk) → host.opens ≡ false → write_file host dir disk ≡ disk
  unfolding write_file
  write_file_closed disk n = rw n refl

  -- What a call leaves behind.
  abbrev pub Loaded : Disk → Disk → Type 0
  Loaded disk after =
      Keeps disk after
      × (is_some (after dir) ≡ true)
      × (is_some (after (get_settings_path dir))
          ≡ (is_some (disk (get_settings_path dir)) || host.opens))
      × (load_settings host dir after ≡ some after)

  load_again :
      (after : Disk)
      → is_some (after dir) ≡ true
      → is_some (after (get_settings_path dir)) ≡ host.opens
      → load_settings host dir after ≡ some after
  load_again after d f = elim (Bool-cases host.opens) [
    | inl o ↦ load_there after d (f ∙ o)
    | inr n ↦
        load_missing after after (ensure_dir_again after d) d (f ∙ n)
        ∙ ap some (write_file_closed after n)
  ]

  written-Loaded :
      (disk made : Disk)
      → Ensured disk made
      → is_some (made (get_settings_path dir)) ≡ false
      → Loaded disk (write_file host dir made)
  written-Loaded disk made v missing =
      let w = write_file-Written made missing in
      let d : is_some (write_file host dir made dir) ≡ true = ap is_some w.dir_same ∙ v.dir_there in
      let gone : is_some (disk (get_settings_path dir)) ≡ false =
        sym (ap is_some v.file_same) ∙ missing in
      (
        Keeps-trans disk made (write_file host dir made) v.kept w.kept,
        d,
        rw gone w.file_written,
        load_again (write_file host dir made) d w.file_written,
      )

  load_settings-cases :
      (disk : Disk)
      → (load_settings host dir disk ≡ none)
        ⊎ ((after : Disk) × (load_settings host dir disk ≡ some after) × Loaded disk after)
  unfolding load_settings
  load_settings-cases disk = elim (ensure_dir-cases disk) [
    | inl e ↦ inl (rw (e, load_settings) refl)
    | inr (made, e, v) ↦ elim (Bool-cases (is_some (made (get_settings_path dir)))) [
      | inl there ↦ inr (
        made,
        rw (e, load_settings, there) refl,
        (
          v.kept,
          v.dir_there,
          (let old : is_some (disk (get_settings_path dir)) ≡ true =
                sym (ap is_some v.file_same) ∙ there in
              rw old there),
          load_there made v.dir_there there,
        ),
      )
      | inr missing ↦ inr (
        write_file host dir made,
        load_missing disk made e v.dir_there missing,
        written-Loaded disk made v missing,
      )
    ]
  ]

  -- `LoadSettings`, if it does not throw, changes nothing that was on the disk; afterwards the folder is
  -- there, and the file is there exactly if it was before or could be written; and a second call changes
  -- nothing.
  pub load_settings-Loaded :
      (disk after : Disk) → load_settings host dir disk ≡ some after → Loaded disk after
  load_settings-Loaded disk after h = elim (load_settings-cases disk) [
    | inl e ↦ absurd (some-ne-none (sym h ∙ e))
    | inr (x, e, v) ↦ subst (Loaded disk) (some-injective (sym e ∙ h)) v
  ]
