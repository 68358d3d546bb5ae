-- ===== src/FlashFs/Files.antt =====
-- flash_fs.c: the operations on the list of files. A pointer to a file of the list is its position, and a
-- pointer to a string that may be NULL is an option.
use esp_misc.Common.{
  ℕ, zero, suc, Bool, ◌&&◌, not, Option, none, some, List, [], ◌∷◌, bit_or, ltb, if◌then◌else◌, set,
}
use esp_misc.Common.Int.{ℤ, pos, negsuc, is_negative, same_int}
use esp_misc.FlashFs.{
  FileSt, mark_delete, mark_dynfs, mark_staticfs, mark_big, is_marked, get_fs, fs_flag, crc_mark,
  update_crc,
}
use esp_misc.FlashFs.Interface.{Spiffs, fs_trunc, fs_creat, fs_rdwr, err_not_found, err_deleted}

abbrev pub no_file : FileSt
no_file = record { flags = 0; pix = 0; size = 0; crc = 0; name = [] }

abbrev pub file_at : ℕ → List FileSt → FileSt
file_at i [] = no_file
file_at zero (f ∷ files) = f
file_at (suc i) (f ∷ files) = file_at i files

-- `STAILQ_REMOVE` of the file at a position.
abbrev pub remove_at : ℕ → List FileSt → List FileSt
remove_at i [] = []
remove_at zero (f ∷ files) = files
remove_at (suc i) (f ∷ files) = f ∷ remove_at i files

-- A directory entry.
pub record Dirent : Type 0 where
  pub entry_pix : ℕ
  pub entry_size : ℕ
  pub entry_name : List ℕ

-- `strstr(haystack, needle) != NULL` is a parameter.
module _ (strstr : List ℕ → List ℕ → Bool) where
  -- `fs_exists`: the first file whose name has `name` in it.
  unfoldable pub exists : List ℕ → List FileSt → Option ℕ
  exists name [] = none
  exists name (f ∷ files) =
      let rest = exists name files in
      if strstr f.name name then some 0 else elim rest [ none ↦ none | some i ↦ some (suc i) ]

  module _ (S : Type 0) (api : Spiffs S) where
    open api use {open_name, close, fstat, rename, fremove, errno, clearerr, check}

    -- `fs_new_file` from the `myfs_openname` on. A new entry has whatever `junk` the memory held as its
    -- CRC.
    unfoldable pub opened_file :
        (junk : ℕ) (fs_no : ℤ) (found : Option ℕ) (filename : List ℕ) (flags : ℕ)
        → List FileSt
        → S
        → ℤ × (Option ℕ × (List FileSt × S))
    opened_file junk fs_no found filename flags files s =
        let (fd, s1) = open_name fs_no filename flags s in
        let s2 =
          if is_negative fd
          then (if same_int (errno fs_no s1) err_deleted
              then check fs_no (clearerr fs_no s1)
              else s1)
          else s1 in
        let (res, (size, (pix, s3))) = fstat fs_no fd s2 in
        if is_negative res then (negsuc 0, (none, (files, s3))) else elim found [
          | none ↦ (
            pos 1,
            (
              some 0,
              (
                record { flags = fs_flag fs_no; pix = pix; size = 0; crc = junk; name = filename }
                    ∷ files,
                close fs_no fd s3,
              ),
            ),
          )
          | some i ↦ (
            pos 1,
            (
              some i,
              (set files i (record (file_at i files) { pix = pix; size = 0 }), close fs_no fd s3),
            ),
          )
        ]

    -- `fs_new_file`; the size is unsigned, so that a file found is always truncated.
    unfoldable pub new_file :
        (junk : ℕ) (fs_no : ℤ)
        → Option (List ℕ)
        → (overwrite : Bool) → List FileSt
        → S
        → ℤ × (Option ℕ × (List FileSt × S))
    new_file junk fs_no none overwrite files s = (pos 0, (none, (files, s)))
    new_file junk fs_no (some filename) overwrite files s = elim (exists filename files) [
      | none ↦ opened_file junk fs_no none filename (bit_or fs_rdwr fs_creat) files s
      | some i ↦
          (let f = file_at i files in
            if same_int (get_fs f) fs_no && not overwrite
            then (pos 0, (none, (files, s)))
            else opened_file junk (get_fs f) (some i) filename
                (bit_or (bit_or fs_rdwr fs_creat) fs_trunc)
                (set files i (record f { size = 0; crc = 0 })) s)
    ]

    -- `fs_rename_file`; its first argument is not used.
    unfoldable pub rename_file :
        (fs : ℤ) (old new : Option (List ℕ)) → List FileSt → S → ℤ × (List FileSt × S)
    rename_file fs none new files s = (negsuc 0, (files, s))
    rename_file fs (some old) none files s = (negsuc 0, (files, s))
    rename_file fs (some old) (some new) files s = elim (exists old files) [
      | none ↦ (negsuc 0, (files, s))
      | some i ↦
          (let f = file_at i files in
            let (ret, s1) = rename (get_fs f) old new s in
            if is_negative (get_fs f)
            then (negsuc 0, (files, s))
            else if is_negative ret
            then (negsuc 0, (files, s1))
            else (pos 1, (set files i (record f { name = new }), s1)))
    ]

    -- `fs_remove_by_name`; a file of neither file system gives the result of `fs_exists`.
    unfoldable pub remove_by_name : Option (List ℕ) → List FileSt → S → ℤ × (List FileSt × S)
    remove_by_name none files s = (negsuc 0, (files, s))
    remove_by_name (some filename) files s = elim (exists filename files) [
      | none ↦ (negsuc 0, (files, s))
      | some i ↦
          (let f = file_at i files in
            let fs_no = get_fs f in
            let (fd, s1) = open_name fs_no f.name fs_rdwr s in
            let (res, s2) = fremove fs_no fd s1 in
            if is_negative fs_no
            then (pos 1, (files, s))
            else if is_negative fd
            then (negsuc 0, (files, s1))
            else if not (is_negative res)
            then (pos 1, (remove_at i files, s2))
            else if same_int res err_not_found
            then (pos 1, (remove_at i files, s2))
            else if same_int res err_deleted
            then (pos 1, (remove_at i files, s2))
            else (res, (files, s2)))
    ]

-- `fs_update_list`: the first file marked for it is taken out.
unfoldable pub update_list : List FileSt → List FileSt
update_list [] = []
update_list (f ∷ files) =
    let rest = update_list files in if is_marked f mark_delete then files else f ∷ rest

-- The entries of `fs_init_info` for the files of the static and of the dynamic file system.
abbrev pub static_file : Dirent → FileSt
static_file e = record {
  flags = mark_staticfs;
  pix = e.entry_pix;
  size = e.entry_size;
  crc = 0;
  name = e.entry_name;
}

abbrev pub dynamic_file : Dirent → FileSt
dynamic_file e = record {
  flags = bit_or (if ltb 65000 e.entry_size then mark_big else 0) mark_dynfs;
  pix = e.entry_pix;
  size = e.entry_size;
  crc = 0;
  name = e.entry_name;
}

abbrev pub insert_all : (Dirent → FileSt) → List Dirent → List FileSt → List FileSt
insert_all entry [] files = files
insert_all entry (e ∷ es) files = insert_all entry es (entry e ∷ files)

abbrev pub with_crc_mark : FileSt → FileSt
with_crc_mark f = record f { flags = bit_or f.flags (crc_mark f.size) }

module _ (S : Type 0) (api : Spiffs S) where
  -- The last loop of `fs_init_info`; `none` is out of fuel.
  unfoldable pub crc_all : (fuel : ℕ) → List FileSt → S → Option (List FileSt × S)
  crc_all fuel [] s = some ([], s)
  crc_all fuel (f ∷ files) s = elim (update_crc S api fuel (some (with_crc_mark f)) s) [
    | none ↦ none
    | some (done, (none, t)) ↦ none
    | some (done, (some g, t)) ↦ elim (crc_all fuel files t) [
      | none ↦ none
      | some (gs, u) ↦ some (g ∷ gs, u)
    ]
  ]

  -- `fs_init_info`, with what the two directories list.
  unfoldable pub init_info :
      (fuel : ℕ) (static dynamic : List Dirent) → List FileSt → S → Option (List FileSt × S)
  init_info fuel static dynamic files s =
      crc_all fuel (insert_all dynamic_file dynamic (insert_all static_file static files)) s
