-- ===== src/FlashFs/Removed.antt =====
-- What `fs_remove_by_name` takes out of the list of files.
use mathlib.Core.Path.{subst}
use esp_misc.Common.{ℕ, ◌≡◌, ◌⊎◌, inl, inr, Bool, true, false, none, some, List, Bool-cases, arith}
use esp_misc.Common.Int.{ℤ, pos, negsuc, is_negative, same_int}
use esp_misc.FlashFs.{FileSt, get_fs}
use esp_misc.FlashFs.Files.{file_at, remove_at, exists, remove_by_name}
use esp_misc.FlashFs.Names.{IsFirst, exists-IsFirst, Option-cases}
use esp_misc.FlashFs.Interface.{Spiffs, fs_rdwr, err_not_found, err_deleted}

module _ (strstr : List ℕ → List ℕ → Bool) (S : Type 0) (api : Spiffs S) where
  abbrev removing : List ℕ → List FileSt → S → ℤ × List FileSt
  removing filename files s =
      let (res, (after, t)) = remove_by_name strstr S api (some filename) files s in (res, after)

  -- SPIFFS removed the file, or did not have it any more.
  abbrev pub IsGone : ℤ → Type 0
  IsGone r =
      (is_negative r ≡ false)
      ⊎ ((same_int r err_not_found ≡ true) ⊎ (same_int r err_deleted ≡ true))

  -- The file system of file `i`, what SPIFFS answers when the file is opened there, and what when it is to
  -- be removed.
  abbrev pub fs_no : List FileSt → ℕ → ℤ
  fs_no files i = get_fs (file_at i files)

  abbrev pub spiffs_file : List FileSt → ℕ → S → ℤ × S
  spiffs_file files i s = api.open_name (fs_no files i) (file_at i files).name fs_rdwr s

  abbrev pub spiffs_result : List FileSt → ℕ → S → ℤ
  spiffs_result files i s =
      let (fd, t) = spiffs_file files i s in (api.fremove (fs_no files i) fd t).0

  -- What is to become of file `i`.
  pub record IsHandled (files : List FileSt) (i : ℕ) (s : S) (out : ℤ × List FileSt) : Type 0 where
    pub unmarked : is_negative (fs_no files i) ≡ true → out ≡ (pos 1, files)
    pub unopened :
        is_negative (fs_no files i) ≡ false
        → is_negative (spiffs_file files i s).0 ≡ true
        → out ≡ (negsuc 0, files)
    pub gone :
        is_negative (fs_no files i) ≡ false
        → is_negative (spiffs_file files i s).0 ≡ false
        → IsGone (spiffs_result files i s)
        → out ≡ (pos 1, remove_at i files)
    pub kept :
        is_negative (fs_no files i) ≡ false
        → is_negative (spiffs_file files i s).0 ≡ false
        → ¬ IsGone (spiffs_result files i s)
        → out ≡ (spiffs_result files i s, files)

  abbrev pub IsRemoved : List ℕ → List FileSt → S → ℤ × List FileSt → Type 0
  IsRemoved filename files s out =
      (IsFirst strstr filename files none × (out ≡ (negsuc 0, files)))
      ⊎ ((i : ℕ) × (IsFirst strstr filename files (some i) × IsHandled files i s out))

  module _ (filename : List ℕ) (files : List FileSt) (s : S) where
    absent : exists strstr filename files ≡ none → removing filename files s ≡ (negsuc 0, files)
    unfolding remove_by_name
    absent h = rw (h, remove_by_name)

    module _ (i : ℕ) (h : exists strstr filename files ≡ some i) where
      abbrev out : ℤ × List FileSt
      out = removing filename files s

      no_fs : is_negative (fs_no files i) ≡ true → out ≡ (pos 1, files)
      unfolding remove_by_name
      no_fs n = rw (h, remove_by_name, n)

      not_opened :
          is_negative (fs_no files i) ≡ false
          → is_negative (spiffs_file files i s).0 ≡ true
          → out ≡ (negsuc 0, files)
      unfolding remove_by_name
      not_opened n o = rw (h, remove_by_name, n, o)

      module _ (n : is_negative (fs_no files i) ≡ false)
          (o : is_negative (spiffs_file files i s).0 ≡ false) where
        fine : is_negative (spiffs_result files i s) ≡ false → out ≡ (pos 1, remove_at i files)
        unfolding remove_by_name
        fine r = rw (h, remove_by_name, n, o, r)

        not_found :
            is_negative (spiffs_result files i s) ≡ true
            → same_int (spiffs_result files i s) err_not_found ≡ true
            → out ≡ (pos 1, remove_at i files)
        unfolding remove_by_name
        not_found r e = rw (h, remove_by_name, n, o, r, e)

        deleted :
            is_negative (spiffs_result files i s) ≡ true
            → same_int (spiffs_result files i s) err_not_found ≡ false
            → same_int (spiffs_result files i s) err_deleted ≡ true
            → out ≡ (pos 1, remove_at i files)
        unfolding remove_by_name
        deleted r e d = rw (h, remove_by_name, n, o, r, e, d)

        failed :
            is_negative (spiffs_result files i s) ≡ true
            → same_int (spiffs_result files i s) err_not_found ≡ false
            → same_int (spiffs_result files i s) err_deleted ≡ false
            → out ≡ (spiffs_result files i s, files)
        unfolding remove_by_name
        failed r e d = rw (h, remove_by_name, n, o, r, e, d)

        goes : IsGone (spiffs_result files i s) → out ≡ (pos 1, remove_at i files)
        goes g = elim (Bool-cases (is_negative (spiffs_result files i s))) [
          | inr r ↦ fine r
          | inl r ↦ elim (Bool-cases (same_int (spiffs_result files i s) err_not_found)) [
            | inl e ↦ not_found r e
            | inr e ↦ elim g [
              | inl fine_too ↦ absurd (ground (arith, fine_too, r))
              | inr (inl e2) ↦ absurd (ground (arith, e2, e))
              | inr (inr d) ↦ deleted r e d
            ]
          ]
        ]

        stays : ¬ IsGone (spiffs_result files i s) → out ≡ (spiffs_result files i s, files)
        stays not_gone = elim (Bool-cases (is_negative (spiffs_result files i s))) [
          | inr r ↦ absurd (not_gone (inl r))
          | inl r ↦ elim (Bool-cases (same_int (spiffs_result files i s) err_not_found)) [
            | inl e ↦ absurd (not_gone (inr (inl e)))
            | inr e ↦ elim (Bool-cases (same_int (spiffs_result files i s) err_deleted)) [
              | inl d ↦ absurd (not_gone (inr (inr d)))
              | inr d ↦ failed r e d
            ]
          ]
        ]

      out-IsHandled : IsHandled files i s out
      out-IsHandled = record { unmarked = no_fs; unopened = not_opened; gone = goes; kept = stays }

  -- `fs_remove_by_name` returns -1 and leaves the list alone when no file's name has the given string in it.
  -- Otherwise it is about the first that has: one marked for neither file system is left alone, with 1; one
  -- that cannot be opened is left alone, with -1; when SPIFFS removes it, or says that it was not found or
  -- is deleted, it is taken out of the list, with 1; and with any other error of SPIFFS it is left alone
  -- and the error returned.
  pub remove_by_name-IsRemoved :
      (filename : List ℕ) (files : List FileSt) (s : S)
      → IsRemoved filename files s (removing filename files s)
  remove_by_name-IsRemoved filename files s = elim (Option-cases (exists strstr filename files)) [
    | inl h ↦ inl (
      subst (IsFirst strstr filename files) h (exists-IsFirst strstr filename files),
      absent filename files s h,
    )
    | inr (i, h) ↦ inr (
      i,
      (
        subst (IsFirst strstr filename files) h (exists-IsFirst strstr filename files),
        out-IsHandled filename files s i h,
      ),
    )
  ]
