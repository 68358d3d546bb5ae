-- ===== src/FlashFs/Names.antt =====
-- The names in the list of files: what `fs_exists` finds, and what `fs_new_file` adds.
use mathlib.Core.List.{map}
use mathlib.Core.Path.{subst}
use esp_misc.Common.{
  ℕ, zero, suc, ◌<◌, ◌≡◌, ◌≢◌, ◌⊎◌, inl, inr, refl, sym, ◌∙◌, ap, Bool, true, false, ◌&&◌, not,
  Option, none, some, List, [], ◌∷◌, All, Bool-cases, bit_or, length, set, if◌then◌else◌, arith,
}
use esp_misc.Common.Int.{ℤ, pos, is_negative, same_int}
use esp_misc.FlashFs.{FileSt, get_fs}
use esp_misc.FlashFs.Files.{file_at, exists, opened_file, new_file}
use esp_misc.FlashFs.Interface.{Spiffs, fs_trunc, fs_creat, fs_rdwr, err_deleted}

abbrev pub names : List FileSt → List (List ℕ)
names = map (λ (f : FileSt). f.name)

-- No name stands twice in the list.
abbrev pub NamesDistinct : List (List ℕ) → Type 0
NamesDistinct [] = Unit
NamesDistinct (x ∷ xs) = All (λ y. y ≢ x) xs × NamesDistinct xs

names-set :
    (i : ℕ) (files : List FileSt) (g : FileSt)
    → g.name ≡ (file_at i files).name
    → names (set files i g) ≡ names files
names-set i [] g e = refl
names-set zero (f ∷ files) g e = ap (λ n. n ∷ names files) e
names-set (suc i) (f ∷ files) g e = ap (λ ns. f.name ∷ ns) (names-set i files g e)

false-true : false ≢ true
false-true e = cc

pub Option-cases : (o : Option ℕ) → (o ≡ none) ⊎ ((i : ℕ) × (o ≡ some i))
Option-cases none = inl refl
Option-cases (some i) = inr (i, refl)

module _ (strstr : List ℕ → List ℕ → Bool) where
  exists_here :
      (name : List ℕ) (f : FileSt) (files : List FileSt)
      → strstr f.name name ≡ true
      → exists strstr name (f ∷ files) ≡ some 0
  unfolding exists
  exists_here name f files e = rw e

  exists_later :
      (name : List ℕ) (f : FileSt) (files : List FileSt) (i : ℕ)
      → strstr f.name name ≡ false
      → exists strstr name files ≡ some i
      → exists strstr name (f ∷ files) ≡ some (suc i)
  unfolding exists
  exists_later name f files i e h = rw (e, h)

  exists_nowhere :
      (name : List ℕ) (f : FileSt) (files : List FileSt)
      → strstr f.name name ≡ false
      → exists strstr name files ≡ none
      → exists strstr name (f ∷ files) ≡ none
  unfolding exists
  exists_nowhere name f files e h = rw (e, h)

  -- What the search returned: the first position whose name has the string in it, or nothing if none has.
  abbrev pub IsFirst : List ℕ → List FileSt → Option ℕ → Type 0
  IsFirst name files none = All (λ (f : FileSt). strstr f.name name ≡ false) files
  IsFirst name files (some i) =
      (i < length files)
      × ((strstr (file_at i files).name name ≡ true)
          × ((j : ℕ) → j < i → strstr (file_at j files).name name ≡ false))

  earlier :
      (name : List ℕ) (f : FileSt) (files : List FileSt) (i : ℕ)
      → strstr f.name name ≡ false
      → ((j : ℕ) → j < i → strstr (file_at j files).name name ≡ false)
      → (j : ℕ) → j < suc i
      → strstr (file_at j (f ∷ files)).name name ≡ false
  earlier name f files i e h zero lt = e
  earlier name f files i e h (suc j) lt = h j (omega arith)

  pub exists-IsFirst :
      (name : List ℕ) (files : List FileSt) → IsFirst name files (exists strstr name files)
  unfolding exists
  exists-IsFirst name [] = tt
  exists-IsFirst name (f ∷ files) =
      let rest : IsFirst name files (exists strstr name files) = exists-IsFirst name files in
      elim (Bool-cases (strstr f.name name)) [
        | inl e ↦
            subst (IsFirst name (f ∷ files)) (sym (exists_here name f files e))
              (omega arith, (e, λ j lt. absurd (omega arith)))
        | inr e ↦ elim (Option-cases (exists strstr name files)) [
          | inl h ↦
              subst (IsFirst name (f ∷ files)) (sym (exists_nowhere name f files e h))
                (e, subst (IsFirst name files) h rest)
          | inr (i, h) ↦
              (let (lt, (has, before)) = subst (IsFirst name files) h rest in
                subst (IsFirst name (f ∷ files)) (sym (exists_later name f files i e h))
                  (omega arith, (has, earlier name f files i e before)))
        ]
      ]

  module _ (S : Type 0) (api : Spiffs S) where
    abbrev Created : Type 0
    Created = ℤ × (Option ℕ × (List FileSt × S))

    -- The list is as it was, or has the new name in front and the call succeeded.
    abbrev pub IsCreated : List ℕ → List FileSt → Created → Type 0
    IsCreated filename files (res, (at, (after, s))) =
        (names after ≡ names files)
        ⊎ ((res ≡ pos 1) × ((at ≡ some 0) × (names after ≡ filename ∷ names files)))

    -- What `myfs_fstat` said of the file that was opened.
    abbrev stat_result : (fs_no : ℤ) (filename : List ℕ) (flags : ℕ) → S → ℤ
    stat_result fs_no filename flags s =
        let (fd, s1) = api.open_name fs_no filename flags s in
        (api.fstat fs_no fd (
          if is_negative fd
          then (if same_int (api.errno fs_no s1) err_deleted
              then api.check fs_no (api.clearerr fs_no s1)
              else s1)
          else s1)).0

    opened_new :
        (junk : ℕ) (fs_no : ℤ) (filename : List ℕ) (flags : ℕ) (files : List FileSt) (s : S)
        → IsCreated filename files (opened_file strstr S api junk fs_no none filename flags files s)
    unfolding opened_file
    opened_new junk fs_no filename flags files s =
        elim (Bool-cases (is_negative (stat_result fs_no filename flags s))) [
          | inl e ↦ inl (rw e)
          | inr e ↦ inr (rw e (refl, (refl, refl)))
        ]

    opened_old :
        (junk : ℕ) (fs_no : ℤ) (i : ℕ) (filename : List ℕ) (flags : ℕ) (files : List FileSt) (s : S)
        → names (opened_file strstr S api junk fs_no (some i) filename flags files s).1.1.0
          ≡ names files
    unfolding opened_file
    opened_old junk fs_no i filename flags files s =
        elim (Bool-cases (is_negative (stat_result fs_no filename flags s))) [
          | inl e ↦ rw e
          | inr e ↦ rw e (names-set i files _ refl)
        ]

    create_again :
        (junk : ℕ) (fs_no : ℤ) (filename : List ℕ) (overwrite : Bool) (files : List FileSt) (s : S)
        (i : ℕ)
        → exists strstr filename files ≡ some i
        → names (new_file strstr S api junk fs_no (some filename) overwrite files s).1.1.0
          ≡ names files
    unfolding new_file
    create_again junk fs_no filename overwrite files s i h =
        elim (Bool-cases (same_int (get_fs (file_at i files)) fs_no && not overwrite)) [
          | inl e ↦ rw (h, new_file, e)
          | inr e ↦
              rw (h, new_file, e)
                (opened_old junk (get_fs (file_at i files)) i filename
                    (bit_or (bit_or fs_rdwr fs_creat) fs_trunc)
                    (set files i (record (file_at i files) { size = 0; crc = 0 })) s
                  ∙ names-set i files (record (file_at i files) { size = 0; crc = 0 }) refl)
        ]

    create_fresh :
        (junk : ℕ) (fs_no : ℤ) (filename : List ℕ) (overwrite : Bool) (files : List FileSt) (s : S)
        → exists strstr filename files ≡ none
        → IsCreated filename files
            (new_file strstr S api junk fs_no (some filename) overwrite files s)
    unfolding new_file
    create_fresh junk fs_no filename overwrite files s h =
        rw (h, new_file) (opened_new junk fs_no filename (bit_or fs_rdwr fs_creat) files s)

    fresh_name :
        (filename : List ℕ) (files : List FileSt)
        → strstr filename filename ≡ true
        → All (λ (f : FileSt). strstr f.name filename ≡ false) files
        → All (λ y. y ≢ filename) (names files)
    fresh_name filename [] self h = tt
    fresh_name filename (f ∷ files) self (h, hs) = (
      λ e. false-true (sym h ∙ ap (λ n. strstr n filename) e ∙ self),
      fresh_name filename files self hs,
    )

    -- `fs_new_file` leaves the names of the list as they were, or it returns 1 and puts the given name in
    -- front of them; and if no name stood twice before, none does afterwards, provided that `strstr` finds
    -- every string in itself.
    pub new_file-NamesDistinct :
        (junk : ℕ) (fs_no : ℤ) (filename : List ℕ) (overwrite : Bool) (files : List FileSt) (s : S)
        → strstr filename filename ≡ true
        → NamesDistinct (names files)
        → let out = new_file strstr S api junk fs_no (some filename) overwrite files s in
          IsCreated filename files out × NamesDistinct (names out.1.1.0)
    new_file-NamesDistinct junk fs_no filename overwrite files s self d =
        elim (Option-cases (exists strstr filename files)) [
          | inr (i, h) ↦
              (let same : names
                      (new_file strstr S api junk fs_no (some filename) overwrite files s).1.1.0
                    ≡ names files =
                  create_again junk fs_no filename overwrite files s i h in
                (inl same, subst NamesDistinct (sym same) d))
          | inl h ↦
              (let c : IsCreated filename files
                    (new_file strstr S api junk fs_no (some filename) overwrite files s) =
                  create_fresh junk fs_no filename overwrite files s h in
                (
                  c,
                  elim c [
                    | inl same ↦ subst NamesDistinct (sym same) d
                    | inr (one, (front, more)) ↦ subst NamesDistinct (sym more) (
                      fresh_name filename files self
                          (subst (IsFirst filename files) h (exists-IsFirst filename files)),
                      d,
                    )
                  ],
                ))
        ]
