-- ===== src/FlashFs/Tests.antt =====
-- A file system in memory: one file, with the bytes that its descriptor has not read yet.
use mathlib.Core.Path.{subst}
use esp_misc.Common.{
  ℕ, zero, suc, ◌-◌, ◌<◌, ◌≤◌, ◌≡◌, ◌≢◌, refl, sym, ap, Bool, true, false, some, List, [], ◌∷◌,
  ◌++◌, All, All-append, ◌∙◌, min, ◌==◌, if◌then◌else◌, length, take, drop, replicate, arith,
}
use esp_misc.Common.Int.{ℤ, pos, negsuc}
use esp_misc.Crc.{crc16_compute_buf}
use esp_misc.Crc.Bitwise.{IsByte}
use esp_misc.FlashFs.{FileSt, update_crc, append_to_file}
use esp_misc.FlashFs.Interface.{Spiffs}
use esp_misc.FlashFs.Files.{new_file, remove_by_name}
use esp_misc.FlashFs.UpdateCrc.{IsRead, update_crc_lem}
use esp_misc.FlashFs.Append.{gained, IsAppended, append_to_file_lem}
use esp_misc.FlashFs.Names.{names, NamesDistinct, new_file-NamesDistinct, IsCreated}
use esp_misc.FlashFs.Removed.{IsRemoved, remove_by_name-IsRemoved}

-- Reads hand out at most 20 bytes at a time.
abbrev handed : ℕ → ℕ
handed n = min n 20

abbrev memory : Spiffs (List ℕ)
memory = record {
  open_name = λ fs_no name flags s. (pos 3, s);
  lseek = λ fs_no fd offset s. (pos offset, s);
  read = λ fs_no fd n s. let k = min (handed n) (length s) in (pos k, (take k s, drop k s));
  write = λ fs_no fd bytes s. (pos (length bytes), s ++ bytes);
  close = λ fs_no fd s. s;
  fstat = λ fs_no fd s. (pos 0, (length s, (77, s)));
  rename = λ fs_no old new s. (pos 0, s);
  fremove = λ fs_no fd s. (pos 0, []);
  errno = λ fs_no s. pos 0;
  clearerr = λ fs_no s. s;
  check = λ fs_no s. s;
  info = λ fs_no s. (pos 0, (1000, length s));
}

abbrev broken : Spiffs (List ℕ)
broken = record memory { read = λ fs_no fd n s. (negsuc 0, ([], s)) }

abbrev Ahead : List ℕ → ℤ → ℤ → List ℕ → Type 0
Ahead s fs_no fd rest = s ≡ rest

take-take : (a b : ℕ) (xs : List ℕ) → a ≤ b → take a (take b xs) ≡ take a xs
take-take zero b xs h = refl
take-take (suc a) zero xs h = absurd (omega arith)
take-take (suc a) (suc b) [] h = refl
take-take (suc a) (suc b) (x ∷ xs) h = ap (λ ys. x ∷ ys) (take-take a b xs (omega arith))

length_some : (xs : List ℕ) → xs ≢ [] → 0 < length xs
length_some [] h = absurd (h refl)
length_some (x ∷ xs) h = omega arith

memory-IsRead :
    (s : List ℕ) (fs_no fd : ℤ) (n : ℕ)
    → 0 < n
    → s ≢ []
    → IsRead (λ t left. Ahead t fs_no fd left) n s (memory.read fs_no fd n s)
memory-IsRead s fs_no fd n h some_left =
    let k = min (handed n) (length s) in
    let e : k ≡ suc (k - 1) = omega (arith, length_some s some_left) in
    record {
      count = k - 1;
      returned = ap pos e;
      asked = omega (arith, length_some s some_left);
      held = omega (arith, length_some s some_left);
      bytes = take-take (suc (k - 1)) k s (omega (arith, length_some s some_left));
      further = ap (λ m. drop m s) e;
    }

read_law :
    (s : List ℕ) (fs_no fd : ℤ) (n : ℕ) (rest : List ℕ)
    → Ahead s fs_no fd rest
    → 0 < n
    → rest ≢ []
    → IsRead (λ t left. Ahead t fs_no fd left) n rest (memory.read fs_no fd n s)
read_law s fs_no fd n rest e h some_left =
    subst (λ r. IsRead (λ t left. Ahead t fs_no fd left) n r (memory.read fs_no fd n s)) e
      (memory-IsRead s fs_no fd n h (λ z. some_left (sym e ∙ z)))

-- "notes", of 70 bytes, on the dynamic file system, with a CRC of 16 bits.
abbrev notes_name : List ℕ
notes_name = 110 ∷ 111 ∷ 116 ∷ 101 ∷ 115 ∷ []

abbrev notes : FileSt
notes = record { flags = 528; pix = 5; size = 70; crc = 0; name = notes_name }

abbrev content : List ℕ
content = replicate 35 7 ++ replicate 35 200

bytes_of : (n b : ℕ) → b < 256 → All IsByte (replicate n b)
bytes_of zero b h = tt
bytes_of (suc n) b h = (h, bytes_of n b h)

content-IsByte : All IsByte content
content-IsByte =
    All-append IsByte (replicate 35 7) (replicate 35 200) (bytes_of 35 7 (omega arith))
      (bytes_of 35 200 (omega arith))

content_some : content ≢ []
content_some e = cc

update_crc_lem_example :
    (t : List ℕ) × (update_crc (List ℕ) memory 71 (some notes) content
      ≡ some (true, (some (record notes { crc = crc16_compute_buf 0 content }), t)))
update_crc_lem_example =
    update_crc_lem (List ℕ) memory Ahead read_law 71 notes content content refl refl refl refl
      content-IsByte refl content_some (omega arith) (omega arith)

-- Nearly too big for 16 bits.
abbrev large : FileSt
large = record notes { size = 65530 }

append_to_file_lem_example : IsAppended large (
    let (res, (g, t)) = append_to_file (List ℕ) memory (some large) (some content) 20 [] in
    (res, g))
append_to_file_lem_example =
    append_to_file_lem (List ℕ) memory (λ fs_no fd bytes s n e. omega (arith, ap gained e)) large
      content 20 [] (λ big. absurd (omega arith)) (omega arith)

-- Whether two strings are the same stands for a search.
abbrev same : List ℕ → List ℕ → Bool
same [] [] = true
same [] (y ∷ ys) = false
same (x ∷ xs) [] = false
same (x ∷ xs) (y ∷ ys) = if x == y then same xs ys else false

new_file-NamesDistinct_example :
    let out = new_file same (List ℕ) memory 0 (pos 1) (some (97 ∷ [])) false (notes ∷ []) [] in
    IsCreated same (List ℕ) memory (97 ∷ []) (notes ∷ []) out × NamesDistinct (names out.1.1.0)
new_file-NamesDistinct_example =
    new_file-NamesDistinct same (List ℕ) memory 0 (pos 1) (97 ∷ []) false (notes ∷ []) [] refl
      (tt, tt)

remove_by_name-IsRemoved_example : IsRemoved same (List ℕ) memory notes_name (notes ∷ []) [] (
    let (res, (after, t)) = remove_by_name same (List ℕ) memory (some notes_name) (notes ∷ []) [] in
    (res, after))
remove_by_name-IsRemoved_example =
    remove_by_name-IsRemoved same (List ℕ) memory notes_name (notes ∷ []) []
