-- ===== src/FlashFs/UpdateCrc.antt =====
-- `fs_update_crc`: the CRC of a file, computed from pieces of at most 32 bytes.
use esp_misc.Common.{
  ℕ, zero, suc, ◌+◌, ◌-◌, ◌%◌, ◌^◌, ◌<◌, ◌≤◌, ◌≡◌, ◌≢◌, inl, inr, refl, sym, ◌∙◌, ap, true, false,
  none, some, List, [], ◌∷◌, ◌++◌, All, Bool-cases, ==-false, bit_and, ltb, ◌==◌, if◌then◌else◌,
  length, take, drop, arith,
}
use esp_misc.Common.Int.{ℤ, pos, is_negative, negative_cases}
use mathlib.Core.List.{append-nil}
use esp_misc.Crc.{crc8_compute_buf, crc16_compute_buf, crc32_compute_buf}
use esp_misc.Crc.Bounds.{crc8-lt, crc16-lt}
use esp_misc.Crc.Bitwise.{IsByte, crc32_compute_buf-append}
use esp_misc.Crc.Guarantees.{crc8-append, crc16-append}
use esp_misc.FlashFs.{
  FileSt, crcbuf_len, mark_crc8, mark_crc16, mark_crc32, get_fs, crc_step, crc_loop, update_crc,
}
use esp_misc.FlashFs.Interface.{Spiffs, fs_rdwr}

-- The pieces may be put together.
crc_step-append :
    (flags c : ℕ) (xs ys : List ℕ)
    → All IsByte xs
    → crc_step flags (crc_step flags c xs) ys ≡ crc_step flags c (xs ++ ys)
unfolding crc_step
crc_step-append flags c xs ys h = elim (Bool-cases (bit_and flags mark_crc32 == 0)) [
  | inr e ↦ rw e (crc32_compute_buf-append c xs ys)
  | inl e ↦ elim (Bool-cases (bit_and flags mark_crc16 == 0)) [
    | inr f ↦
        rw (e, f)
          (ap (λ n. crc16_compute_buf n ys % 65536)
              (let e : crc16_compute_buf (c % 65536) xs % 65536 % 65536
                    ≡ crc16_compute_buf (c % 65536) xs =
                  omega (arith, crc16-lt xs (c % 65536) (omega arith) h) in
                e)
            ∙ ap (λ n. n % 65536) (sym (crc16-append xs ys (c % 65536))))
    | inl f ↦ elim (Bool-cases (bit_and flags mark_crc8 == 0)) [
      | inr g ↦
          rw (e, f, g)
            (ap (λ n. crc8_compute_buf n ys % 256)
                (let e : crc8_compute_buf (c % 256) xs % 256 % 256 ≡ crc8_compute_buf (c % 256) xs =
                    omega (arith, crc8-lt xs (c % 256) (omega arith) h) in
                  e)
              ∙ ap (λ n. n % 256) (sym (crc8-append xs ys (c % 256))))
      | inl g ↦ rw (e, f, g)
    ]
  ]
]

-- The CRC that the flags of a file name, of its content.
abbrev pub file_crc : (flags : ℕ) → List ℕ → ℕ
file_crc flags content =
    if bit_and flags mark_crc32 == 0
    then (if bit_and flags mark_crc16 == 0
        then (if bit_and flags mark_crc8 == 0 then 0 else crc8_compute_buf 0 content)
        else crc16_compute_buf 0 content)
    else crc32_compute_buf 0 content

crc_step_lem :
    (flags : ℕ) (content : List ℕ)
    → All IsByte content
    → crc_step flags 0 content ≡ file_crc flags content
unfolding crc_step
crc_step_lem flags content h = elim (Bool-cases (bit_and flags mark_crc32 == 0)) [
  | inr e ↦ rw e
  | inl e ↦ elim (Bool-cases (bit_and flags mark_crc16 == 0)) [
    | inr f ↦ rw (e, f) (omega (arith, crc16-lt content 0 (omega arith) h))
    | inl f ↦ elim (Bool-cases (bit_and flags mark_crc8 == 0)) [
      | inr g ↦ rw (e, f, g) (omega (arith, crc8-lt content 0 (omega arith) h))
      | inl g ↦ rw (e, f, g)
    ]
  ]
]

take-drop : (n : ℕ) (xs : List ℕ) → take n xs ++ drop n xs ≡ xs
take-drop zero xs = refl
take-drop (suc n) [] = refl
take-drop (suc n) (x ∷ xs) = ap (λ ys. x ∷ ys) (take-drop n xs)

length-drop : (n : ℕ) (xs : List ℕ) → length (drop n xs) ≡ length xs - n
length-drop zero xs = omega arith
length-drop (suc n) [] = omega arith
length-drop (suc n) (x ∷ xs) = length-drop n xs ∙ omega arith

All-take : (n : ℕ) (xs : List ℕ) → All IsByte xs → All IsByte (take n xs)
All-take zero xs h = tt
All-take (suc n) [] h = tt
All-take (suc n) (x ∷ xs) (h, hs) = (h, All-take n xs hs)

All-drop : (n : ℕ) (xs : List ℕ) → All IsByte xs → All IsByte (drop n xs)
All-drop zero xs h = h
All-drop (suc n) [] h = tt
All-drop (suc n) (x ∷ xs) (h, hs) = All-drop n xs hs

-- The CRC when these bytes are left.
abbrev after : (flags c : ℕ) → List ℕ → ℕ
after flags c [] = c
after flags c (x ∷ xs) = crc_step flags c (x ∷ xs)

after_piece :
    (flags c : ℕ) (xs ys : List ℕ)
    → All IsByte xs
    → xs ≢ []
    → after flags (crc_step flags c xs) ys ≡ after flags c (xs ++ ys)
after_piece flags c [] ys h some_left = absurd (some_left refl)
after_piece flags c (x ∷ xs) [] h some_left = ap (crc_step flags c) (sym (append-nil (x ∷ xs)))
after_piece flags c (x ∷ xs) (y ∷ ys) h some_left = crc_step-append flags c (x ∷ xs) (y ∷ ys) h

cons_some : (x : ℕ) (xs : List ℕ) → x ∷ xs ≢ []
cons_some x xs e = cc

-- What `myspiffs_read` did, with `n` bytes asked for and `rest` ahead of the descriptor: it read at least
-- one byte and at most what was asked for, from the front.
pub record IsRead {S : Type 0} (Ahead : S → List ℕ → Type 0) (n : ℕ) (rest : List ℕ)
    (out : ℤ × (List ℕ × S)) : Type 0 where
  pub count : ℕ
  pub returned : out.0 ≡ pos (suc count)
  pub asked : suc count ≤ n
  pub held : suc count ≤ length rest
  pub bytes : take (suc count) out.1.0 ≡ take (suc count) rest
  pub further : Ahead out.1.1 (drop (suc count) rest)

-- SPIFFS, with what is ahead of a descriptor in a state.
module _ (S : Type 0) (api : Spiffs S) (Ahead : S → ℤ → ℤ → List ℕ → Type 0)
    (read_law : (s : S) (fs_no fd : ℤ) (n : ℕ) (rest : List ℕ)
      → Ahead s fs_no fd rest
      → 0 < n
      → rest ≢ []
      → IsRead (λ t left. Ahead t fs_no fd left) n rest (api.read fs_no fd n s)) where
  abbrev to_read : ℕ → ℕ
  to_read bytes_rem = if ltb bytes_rem crcbuf_len then bytes_rem else crcbuf_len

  round :
      (fuel : ℕ) (fs_no fd : ℤ) (flags bytes_rem crc count : ℕ) (s : S)
      → (bytes_rem == 0) ≡ false
      → (api.read fs_no fd (to_read bytes_rem) s).0 ≡ pos (suc count)
      → crc_loop S api (suc fuel) fs_no fd flags bytes_rem crc s
        ≡ crc_loop S api fuel fs_no fd flags
            ((bytes_rem + 2 ^ 32 - suc count) % 2 ^ 32)
            (crc_step flags crc (take (suc count) (api.read fs_no fd (to_read bytes_rem) s).1.0))
            (api.read fs_no fd (to_read bytes_rem) s).1.1
  unfolding crc_loop
  round fuel fs_no fd flags bytes_rem crc count s e r = rw (e, r)

  crc_loop_lem :
      (fuel : ℕ) (fs_no fd : ℤ) (flags crc : ℕ) (s : S) (rest : List ℕ)
      → Ahead s fs_no fd rest
      → All IsByte rest
      → length rest < 2 ^ 32
      → length rest < fuel
      → (t : S) × (crc_loop S api fuel fs_no fd flags (length rest) crc s
          ≡ some (after flags crc rest, t))
  unfolding crc_loop
  crc_loop_lem zero fs_no fd flags crc s rest ahead h fits enough = absurd (omega arith)
  crc_loop_lem (suc fuel) fs_no fd flags crc s [] ahead h fits enough = (s, refl)
  crc_loop_lem (suc fuel) fs_no fd flags crc s (x ∷ xs) ahead h fits enough =
      let rest = x ∷ xs in
      let n = to_read (length rest) in
      let r : IsRead (λ t left. Ahead t fs_no fd left) n rest (api.read fs_no fd n s) =
        read_law s fs_no fd n rest ahead (ground arith) (cons_some x xs) in
      let out = api.read fs_no fd n s in
      let left = drop (suc r.count) rest in
      let (t, eq) =
        crc_loop_lem fuel fs_no fd flags (crc_step flags crc (take (suc r.count) rest)) out.1.1 left
          r.further (All-drop (suc r.count) rest h) (omega (arith, length-drop (suc r.count) rest))
          (omega (arith, length-drop (suc r.count) rest, r.held)) in
      (
        t,
        round fuel fs_no fd flags (length rest) crc r.count s
              (==-false (length rest) 0 (omega arith)) r.returned
            ∙ ap
                (λ b.
                  crc_loop S api fuel fs_no fd flags ((length rest + 2 ^ 32 - suc r.count) % 2 ^ 32)
                    (crc_step flags crc b) out.1.1)
                r.bytes
            ∙ ap
                (λ m.
                  crc_loop S api fuel fs_no fd flags m
                    (crc_step flags crc (take (suc r.count) rest)) out.1.1)
                (let e : (length rest + 4294967296 - suc r.count) % 4294967296 ≡ length left =
                    omega (arith, length-drop (suc r.count) rest, r.held) in
                  e)
            ∙ eq
            ∙ ap (λ c. some (c, t))
                (after_piece flags crc (take (suc r.count) rest) left
                    (All-take (suc r.count) rest h) (cons_some x (take r.count xs))
                  ∙ ap (after flags crc) (take-drop (suc r.count) rest)),
      )

  opened_crc :
      (fuel : ℕ) (f : FileSt) (s : S)
      → is_negative (get_fs f) ≡ false
      → (f.size == 0) ≡ false
      → let fs_no = get_fs f in
        let (fd, s1) = api.open_name fs_no f.name fs_rdwr s in
        let (sought, s2) = api.lseek fs_no fd 0 s1 in
        is_negative fd ≡ false
        → is_negative sought ≡ false
        → (c : ℕ) (t : S) → crc_loop S api fuel fs_no fd f.flags f.size 0 s2 ≡ some (c, t)
        → update_crc S api fuel (some f) s
          ≡ some
              (true, (some (record f { crc = c }), api.close fs_no fd (api.lseek fs_no fd 0 t).1))
  unfolding update_crc
  opened_crc fuel f s e size_some opened sought c t h = rw (e, opened, size_some, sought, h)

  -- On a file whose descriptor opens and seeks, and whose size is that of the bytes then ahead of it, at
  -- least one and fewer than 2^32, `fs_update_crc` reads to the end, whatever the pieces that SPIFFS
  -- hands out, and stores the CRC of all the bytes that the file's flags name: CRC-32 before CRC-16
  -- before CRC-8, each from 0. Fuel above the size is enough.
  pub update_crc_lem :
      (fuel : ℕ) (f : FileSt) (s : S) (content : List ℕ)
      → let fs_no = get_fs f in
        let (fd, s1) = api.open_name fs_no f.name fs_rdwr s in
        let (sought, s2) = api.lseek fs_no fd 0 s1 in
        is_negative fs_no ≡ false
        → is_negative fd ≡ false
        → is_negative sought ≡ false
        → Ahead s2 fs_no fd content
        → All IsByte content
        → f.size ≡ length content
        → content ≢ []
        → length content < 2 ^ 32
        → length content < fuel
        → (t : S) × (update_crc S api fuel (some f) s
            ≡ some (true, (some (record f { crc = file_crc f.flags content }), t)))
  update_crc_lem fuel f s [] e opened sought ahead h sized some_left fits enough =
      absurd (some_left refl)
  update_crc_lem fuel f s (x ∷ xs) e opened sought ahead h sized some_left fits enough =
      let fs_no = get_fs f in
      let fd = (api.open_name fs_no f.name fs_rdwr s).0 in
      let s1 = (api.open_name fs_no f.name fs_rdwr s).1 in
      let s2 = (api.lseek fs_no fd 0 s1).1 in
      let (t, eq) = crc_loop_lem fuel fs_no fd f.flags 0 s2 (x ∷ xs) ahead h fits enough in
      (
        api.close fs_no fd (api.lseek fs_no fd 0 t).1,
        opened_crc fuel f s e (==-false f.size 0 (omega arith)) opened sought
            (file_crc f.flags (x ∷ xs)) t
            (ap (λ n. crc_loop S api fuel fs_no fd f.flags n 0 s2) sized
              ∙ eq
              ∙ ap (λ c. some (c, t)) (crc_step_lem f.flags (x ∷ xs) h)),
      )

-- SPIFFS when every read fails.
module _ (S : Type 0) (api : Spiffs S)
    (failing : (s : S) (fs_no fd : ℤ) (n : ℕ) → is_negative (api.read fs_no fd n s).0 ≡ true) where
  stuck_round :
      (fuel : ℕ) (fs_no fd : ℤ) (flags bytes_rem crc : ℕ) (s : S)
      → (bytes_rem == 0) ≡ false
      → crc_loop S api fuel fs_no fd flags bytes_rem crc s ≡ none
  unfolding crc_loop
  stuck_round zero fs_no fd flags bytes_rem crc s e = refl
  stuck_round (suc fuel) fs_no fd flags bytes_rem crc s e =
      let n = if ltb bytes_rem crcbuf_len then bytes_rem else crcbuf_len in
      let (k, r) = negative_cases (api.read fs_no fd n s).0 (failing s fs_no fd n) in
      rw (e, r) (stuck_round fuel fs_no fd flags bytes_rem crc (api.read fs_no fd n s).1.1 e)

  -- When every read fails, `fs_update_crc` of a file with a size, on a descriptor that opens and seeks,
  -- does not return: no fuel is enough.
  pub update_crc_stuck :
      (fuel : ℕ) (f : FileSt) (s : S)
      → let fs_no = get_fs f in
        let (fd, s1) = api.open_name fs_no f.name fs_rdwr s in
        is_negative fs_no ≡ false
        → is_negative fd ≡ false
        → is_negative (api.lseek fs_no fd 0 s1).0 ≡ false
        → f.size ≢ 0
        → update_crc S api fuel (some f) s ≡ none
  unfolding update_crc
  update_crc_stuck fuel f s e opened sought sized =
      let fs_no = get_fs f in
      let fd = (api.open_name fs_no f.name fs_rdwr s).0 in
      let s1 = (api.open_name fs_no f.name fs_rdwr s).1 in
      rw (
        e,
        opened,
        ==-false f.size 0 sized,
        sought,
        stuck_round fuel fs_no fd f.flags f.size 0 (api.lseek fs_no fd 0 s1).1
            (==-false f.size 0 sized),
      )
