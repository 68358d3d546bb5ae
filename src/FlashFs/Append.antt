-- ===== src/FlashFs/Append.antt =====
-- `fs_append_to_file`: the size that is kept, and the mark of big files.
use esp_misc.Common.{
  ℕ, zero, suc, ◌+◌, ◌/◌, ◌%◌, ◌^◌, ◌<◌, ◌≤◌, ◌≡◌, ◌≢◌, inl, inr, refl, sym, ◌∙◌, ap, true, false,
  Option, some, List, [], ◌∷◌, Bool-cases, bit_and, bit_or, ltb, ◌==◌, if◌then◌else◌, length, take,
  arith,
}
use mathlib.Core.Path.{subst}
use esp_misc.Common.Int.{ℤ, pos, negsuc, is_negative, ℤ-cases}
use esp_misc.Common.Bits.{bit_or_step}
use esp_misc.Common.Masks.{bit_and_bit}
use esp_misc.Common.Ors.{bit_or-shift}
use esp_misc.FlashFs.{FileSt, get_fs, mark_big, append_to_file}
use esp_misc.FlashFs.Interface.{Spiffs, fs_rdwr, fs_append}

-- A file too big for 16 bits carries the mark.
abbrev pub IsMarked : FileSt → Type 0
IsMarked f = 65535 < f.size → bit_and f.flags mark_big ≢ 0

big_marked : (flags : ℕ) → bit_and (bit_or flags mark_big) mark_big ≢ 0
big_marked flags e =
    let shifted : bit_or flags 4 / 4 ≡ bit_or (flags / 4) 1 = bit_or-shift 2 flags 4 in
    omega (arith, bit_and_bit 2 (bit_or flags 4), shifted, bit_or_step (flags / 4) 1)

-- The flags as `fs_append_to_file` leaves them.
abbrev flagged : ℕ → FileSt → FileSt
flagged len f =
    if ltb 65535 ((f.size + len) % 2 ^ 32) then record f { flags = bit_or f.flags mark_big } else f

flagged-size : (len : ℕ) (f : FileSt) → (flagged len f).size ≡ f.size
flagged-size len f = elim (Bool-cases (ltb 65535 ((f.size + len) % 2 ^ 32))) [
  | inl e ↦ rw e
  | inr e ↦ rw e
]

flagged-name : (len : ℕ) (f : FileSt) → (flagged len f).name ≡ f.name
flagged-name len f = elim (Bool-cases (ltb 65535 ((f.size + len) % 2 ^ 32))) [
  | inl e ↦ rw e
  | inr e ↦ rw e
]

length-take-le : (n : ℕ) (xs : List ℕ) → length (take n xs) ≤ n
length-take-le zero xs = omega arith
length-take-le (suc n) [] = omega arith
length-take-le (suc n) (x ∷ xs) = omega (arith, length-take-le n xs)

flagged_lem :
    (len size : ℕ) (f : FileSt)
    → IsMarked f
    → f.size + len < 2 ^ 32
    → size ≤ f.size + len
    → IsMarked (record (flagged len f) { size = size })
flagged_lem len size f m fits le big = elim (Bool-cases (ltb 65535 ((f.size + len) % 2 ^ 32))) [
  | inl e ↦ (λ z. big_marked f.flags (
      sym (
        ap
          (λ b.
            bit_and (if b then record f { flags = bit_or f.flags mark_big } else f).flags mark_big)
          e)
      ∙ z))
  | inr e ↦ (λ z. m (ground arith) (
      sym (
        ap
          (λ b.
            bit_and (if b then record f { flags = bit_or f.flags mark_big } else f).flags mark_big)
          e)
      ∙ z))
]

-- The number of bytes that a result tells of.
abbrev pub gained : ℤ → ℕ
gained (pos n) = n
gained (negsuc n) = 0

-- What `fs_append_to_file` leaves of a file.
pub record IsAppended (f : FileSt) (out : ℤ × Option FileSt) : Type 0 where
  pub file : FileSt
  pub kept : out.1 ≡ some file
  pub sized : file.size ≡ f.size + gained out.0
  pub marked : IsMarked file
  pub named : file.name ≡ f.name

module _ (S : Type 0) (api : Spiffs S)
    (write_law : (fs_no fd : ℤ) (bytes : List ℕ) (s : S) (n : ℕ)
      → (api.write fs_no fd bytes s).0 ≡ pos n
      → n ≤ length bytes) where
  abbrev outcome : FileSt → List ℕ → ℕ → S → ℤ × Option FileSt
  outcome f bytes len s =
      let (res, (g, t)) = append_to_file S api (some f) (some bytes) len s in (res, g)

  module _ (f : FileSt) (bytes : List ℕ) (len : ℕ) (s : S) where
    abbrev fs_no : ℤ
    fs_no = get_fs (flagged len f)

    abbrev opened : ℤ × S
    opened = api.open_name fs_no f.name (bit_or fs_rdwr fs_append) s

    abbrev written : ℤ
    written = (api.write fs_no opened.0 (take len bytes) opened.1).0

    out_empty : (len == 0) ≡ true → outcome f bytes len s ≡ (negsuc 0, some f)
    unfolding append_to_file
    out_empty e = rw e

    out_no_fs :
        (len == 0) ≡ false
        → is_negative fs_no ≡ true
        → outcome f bytes len s ≡ (negsuc 0, some (flagged len f))
    unfolding append_to_file
    out_no_fs e n = rw (e, n)

    out_unopened :
        (len == 0) ≡ false
        → is_negative fs_no ≡ false
        → is_negative opened.0 ≡ true
        → outcome f bytes len s ≡ (negsuc 0, some (flagged len f))
    unfolding append_to_file
    out_unopened e n o = rw (e, n, o)

    out_zero :
        (len == 0) ≡ false
        → is_negative fs_no ≡ false
        → is_negative opened.0 ≡ false
        → written ≡ pos 0
        → outcome f bytes len s ≡ (negsuc 0, some (flagged len f))
    unfolding append_to_file
    out_zero e n o w = rw (e, n, o, w)

    out_failed :
        (k : ℕ)
        → (len == 0) ≡ false
        → is_negative fs_no ≡ false
        → is_negative opened.0 ≡ false
        → written ≡ negsuc k
        → outcome f bytes len s ≡ (negsuc 0, some (flagged len f))
    unfolding append_to_file
    out_failed k e n o w = rw (e, n, o, w)

    out_written :
        (k : ℕ)
        → (len == 0) ≡ false
        → is_negative fs_no ≡ false
        → is_negative opened.0 ≡ false
        → written ≡ pos (suc k)
        → outcome f bytes len s
          ≡ (pos (suc k), some (record (flagged len f) { size = (f.size + suc k) % 2 ^ 32 }))
    unfolding append_to_file
    out_written k e n o w = rw (e, n, o, w)

    -- Nothing was appended.
    refused :
        IsMarked f
        → f.size + len < 2 ^ 32
        → outcome f bytes len s ≡ (negsuc 0, some (flagged len f))
        → IsAppended f (outcome f bytes len s)
    refused m fits e = subst (IsAppended f) (sym e) (record {
      file = flagged len f;
      kept = refl;
      sized = flagged-size len f ∙ omega arith;
      marked = λ big.
          flagged_lem len (flagged len f).size f m fits (omega (arith, flagged-size len f)) big;
      named = flagged-name len f;
    })

    added :
        (k : ℕ)
        → IsMarked f
        → f.size + len < 2 ^ 32
        → suc k ≤ len
        → outcome f bytes len s
          ≡ (pos (suc k), some (record (flagged len f) { size = (f.size + suc k) % 2 ^ 32 }))
        → IsAppended f (outcome f bytes len s)
    added k m fits le e = subst (IsAppended f) (sym e) (record {
      file = record (flagged len f) { size = (f.size + suc k) % 2 ^ 32 };
      kept = refl;
      sized = omega arith;
      marked = flagged_lem len ((f.size + suc k) % 2 ^ 32) f m fits (omega arith);
      named = flagged-name len f;
    })

    -- `fs_append_to_file` adds to the size of the file what its result tells, nothing on an error, and
    -- keeps the name; and if a file whose size needs more than 16 bits carries the mark of big files
    -- before, it does so afterwards. The size and the length must not add up to 2^32, and SPIFFS must
    -- not write more bytes than it is given.
    pub append_to_file_lem :
        IsMarked f → f.size + len < 2 ^ 32 → IsAppended f (outcome f bytes len s)
    append_to_file_lem m fits = elim (Bool-cases (len == 0)) [
      | inl e ↦
          subst (IsAppended f) (sym (out_empty e))
            (record { file = f; kept = refl; sized = omega arith; marked = m; named = refl })
      | inr e ↦ elim (Bool-cases (is_negative fs_no)) [
        | inl n ↦ refused m fits (out_no_fs e n)
        | inr n ↦ elim (Bool-cases (is_negative opened.0)) [
          | inl o ↦ refused m fits (out_unopened e n o)
          | inr o ↦ elim (ℤ-cases written) [
            | inl w ↦ refused m fits (out_zero e n o w)
            | inr (inl (k, w)) ↦
                added k m fits
                  (omega (
                    arith,
                    write_law fs_no opened.0 (take len bytes) opened.1 (suc k) w,
                    length-take-le len bytes,
                  ))
                  (out_written k e n o w)
            | inr (inr (k, w)) ↦ refused m fits (out_failed k e n o w)
          ]
        ]
      ]
    ]
