-- ===== src/FlashFs.antt =====
-- flash_fs.c: the list of files, and the operations on a file of either file system.
pub mod Append
pub mod Files
pub mod Names
pub mod Removed
pub mod Interface
mod Tests
pub mod UpdateCrc
use esp_misc.Common.{
  ℕ, zero, suc, ◌+◌, ◌-◌, ◌%◌, ◌^◌, Bool, true, false, Option, none, some, List, [], ◌∷◌, bit_and,
  bit_or, ltb, leb, ◌==◌, if◌then◌else◌, length, take, get_or,
}
use esp_misc.Common.Int.{ℤ, pos, negsuc, is_negative, same_int}
use esp_misc.Crc.{crc8_compute_buf, crc16_compute_buf, crc32_compute_buf}
use Interface.{Spiffs, fs_append, fs_trunc, fs_creat, fs_rdwr, err_not_found, err_deleted}

-- `struct fs_file_st`, whose place in the list is the list's.
pub record FileSt : Type 0 where
  pub flags : ℕ
  pub pix : ℕ
  pub size : ℕ
  pub crc : ℕ
  pub name : List ℕ

abbrev pub crcbuf_len : ℕ
crcbuf_len = 32

abbrev pub mark_crc32 : ℕ
mark_crc32 = 1024

abbrev pub mark_crc16 : ℕ
mark_crc16 = 512

abbrev pub mark_crc8 : ℕ
mark_crc8 = 256

abbrev pub mark_delete : ℕ
mark_delete = 32

abbrev pub mark_dynfs : ℕ
mark_dynfs = 16

abbrev pub mark_staticfs : ℕ
mark_staticfs = 8

abbrev pub mark_big : ℕ
mark_big = 4

abbrev pub is_marked : FileSt → ℕ → Bool
is_marked f mark = if bit_and f.flags mark == 0 then false else true

-- `GET_FS`
abbrev pub get_fs : FileSt → ℤ
get_fs f =
    if is_marked f mark_dynfs then pos 1 else if is_marked f mark_staticfs then pos 0 else negsuc 0

-- `1 << (fsNo+3)`, cut to 16 bits.
abbrev pub fs_flag : ℤ → ℕ
fs_flag (pos n) = 2 ^ (n + 3) % 2 ^ 16
fs_flag (negsuc n) = 2 ^ (2 - n)

-- What one round of the loop in `fs_update_crc` makes of the CRC.
unfoldable pub crc_step : (flags crc : ℕ) → List ℕ → ℕ
crc_step flags crc buf =
    if (if bit_and flags mark_crc32 == 0 then false else true)
    then crc32_compute_buf crc buf
    else if (if bit_and flags mark_crc16 == 0 then false else true)
    then crc16_compute_buf (crc % 2 ^ 16) buf % 2 ^ 16
    else if (if bit_and flags mark_crc8 == 0 then false else true)
    then crc8_compute_buf (crc % 2 ^ 8) buf % 2 ^ 8
    else crc

-- `f->flags` once the sizes are known.
abbrev pub crc_mark : ℕ → ℕ
crc_mark size =
    if leb size 255 then mark_crc8 else if leb size 65535 then mark_crc16 else mark_crc32

module _ (S : Type 0) (api : Spiffs S) where
  open api use {open_name, lseek, read, write, close, fstat, info}

  -- `fs_read_file`; what is read comes with the result.
  unfoldable pub read_file : Option FileSt → (len offset : ℕ) → S → ℤ × (List ℕ × S)
  read_file none len offset s = (negsuc 0, ([], s))
  read_file (some f) len offset s =
      let fs_no = get_fs f in
      let (fd, s1) = open_name fs_no f.name fs_rdwr s in
      let (sought, s2) = lseek fs_no fd offset s1 in
      let (res, (buff, s3)) = read fs_no fd len s2 in
      if is_negative fs_no
      then (negsuc 0, ([], s))
      else if is_negative fd
      then (negsuc 0, ([], s1))
      else if f.size == 0
      then (negsuc 0, ([], close fs_no fd s1))
      else if is_negative sought
      then (sought, ([], close fs_no fd s2))
      else (res, (buff, close fs_no fd s3))

  -- `fs_append_to_file`; a file or data that is NULL is `none`.
  unfoldable pub append_to_file :
      Option FileSt → Option (List ℕ) → (len : ℕ) → S → ℤ × (Option FileSt × S)
  append_to_file none bytes len s = (negsuc 0, (none, s))
  append_to_file (some f) none len s = (negsuc 0, (some f, s))
  append_to_file (some f) (some bytes) len s =
      let g =
        if ltb 65535 ((f.size + len) % 2 ^ 32)
        then record f { flags = bit_or f.flags mark_big }
        else f in
      let fs_no = get_fs g in
      let (fd, s1) = open_name fs_no f.name (bit_or fs_rdwr fs_append) s in
      let (res, s2) = write fs_no fd (take len bytes) s1 in
      if len == 0
      then (negsuc 0, (some f, s))
      else if is_negative fs_no
      then (negsuc 0, (some g, s))
      else if is_negative fd
      then (negsuc 0, (some g, s1))
      else elim res [
        | pos zero ↦ (negsuc 0, (some g, close fs_no fd s2))
        | pos (suc n) ↦
            (pos (suc n), (some (record g { size = (f.size + suc n) % 2 ^ 32 }), close fs_no fd s2))
        | negsuc n ↦ (negsuc 0, (some g, close fs_no fd s2))
      ]

  -- `fs_update_pix`
  unfoldable pub update_pix : Option FileSt → S → ℤ × (Option FileSt × S)
  update_pix none s = (negsuc 0, (none, s))
  update_pix (some f) s =
      let fs_no = get_fs f in
      let (fd, s1) = open_name fs_no f.name fs_rdwr s in
      let (res, (size, (pix, s2))) = fstat fs_no fd s1 in
      if is_negative fs_no
      then (negsuc 0, (some f, s))
      else if is_negative fd
      then (negsuc 0, (some f, s1))
      else (
        res,
        (
          some (if is_negative res then f else record f { size = size; pix = pix }),
          close fs_no fd s2,
        ),
      )

  -- `fs_get_avail`, an unsigned number.
  unfoldable pub get_avail : ℤ → S → ℕ
  get_avail fs_no s =
      let (res, (total, used)) = info fs_no s in
      if is_negative res then 2 ^ 32 - 1 else (total + 2 ^ 32 - used) % 2 ^ 32

  -- The loop of `fs_update_crc`; `none` is out of fuel.
  unfoldable pub crc_loop :
      (fuel : ℕ) (fs_no fd : ℤ) (flags bytes_rem crc_out : ℕ) → S → Option (ℕ × S)
  crc_loop zero fs_no fd flags bytes_rem crc_out s = none
  crc_loop (suc fuel) fs_no fd flags bytes_rem crc_out s =
      let (res, (buf, t)) =
        read fs_no fd (if ltb bytes_rem crcbuf_len then bytes_rem else crcbuf_len) s in
      if bytes_rem == 0 then some (crc_out, s) else elim res [
        | pos zero ↦ some (crc_out, t)
        | pos (suc n) ↦
            crc_loop fuel fs_no fd flags ((bytes_rem + 2 ^ 32 - suc n) % 2 ^ 32)
              (crc_step flags crc_out (take (suc n) buf)) t
        | negsuc n ↦ crc_loop fuel fs_no fd flags bytes_rem crc_out t
      ]

  -- `fs_update_crc`; the result -1 is true.
  unfoldable pub update_crc : (fuel : ℕ) → Option FileSt → S → Option (Bool × (Option FileSt × S))
  update_crc fuel none s = some (true, (none, s))
  update_crc fuel (some f) s =
      let fs_no = get_fs f in
      let (fd, s1) = open_name fs_no f.name fs_rdwr s in
      let (sought, s2) = lseek fs_no fd 0 s1 in
      if is_negative fs_no
      then some (true, (some f, s))
      else if is_negative fd
      then some (true, (some f, s1))
      else if f.size == 0
      then some (true, (some f, close fs_no fd s2))
      else if is_negative sought
      then some (true, (some f, close fs_no fd s2))
      else elim (crc_loop fuel fs_no fd f.flags f.size 0 s2) [
        | none ↦ none
        | some (crc_out, t) ↦
            some (true, (some (record f { crc = crc_out }), close fs_no fd (lseek fs_no fd 0 t).1))
      ]
