-- ===== src/FlashFs/Interface.antt =====
-- The functions of SPIFFS that flash_fs.c calls, over the state `S` of both file systems. The first
-- argument is the number of the file system, an `int`; a negative result is an error.
use esp_misc.Common.{ℕ, List}
use esp_misc.Common.Int.{ℤ}

pub record Spiffs (S : Type 0) : Type 0 where
  -- `myspiffs_open` of a name, with flags.
  pub open_name : ℤ → List ℕ → ℕ → S → ℤ × S
  -- `myspiffs_lseek` from the start.
  pub lseek : ℤ → ℤ → ℕ → S → ℤ × S
  -- `myspiffs_read`: the number of bytes, and the bytes.
  pub read : ℤ → ℤ → ℕ → S → ℤ × (List ℕ × S)
  pub write : ℤ → ℤ → List ℕ → S → ℤ × S
  pub close : ℤ → ℤ → S → S
  -- The size and the page index.
  pub fstat : ℤ → ℤ → S → ℤ × (ℕ × (ℕ × S))
  pub rename : ℤ → List ℕ → List ℕ → S → ℤ × S
  pub fremove : ℤ → ℤ → S → ℤ × S
  pub errno : ℤ → S → ℤ
  pub clearerr : ℤ → S → S
  pub check : ℤ → S → S
  -- The total number of bytes and the number used.
  pub info : ℤ → S → ℤ × (ℕ × ℕ)

-- The flags of `open_name`.
abbrev pub fs_append : ℕ
fs_append = 1

abbrev pub fs_trunc : ℕ
fs_trunc = 2

abbrev pub fs_creat : ℕ
fs_creat = 4

abbrev pub fs_rdwr : ℕ
fs_rdwr = 24

abbrev pub err_not_found : ℤ
err_not_found = ℤ.negsuc 10001

abbrev pub err_deleted : ℤ
err_deleted = ℤ.negsuc 10003
