-- ===== src/Fs/Errors.antt =====
-- kernel/src/kernel/fs/mod.rs: the open flags and error codes that the file systems share.
use Prim.Native.Nat.{bit_and}
use oxide_os.Prelude.{ℕ, Bool, not, ◌==◌, ℤ, neg}

abbrev pub o_wronly : ℕ
o_wronly = 1

abbrev pub o_rdwr : ℕ
o_rdwr = 2

abbrev pub o_creat : ℕ
o_creat = 0x40

abbrev pub o_trunc : ℕ
o_trunc = 0x200

abbrev pub o_append : ℕ
o_append = 0x400

abbrev pub enoent : ℤ
enoent = neg 2

abbrev pub eexist : ℤ
eexist = neg 17

abbrev pub eisdir : ℤ
eisdir = neg 21

abbrev pub enotdir : ℤ
enotdir = neg 20

abbrev pub ebadf : ℤ
ebadf = neg 9

abbrev pub einval : ℤ
einval = neg 22

abbrev pub emfile : ℤ
emfile = neg 24

abbrev pub eacces : ℤ
eacces = neg 13

-- `flags & bit != 0`
abbrev pub has_flag : ℕ → ℕ → Bool
has_flag flags bit = not (bit_and flags bit == 0)

-- What a fallible operation returns.
pub data Result {ℓ} (A : Type ℓ) : Type ℓ where
  ok : A → Result A
  err : ℤ → Result A
