-- ===== src/Error.antt =====
-- crates/core/fs-core/src/error.rs
use monaka_fs.Prelude.{ℕ}
use monaka_fs.Prelude.Int.{ℤ, negsuc}

pub data FsError : Type 0 where
  not_found not_a_directory is_a_directory invalid_argument bad_file_descriptor permission_denied
        already_exists not_empty :
      FsError

-- `i32` codes: `negsuc n` is -(n + 1).
unfoldable pub to_errno : FsError → ℤ
to_errno not_found = negsuc 1
to_errno not_a_directory = negsuc 19
to_errno is_a_directory = negsuc 20
to_errno invalid_argument = negsuc 21
to_errno bad_file_descriptor = negsuc 8
to_errno permission_denied = negsuc 12
to_errno already_exists = negsuc 16
to_errno not_empty = negsuc 38

unfoldable pub to_wasi_error_code : FsError → ℕ
to_wasi_error_code not_found = 44
to_wasi_error_code not_a_directory = 54
to_wasi_error_code is_a_directory = 31
to_wasi_error_code invalid_argument = 28
to_wasi_error_code bad_file_descriptor = 8
to_wasi_error_code permission_denied = 2
to_wasi_error_code already_exists = 20
to_wasi_error_code not_empty = 55

pub data Result (A : Type 0) : Type 0 where
  ok : A → Result A
  err : FsError → Result A

infixl 5 ◌>>=◌
abbrev pub ◌>>=◌ : {A B : Type 0} → Result A → (A → Result B) → Result B
ok a >>= f = f a
err e >>= f = err e
