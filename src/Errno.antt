-- ===== src/Errno.antt =====
-- Return values of the C functions: 0 or a negated `errno`, and a result with such an error.
-- The numbers are those of errno.h on Linux.
use bdev_ubi.Prelude.{ℤ, negsuc}

abbrev pub eio : ℤ
eio = negsuc 4

abbrev pub enomem : ℤ
enomem = negsuc 11

abbrev pub einval : ℤ
einval = negsuc 21

pub data Result {ℓ} (A : Type ℓ) : Type ℓ where
  ok : A → Result A
  err : ℤ → Result A
