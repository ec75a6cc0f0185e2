-- ===== src/Error/Codes.antt =====
-- The codes of src/proto/error.rs and the errors correspond one to one.
use tinyproto_rust.Base.{◌≡◌, refl, some, arith}
use tinyproto_rust.Base.Int.{ℤ}
use tinyproto_rust.Error.{TinyError, failed, from_code, to_code}

-- Every error is read back from its code.
pub from_code-to_code : (e : TinyError) → from_code (to_code e) ≡ some e
unfolding from_code to_code
from_code-to_code failed = refl
from_code-to_code _ = refl

-- A code is read as an error only if it is that error's code.
to_code-from_code : (c : ℤ) {e : TinyError} → from_code c ≡ some e → to_code e ≡ c
unfolding from_code to_code
to_code-from_code c h = ground arith
