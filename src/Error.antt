-- ===== src/Error.antt =====
-- src/proto/error.rs: the error codes, and results that carry them.
pub mod Codes
use tinyproto_rust.Base.{Option, none, some, if◌then◌else◌}
use tinyproto_rust.Base.Int.{ℤ, negsuc, is_negsuc}

pub data TinyError : Type 0 where
  failed timeout data_too_large invalid_data busy out_of_sync again : TinyError
  wrong_crc out_of_memory unknown_peer io : TinyError

-- Convert from C-style error code to TinyError.
unfoldable pub from_code : ℤ → Option TinyError
from_code code =
    if is_negsuc 0 code
    then some failed
    else if is_negsuc 1 code
    then some timeout
    else if is_negsuc 2 code
    then some data_too_large
    else if is_negsuc 3 code
    then some invalid_data
    else if is_negsuc 4 code
    then some busy
    else if is_negsuc 5 code
    then some out_of_sync
    else if is_negsuc 6 code
    then some again
    else if is_negsuc 7 code
    then some wrong_crc
    else if is_negsuc 8 code
    then some out_of_memory
    else if is_negsuc 9 code
    then some unknown_peer
    else if is_negsuc 10 code
    then some io
    else none

-- Convert to C-style error code.
pub to_code : TinyError → ℤ
to_code failed = negsuc 0
to_code timeout = negsuc 1
to_code data_too_large = negsuc 2
to_code invalid_data = negsuc 3
to_code busy = negsuc 4
to_code out_of_sync = negsuc 5
to_code again = negsuc 6
to_code wrong_crc = negsuc 7
to_code out_of_memory = negsuc 8
to_code unknown_peer = negsuc 9
to_code io = negsuc 10

-- `Result<T, TinyError>`
pub data TinyResult {ℓ} (A : Type ℓ) : Type ℓ where
  ok : A → TinyResult A
  err : TinyError → TinyResult A
