-- ===== src/Protocol/Bytes.antt =====
-- The bytes of an `int`, written and read.
use schedule_center.Base.{ℕ, ◌<◌, ◌^◌, ◌++◌, Option, some, ◌≡◌, refl, ap, arith, drop}
use schedule_center.Base.Text.{Text}
use schedule_center.Protocol.{int_bytes, read_int}

pub read_int-int_bytes :
    (n : ℕ) (rest : Text) → n < 2 ^ 32 → read_int (int_bytes n ++ rest) ≡ some n
unfolding read_int int_bytes
read_int-int_bytes n rest h = ap {B = Option ℕ} some (omega arith)

pub drop-int_bytes : (n : ℕ) (rest : Text) → drop 4 (int_bytes n ++ rest) ≡ rest
unfolding int_bytes
drop-int_bytes n rest = refl
