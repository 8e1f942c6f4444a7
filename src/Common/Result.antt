-- ===== src/Common/Result.antt =====
-- A value or a Go error, of which only the text is kept.
use Prim.Native.String.{String}

pub data Fallible {ℓ} (A : Type ℓ) : Type ℓ where
  ok : A → Fallible A
  err : String → Fallible A
