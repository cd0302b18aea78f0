-- ===== src/Count/Strings.antt =====
-- count/string.go: the names of a jimage file, each ended by a zero byte.
pub mod Reading
use jvm_vendors.Base.{ℕ, ◌+◌, Bool, ◌&&◌, List, [], ◌∷◌, take, if◌then◌else◌, ltb, leb, ◌==◌}
use jvm_vendors.Base.Int.{ℤ, ◌+ℤ◌}
use jvm_vendors.Base.Result.{Result, ok, err, ◌>>=◌}
use jvm_vendors.Count.Reader.{Bytes, ImageError, cannot_read, seek}

pub record Strings : Type 0 where
  pub offset : ℤ
  pub size : ℤ
  pub reader : Bytes

-- `(c & 0xC0) == 0x80`: a byte that continues a UTF-8 sequence.
unfoldable pub is_continuation : ℕ → Bool
is_continuation c = leb 128 c && ltb c 192

-- The loop up to the zero byte, which counts the bytes that continue no sequence.
unfoldable pub name_length : Bytes → ℕ → Result ImageError ℕ
unfolding is_continuation
name_length [] n = err cannot_read
name_length (c ∷ r) n =
    let rest = name_length r (if is_continuation c then n else n + 1) in
    if c == 0 then ok n else rest

-- The bytes from a place on. `ReadAt` cannot fail, since the loop has passed these bytes.
unfoldable pub read_name : Bytes → Result ImageError Bytes
unfolding name_length
read_name r = name_length r 0 >>= λ n. ok (take n r)

-- `Strings.Get`
unfoldable pub get : Strings → ℤ → Result ImageError Bytes
unfolding read_name seek ◌+ℤ◌
get s offset = seek s.reader (s.offset +ℤ offset) >>= read_name
