-- ===== src/Storage/Pagination/Codec.antt =====
-- The text of a cursor: `encode_cursor` and `decode_cursor` of crates/storage/src/sqlite/page.rs and
-- the hex codec of crates/storage/src/codec.rs. A text is here the list of its UTF-8 bytes.
use thewiki.Prelude.{
  ◌≡◌, refl, ap, ℕ, ◌+◌, ◌-◌, ◌*◌, ◌/◌, ◌%◌, ◌<◌, some, none, true, false, not, ◌&&◌, List, [], ◌∷◌,
  ◌++◌,
}
use thewiki.Prelude.Lists.{All, length}
use thewiki.Prelude.Result.{Result, ok, err, and_then}
use thewiki.Prelude.Tests.{◌==◌, leb, ltb, if◌then◌else◌}
use thewiki.Prelude.Text.{codes, split_once}
use thewiki.Storage.Schema.{StorageError, invalid_input}
use native.Mathlib.Omega.{arith}

-- The table `HEX`.
abbrev pub hex_digit : ℕ → ℕ
hex_digit n = if ltb n 10 then 48 + n else 87 + n

abbrev pub hex_encode : List ℕ → List ℕ
hex_encode [] = []
hex_encode (b ∷ bytes) = hex_digit (b / 16) ∷ hex_digit (b % 16) ∷ hex_encode bytes

unfoldable pub from_hex_digit : ℕ → Result StorageError ℕ
from_hex_digit b =
    if leb 48 b && leb b 57
    then ok (b - 48)
    else if leb 97 b && leb b 102
    then ok (b - 97 + 10)
    else if leb 65 b && leb b 70
    then ok (b - 65 + 10)
    else err (invalid_input (codes "cursor contains non-hex digit"))

-- The loop over `chunks_exact(2)`, which leaves an odd byte out. A low digit is below 16, so that `|`
-- adds it.
abbrev pub decode_chunks : List ℕ → Result StorageError (List ℕ)
decode_chunks [] = ok []
decode_chunks (c ∷ []) = ok []
decode_chunks (c ∷ d ∷ rest) = and_then (from_hex_digit c) (λ hi.
    and_then (from_hex_digit d)
      (λ lo. and_then (decode_chunks rest) (λ out. ok ((hi * 16 % 256 + lo) ∷ out))))

unfoldable pub hex_decode_id : List ℕ → Result StorageError (List ℕ)
hex_decode_id s =
    if not (length s == 32)
    then err (invalid_input (codes "cursor id must be 32 hex chars"))
    else decode_chunks s

unfoldable pub encode_cursor : List ℕ → List ℕ → List ℕ
encode_cursor created_at id = created_at ++ 124 ∷ hex_encode id

unfoldable pub decode_cursor : List ℕ → Result StorageError (List ℕ × List ℕ)
unfolding split_once
decode_cursor c = elim (split_once 124 c) [
  | none ↦ err (invalid_input (codes "page cursor must be `<timestamp>|<hex-id>`"))
  | some (ts, id_hex) ↦ ok (ts, id_hex)
]

-- The two steps with which a listing reads its cursor.
unfoldable pub read_cursor : List ℕ → Result StorageError (List ℕ × List ℕ)
read_cursor c =
    and_then (decode_cursor c) (λ parts. and_then (hex_decode_id parts.1) (λ id. ok (parts.0, id)))

from_hex_digit-hex_digit : (n : ℕ) → n < 16 → from_hex_digit (hex_digit n) ≡ ok n
unfolding from_hex_digit
from_hex_digit-hex_digit n h = ground arith

abbrev pub Byte : ℕ → Type 0
Byte b = b < 256

decode_chunks-hex_encode :
    (bytes : List ℕ) → All Byte bytes → decode_chunks (hex_encode bytes) ≡ ok bytes
decode_chunks-hex_encode [] h = refl
decode_chunks-hex_encode (b ∷ bytes) h =
    let whole : b / 16 * 16 % 256 + b % 16 ≡ b = omega (arith, h.0) in
    rw
      (
        from_hex_digit-hex_digit (b / 16) (omega (arith, h.0)),
        from_hex_digit-hex_digit (b % 16) (omega arith),
        decode_chunks-hex_encode bytes h.1,
      )
      (ap (λ c. ok (c ∷ bytes)) whole)

length-hex_encode : (bytes : List ℕ) → length (hex_encode bytes) ≡ 2 * length bytes
length-hex_encode [] = refl
length-hex_encode (b ∷ bytes) = omega (arith, length-hex_encode bytes)

split_once-append :
    (d : ℕ) (s t : List ℕ) → All (λ c. (c == d) ≡ false) s → split_once d (s ++ d ∷ t) ≡ some (s, t)
unfolding split_once
split_once-append d [] t h = ground arith
split_once-append d (c ∷ s) t h = rw (split_once, h.0, split_once-append d s t h.1) refl

-- A cursor that a listing hands out is read back as the row's time and id, if the time's text has no
-- bar and the id is of 16 bytes.
pub read_cursor-encode_cursor :
    (created_at id : List ℕ)
    → All (λ c. (c == 124) ≡ false) created_at
    → All Byte id
    → length id ≡ 16
    → read_cursor (encode_cursor created_at id) ≡ ok (created_at, id)
unfolding read_cursor encode_cursor decode_cursor hex_decode_id
read_cursor-encode_cursor created_at id bar bytes sixteen =
    let long : (length (hex_encode id) == 32) ≡ true = ground (arith, length-hex_encode id) in
    rw
      (
        read_cursor,
        encode_cursor,
        decode_cursor,
        hex_decode_id,
        split_once-append 124 created_at (hex_encode id) bar,
        long,
        decode_chunks-hex_encode id bytes,
      )
      refl
