-- ===== src/Net/Hash.antt =====
-- Destination hashes of chatxz/core/lan_rns.py: hexadecimal text and the bytes that key the tables.
use chatxz.Prelude.{
  ℕ, ◌+◌, ◌-◌, ◌*◌, ◌/◌, ◌%◌, ◌<◌, ◌≡◌, refl, Bool, false, not, ◌&&◌, ◌||◌, Option, none, some,
  List, [], ◌∷◌, arith, ltb, leb, ◌==◌, if◌then◌else◌, length, All, Str, or_empty, without, strip,
  lower,
}

-- `bytes`
abbrev pub Bytes : Type 0
Bytes = List ℕ

-- The value of a hexadecimal digit.
unfoldable pub hex_value : ℕ → Option ℕ
hex_value c =
    if leb 48 c && leb c 57
    then some (c - 48)
    else if leb 97 c && leb c 102
    then some (c - 87)
    else if leb 65 c && leb c 70
    then some (c - 55)
    else none

abbrev is_blank : ℕ → Bool
is_blank c = leb 9 c && leb c 13 || c == 32

abbrev join : Option ℕ → Option ℕ → Option Bytes → Option Bytes
join (some a) (some b) (some rest) = some ((16 * a + b) ∷ rest)
join _ _ _ = none

-- `bytes.fromhex`: white space may stand between two bytes; `none` is the ValueError.
unfoldable pub from_hex : Str → Option Bytes
from_hex [] = some []
from_hex (c ∷ []) = if is_blank c then some [] else none
from_hex (c ∷ d ∷ s) =
    let skipped = from_hex (d ∷ s) in
    let read = join (hex_value c) (hex_value d) (from_hex s) in if is_blank c then skipped else read

unfoldable pub hex_digit : ℕ → ℕ
hex_digit n = if ltb n 10 then n + 48 else n + 87

-- `bytes.hex`
unfoldable pub to_hex : Bytes → Str
unfolding hex_digit
to_hex [] = []
to_hex (b ∷ bs) = hex_digit (b / 16) ∷ hex_digit (b % 16) ∷ to_hex bs

-- `_normalize_dest_hex`
unfoldable pub normalize_dest_hex : Option Str → Str
normalize_dest_hex h = lower (strip (without 58 (or_empty h)))

-- `_dest_bytes_for_hash`
unfoldable pub dest_bytes_for_hash : Option Str → Option Bytes
unfolding normalize_dest_hex
dest_bytes_for_hash h =
    let clean = lower (strip (without 58 (or_empty h))) in
    if not (length clean == 32) then none else from_hex clean

-- A destination is passed as bytes or as text.
pub data Dest : Type 0 where
  raw : Bytes → Dest
  hex : Option Str → Dest

-- `_dest_key_bytes`
unfoldable pub dest_key_bytes : Dest → Option Bytes
unfolding dest_bytes_for_hash
dest_key_bytes (raw bs) = some bs
dest_key_bytes (hex h) = dest_bytes_for_hash h

-- The bytes of one byte string that Python can hold.
abbrev pub IsBytes : Bytes → Type 0
IsBytes = All (λ b. b < 256)

hex_value-hex_digit : (n : ℕ) → n < 16 → hex_value (hex_digit n) ≡ some n
unfolding hex_value hex_digit
hex_value-hex_digit n h = ground arith

hex_digit_visible : (n : ℕ) → n < 16 → is_blank (hex_digit n) ≡ false
unfolding hex_digit
hex_digit_visible n h = ground arith

-- Reading the hexadecimal text of a byte string gives the byte string back.
pub from_hex-to_hex : (bs : Bytes) → IsBytes bs → from_hex (to_hex bs) ≡ some bs
unfolding from_hex to_hex
from_hex-to_hex [] h = refl
from_hex-to_hex (b ∷ bs) h = ground (
  arith,
  from_hex-to_hex bs h.1,
  hex_value-hex_digit (b / 16),
  hex_value-hex_digit (b % 16),
  hex_digit_visible (b / 16),
)
