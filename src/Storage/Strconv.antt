-- ===== src/Storage/Strconv.antt =====
-- `strconv.ParseInt(s, 10, 64)` and `strconv.FormatInt(v, 10)`, as pkg/storage uses them.
use kv_store.Common.{
  ℕ, zero, suc, ◌+◌, ◌-◌, ◌*◌, ◌/◌, ◌%◌, ◌^◌, ◌≡◌, refl, ℤ, pos, negsuc, neg_ℕ, Bool, ◌&&◌, Option,
  none, some, [], ◌∷◌, ◌++◌, Bytes, ltb, leb, ◌==◌, if◌then◌else◌,
}

abbrev pub max_int64 : ℕ
max_int64 = 2 ^ 63 - 1

is_digit : ℕ → Bool
is_digit c = leb b'0' c && leb c b'9'

digits_value : ℕ → Bytes → Option ℕ
digits_value acc [] = some acc
digits_value acc (c ∷ cs) =
    let rest = digits_value (acc * 10 + (c - 48)) cs in if is_digit c then rest else none

-- An unsigned numeral has at least one digit.
unsigned : Bytes → Option ℕ
unsigned [] = none
unsigned (c ∷ cs) = digits_value 0 (c ∷ cs)

in_range : Option ℕ → ℕ → (ℕ → ℤ) → Option ℤ
in_range none limit f = none
in_range (some n) limit f = if leb n limit then some (f n) else none

unfoldable pub parse_int : Bytes → Option ℤ
unfolding is_digit digits_value unsigned in_range
parse_int [] = none
parse_int (c ∷ cs) =
    if c == b'-'
    then in_range (unsigned cs) (2 ^ 63) neg_ℕ
    else if c == b'+'
    then in_range (unsigned cs) max_int64 pos
    else in_range (unsigned (c ∷ cs)) max_int64 pos

-- The digits of a number below 10 ^ fuel.
digits_of : ℕ → ℕ → Bytes
digits_of zero n = []
digits_of (suc fuel) n =
    let rest = digits_of fuel (n / 10) ++ (48 + n % 10) ∷ [] in
    if ltb n 10 then (48 + n) ∷ [] else rest

-- Twenty digits hold every `uint64`.
unfoldable pub format_int : ℤ → Bytes
unfolding digits_of
format_int (pos n) = digits_of 20 n
format_int (negsuc n) = b'-' ∷ digits_of 20 (n + 1)

parse_max : parse_int (format_int (pos max_int64)) ≡ some (pos max_int64)
unfolding parse_int format_int
parse_max = refl

parse_beyond : parse_int (format_int (pos (2 ^ 63))) ≡ none
unfolding parse_int format_int
parse_beyond = refl

parse_min : parse_int (format_int (negsuc max_int64)) ≡ some (negsuc max_int64)
unfolding parse_int format_int
parse_min = refl
