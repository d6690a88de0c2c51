-- ===== src/TextOffset/Utf8.antt =====
-- `utf8.DecodeRune` and `UTF16Len` of src/ulsp/internal/protocol/mapper.go, over bytes as numbers.
use scip_lsp.Common.{
  ℕ, zero, suc, ◌+◌, ◌*◌, ◌%◌, ◌≤◌, ◌≡◌, refl, List, [], ◌∷◌, Bool, ◌&&◌, ltb, leb, ◌==◌,
  number_key, if◌then◌else◌, arith, length, drop,
}

-- utf8.RuneError and utf8.RuneSelf
abbrev pub rune_error : ℕ
rune_error = 0xFFFD

abbrev pub rune_self : ℕ
rune_self = 0x80

-- a rune and the number of its bytes
pub record Rune : Type 0 where
  pub code : ℕ
  pub bytes : ℕ

abbrev pub invalid : Rune
invalid = record { code = rune_error; bytes = 1 }

abbrev between : ℕ → ℕ → ℕ → Bool
between lo hi b = leb lo b && leb b hi

-- the range of a second byte after the first one of a longer sequence
abbrev lowest_second : ℕ → ℕ
lowest_second b = if b == 0xE0 then 0xA0 else if b == 0xF0 then 0x90 else 0x80

abbrev highest_second : ℕ → ℕ
highest_second b = if b == 0xED then 0x9F else if b == 0xF4 then 0x8F else 0xBF

abbrev second_ok : ℕ → ℕ → Bool
second_ok b c = between (lowest_second b) (highest_second b) c

abbrev decode_two : ℕ → List ℕ → Rune
decode_two b (c ∷ _) =
    if second_ok b c then record { code = b % 32 * 64 + c % 64; bytes = 2 } else invalid
decode_two b _ = invalid

abbrev decode_three : ℕ → List ℕ → Rune
decode_three b (c ∷ d ∷ _) =
    if second_ok b c && between 0x80 0xBF d
    then record { code = b % 16 * 4096 + c % 64 * 64 + d % 64; bytes = 3 }
    else invalid
decode_three b _ = invalid

abbrev decode_four : ℕ → List ℕ → Rune
decode_four b (c ∷ d ∷ e ∷ _) =
    if second_ok b c && (between 0x80 0xBF d && between 0x80 0xBF e)
    then record { code = b % 8 * 262144 + c % 64 * 4096 + d % 64 * 64 + e % 64; bytes = 4 }
    else invalid
decode_four b _ = invalid

unfoldable pub decode_rune : List ℕ → Rune
decode_rune [] = record { code = rune_error; bytes = 0 }
decode_rune (b ∷ rest) =
    if ltb b rune_self
    then record { code = b; bytes = 1 }
    else if between 0xC2 0xDF b
    then decode_two b rest
    else if between 0xE0 0xEF b
    then decode_three b rest
    else if between 0xF0 0xF4 b
    then decode_four b rest
    else invalid

-- the loop of `UTF16Len`, on fuel: each round takes a byte or more
unfoldable pub utf16_len_loop : ℕ → List ℕ → ℕ
utf16_len_loop zero s = 0
utf16_len_loop (suc fuel) [] = 0
utf16_len_loop (suc fuel) (b ∷ s) =
    let r = decode_rune (b ∷ s) in
    let ascii = suc (utf16_len_loop fuel s) in
    let other =
      (if leb 0x10000 r.code then 2 else 1) + utf16_len_loop fuel (drop r.bytes (b ∷ s)) in
    if ltb b rune_self then ascii else other

unfoldable pub utf16_len : List ℕ → ℕ
unfolding utf16_len_loop
utf16_len s = utf16_len_loop (length s) s

-- every rune of a text takes at least one byte and no more than there are
pub bytes-decode_rune :
    (b : ℕ) (s : List ℕ)
    → (1 ≤ (decode_rune (b ∷ s)).bytes) × ((decode_rune (b ∷ s)).bytes ≤ length (b ∷ s))
unfolding decode_rune
bytes-decode_rune b [] = ground arith
bytes-decode_rune b (c ∷ []) = ground arith
bytes-decode_rune b (c ∷ d ∷ []) = ground arith
bytes-decode_rune b (c ∷ d ∷ e ∷ s) = ground arith

euro : decode_rune (0xE2 ∷ 0x82 ∷ 0xAC ∷ []) ≡ record { code = 0x20AC; bytes = 3 }
unfolding decode_rune
euro = refl

surrogates_refused : decode_rune (0xED ∷ 0xA0 ∷ 0x80 ∷ []) ≡ invalid
unfolding decode_rune
surrogates_refused = refl
