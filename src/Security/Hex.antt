-- ===== src/Security/Hex.antt =====
-- encoding/hex, `EncodeToString`: two digits for each byte.
use Prim.Native.Char.{Char, code}
use Prim.Native.String.{String}
use netbula.Base.{
  ℕ, zero, suc, ◌+◌, ◌-◌, ◌*◌, ◌/◌, ◌%◌, ◌<◌, ◌≡◌, refl, sym, ap, ◌∙◌, Bool, true, false, List, [],
  ◌∷◌, arith, ltb, All, length, ◌==◌, nat_eq, ==-eq, if◌then◌else◌,
}

-- The digit at this place of a text; the last one beyond its end.
abbrev char_at : Char → String → ℕ → Char
char_at c String.[] n = c
char_at c (String.◌∷◌ d s) zero = d
char_at c (String.◌∷◌ d s) (suc n) = char_at d s n

unfoldable pub hex_digit : ℕ → Char
hex_digit n = char_at "0" "0123456789abcdef" n

unfoldable pub encode_to_string : List ℕ → String
unfolding hex_digit
encode_to_string [] = String.[]
encode_to_string (b ∷ bytes) =
    String.◌∷◌ (hex_digit (b / 16)) (String.◌∷◌ (hex_digit (b % 16)) (encode_to_string bytes))

-- The number of bytes of an ASCII text.
abbrev pub size : String → ℕ
size String.[] = 0
size (String.◌∷◌ c s) = suc (size s)

pub size-encode_to_string : (bytes : List ℕ) → size (encode_to_string bytes) ≡ 2 * length bytes
unfolding encode_to_string
size-encode_to_string [] = refl
size-encode_to_string (b ∷ bytes) = omega (arith, size-encode_to_string bytes)

digit_value : Char → ℕ
digit_value c = if ltb (code c) 58 then code c - 48 else code c - 87

-- Whether every digit before this one is read as its value.
digits_right : ℕ → Bool
digits_right zero = true
digits_right (suc d) = if digit_value (hex_digit d) == d then digits_right d else false

digits_right-hex_digit :
    (limit d : ℕ) → d < limit → digits_right limit ≡ true → digit_value (hex_digit d) ≡ d
unfolding digits_right
digits_right-hex_digit zero d below right = absurd (omega arith)
digits_right-hex_digit (suc limit) d below right =
    ground (arith, digits_right-hex_digit limit d, ==-eq (digit_value (hex_digit limit)) limit)

sixteen : digits_right 16 ≡ true
unfolding digits_right digit_value hex_digit nat_eq
sixteen = refl

digit_value-hex_digit : (d : ℕ) → d < 16 → digit_value (hex_digit d) ≡ d
digit_value-hex_digit d below = digits_right-hex_digit 16 d below sixteen

decode_string : String → List ℕ
decode_string String.[] = []
decode_string (String.◌∷◌ c String.[]) = []
decode_string (String.◌∷◌ c (String.◌∷◌ d s)) =
    (digit_value c * 16 + digit_value d) ∷ decode_string s

decode_string-encode_to_string :
    (bytes : List ℕ) → All (λ b. b < 256) bytes → decode_string (encode_to_string bytes) ≡ bytes
unfolding decode_string encode_to_string
decode_string-encode_to_string [] h = refl
decode_string-encode_to_string (b ∷ bytes) h = ground (
  arith,
  digit_value-hex_digit (b / 16),
  digit_value-hex_digit (b % 16),
  decode_string-encode_to_string bytes h.1,
)

-- Different bytes have different texts.
pub encode_to_string-injective :
    (a b : List ℕ)
    → All (λ b. b < 256) a
    → All (λ b. b < 256) b
    → encode_to_string a ≡ encode_to_string b
    → a ≡ b
encode_to_string-injective a b h k e =
    sym (decode_string-encode_to_string a h)
    ∙ ap decode_string e
    ∙ decode_string-encode_to_string b k
