-- ===== src/Crypto/Hex.antt =====
-- encoding/hex: EncodeToString and DecodeString.
use Prim.Native.Char.{Char, code}
use Prim.Native.String.{String, [], ◌∷◌}
use mathlib.Core.List.{List}
use lenker_panel.Base.{
  ℕ, zero, suc, ◌+◌, ◌*◌, ◌-◌, ◌/◌, ◌%◌, ◌<◌, ◌≡◌, refl, ◌&&◌, Option, none, some, All,
  if◌then◌else◌, ◌==◌, leb, arith, Bool, true, false, is_space, trim_right, trim_left, trim_space,
  append,
}

hex_digit : ℕ → Char
hex_digit n =
    if n == 0
    then "0"
    else if n == 1
    then "1"
    else if n == 2
    then "2"
    else if n == 3
    then "3"
    else if n == 4
    then "4"
    else if n == 5
    then "5"
    else if n == 6
    then "6"
    else if n == 7
    then "7"
    else if n == 8
    then "8"
    else if n == 9
    then "9"
    else if n == 10
    then "a"
    else if n == 11
    then "b"
    else if n == 12
    then "c"
    else if n == 13
    then "d"
    else if n == 14
    then "e"
    else "f"

unfoldable pub encode_to_string : List ℕ → String
unfolding hex_digit
encode_to_string List.[] = []
encode_to_string (List.◌∷◌ b bs) = hex_digit (b / 16) ∷ hex_digit (b % 16) ∷ encode_to_string bs

-- fromHexChar
hex_value : ℕ → Option ℕ
hex_value c =
    if leb b'0' c && leb c b'9'
    then some (c - b'0')
    else if leb b'a' c && leb c b'f'
    then some (c - b'a' + 10)
    else if leb b'A' c && leb c b'F'
    then some (c - b'A' + 10)
    else none

join : Option ℕ → Option ℕ → Option (List ℕ) → Option (List ℕ)
join (some h) (some l) (some bs) = some (List.◌∷◌ (h * 16 + l) bs)
join _ _ _ = none

-- `none` is an error: a character that is no hexadecimal digit, or an odd length.
unfoldable pub decode_string : String → Option (List ℕ)
unfolding hex_value join
decode_string [] = some List.[]
decode_string (c ∷ []) = none
decode_string (c ∷ d ∷ s) = join (hex_value (code c)) (hex_value (code d)) (decode_string s)

hex_value-hex_digit : (n : ℕ) → n < 16 → hex_value (code (hex_digit n)) ≡ some n
unfolding hex_value hex_digit
hex_value-hex_digit zero h = refl
hex_value-hex_digit (suc zero) h = refl
hex_value-hex_digit (suc (suc zero)) h = refl
hex_value-hex_digit (suc (suc (suc zero))) h = refl
hex_value-hex_digit (suc (suc (suc (suc zero)))) h = refl
hex_value-hex_digit (suc (suc (suc (suc (suc zero))))) h = refl
hex_value-hex_digit (suc (suc (suc (suc (suc (suc zero)))))) h = refl
hex_value-hex_digit (suc (suc (suc (suc (suc (suc (suc zero))))))) h = refl
hex_value-hex_digit (suc (suc (suc (suc (suc (suc (suc (suc zero)))))))) h = refl
hex_value-hex_digit (suc (suc (suc (suc (suc (suc (suc (suc (suc zero))))))))) h = refl
hex_value-hex_digit (suc (suc (suc (suc (suc (suc (suc (suc (suc (suc zero)))))))))) h = refl
hex_value-hex_digit (suc (suc (suc (suc (suc (suc (suc (suc (suc (suc (suc zero))))))))))) h = refl
hex_value-hex_digit (suc (suc (suc (suc (suc (suc (suc (suc (suc (suc (suc (suc zero)))))))))))) h =
    refl
hex_value-hex_digit
      (suc (suc (suc (suc (suc (suc (suc (suc (suc (suc (suc (suc (suc zero))))))))))))) h =
    refl
hex_value-hex_digit
      (suc (suc (suc (suc (suc (suc (suc (suc (suc (suc (suc (suc (suc (suc zero)))))))))))))) h =
    refl
hex_value-hex_digit
      (suc (suc (suc (suc (suc (suc (suc (suc (suc (suc (suc (suc (suc (suc (suc zero)))))))))))))))
      h =
    refl
hex_value-hex_digit
      (suc
        (suc (suc (suc (suc (suc (suc (suc (suc (suc (suc (suc (suc (suc (suc (suc n))))))))))))))))
      h =
    absurd (omega arith)

divided : (b : ℕ) → b / 16 * 16 + b % 16 ≡ b
divided b = omega arith

-- Decoding gives back the bytes that were encoded.
pub decode-encode :
    (bs : List ℕ) → All (λ b. b < 256) bs → decode_string (encode_to_string bs) ≡ some bs
unfolding decode_string encode_to_string
decode-encode List.[] h = refl
decode-encode (List.◌∷◌ b bs) h =
    rw
      (
        hex_value-hex_digit (b / 16) (omega (arith, h.0)),
        hex_value-hex_digit (b % 16) (omega arith),
        decode-encode bs h.1,
        divided b,
      )
      refl

record IsVisible (c : Char) : Type 0 where
  seen : is_space (code c) ≡ false

or_IsVisible :
    (b : Bool) (x : Char) {y : Char}
    → is_space (code x) ≡ false
    → IsVisible y
    → IsVisible (if b then x else y)
or_IsVisible true x h k = record { seen = h }
or_IsVisible false x h k = k

hex_digit-IsVisible : (n : ℕ) → IsVisible (hex_digit n)
unfolding hex_digit is_space
hex_digit-IsVisible n = or_IsVisible (n == 0) "0" refl (
    or_IsVisible (n == 1) "1" refl (
      or_IsVisible (n == 2) "2" refl (
        or_IsVisible (n == 3) "3" refl (
          or_IsVisible (n == 4) "4" refl (
            or_IsVisible (n == 5) "5" refl (
              or_IsVisible (n == 6) "6" refl (
                or_IsVisible (n == 7) "7" refl (
                  or_IsVisible (n == 8) "8" refl (
                    or_IsVisible (n == 9) "9" refl (
                      or_IsVisible (n == 10) "a" refl (
                        or_IsVisible (n == 11) "b" refl (
                          or_IsVisible (n == 12) "c" refl (
                            or_IsVisible (n == 13) "d" refl (
                              or_IsVisible (n == 14) "e" refl (record { seen = refl })))))))))))))))

encoded-visible : (bs : List ℕ) → trim_right (encode_to_string bs) ≡ encode_to_string bs
unfolding trim_right encode_to_string
encoded-visible List.[] = refl
encoded-visible (List.◌∷◌ b bs) =
    rw
      (encoded-visible bs, (hex_digit-IsVisible (b / 16)).seen, (hex_digit-IsVisible (b % 16)).seen)
      refl

-- A prefix without spaces and digits after it are not trimmed.
pub trim-token :
    (bs : List ℕ)
    → trim_space (append "lnksa_" (encode_to_string bs)) ≡ append "lnksa_" (encode_to_string bs)
unfolding trim_space trim_left trim_right is_space
trim-token bs = rw (encoded-visible bs) refl
