-- ===== src/Message/Text.antt =====
-- What encoding/json keeps of a string: `Marshal` writes U+FFFD for bytes that are not UTF-8, so only text is read
-- back as it was.
use clustered_big_cache.Prelude.{
  ℕ, zero, suc, ◌^◌, ◌<◌, ◌≡◌, Bool, true, false, ◌&&◌, List, [], ◌∷◌, ltb, leb, ◌==◌,
  if◌then◌else◌,
}
use clustered_big_cache.Message.{Codec, GetReqMessage}

-- What the first byte of a character asks for: how many bytes more, and the bounds of the next one. The first bytes
-- that UTF-8 does not have ask for a byte that there is not.
first_byte : ℕ → ℕ × ℕ × ℕ
first_byte b =
    if ltb b 128
    then (0, 128, 191)
    else if ltb b 194
    then (1, 1, 0)
    else if ltb b 224
    then (1, 128, 191)
    else if b == 224
    then (2, 160, 191)
    else if b == 237
    then (2, 128, 159)
    else if ltb b 240
    then (2, 128, 191)
    else if b == 240
    then (3, 144, 191)
    else if ltb b 244
    then (3, 128, 191)
    else if b == 244
    then (3, 128, 143)
    else (1, 1, 0)

-- The rest of a string, where a character has `more` bytes to come.
text_from : (more low high : ℕ) → List ℕ → Bool
text_from zero low high [] = true
text_from (suc more) low high [] = false
text_from zero low high (b ∷ bytes) =
    let (more, low', high') = first_byte b in text_from more low' high' bytes
text_from (suc more) low high (b ∷ bytes) =
    let rest = text_from more 128 191 bytes in leb low b && leb b high && rest

unfoldable pub is_text : List ℕ → Bool
unfolding text_from first_byte
is_text bytes = text_from 0 128 191 bytes

-- What `json` is relied on for: a request whose strings are text, and whose code is of 16 bits, is read back as it
-- was written.
abbrev pub ReadsRequests : Codec GetReqMessage → Type 0
ReadsRequests c =
    (m zero_value : GetReqMessage)
    → m.code < 2 ^ 16
    → is_text m.key ≡ true
    → is_text m.pending_key ≡ true
    → c.unmarshal (c.marshal m) zero_value ≡ m
