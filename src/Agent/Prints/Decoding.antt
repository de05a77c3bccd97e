-- ===== src/Agent/Prints/Decoding.antt =====
-- What `DataEncoding::decode` of agent/src/api/wire.rs makes of a text.
use Prim.Native.Char.{code}
use kiln_print.Prelude.{
  ℕ, ◌+◌, ◌*◌, ◌≡◌, refl, subst, ◌≤◌, ◌<◌, String, Bool, true, ◌&&◌, List, length, arith, ltb, leb,
  Bool-cases, bytes_of, codes, inl, inr, sum-cases,
}
use kiln_print.Error.{ok, err, chain-ok, Result-cases}
use kiln_print.Engine.Submit.Checks.{all_chars, byte_len}
use kiln_print.Engine.Submit.JobNames.{char_len}
use kiln_print.Agent.Prints.{
  DataEncoding, base64, hex, utf8, latin1, Decoders, too_large, estimate, from_latin1, decode_bytes,
  within_limit, decode,
}

-- What the bytes are: the libraries' answer, the text's UTF-8, or its characters one by one.
abbrev pub IsDecoded : Decoders → DataEncoding → String → List ℕ → Type 0
IsDecoded d base64 s bytes = d.from_base64 s ≡ inr bytes
IsDecoded d hex s bytes = d.from_hex s ≡ inr bytes
IsDecoded d utf8 s bytes = bytes ≡ bytes_of s
IsDecoded d latin1 s bytes = (bytes ≡ codes s) × (all_chars (λ c. leb c 255) s ≡ true)

from_latin1-codes :
    (s : String) (bytes : List ℕ)
    → from_latin1 s ≡ ok bytes
    → (bytes ≡ codes s) × (all_chars (λ c. leb c 255) s ≡ true)
unfolding from_latin1
from_latin1-codes String.[] bytes h = (ground (arith, h), refl)
from_latin1-codes (String.◌∷◌ c s) bytes h = elim (Bool-cases (leb (code c) 255)) [
  | inr f ↦ absurd (ground (arith, f, h))
  | inl t ↦ elim (Result-cases (from_latin1 s)) [
    | inr (x, e) ↦ absurd (ground (arith, t, e, h))
    | inl (rest, e) ↦
        let (same, small) = from_latin1-codes s rest e in
        (ground (arith, t, e, h, same), ground (arith, t, small))
  ]
]

codes-from_latin1 :
    (s : String) → all_chars (λ c. leb c 255) s ≡ true → from_latin1 s ≡ ok (codes s)
unfolding from_latin1
codes-from_latin1 String.[] h = refl
codes-from_latin1 (String.◌∷◌ c s) h =
    let small : leb (code c) 255 ≡ true = ground (arith, h) in
    rw (small, codes-from_latin1 s (ground (arith, h)), from_latin1) refl

decode_bytes-IsDecoded :
    (d : Decoders) (e : DataEncoding) (s : String) (bytes : List ℕ)
    → decode_bytes d e s ≡ ok bytes
    → IsDecoded d e s bytes
unfolding decode_bytes
decode_bytes-IsDecoded d base64 s bytes h = elim (sum-cases (d.from_base64 s)) [
  | inl (m, f) ↦ absurd (ground (arith, f, h))
  | inr (b, f) ↦ ground (arith, f, h)
]
decode_bytes-IsDecoded d hex s bytes h = elim (sum-cases (d.from_hex s)) [
  | inl (m, f) ↦ absurd (ground (arith, f, h))
  | inr (b, f) ↦ ground (arith, f, h)
]
decode_bytes-IsDecoded d utf8 s bytes h = ground (arith, h)
decode_bytes-IsDecoded d latin1 s bytes h = from_latin1-codes s bytes h

-- Data that is decoded is what its encoding says, and no longer than the limit: the UTF-8 of the
-- text, or its characters one by one, all below 256, or what the libraries make of base64 and
-- hexadecimal digits.
pub decode_lem :
    (d : Decoders) (e : DataEncoding) (s : String) (max_bytes : ℕ) (bytes : List ℕ)
    → decode d e s max_bytes ≡ ok bytes
    → IsDecoded d e s bytes × (length bytes ≤ max_bytes)
unfolding decode within_limit
decode_lem d e s max_bytes bytes h = elim (Bool-cases (ltb (max_bytes + 3) (estimate e s))) [
  | inl t ↦ absurd (ground (arith, t, h))
  | inr f ↦
      let (b, read, fits) =
        chain-ok (decode_bytes d e s) (within_limit d max_bytes) bytes (rw (f, decode) at h) in
      elim (Bool-cases (ltb max_bytes (length b))) [
        | inl t ↦ absurd (ground (arith, t, fits))
        | inr g ↦
            let same : b ≡ bytes = ground (arith, g, fits) in
            (
              subst (IsDecoded d e s) same (decode_bytes-IsDecoded d e s b read),
              subst (λ (x : List ℕ). length x ≤ max_bytes) same (ground (arith, g)),
            )
      ]
]

abbrev pub is_high : ℕ → Bool
is_high c = leb 128 c && leb c 255

byte_len-high : (s : String) → all_chars is_high s ≡ true → byte_len s ≡ 2 * char_len s
byte_len-high String.[] h = refl
byte_len-high (String.◌∷◌ c s) h = ground (arith, byte_len-high s)

high-small : (s : String) → all_chars is_high s ≡ true → all_chars (λ c. leb c 255) s ≡ true
high-small String.[] h = refl
high-small (String.◌∷◌ c s) h = ground (arith, high-small s)

length-codes : (s : String) → length (codes s) ≡ char_len s
length-codes String.[] = refl
length-codes (String.◌∷◌ c s) = omega (arith, length-codes s)

-- Data in latin1 is measured before it is decoded by the bytes of its UTF-8: a text of characters from
-- 128 to 255 that has at most as many characters as the limit, but twice as many bytes as the
-- limit and three more allow, is refused as too large, though it decodes to bytes within it.
pub decode_latin1-refused :
    (d : Decoders) (s : String) (max_bytes : ℕ)
    → all_chars is_high s ≡ true
    → char_len s ≤ max_bytes
    → max_bytes + 3 < 2 * char_len s
    → (decode d latin1 s max_bytes ≡ err (too_large (2 * char_len s) max_bytes))
      × (decode_bytes d latin1 s ≡ ok (codes s))
      × (length (codes s) ≤ max_bytes)
unfolding decode decode_bytes
decode_latin1-refused d s max_bytes high short long =
    let size : byte_len s ≡ 2 * char_len s = byte_len-high s high in
    let over : ltb (max_bytes + 3) (2 * char_len s) ≡ true = ground (arith, long) in
    (
      rw (size, over, decode) refl,
      codes-from_latin1 s (high-small s high),
      omega (arith, length-codes s, short),
    )
