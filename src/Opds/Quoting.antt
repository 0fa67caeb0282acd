-- ===== src/Opds/Quoting.antt =====
-- `urllib.parse.quote`, as src/paperless_webdav/opds.py calls it, and `_content_disposition`.
use paperless_webdav.Base.{
  ℕ, zero, suc, ◌+◌, ◌*◌, ◌-◌, ◌⊎◌, inl, inr, ap, ◌∙◌, append_assoc, Bool-cases, ◌/◌, ◌%◌, ◌≤◌, ◌<◌,
  ◌≡◌, ◌≢◌, refl, Bool, true, false, ◌||◌, ◌&&◌, List, [], ◌∷◌, ◌++◌, if◌then◌else◌, ◌==◌, nat_eq,
  leb, ltb, All, arith, if_cases, Text, codes, ltb→lt,
}

-- The UTF-8 bytes of a code point.
abbrev pub utf8 : ℕ → List ℕ
utf8 c =
    if ltb c 128
    then c ∷ []
    else if ltb c 2048
    then (192 + c / 64) ∷ (128 + c % 64) ∷ []
    else if ltb c 65536
    then (224 + c / 4096) ∷ (128 + c / 64 % 64) ∷ (128 + c % 64) ∷ []
    else (240 + c / 262144) ∷ (128 + c / 4096 % 64) ∷ (128 + c / 64 % 64) ∷ (128 + c % 64) ∷ []

abbrev pub hex_digit : ℕ → ℕ
hex_digit n = if ltb n 10 then 48 + n else 55 + n

-- Letters, digits and `_.-~` are never quoted.
abbrev pub always_safe : ℕ → Bool
always_safe c =
    ((leb 97 c && leb c 122) || (leb 65 c && leb c 90))
    || ((leb 48 c && leb c 57) || ((c == 95) || ((c == 46) || ((c == 45) || (c == 126)))))

unfoldable pub quote_byte : (ℕ → Bool) → ℕ → Text
quote_byte safe b =
    if always_safe b || safe b then b ∷ [] else 37 ∷ hex_digit (b / 16) ∷ hex_digit (b % 16) ∷ []

unfoldable pub quote_bytes : (ℕ → Bool) → List ℕ → Text
unfolding quote_byte
quote_bytes safe [] = []
quote_bytes safe (b ∷ bytes) = quote_byte safe b ++ quote_bytes safe bytes

unfoldable pub quote_with : (ℕ → Bool) → Text → Text
unfolding quote_bytes
quote_with safe [] = []
quote_with safe (c ∷ t) = quote_bytes safe (utf8 c) ++ quote_with safe t

-- `quote(t)`, which leaves `/`
unfoldable pub quote : Text → Text
unfolding quote_with
quote = quote_with (λ b. b == b'/')

unfoldable pub content_disposition : Text → Text
unfolding quote quote_with
content_disposition filename =
    codes "attachment; filename=\""
    ++ (quote_with (λ b. b == b' ') filename ++ (codes "\"; filename*=UTF-8''" ++ quote filename))

-- A character that an HTTP header can carry inside quotation marks.
abbrev pub IsHeaderChar : ℕ → Type 0
IsHeaderChar c = (32 ≤ c) × (c < 127) × (c ≢ 34)

-- A code point that has an encoding, which a surrogate alone has not: `quote` raises there.
abbrev pub IsCodePoint : ℕ → Type 0
IsCodePoint c = (c < 1114112) × ((c < 55296) ⊎ (57343 < c))

-- A reader of the header, from the description of percent-encoding and of UTF-8: where it stands in an
-- escape, and the value of the first digit.
pub data Escape : Type 0 where
  outside behind_percent : Escape
  behind_digit : ℕ → Escape

abbrev hex_value : ℕ → ℕ
hex_value c = if ltb c 58 then c - 48 else c - 55

unfoldable pub unquote : Escape → Text → List ℕ
unquote _ [] = []
unquote outside (c ∷ t) = if c == 37 then unquote behind_percent t else c ∷ unquote outside t
unquote behind_percent (c ∷ t) = unquote (behind_digit (hex_value c)) t
unquote (behind_digit high) (c ∷ t) = (16 * high + hex_value c) ∷ unquote outside t

-- The bytes that follow a first byte, and the bits of the first.
abbrev following : ℕ → ℕ
following b = if ltb b 224 then 1 else if ltb b 240 then 2 else 3

abbrev first_bits : ℕ → ℕ
first_bits b = if ltb b 224 then b - 192 else if ltb b 240 then b - 224 else b - 240

unfoldable pub decode_utf8 : ℕ → ℕ → List ℕ → Text
decode_utf8 _ bits [] = []
decode_utf8 zero bits (b ∷ bytes) =
    if ltb b 128
    then b ∷ decode_utf8 zero 0 bytes
    else decode_utf8 (following b) (first_bits b) bytes
decode_utf8 (suc zero) bits (b ∷ bytes) = (64 * bits + (b - 128)) ∷ decode_utf8 zero 0 bytes
decode_utf8 (suc (suc n)) bits (b ∷ bytes) = decode_utf8 (suc n) (64 * bits + (b - 128)) bytes

-- The name that a reader takes from the text.
unfoldable pub read_name : Text → Text
unfolding unquote decode_utf8
read_name t = decode_utf8 zero 0 (unquote outside t)

bytes_of : Text → List ℕ
bytes_of [] = []
bytes_of (c ∷ t) = utf8 c ++ bytes_of t

decode_utf8-utf8 :
    (c : ℕ) (bytes : List ℕ)
    → c < 1114112
    → decode_utf8 zero 0 (utf8 c ++ bytes) ≡ c ∷ decode_utf8 zero 0 bytes
unfolding decode_utf8
decode_utf8-utf8 c bytes h = elim (Bool-cases (ltb c 128)) [
  | inl one ↦ ground arith
  | inr e ↦ elim (Bool-cases (ltb c 2048)) [
    | inl two ↦ ground arith
    | inr f ↦ elim (Bool-cases (ltb c 65536)) [ inl three ↦ ground arith | inr four ↦ ground arith ]
  ]
]

decode_utf8-bytes_of : (t : Text) → All IsCodePoint t → decode_utf8 zero 0 (bytes_of t) ≡ t
unfolding decode_utf8 bytes_of
decode_utf8-bytes_of [] h = refl
decode_utf8-bytes_of (c ∷ t) (point, points) =
    decode_utf8-utf8 c (bytes_of t) point.0 ∙ ap (λ s. c ∷ s) (decode_utf8-bytes_of t points)

module _ {κ} (P : ℕ → Type κ) where
  All-append : (s t : Text) → All P s → All P t → All P (s ++ t)
  All-append [] t a b = b
  All-append (c ∷ s) t a b = (a.0, All-append s t a.1 b)

utf8-bytes : (c : ℕ) → c < 1114112 → All (λ b. b < 256) (utf8 c)
utf8-bytes c h =
    if_cases (All (λ b. b < 256)) (ltb c 128) _ _ (λ e. (ground (arith, e), tt))
      (λ _.
        if_cases (All (λ b. b < 256)) (ltb c 2048) _ _ (λ e. two (ltb→lt c 2048 e))
          (λ _.
            if_cases (All (λ b. b < 256)) (ltb c 65536) _ _ (λ e. three (ltb→lt c 65536 e))
              (λ _. four)))
  where
    two : c < 2048 → All (λ b. b < 256) ((192 + c / 64) ∷ (128 + c % 64) ∷ [])
    two e = (omega arith, (omega arith, tt))

    three :
        c < 65536
        → All (λ b. b < 256) ((224 + c / 4096) ∷ (128 + c / 64 % 64) ∷ (128 + c % 64) ∷ [])
    three e = (omega arith, (omega arith, (omega arith, tt)))

    four :
        All
          (λ b. b < 256)
          ((240 + c / 262144) ∷ (128 + c / 4096 % 64) ∷ (128 + c / 64 % 64) ∷ (128 + c % 64) ∷ [])
    four = (omega arith, (omega arith, (omega arith, (omega arith, tt))))

module _ (safe : ℕ → Bool) (harmless : (b : ℕ) → safe b ≡ true → IsHeaderChar b) where
  hex_digit-IsHeaderChar : (n : ℕ) → n < 16 → IsHeaderChar (hex_digit n)
  hex_digit-IsHeaderChar n h = ground arith

  quote_byte-IsHeaderChar : (b : ℕ) → b < 256 → All IsHeaderChar (quote_byte safe b)
  unfolding quote_byte
  quote_byte-IsHeaderChar b h =
      if_cases (All IsHeaderChar) (always_safe b || safe b) (b ∷ [])
        (37 ∷ hex_digit (b / 16) ∷ hex_digit (b % 16) ∷ [])
        (λ e. (ground (arith, e, harmless b), tt))
        (λ _. (
          omega arith,
          (
            hex_digit-IsHeaderChar (b / 16) (omega arith),
            (hex_digit-IsHeaderChar (b % 16) (omega arith), tt),
          ),
        ))

  quote_bytes-IsHeaderChar :
      (bytes : List ℕ) → All (λ b. b < 256) bytes → All IsHeaderChar (quote_bytes safe bytes)
  unfolding quote_bytes
  quote_bytes-IsHeaderChar [] h = tt
  quote_bytes-IsHeaderChar (b ∷ bytes) (small, more) =
      All-append IsHeaderChar (quote_byte safe b) (quote_bytes safe bytes)
        (quote_byte-IsHeaderChar b small) (quote_bytes-IsHeaderChar bytes more)

  quote_with-IsHeaderChar : (t : Text) → All IsCodePoint t → All IsHeaderChar (quote_with safe t)
  unfolding quote_with
  quote_with-IsHeaderChar [] h = tt
  quote_with-IsHeaderChar (c ∷ t) (point, points) =
      All-append IsHeaderChar (quote_bytes safe (utf8 c)) (quote_with safe t)
        (quote_bytes-IsHeaderChar (utf8 c) (utf8-bytes c point.0))
        (quote_with-IsHeaderChar t points)

module _ (safe : ℕ → Bool) (escapes : safe 37 ≡ false) where
  unquote-quote_byte :
      (b : ℕ) (rest : Text)
      → b < 256
      → unquote outside (quote_byte safe b ++ rest) ≡ b ∷ unquote outside rest
  unfolding unquote quote_byte
  unquote-quote_byte b rest h = elim (Bool-cases (always_safe b || safe b)) [
    | inl kept ↦ elim (Bool-cases (b == 37)) [ inl e ↦ ground arith | inr e ↦ ground arith ]
    | inr quoted ↦ ground arith
  ]

  unquote-quote_bytes :
      (bytes : List ℕ) (rest : Text)
      → All (λ b. b < 256) bytes
      → unquote outside (quote_bytes safe bytes ++ rest) ≡ bytes ++ unquote outside rest
  unfolding quote_bytes
  unquote-quote_bytes [] rest h = refl
  unquote-quote_bytes (b ∷ bytes) rest (small, more) =
      rw (append_assoc (quote_byte safe b) (quote_bytes safe bytes) rest) (
        unquote-quote_byte b (quote_bytes safe bytes ++ rest) small
        ∙ ap (λ s. b ∷ s) (unquote-quote_bytes bytes rest more))

  unquote-quote_with :
      (t : Text) → All IsCodePoint t → unquote outside (quote_with safe t) ≡ bytes_of t
  unfolding quote_with bytes_of unquote
  unquote-quote_with [] h = refl
  unquote-quote_with (c ∷ t) (point, points) =
      unquote-quote_bytes (utf8 c) (quote_with safe t) (utf8-bytes c point.0)
      ∙ ap (λ s. utf8 c ++ s) (unquote-quote_with t points)

  read_name-quote_with : (t : Text) → All IsCodePoint t → read_name (quote_with safe t) ≡ t
  unfolding read_name
  read_name-quote_with t points =
      ap (decode_utf8 zero 0) (unquote-quote_with t points) ∙ decode_utf8-bytes_of t points

-- Whatever code points a file name has, surrogates excepted, line feeds and quotation marks included,
-- the header of a download carries it twice, between its two quotation marks and behind `UTF-8''`,
-- both times in printable ASCII without a quotation mark, so that the first ends nowhere before the
-- second mark; and a reader that decodes the percent-escapes and then UTF-8 takes exactly the name
-- from either.
pub content_disposition-IsHeaderChar :
    (filename : Text)
    → All IsCodePoint filename
    → (plain extended : Text) × (content_disposition filename
        ≡ codes "attachment; filename=\"" ++ (plain ++ (codes "\"; filename*=UTF-8''" ++ extended)))
      × All IsHeaderChar plain
      × All IsHeaderChar extended
      × (read_name plain ≡ filename)
      × (read_name extended ≡ filename)
unfolding content_disposition quote
content_disposition-IsHeaderChar filename points = (
  quote_with (λ b. b == b' ') filename,
  quote filename,
  refl,
  quote_with-IsHeaderChar (λ b. b == b' ') (λ b e. ground (arith, e)) filename points,
  quote_with-IsHeaderChar (λ b. b == b'/') (λ b e. ground (arith, e)) filename points,
  read_name-quote_with (λ b. b == b' ') (ground arith) filename points,
  read_name-quote_with (λ b. b == b'/') (ground arith) filename points,
)
