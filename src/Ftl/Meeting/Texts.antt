-- ===== src/Ftl/Meeting/Texts.antt =====
-- ftl.go, server.go: the server's expressions on the messages of the client.
use waveguide.Base.{
  ℕ, ◌^◌, ◌<◌, ◌≡◌, ◌≢◌, refl, ap, ◌∙◌, Bool, true, false, none, some, List, [], ◌∷◌, ◌++◌,
  append_assoc, arith, lt→ltb, ◌==◌, if◌then◌else◌, All,
}
use waveguide.Base.Words.{IsU8}
use waveguide.Base.Text.{
  ascii, is_prefix, contains, is_digit, is_hex, span, encode_hex, digits_value, decimal,
}
use waveguide.Base.Split.{Lacks}
use waveguide.Base.Decimal.{
  AreDigits, span_digits, decimal-AreDigits, decimal-ne-nil, digits_value-decimal,
}
use waveguide.Ftl.Regex.{
  match_connect, id_part, with_id, hash_part, match_attribute, split_last, attribute_line, lines,
  first_match,
}
use waveguide.Ftl.Server.{atoi, parse_uint, end_uint}
use waveguide.Ftl.Client.{connect_message}

-- A text without one of the pattern's bytes does not contain it.
is_prefix-Lacks : (pre post s : List ℕ) (c : ℕ) → Lacks c s → is_prefix (pre ++ c ∷ post) s ≡ false
is_prefix-Lacks [] post [] c lacks = refl
is_prefix-Lacks [] post (d ∷ s) c (ne, lacks) = ground arith
is_prefix-Lacks (p ∷ pre) post [] c lacks = refl
is_prefix-Lacks (p ∷ pre) post (d ∷ s) c (ne, lacks) =
    ground (arith, is_prefix-Lacks pre post s c lacks)

pub contains-Lacks :
    (pre post s : List ℕ) (c : ℕ) → Lacks c s → contains s (pre ++ c ∷ post) ≡ false
contains-Lacks pre post [] c lacks = is_prefix-Lacks pre post [] c tt
contains-Lacks pre post (d ∷ s) c (ne, lacks) =
    ground
      (arith, is_prefix-Lacks pre post (d ∷ s) c (ne, lacks), contains-Lacks pre post s c lacks)

-- Whether a text lacks a byte, as a test.
abbrev pub is_free : ℕ → List ℕ → Bool
is_free c [] = true
is_free c (d ∷ s) = if d == c then false else is_free c s

pub is_free-Lacks : (c : ℕ) (s : List ℕ) → is_free c s ≡ true → Lacks c s
is_free-Lacks c [] e = tt
is_free-Lacks c (d ∷ s) e = (ground arith, is_free-Lacks c s (ground arith))

pub append-Lacks : (c : ℕ) (xs ys : List ℕ) → Lacks c xs → Lacks c ys → Lacks c (xs ++ ys)
append-Lacks c [] ys l m = m
append-Lacks c (x ∷ xs) ys (ne, l) m = (ne, append-Lacks c xs ys l m)

abbrev pub AreHex : List ℕ → Type 0
AreHex s = All (λ c. is_hex c ≡ true) s

pub encode_hex-AreHex : (bs : List ℕ) → All IsU8 bs → AreHex (encode_hex bs)
unfolding encode_hex
encode_hex-AreHex [] small = tt
encode_hex-AreHex (b ∷ bs) (h, small) = ground (arith, encode_hex-AreHex bs small)

-- Digits in front of a byte that is none.
span-AreDigits :
    (s rest : List ℕ) (c : ℕ)
    → AreDigits s
    → is_digit c ≡ false
    → span is_digit (s ++ c ∷ rest) ≡ (s, c ∷ rest)
span-AreDigits [] rest c digits other = rw other refl
span-AreDigits (d ∷ s) rest c (is, digits) other =
    rw (is, span-AreDigits s rest c digits other) refl

span-AreHex : (s : List ℕ) → AreHex s → span is_hex s ≡ (s, [])
span-AreHex [] hex = refl
span-AreHex (d ∷ s) (is, hex) = rw (is, span-AreHex s hex) refl

pub hex-Lacks : (c : ℕ) (s : List ℕ) → is_hex c ≡ false → AreHex s → Lacks c s
hex-Lacks c [] other hex = tt
hex-Lacks c (d ∷ s) other (is, hex) = ((λ e. ground arith), hex-Lacks c s other hex)

hash_part_lem :
    (id hash : List ℕ) → AreHex hash → hash ≢ [] → hash_part id (some hash) ≡ some (id, hash)
hash_part_lem id [] hex some_hash = absurd (some_hash refl)
hash_part_lem id (h ∷ hash) hex some_hash = rw (hash_part, span-AreHex (h ∷ hash) hex) refl

id_part_lem :
    (id hash : List ℕ)
    → AreDigits id
    → id ≢ []
    → id_part (some (id ++ b' ' ∷ b'$' ∷ hash)) ≡ hash_part id (some hash)
id_part_lem [] hash digits some_id = absurd (some_id refl)
id_part_lem (d ∷ id) hash digits some_id =
    ap with_id (span-AreDigits (d ∷ id) (b'$' ∷ hash) b' ' digits refl)

-- The server's expression finds the channel and the hash where the client puts them.
connect_parts :
    (id hash : List ℕ)
    → AreDigits id
    → id ≢ []
    → AreHex hash
    → hash ≢ []
    → match_connect (ascii "CONNECT " ++ (id ++ b' ' ∷ b'$' ∷ hash)) ≡ some (id, hash)
unfolding match_connect
connect_parts id hash digits some_id hex some_hash =
    rw (id_part_lem id hash digits some_id ∙ hash_part_lem id hash hex some_hash, match_connect)
      refl

encode_hex-ne-nil : (bs : List ℕ) → bs ≢ [] → encode_hex bs ≢ []
unfolding encode_hex
encode_hex-ne-nil [] some_bytes e = some_bytes refl
encode_hex-ne-nil (b ∷ bs) some_bytes e = absurd (ground arith)

pub match_connect-connect_message :
    (id : ℕ) (hash : List ℕ)
    → All IsU8 hash
    → hash ≢ []
    → match_connect (connect_message id hash) ≡ some (decimal id, encode_hex hash)
match_connect-connect_message id hash small some_hash =
    ap (λ s. match_connect (ascii "CONNECT " ++ s))
      (append_assoc (decimal id) (ascii " $") (encode_hex hash))
    ∙ connect_parts (decimal id) (encode_hex hash) (decimal-AreDigits id) (decimal-ne-nil id)
        (encode_hex-AreHex hash small) (encode_hex-ne-nil hash some_hash)

pub atoi-decimal : (n : ℕ) → n < 2 ^ 32 → atoi (decimal n) ≡ some n
atoi-decimal n small =
    let value = digits_value-decimal n small in
    let fits = lt→ltb n (2 ^ 63) (omega arith) in rw (value, fits) refl

parse_uint_digits :
    (s : List ℕ)
    → AreDigits s
    → s ≢ []
    → digits_value 0 s < 2 ^ 32
    → parse_uint s ≡ digits_value 0 s
parse_uint_digits [] digits some_text small = absurd (some_text refl)
parse_uint_digits (c ∷ s) (d, digits) some_text small =
    let fits = lt→ltb (digits_value 0 (c ∷ s)) (2 ^ 32) small in
    ap end_uint (span_digits (c ∷ s) (d, digits)) ∙ rw fits refl

pub parse_uint-decimal : (n : ℕ) → n < 2 ^ 32 → parse_uint (decimal n) ≡ n
parse_uint-decimal n small =
    let value = digits_value-decimal n small in
    parse_uint_digits (decimal n) (decimal-AreDigits n) (decimal-ne-nil n) (omega arith) ∙ value

lines_plain : (s : List ℕ) → Lacks b'\n' s → lines s ≡ s ∷ []
lines_plain [] plain = refl
lines_plain (c ∷ s) (ne, plain) =
    let other : (c == b'\n') ≡ false = ground arith in rw (lines_plain s plain, other) refl

split_last-none : (s : List ℕ) → Lacks b':' s → split_last s ≡ none
split_last-none [] plain = refl
split_last-none (c ∷ []) plain = refl
split_last-none (c ∷ d ∷ []) plain = refl
split_last-none (c ∷ d ∷ e ∷ s) (ne, plain) =
    let other : (c == b':') ≡ false = ground arith in
    rw (split_last-none (d ∷ e ∷ s) plain, other) refl

split_last_behind :
    (c : ℕ) (s key value : List ℕ)
    → split_last s ≡ some (key, value)
    → split_last (c ∷ s) ≡ some (c ∷ key, value)
split_last_behind c [] key value e = absurd (ground arith)
split_last_behind c (d ∷ []) key value e = absurd (ground arith)
split_last_behind c (d ∷ f ∷ s) key value e = rw e refl

split_last-append :
    (key value : List ℕ)
    → Lacks b':' value
    → value ≢ []
    → split_last (key ++ b':' ∷ b' ' ∷ value) ≡ some (key, value)
split_last-append [] [] plain some_value = absurd (some_value refl)
split_last-append [] (v ∷ value) plain some_value =
    rw (split_last-none (b' ' ∷ v ∷ value) ((λ e. ground arith), plain)) refl
split_last-append (k ∷ key) value plain some_value =
    split_last_behind k (key ++ b':' ∷ b' ' ∷ value) key value
      (split_last-append key value plain some_value)

-- The expression of an attribute on a name and a value without a colon.
pub match_attribute-append :
    (k : ℕ) (key value : List ℕ)
    → Lacks b'\n' (k ∷ key ++ b':' ∷ b' ' ∷ value)
    → Lacks b':' value
    → value ≢ []
    → match_attribute (k ∷ key ++ b':' ∷ b' ' ∷ value) ≡ some (k ∷ key, value)
unfolding match_attribute
match_attribute-append k key value plain other some_value =
    ap first_match (lines_plain (k ∷ key ++ b':' ∷ b' ' ∷ value) plain)
    ∙ rw (first_match, attribute_line, split_last-append key value other some_value) refl
