-- ===== src/Fido/Uuencode.antt =====
-- internal/fido/uuencode/uuencode.go: files in the text of a message. A byte is a number below 256;
-- an `|` of numbers that share no bit is a sum. The functions of `strings` are those on ASCII texts.
mod Lines
mod Blocks
mod Parts
pub mod RoundTrip
mod Samples
use virt_bbs.Fido.Strings.{drop_while, trim_space, is_space, word_then, fields}
use virt_bbs.Prelude.{
  ℕ, zero, suc, ◌+◌, ◌-◌, ◌*◌, ◌/◌, ◌%◌, Bool, true, false, ◌&&◌, ◌||◌, Option, none, some, List,
  [], ◌∷◌, ◌++◌, reverse, Bytes, codes, equal, length, take, drop, ◌==◌, ltb, leb, if◌then◌else◌,
}

pub record DecodedFile : Type 0 where
  pub filename : Bytes
  pub mode : ℕ
  pub contents : Bytes

-- The four characters of three bytes.
abbrev pub quad : ℕ → ℕ → ℕ → Bytes → Bytes
quad b0 b1 b2 rest =
    (b0 / 4 % 64 + 32)
    ∷ (b0 % 4 * 16 + b1 / 16 % 16 + 32)
    ∷ (b1 % 16 * 4 + b2 / 64 % 4 + 32)
    ∷ (b2 % 64 + 32)
    ∷ rest

-- The loop of `encodeLine`.
unfoldable pub encode_groups : Bytes → Bytes
encode_groups [] = []
encode_groups (b0 ∷ []) = quad b0 0 0 []
encode_groups (b0 ∷ b1 ∷ []) = quad b0 b1 0 []
encode_groups (b0 ∷ b1 ∷ b2 ∷ chunk) = quad b0 b1 b2 (encode_groups chunk)

unfoldable pub encode_line : Bytes → Bytes
unfolding encode_groups
encode_line chunk = ((length chunk + 32) % 256) ∷ encode_groups chunk

-- `line[i] - 32` on a byte.
abbrev pub sixbit : ℕ → ℕ
sixbit c = (c + 224) % 256

-- A byte more, unless there are `count`.
unfoldable pub append_below : ℕ → Bytes → ℕ → Bytes
append_below count out b = if ltb (length out) count then out ++ b ∷ [] else out

-- The loop of `decodeLine`, with the bytes so far.
unfoldable pub decode_groups : ℕ → Bytes → Bytes → Bytes
unfolding append_below
decode_groups count out (c0 ∷ c1 ∷ c2 ∷ c3 ∷ payload) =
    let first = out ++ (sixbit c0 * 4 % 256 + sixbit c1 / 16 % 4) ∷ [] in
    let second = append_below count first (sixbit c1 * 16 % 256 + sixbit c2 / 4 % 16) in
    let third = append_below count second (sixbit c2 * 64 % 256 + sixbit c3 % 64) in
    let rest = decode_groups count third payload in if ltb (length out) count then rest else out
decode_groups count out payload = out

-- `none` is the error of a character below the blank in front.
unfoldable pub decode_line : Bytes → Option Bytes
unfolding decode_groups
decode_line [] = some []
decode_line (c ∷ payload) =
    if ltb c 32 then none else some (take (c - 32) (decode_groups (c - 32) [] payload))

-- `strings.ReplaceAll(body, "\r\n", "\r")`
unfoldable pub cr_only : Bytes → Bytes
cr_only [] = []
cr_only (c ∷ []) = c ∷ []
cr_only (c ∷ d ∷ body) =
    let joined = cr_only body in
    let plain = cr_only (d ∷ body) in if c == 13 && d == 10 then 13 ∷ joined else c ∷ plain

-- `strings.Split(body, "\r")`, with the line so far.
unfoldable pub split_cr : Bytes → Bytes → List Bytes
split_cr line [] = line ∷ []
split_cr line (c ∷ body) =
    let next = split_cr [] body in
    let longer = split_cr (line ++ c ∷ []) body in if c == 13 then line ∷ next else longer

-- `strings.Join(out, "\r")`
unfoldable pub join_cr : List Bytes → Bytes
join_cr [] = []
join_cr (line ∷ []) = line
join_cr (line ∷ next ∷ lines) = line ++ (13 ∷ join_cr (next ∷ lines))

-- `strings.TrimRight(s, "\n")`
unfoldable pub trim_newlines : Bytes → Bytes
unfolding drop_while
trim_newlines s = reverse (drop_while (λ c. c == 10) (reverse s))

abbrev pub lower : ℕ → ℕ
lower c = if leb b'A' c && leb c b'Z' then c + 32 else c

-- `strings.HasPrefix(strings.ToLower(s), prefix)`
unfoldable pub starts_lower : Bytes → Bytes → Bool
starts_lower [] s = true
starts_lower (p ∷ prefix) [] = false
starts_lower (p ∷ prefix) (c ∷ s) = lower c == p && starts_lower prefix s

-- `strconv.ParseUint(s, 8, 32)`
unfoldable pub octal : ℕ → Bytes → Option ℕ
octal n [] = if ltb n 4294967296 then some n else none
octal n (c ∷ s) =
    let rest = octal (n * 8 + (c - 48)) s in if leb 48 c && leb c 55 then rest else none

abbrev pub parse_mode : Bytes → Option ℕ
parse_mode [] = none
parse_mode (c ∷ s) = octal 0 (c ∷ s)

abbrev pub ends_block : Bytes → Bool
ends_block line = equal (trim_space line) (codes "end") || equal (trim_space line) (b'`' ∷ [])

abbrev pub append_chunk :
    Option Bytes → (Bytes → Option (Bytes × List Bytes)) → Option (Bytes × List Bytes)
append_chunk none next = none
append_chunk (some chunk) next = next chunk

-- The inner loop of `Decode`: the data up to the end of a block, and the lines behind it.
unfoldable pub read_block : Bytes → List Bytes → Option (Bytes × List Bytes)
read_block held [] = some (held, [])
read_block held (line ∷ lines) =
    let enc = trim_newlines line in
    let skip = read_block held lines in
    let more = append_chunk (decode_line enc) (λ chunk. read_block (held ++ chunk) lines) in
    if ends_block enc then some (held, lines) else if equal enc [] then skip else more

-- The name and the mode of a line `begin mode name`: `none` for another line, and for a wrong mode
-- `some none`.
abbrev pub begin_fields : List Bytes → Option (Option (ℕ × Bytes))
begin_fields (word ∷ mode ∷ name ∷ rest) =
    some (elim (parse_mode mode) [ none ↦ none | some m ↦ some (m, name) ])
begin_fields (word ∷ mode ∷ []) = none
begin_fields (word ∷ []) = none
begin_fields [] = none

unfoldable pub begin_line : Bytes → Option (Option (ℕ × Bytes))
begin_line line =
    if starts_lower (codes "begin ") (trim_space line)
    then begin_fields (fields [] (trim_space line))
    else none

abbrev pub Decoded : Type 0
Decoded = Option (List DecodedFile × List Bytes)

-- The outer loop of `Decode` returns the files and the lines that it keeps; `none` is an error. The
-- index is behind the end of a block when the loop adds one to it: a line is passed over.
unfoldable pub decode_lines : ℕ → List DecodedFile → List Bytes → List Bytes → Decoded
decode_lines zero files out lines = none
decode_lines (suc fuel) files out [] = some (files, out)
decode_lines (suc fuel) files out (raw ∷ lines) =
    let line = trim_newlines raw in
    elim (begin_line line) [
      | none ↦ decode_lines fuel files (out ++ line ∷ []) lines
      | some none ↦ none
      | some (some (mode, name)) ↦ elim (read_block [] lines) [
        | none ↦ none
        | some (contents, rest) ↦
            decode_lines fuel
              (files ++ (record { filename = name; mode = mode; contents = contents }) ∷ []) out
              (drop 1 rest)
      ]
    ]

abbrev pub with_body : Decoded → Option (List DecodedFile × Bytes)
with_body none = none
with_body (some (files, out)) = some (files, join_cr out)

unfoldable pub decode : Bytes → Option (List DecodedFile × Bytes)
decode body =
    let lines = split_cr [] (cr_only body) in
    with_body (decode_lines (suc (length lines)) [] [] lines)

-- The loop of `Encode` over the pieces of 45 bytes, of data that are not empty.
unfoldable pub encode_lines : ℕ → Bytes → Bytes
encode_lines zero bytes = []
encode_lines (suc fuel) [] = []
encode_lines (suc fuel) (b ∷ bytes) =
    encode_line (take 45 (b ∷ bytes)) ++ (13 ∷ encode_lines fuel (drop 45 (b ∷ bytes)))

-- The loop of `Encode`, which writes one line for no data.
unfoldable pub encode_data : Bytes → Bytes
encode_data [] = encode_line [] ++ 13 ∷ []
encode_data (b ∷ bytes) = encode_lines (suc (length bytes)) (b ∷ bytes)

abbrev pub or_default : Bytes → Bytes
or_default [] = codes "file.dat"
or_default (c ∷ name) = c ∷ name

unfoldable pub encode : Bytes → Bytes → Bytes
encode bytes filename =
    codes "begin 644 "
    ++ (or_default filename ++ (13 ∷ (encode_data bytes ++ (codes "end" ++ 13 ∷ []))))

-- `strings.TrimRight(body, "\r\n")`
abbrev pub trim_eol : Bytes → Bytes
trim_eol s = reverse (drop_while (λ c. c == 13 || c == 10) (reverse s))

abbrev pub blocks : List DecodedFile → Bytes
blocks [] = []
blocks (f ∷ files) = encode f.contents f.filename ++ (13 ∷ blocks files)

unfoldable pub append_to_body : Bytes → List DecodedFile → Bytes
append_to_body body [] = body
append_to_body body (f ∷ files) = trim_eol body ++ (13 ∷ 10 ∷ 13 ∷ 10 ∷ blocks (f ∷ files))
