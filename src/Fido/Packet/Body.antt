-- ===== src/Fido/Packet/Body.antt =====
-- internal/fido/packet.go, lines.go: the lines of a message's body, and what they say.
pub mod Lines
use virt_bbs.Prelude.{
  ℕ, zero, suc, Bool, true, false, ◌&&◌, ◌||◌, List, [], ◌∷◌, ◌++◌, map, reverse, Bytes, codes,
  length, drop, ◌==◌, if◌then◌else◌,
}
use virt_bbs.Fido.Strings.{drop_while, trim_space, fields, starts_with, split_at, join}

-- `normalizeFidoBodyForParse`, first loop: `prev` is the byte in front.
unfoldable pub separate : ℕ → Bytes → Bytes
separate prev [] = []
separate prev (c ∷ body) =
    let rest = separate c body in
    if c == 1 && (if prev == 13 || prev == 10 then false else true) then 10 ∷ c ∷ rest else c ∷ rest

abbrev pub separate_body : Bytes → Bytes
separate_body [] = []
separate_body (c ∷ body) = c ∷ separate c body

-- `strings.ReplaceAll(s, "\r\n", "\n")`
unfoldable pub drop_cr : Bytes → Bytes
drop_cr [] = []
drop_cr (c ∷ []) = c ∷ []
drop_cr (c ∷ d ∷ body) =
    let joined = drop_cr body in
    let plain = drop_cr (d ∷ body) in if c == 13 && d == 10 then 10 ∷ joined else c ∷ plain

-- `strings.ReplaceAll(s, "\r", "\n")`
unfoldable pub cr_to_lf : Bytes → Bytes
cr_to_lf [] = []
cr_to_lf (c ∷ body) = (if c == 13 then 10 else c) ∷ cr_to_lf body

-- `strings.ReplaceAll(s, "\n", "\r\n")`
unfoldable pub lf_to_crlf : Bytes → Bytes
lf_to_crlf [] = []
lf_to_crlf (c ∷ s) = let rest = lf_to_crlf s in if c == 10 then 13 ∷ 10 ∷ rest else c ∷ rest

unfoldable pub normalize_display_eol : Bytes → Bytes
unfolding drop_cr cr_to_lf lf_to_crlf
normalize_display_eol s = lf_to_crlf (cr_to_lf (drop_cr s))

unfoldable pub normalize_fido_body : Bytes → Bytes
unfolding separate drop_cr cr_to_lf
normalize_fido_body body = cr_to_lf (drop_cr (separate_body body))

-- `strings.TrimRight(line, "\r")`, and with a line feed.
abbrev pub trim_right : ℕ → Bytes → Bytes
trim_right sep line = reverse (drop_while (λ c. c == sep) (reverse line))

abbrev pub lines_of : Bytes → List Bytes
lines_of [] = []
lines_of (c ∷ body) = map (trim_right 13) (split_at 10 [] (c ∷ body))

unfoldable pub fido_lines : Bytes → List Bytes
fido_lines body = lines_of (normalize_fido_body body)

-- `ParsedBody`, with the kludges and the text still in lines.
pub record Parsing : Type 0 where
  pub area_tag : Bytes
  pub msgid : Bytes
  pub reply : Bytes
  pub seen_by : List Bytes
  pub path : List Bytes
  pub kludges : List Bytes
  pub text : List Bytes

pub record ParsedBody : Type 0 where
  pub area_tag : Bytes
  pub msgid : Bytes
  pub reply : Bytes
  pub seen_by : List Bytes
  pub path : List Bytes
  pub kludges : Bytes
  pub text : Bytes

abbrev pub msgid_prefix : Bytes
msgid_prefix = 1 ∷ codes "MSGID:"

abbrev pub reply_prefix : Bytes
reply_prefix = 1 ∷ codes "REPLY:"

abbrev pub path_prefix : Bytes
path_prefix = 1 ∷ codes "PATH:"

-- A round of the loop of `Parse`.
unfoldable pub parse_line : Parsing → Bytes → Parsing
parse_line pb line =
    if starts_with msgid_prefix line
    then record pb { msgid = trim_space (drop 7 line) }
    else if starts_with reply_prefix line
    then record pb { reply = trim_space (drop 7 line) }
    else if starts_with path_prefix line
    then record pb { path = pb.path ++ fields [] (drop 6 line) }
    else if starts_with (1 ∷ []) line
    then record pb { kludges = pb.kludges ++ line ∷ [] }
    else if starts_with (codes "AREA:") line
    then record pb { area_tag = trim_space (drop 5 line) }
    else if starts_with (codes "SEEN-BY:") line
    then record pb { seen_by = pb.seen_by ++ fields [] (drop 8 line) }
    else record pb { text = pb.text ++ line ∷ [] }

unfoldable pub parse_lines : Parsing → List Bytes → Parsing
parse_lines pb [] = pb
parse_lines pb (line ∷ lines) = parse_lines (parse_line pb (trim_right 10 line)) lines

abbrev pub nothing : Parsing
nothing = record {
  area_tag = [];
  msgid = [];
  reply = [];
  seen_by = [];
  path = [];
  kludges = [];
  text = [];
}

unfoldable pub parse : Bytes → ParsedBody
parse body =
    let pb = parse_lines nothing (fido_lines body) in
    record {
      area_tag = pb.area_tag;
      msgid = pb.msgid;
      reply = pb.reply;
      seen_by = pb.seen_by;
      path = pb.path;
      kludges = join (13 ∷ []) pb.kludges;
      text = join (13 ∷ 10 ∷ []) pb.text;
    }
