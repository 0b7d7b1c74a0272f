-- ===== src/Fido/Packet/Body/Lines.antt =====
-- What `Parse` keeps of a body: the lines that no rule takes.
use virt_bbs.Prelude.{
  Bool, true, not, ◌&&◌, ◌||◌, ◌≡◌, ap, ◌∙◌, List, [], ◌∷◌, ◌++◌, append_assoc, append-nil, map,
  Bytes, codes, if◌then◌else◌, inl, inr, Bool-cases, arith,
}
use virt_bbs.Fido.Strings.{starts_with, join}
use virt_bbs.Fido.Packet.Body.{
  Parsing, msgid_prefix, reply_prefix, path_prefix, trim_right, parse_line, parse_lines, parse,
  fido_lines, nothing,
}

-- A line for the reader: no kludge, and no line of the echomail's routing.
pub is_text : Bytes → Bool
is_text line = not (
    starts_with (1 ∷ []) line
    || starts_with (codes "AREA:") line
    || starts_with (codes "SEEN-BY:") line)

-- A kludge that `Parse` has no field for.
pub is_other : Bytes → Bool
is_other line =
    starts_with (1 ∷ []) line
    && not (
        starts_with msgid_prefix line
        || starts_with reply_prefix line
        || starts_with path_prefix line)

pub keep : (Bytes → Bool) → List Bytes → List Bytes
keep test [] = []
keep test (line ∷ lines) = if test line then line ∷ keep test lines else keep test lines

starts_control :
    (prefix line : Bytes) → starts_with (1 ∷ prefix) line ≡ true → starts_with (1 ∷ []) line ≡ true
unfolding starts_with
starts_control prefix [] h = h
starts_control prefix (c ∷ line) h = ground (arith, h)

parse_line-text :
    (pb : Parsing) (line : Bytes)
    → (parse_line pb line).text ≡ (if is_text line then pb.text ++ line ∷ [] else pb.text)
unfolding parse_line is_text
parse_line-text pb line = ground (
  arith,
  starts_control (codes "MSGID:") line,
  starts_control (codes "REPLY:") line,
  starts_control (codes "PATH:") line,
)

parse_line-kludges :
    (pb : Parsing) (line : Bytes)
    → (parse_line pb line).kludges ≡ (if is_other line then pb.kludges ++ line ∷ [] else pb.kludges)
unfolding parse_line is_other
parse_line-kludges pb line = ground arith

snoc_keep :
    (test : Bytes → Bool) (front : List Bytes) (line : Bytes) (lines : List Bytes)
    → (if test line then front ++ line ∷ [] else front) ++ keep test lines
      ≡ front ++ keep test (line ∷ lines)
unfolding keep
snoc_keep test front line lines = elim (Bool-cases (test line)) [
  | inl e ↦ rw e (append_assoc front (line ∷ []) (keep test lines))
  | inr e ↦ rw e
]

parse_lines-text :
    (pb : Parsing) (lines : List Bytes)
    → (parse_lines pb lines).text ≡ pb.text ++ keep is_text (map (trim_right 10) lines)
unfolding parse_lines
parse_lines-text pb [] = unfold keep in rw append-nil
parse_lines-text pb (line ∷ lines) =
    parse_lines-text (parse_line pb (trim_right 10 line)) lines
    ∙ ap (λ front. front ++ keep is_text (map (trim_right 10) lines))
        (parse_line-text pb (trim_right 10 line))
    ∙ snoc_keep is_text pb.text (trim_right 10 line) (map (trim_right 10) lines)

parse_lines-kludges :
    (pb : Parsing) (lines : List Bytes)
    → (parse_lines pb lines).kludges ≡ pb.kludges ++ keep is_other (map (trim_right 10) lines)
unfolding parse_lines
parse_lines-kludges pb [] = unfold keep in rw append-nil
parse_lines-kludges pb (line ∷ lines) =
    parse_lines-kludges (parse_line pb (trim_right 10 line)) lines
    ∙ ap (λ front. front ++ keep is_other (map (trim_right 10) lines))
        (parse_line-kludges pb (trim_right 10 line))
    ∙ snoc_keep is_other pb.kludges (trim_right 10 line) (map (trim_right 10) lines)

-- The text of a parsed body is its lines that start with neither ^A nor AREA: nor SEEN-BY:, in order,
-- joined by CR LF; and its kludges are the lines that start with ^A, but not with ^AMSGID:, ^AREPLY:
-- or ^APATH:, joined by CR.
pub parse-keep :
    (body : Bytes)
    → ((parse body).text
        ≡ join (13 ∷ 10 ∷ []) (keep is_text (map (trim_right 10) (fido_lines body))))
      × ((parse body).kludges
          ≡ join (13 ∷ []) (keep is_other (map (trim_right 10) (fido_lines body))))
unfolding parse
parse-keep body = (
  ap (join (13 ∷ 10 ∷ [])) (parse_lines-text nothing (fido_lines body)),
  ap (join (13 ∷ [])) (parse_lines-kludges nothing (fido_lines body)),
)
