-- ===== src/Telnet.antt =====
-- internal/telnet/server.go: `Conn`, which strips the Telnet commands from what a client sends.
-- Raw writes to the client are appended to `sent`, one entry for each call of `raw.Write`.
-- An `IAC` command that is cut by the end of a segment is held in `buf` for the next read.
mod Samples
pub mod Scan
pub mod Segments
pub mod Reads
pub mod Held
pub mod Escape
pub mod Window
use virt_bbs.Prelude.{
  ℕ, zero, suc, ◌+◌, ◌*◌, ◌≡◌, Bool, true, false, ◌&&◌, ◌||◌, Option, none, some, List, [], ◌∷◌,
  ◌++◌, Bytes, length, take, drop, ◌==◌, leb, ltb, if◌then◌else◌,
}

abbrev pub iac : ℕ
iac = 0xFF

abbrev pub dont : ℕ
dont = 0xFE

abbrev pub do_cmd : ℕ
do_cmd = 0xFD

abbrev pub wont : ℕ
wont = 0xFC

abbrev pub will : ℕ
will = 0xFB

abbrev pub sb : ℕ
sb = 0xFA

abbrev pub se : ℕ
se = 0xF0

abbrev pub opt_echo : ℕ
opt_echo = 0x01

abbrev pub opt_sga : ℕ
opt_sga = 0x03

abbrev pub opt_line_mode : ℕ
opt_line_mode = 0x22

abbrev pub opt_naws : ℕ
opt_naws = 0x1F

abbrev pub opt_term_type : ℕ
opt_term_type = 0x18

abbrev pub linemode_mode : ℕ
linemode_mode = 0x01

pub record Conn : Type 0 where
  pub term_type : Bytes
  pub width : ℕ
  pub height : ℕ
  pub buf : Bytes
  pub sent : List Bytes

abbrev pub new_conn : Conn
new_conn = record { term_type = []; width = 80; height = 24; buf = []; sent = [] }

-- `c.raw.Write`
abbrev pub raw_write : Bytes → Conn → Conn
raw_write bytes c = record c { sent = c.sent ++ bytes ∷ [] }

pub negotiate : Conn → Conn
negotiate = raw_write (
    iac ∷ will ∷ opt_echo ∷ iac ∷ will ∷ opt_sga ∷ iac ∷ do_cmd ∷ opt_sga ∷ iac ∷ do_cmd
    ∷ opt_line_mode ∷ iac ∷ sb ∷ opt_line_mode ∷ linemode_mode ∷ 0x00 ∷ iac ∷ se ∷ iac ∷ do_cmd
    ∷ opt_term_type ∷ iac ∷ do_cmd ∷ opt_naws ∷ [])

-- The loop of `Write`: an `IAC` byte is doubled.
pub escape : Bytes → Bytes
escape [] = []
escape (b ∷ p) = if b == iac then b ∷ iac ∷ escape p else b ∷ escape p

pub write : Bytes → Conn → Conn
write p = raw_write (escape p)

pub handle_option : ℕ → ℕ → Conn → Conn
handle_option cmd opt c =
    if cmd == will && opt == opt_term_type
    then raw_write (iac ∷ sb ∷ opt_term_type ∷ 1 ∷ iac ∷ se ∷ []) c
    else if cmd == do_cmd && opt == opt_echo
    then c
    else if cmd == will && opt == opt_sga
    then c
    else if cmd == wont && opt == opt_line_mode
    then c
    else if cmd == will && opt == opt_line_mode
    then raw_write (iac ∷ sb ∷ opt_line_mode ∷ linemode_mode ∷ 0x00 ∷ iac ∷ se ∷ []) c
    else c

term_type_report : ℕ → Bytes → Conn → Conn
term_type_report kind name c =
    if kind == 0 && ltb 0 (length name) then record c { term_type = name } else c

window_report : Bytes → Conn → Conn
window_report (wh ∷ wl ∷ hh ∷ hl ∷ rest) c = record c {
  width = wh * 256 + wl;
  height = hh * 256 + hl;
}
window_report _ c = c

-- The patterns are the tests on `len(data)`; the payload of NAWS is `data[1:]`.
pub handle_subneg : Bytes → Conn → Conn
unfolding term_type_report window_report
handle_subneg (opt ∷ kind ∷ rest) c =
    if opt == opt_term_type
    then term_type_report kind rest c
    else if opt == opt_naws
    then window_report (kind ∷ rest) c
    else c
handle_subneg _ c = c

abbrev pub cons_found : ℕ → Option (Bytes × Bytes) → Option (Bytes × Bytes)
cons_found x none = none
cons_found x (some (d, rest)) = some (x ∷ d, rest)

-- The search for `IAC SE`: what stands before it, and what follows.
pub find_se : Bytes → Option (Bytes × Bytes)
find_se [] = none
find_se (x ∷ []) = none
find_se (x ∷ y ∷ r) =
    let later = cons_found x (find_se (y ∷ r)) in
    if x == iac && y == se then some ([], r) else later

-- What the loop of `Read` finds at its position, with the bytes behind it.
pub data Event : Type 0 where
  held : Event
  byte : ℕ → Bytes → Event
  option : ℕ → ℕ → Bytes → Event
  subneg : Bytes → Bytes → Event
  ignored : Bytes → Event

is_negotiation : ℕ → Bool
is_negotiation cmd = cmd == will || cmd == wont || cmd == do_cmd || cmd == dont

option_event : ℕ → Bytes → Event
option_event cmd [] = held
option_event cmd (opt ∷ r) = option cmd opt r

subneg_event : Option (Bytes × Bytes) → Event
subneg_event none = held
subneg_event (some (d, rest)) = subneg d rest

-- The `switch cmd`, behind an `IAC`.
command_event : Bytes → Event
command_event [] = held
command_event (cmd ∷ r) =
    if is_negotiation cmd
    then option_event cmd r
    else if cmd == sb
    then subneg_event (find_se r)
    else if cmd == iac
    then byte iac r
    else ignored r

pub scan : ℕ → Bytes → Event
unfolding is_negotiation option_event subneg_event command_event
scan b r = if b == iac then command_event r else byte b r

-- The loop of `Read` over `raw[i:n]`; each round takes a byte at least.
pub loop : ℕ → Conn → Bytes → Bytes → Conn × Bytes
loop zero c out raw = (c, out)
loop (suc f) c out [] = (c, out)
loop (suc f) c out (b ∷ r) = elim (scan b r) [
  | held ↦ (record c { buf = c.buf ++ (b ∷ r) }, out)
  | byte x rest ↦ loop f c (out ++ x ∷ []) rest
  | option cmd opt rest ↦ loop f (handle_option cmd opt c) out rest
  | subneg d rest ↦ loop f (handle_subneg d c) out rest
  | ignored rest ↦ loop f c out rest
]

-- `Read` behind `raw.Read`: its buffer, its loop, and all of the data `out` that it finds in the `n`
-- bytes of this read.
pub decode : Conn → Bytes → Conn × Bytes
decode c [] = (c, [])
decode c (x ∷ xs) = let raw = c.buf ++ (x ∷ xs) in loop (length raw) (record c { buf = [] }) [] raw

-- `raw.Read` into `room` bytes: the first of the segments that wait is taken, as far as it fits; its
-- other bytes wait for the next call. Without a segment there is nothing to take.
pub raw_read : ℕ → List Bytes → Bytes × List Bytes
raw_read room [] = ([], [])
raw_read room (segment ∷ pending) =
    (take room segment, if leb (length segment) room then pending else drop room segment ∷ pending)

-- What a call of `Read` leaves: the connection and the segments that wait, the bytes that the slice
-- holds, and the count that is returned.
pub record Delivery : Type 0 where
  pub conn : Conn
  pub pending : List Bytes
  pub slice : Bytes
  pub count : ℕ

-- `Read` into a slice of `len_p` bytes. `out` starts as the slice; when it grows longer, `append`
-- moves it to another array, and the slice keeps the first `len_p` bytes.
pub read : ℕ → Conn → List Bytes → Delivery
read len_p c segments =
    let (raw, left) = raw_read (len_p * 2) segments in
    let (c', out) = decode c raw in
    record { conn = c'; pending = left; slice = take len_p out; count = length out }
