-- ===== src/Telnet/Window.antt =====
-- The window size of a client: the NAWS subnegotiation, `handle_subneg` through `Read`.
use virt_bbs.Prelude.{ℕ, ◌+◌, ◌*◌, ◌≡◌, ◌≢◌, ◌∙◌, some, [], ◌∷◌, arith, Bytes, refl, ap, List}
use virt_bbs.Telnet.{Conn, find_se, handle_subneg, scan, decode, iac, sb, se, opt_naws, subneg}
use virt_bbs.Telnet.Reads.{taken, delivered, delivered_silent}
use virt_bbs.Telnet.Segments.{run-nil, run-cons, decode-eq-run}

naws-find_se :
    (wh wl hh hl : ℕ)
    → wh ≢ iac
    → wl ≢ iac
    → hh ≢ iac
    → hl ≢ iac
    → find_se (opt_naws ∷ wh ∷ wl ∷ hh ∷ hl ∷ iac ∷ se ∷ [])
      ≡ some (opt_naws ∷ wh ∷ wl ∷ hh ∷ hl ∷ [], [])
unfolding find_se
naws-find_se wh wl hh hl p q r s = ground arith

-- A width of `wh * 256 + 255`, sent as RFC 1073 wants it: the byte 255 is doubled.
doubled-find_se :
    (wh hh hl : ℕ)
    → wh ≢ iac
    → hh ≢ iac
    → hh ≢ se
    → hl ≢ iac
    → find_se (opt_naws ∷ wh ∷ iac ∷ iac ∷ hh ∷ hl ∷ iac ∷ se ∷ [])
      ≡ some (opt_naws ∷ wh ∷ iac ∷ iac ∷ hh ∷ hl ∷ [], [])
unfolding find_se
doubled-find_se wh hh hl p q r s = ground arith

scan_subneg :
    (r : Bytes) {d rest : Bytes} → find_se r ≡ some (d, rest) → scan iac (sb ∷ r) ≡ subneg d rest
unfolding scan
scan_subneg r e = rw e

decode_subneg :
    (c : Conn) (r : Bytes) {d : Bytes}
    → c.buf ≡ []
    → find_se r ≡ some (d, [])
    → decode c (iac ∷ sb ∷ r) ≡ (handle_subneg d c, [])
decode_subneg c r {d} h e =
    decode-eq-run c (iac ∷ sb ∷ r) h
    ∙ run-cons c [] iac (sb ∷ r)
    ∙ rw (scan_subneg r e) (run-nil (handle_subneg d c) [])

-- A report without the byte 255 sets the window to the two big-endian numbers, and delivers no data.
-- Conditions: no bytes are held back, and the calls of Read take the report, with slices of any
-- lengths and in any segments.
pub reads-naws :
    (slices : List ℕ) (c : Conn) (pending : List Bytes) (wh wl hh hl : ℕ)
    → c.buf ≡ []
    → taken slices pending ≡ iac ∷ sb ∷ opt_naws ∷ wh ∷ wl ∷ hh ∷ hl ∷ iac ∷ se ∷ []
    → wh ≢ iac
    → wl ≢ iac
    → hh ≢ iac
    → hl ≢ iac
    → delivered slices c pending ≡ (record c { width = wh * 256 + wl; height = hh * 256 + hl }, [])
reads-naws slices c pending wh wl hh hl h e p q r s = delivered_silent slices c _ pending (
    ap (decode c) e
    ∙ decode_subneg c _ h (naws-find_se wh wl hh hl p q r s)
    ∙ unfold handle_subneg in refl)

-- A report of the width `wh * 256 + 255` with its byte 255 doubled, as the protocol wants it: the
-- height that is read is `255 * 256 + hh`, whatever the client's is, `hh` being the first byte of that.
-- Conditions: no bytes are held back, the report has no other byte 255, `hh` is not 240, and the calls
-- of Read take the report, with slices of any lengths and in any segments.
pub reads-naws_doubled :
    (slices : List ℕ) (c : Conn) (pending : List Bytes) (wh hh hl : ℕ)
    → c.buf ≡ []
    → taken slices pending ≡ iac ∷ sb ∷ opt_naws ∷ wh ∷ iac ∷ iac ∷ hh ∷ hl ∷ iac ∷ se ∷ []
    → wh ≢ iac
    → hh ≢ iac
    → hh ≢ se
    → hl ≢ iac
    → delivered slices c pending
      ≡ (record c { width = wh * 256 + 255; height = 255 * 256 + hh }, [])
reads-naws_doubled slices c pending wh hh hl h e p q r s = delivered_silent slices c _ pending (
    ap (decode c) e
    ∙ decode_subneg c _ h (doubled-find_se wh hh hl p q r s)
    ∙ unfold handle_subneg in refl)
