-- ===== src/Telnet/Escape.antt =====
-- internal/telnet/server.go: `Write` against `Read`, and data that are more than a slice holds.
use virt_bbs.Prelude.{
  ℕ, ◌≡◌, refl, ap, ◌∙◌, inl, inr, List, [], ◌∷◌, ◌++◌, append-nil, append_assoc, arith, Bytes,
  length, ◌==◌, ==_iff, Bool-cases, All, ◌<◌, ◌≤◌, ◌*◌, ◌≢◌, true, false, sym, subst, take_long,
  map, replicate,
}
use virt_bbs.Telnet.{Conn, byte, escape, scan, decode, raw_read, read, Delivery, iac}
use virt_bbs.Telnet.Segments.{run, run-nil, run-cons, decode-eq-run}
use virt_bbs.Telnet.Reads.{reads, taken, delivered, reads-decode}
use virt_bbs.Telnet.Held.{IsHeldBack, AtMost, reads_short}

scan_plain : (b : ℕ) (r : Bytes) → (b == iac) ≡ false → scan b r ≡ byte b r
unfolding scan
scan_plain b r h = rw h

scan_doubled : (r : Bytes) → scan iac (iac ∷ r) ≡ byte iac r
unfolding scan
scan_doubled r = refl

escape-iac : (b : ℕ) (p : Bytes) → (b == iac) ≡ true → escape (b ∷ p) ≡ iac ∷ iac ∷ escape p
unfolding escape
escape-iac b p h = ground arith

escape_plain : (b : ℕ) (p : Bytes) → (b == iac) ≡ false → escape (b ∷ p) ≡ b ∷ escape p
unfolding escape
escape_plain b p h = rw h

push_out :
    (c : Conn) (out : Bytes) (x : ℕ) (p : Bytes)
    → ◌≡◌ {A = Conn × Bytes} (c, (out ++ x ∷ []) ++ p) (c, out ++ (x ∷ p))
push_out c out x p = rw append_assoc

run_byte :
    (c : Conn) (out : Bytes) (x b : ℕ) (r p : Bytes)
    → scan b r ≡ byte x p
    → run c out (b ∷ r) ≡ run c (out ++ x ∷ []) p
run_byte c out x b r p e = run-cons c out b r ∙ rw e

run-escape : (c : Conn) (out p : Bytes) → run c out (escape p) ≡ (c, out ++ p)
run-escape c out [] = unfold escape in rw (run-nil, append-nil)
run-escape c out (b ∷ p) = elim (Bool-cases (b == iac)) [
  | inl e ↦
      ap (run c out) (escape-iac b p e)
      ∙ run_byte c out iac iac (iac ∷ escape p) (escape p) (scan_doubled (escape p))
      ∙ run-escape c (out ++ iac ∷ []) p
      ∙ push_out c out iac p
      ∙ rw ((==_iff b iac).0 e)
  | inr e ↦
      ap (run c out) (escape_plain b p e)
      ∙ run_byte c out b b (escape p) (escape p) (scan_plain b (escape p) e)
      ∙ run-escape c (out ++ b ∷ []) p
      ∙ push_out c out b p
]

new_start : (c : Conn) → c.buf ≡ [] → IsHeldBack c.buf
new_start c h = subst IsHeldBack (sym h) tt

-- With no bytes held back, a peer that reads by the rules of Read into slices that are no shorter
-- than the segments receives what Write is given, however the escaped stream is cut into segments,
-- and its connection is as it was.
pub reads-escape :
    (c : Conn) (p : Bytes) (slices : List ℕ) (pending : List Bytes)
    → c.buf ≡ []
    → All (λ len_p. AtMost len_p pending) slices
    → taken slices pending ≡ escape p
    → delivered slices c pending ≡ (c, p)
reads-escape c p slices pending h short e =
    (reads-decode slices c pending (reads_short slices c pending (new_start c h) short).0).0
    ∙ ap (decode c) e
    ∙ decode-eq-run c (escape p) h
    ∙ run-escape c [] p

run_plain : (c : Conn) (out p : Bytes) → All (λ b. b ≢ iac) p → run c out p ≡ (c, out ++ p)
run_plain c out [] h = rw (run-nil, append-nil)
run_plain c out (b ∷ p) h =
    run_byte c out b b p p (scan_plain b p (ground (arith, h.0)))
    ∙ run_plain c (out ++ b ∷ []) p h.1
    ∙ push_out c out b p

decode_plain : (c : Conn) (p : Bytes) → c.buf ≡ [] → All (λ b. b ≢ iac) p → decode c p ≡ (c, p)
decode_plain c p h plain = decode-eq-run c p h ∙ run_plain c [] p plain

-- With no bytes held back, a segment without the byte 255 that is longer than the slice of `Read`,
-- and at most twice as long, which `Read` asks the network for: the returned count is more than the
-- slice holds.
pub read_overrun :
    (len_p : ℕ) (c : Conn) (segment : Bytes) (pending : List Bytes)
    → c.buf ≡ []
    → All (λ b. b ≢ iac) segment
    → len_p < length segment
    → length segment ≤ len_p * 2
    → len_p < (read len_p c (segment ∷ pending)).count
unfolding read raw_read
read_overrun len_p c segment pending h plain long fits =
    rw (take_long (len_p * 2) segment fits, decode_plain c segment h plain) long

abbrev pub bytes_of : List (ℕ × ℕ) → Bytes
bytes_of [] = []
bytes_of ((a, b) ∷ pairs) = a ∷ b ∷ bytes_of pairs

-- One segment that waits; none where there is nothing to send.
abbrev pub one_segment : Bytes → List Bytes
one_segment [] = []
one_segment (b ∷ s) = (b ∷ s) ∷ []

raw_read_pair : (a b : ℕ) (s : Bytes) → raw_read 2 ((a ∷ b ∷ s) ∷ []) ≡ (a ∷ b ∷ [], one_segment s)
unfolding raw_read
raw_read_pair a b [] = refl
raw_read_pair a b (x ∷ s) = ground arith

read_pair :
    (c : Conn) (a b : ℕ) (s : Bytes)
    → c.buf ≡ []
    → a ≢ iac
    → b ≢ iac
    → read 1 c ((a ∷ b ∷ s) ∷ [])
      ≡ record { conn = c; pending = one_segment s; slice = a ∷ []; count = 2 }
unfolding read
read_pair c a b s h pa pb =
    rw (raw_read_pair a b s, decode_plain c (a ∷ b ∷ []) h (pa, (pb, tt))) refl

-- With no bytes held back, data without the byte 255 that wait in one segment, an even number of bytes:
-- calls of Read with slices of one byte, as the line reader of a session makes them, hold every
-- second byte only, and the others neither wait nor are held back.
pub reads_one_byte :
    (c : Conn) (pairs : List (ℕ × ℕ))
    → c.buf ≡ []
    → All (λ q. (q.0 ≢ iac) × (q.1 ≢ iac)) pairs
    → reads (replicate (length pairs) 1) c (one_segment (bytes_of pairs))
      ≡ (c, [], map (λ q. q.0) pairs)
reads_one_byte c [] h plain = refl
reads_one_byte c ((a, b) ∷ pairs) h ((pa, pb), plain) =
    let later = reads_one_byte c pairs h plain in
    ap
      (λ (d : Delivery).
        let (c', left, more) = reads (replicate (length pairs) 1) d.conn d.pending in
        (c', left, d.slice ++ more))
      (read_pair c a b (bytes_of pairs) h pa pb)
    ∙ ap (λ q. (q.0, q.1, a ∷ q.2)) later
