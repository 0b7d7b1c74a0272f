-- ===== src/Telnet/Held.antt =====
-- internal/telnet/server.go: what `Read` holds back in `buf`, and how much data it can find.
use virt_bbs.Prelude.{
  ◌≡◌, refl, sym, subst, ◌∙◌, ℕ, zero, suc, ◌+◌, ◌*◌, ◌≤◌, none, List, [], ◌∷◌, ◌++◌, Bytes, length,
  length-append, length-drop, take, leb, All, Bool-cases, inl, inr, arith,
}
use virt_bbs.Telnet.{
  Conn, Event, held, byte, option, subneg, ignored, scan, find_se, handle_option, handle_subneg,
  decode, raw_read, read,
}
use virt_bbs.Telnet.Scan.{find_se-cons, found_length, find_se-length, rest_length, rest_length-scan}
use virt_bbs.Telnet.Segments.{
  run, run-nil, run-cons, round, decode-run, decode-nil, handle_option-buf, handle_subneg-buf,
}
use virt_bbs.Telnet.Reads.{reads, NoOverrun}

-- Nothing, or the start of a command that is not whole.
abbrev pub IsHeldBack : Bytes → Type 0
IsHeldBack [] = Unit
IsHeldBack (b ∷ r) = scan b r ≡ held

abbrev produced : Event → ℕ
produced (byte x rest) = 1
produced _ = 0

round-length :
    (n k : ℕ) (c : Conn) (out raw : Bytes) (e : Event)
    → produced e + rest_length e ≤ n
    → rest_length e ≤ k
    → ((c' : Conn) (o r : Bytes) → length r ≤ k → length (run c' o r).1 ≤ length o + length r)
    → length (round run c out raw e).1 ≤ length out + n
round-length n k c out raw held h l ih = omega arith
round-length n k c out raw (byte x rest) h l ih =
    omega (arith, h, ih c (out ++ x ∷ []) rest l, length-append out (x ∷ []))
round-length n k c out raw (option cmd opt rest) h l ih =
    omega (arith, h, ih (handle_option cmd opt c) out rest l)
round-length n k c out raw (subneg d rest) h l ih =
    omega (arith, h, ih (handle_subneg d c) out rest l)
round-length n k c out raw (ignored rest) h l ih = omega (arith, h, ih c out rest l)

produced-scan : (b : ℕ) (r : Bytes) → produced (scan b r) + rest_length (scan b r) ≤ suc (length r)
produced-scan b r = small (scan b r) (rest_length-scan b r)
  where
    small : (e : Event) → rest_length e ≤ length r → produced e + rest_length e ≤ suc (length r)
    small held h = omega arith
    small (byte x rest) h = omega arith
    small (option cmd opt rest) h = omega arith
    small (subneg d rest) h = omega arith
    small (ignored rest) h = omega arith

-- The loop finds no more data than there are bytes.
run-length :
    (n : ℕ) (c : Conn) (out raw : Bytes)
    → length raw ≤ n
    → length (run c out raw).1 ≤ length out + length raw
run-length n c out [] h = rw (run-nil c out) (omega arith)
run-length zero c out (b ∷ r) h = elim h [ ]
run-length (suc n) c out (b ∷ r) h = rw (run-cons c out b r) (
    round-length (suc (length r)) (length r) c out (b ∷ r) (scan b r) (produced-scan b r)
      (rest_length-scan b r) (λ c' o x q. run-length n c' o x (omega arith)))

round-IsHeldBack :
    (k : ℕ) (c : Conn) (out : Bytes) (b : ℕ) (r : Bytes) (e : Event)
    → scan b r ≡ e
    → c.buf ≡ []
    → rest_length e ≤ k
    → ((c' : Conn) (o x : Bytes) → c'.buf ≡ [] → length x ≤ k → IsHeldBack (run c' o x).0.buf)
    → IsHeldBack (round run c out (b ∷ r) e).0.buf
round-IsHeldBack k c out b r held is_held p l ih =
    subst (λ (t : Bytes). IsHeldBack (t ++ (b ∷ r))) (sym p) is_held
round-IsHeldBack k c out b r (byte x rest) e p l ih = ih c (out ++ x ∷ []) rest p l
round-IsHeldBack k c out b r (option cmd opt rest) e p l ih =
    ih (handle_option cmd opt c) out rest (handle_option-buf cmd opt c ∙ p) l
round-IsHeldBack k c out b r (subneg d rest) e p l ih =
    ih (handle_subneg d c) out rest (handle_subneg-buf d c ∙ p) l
round-IsHeldBack k c out b r (ignored rest) e p l ih = ih c out rest p l

-- What the loop holds back is the start of a command.
run-IsHeldBack :
    (n : ℕ) (c : Conn) (out raw : Bytes)
    → c.buf ≡ []
    → length raw ≤ n
    → IsHeldBack (run c out raw).0.buf
run-IsHeldBack n c out [] p h = rw (run-nil c out, p) tt
run-IsHeldBack zero c out (b ∷ r) p h = elim h [ ]
run-IsHeldBack (suc n) c out (b ∷ r) p h = rw (run-cons c out b r) (
    round-IsHeldBack (length r) c out b r (scan b r) refl p (rest_length-scan b r)
      (λ c' o x q l. run-IsHeldBack n c' o x q (omega arith)))

pub decode-IsHeldBack :
    (c : Conn) (raw : Bytes) → IsHeldBack c.buf → IsHeldBack (decode c raw).0.buf
decode-IsHeldBack c [] h = rw (decode-nil c) h
decode-IsHeldBack c (x ∷ xs) h = rw (decode-run c x xs) (
    run-IsHeldBack (length (c.buf ++ (x ∷ xs))) (record c { buf = [] }) [] (c.buf ++ (x ∷ xs)) refl
      (omega arith))

-- Where bytes hold no end of a subnegotiation, one that later bytes bring stands in these.
find_se-rest : (r s : Bytes) → find_se r ≡ none → found_length (find_se (r ++ s)) ≤ length s
find_se-rest [] s h = find_se-length s
find_se-rest (x ∷ []) [] h = ground (arith, h)
find_se-rest (x ∷ []) (y ∷ s) h = ground (arith, find_se-cons x y s, find_se-length (y ∷ s))
find_se-rest (x ∷ y ∷ r) s h =
    ground (arith, find_se-cons x y r, find_se-cons x y (r ++ s), find_se-rest (y ∷ r) s, h)

-- A command that is cut gives, with later bytes, no more data than there are of these.
scan-rest :
    (b : ℕ) (r s : Bytes)
    → scan b r ≡ held
    → produced (scan b (r ++ s)) + rest_length (scan b (r ++ s)) ≤ length s
unfolding scan
scan-rest b [] [] h = ground (arith, h)
scan-rest b [] (c ∷ []) h = ground (arith, h, find_se-length [])
scan-rest b [] (c ∷ d ∷ s) h = ground (arith, h, find_se-length (d ∷ s))
scan-rest b (c ∷ []) [] h = ground (arith, h, find_se-rest [] [])
scan-rest b (c ∷ []) (d ∷ s) h = ground (arith, h, find_se-rest [] (d ∷ s))
scan-rest b (c ∷ d ∷ r) s h = ground (arith, h, find_se-rest (d ∷ r) s)

run_start : (c : Conn) (buf a : Bytes) → IsHeldBack buf → length (run c [] (buf ++ a)).1 ≤ length a
run_start c [] a h = omega (arith, run-length (length a) c [] a (omega arith))
run_start c (b ∷ r) a h =
    let bound =
      round-length (length a) (length (r ++ a)) c [] (b ∷ (r ++ a)) (scan b (r ++ a))
        (scan-rest b r a h) (rest_length-scan b (r ++ a))
        (λ c' o x q. run-length (length x) c' o x (omega arith)) in
    rw (run-cons c [] b (r ++ a)) (omega (arith, bound))

decode-length : (c : Conn) (a : Bytes) → IsHeldBack c.buf → length (decode c a).1 ≤ length a
decode-length c [] h = rw (decode-nil c) (omega arith)
decode-length c (x ∷ xs) h =
    rw (decode-run c x xs) (run_start (record c { buf = [] }) c.buf (x ∷ xs) h)

abbrev pub AtMost : ℕ → List Bytes → Type 0
AtMost k = All (λ segment. length segment ≤ k)

length-take_all : (n : ℕ) (s : Bytes) → length (take n s) ≤ length s
length-take_all zero s = omega arith
length-take_all (suc n) [] = omega arith
length-take_all (suc n) (b ∷ s) = omega (arith, length-take_all n s)

raw_read-AtMost :
    (room k : ℕ) (pending : List Bytes)
    → AtMost k pending
    → (length (raw_read room pending).0 ≤ k) × AtMost k (raw_read room pending).1
unfolding raw_read
raw_read-AtMost room k [] h = (omega arith, tt)
raw_read-AtMost room k (a ∷ pending) (h, more) = (
  omega (arith, h, length-take_all room a),
  elim (Bool-cases (leb (length a) room)) [
    | inl e ↦ rw e more
    | inr e ↦ rw e (omega (arith, h, length-drop room a), more)
  ],
)

all_short :
    (room : ℕ) (slices : List ℕ) (pending : List Bytes)
    → All (λ len_p. AtMost len_p pending) slices
    → All (λ len_p. AtMost len_p (raw_read room pending).1) slices
all_short room [] pending h = tt
all_short room (len_p ∷ slices) pending (h, more) =
    ((raw_read-AtMost room len_p pending h).1, all_short room slices pending more)

-- If the bytes that a connection holds back are nothing or the start of a command, as on a new
-- connection, and no segment that waits is longer than one of the slices, then no call of Read
-- returns more than its slice holds, and what is held back behind the calls is again of this kind.
pub reads_short :
    (slices : List ℕ) (c : Conn) (pending : List Bytes)
    → IsHeldBack c.buf
    → All (λ len_p. AtMost len_p pending) slices
    → NoOverrun slices c pending × IsHeldBack (reads slices c pending).0.buf
unfolding read
reads_short [] c pending h short = (tt, h)
reads_short (len_p ∷ slices) c pending h (fits, short) =
    let (raw, left) = raw_read (len_p * 2) pending in
    let c' = (decode c raw).0 in
    let (small, _) = raw_read-AtMost (len_p * 2) len_p pending fits in
    let (rest, start) =
      reads_short slices c' left (decode-IsHeldBack c raw h)
        (all_short (len_p * 2) slices pending short) in
    ((omega (arith, decode-length c raw h, small), rest), start)
