-- ===== src/Telnet/Segments.antt =====
-- What the loop of `Read` finds in a stream does not depend on how the stream is cut.
use virt_bbs.Prelude.{
  ℕ, zero, suc, ◌≤◌, ◌≡◌, refl, sym, ap, ◌∙◌, ◌⊎◌, inl, inr, [], ◌∷◌, ◌++◌, append-nil,
  append_assoc, arith, Bytes, length,
}
use virt_bbs.Telnet.{
  Conn, Event, held, byte, option, subneg, ignored, scan, handle_option, handle_subneg, loop,
  decode,
}
use virt_bbs.Telnet.Scan.{extend, rest_length, rest_length-scan, scan-append}

-- One round of the loop on an event, the rest of the loop being `k`.
abbrev pub round :
    (Conn → Bytes → Bytes → Conn × Bytes) → Conn → Bytes → Bytes → Event → Conn × Bytes
round k c out raw held = (record c { buf = c.buf ++ raw }, out)
round k c out raw (byte x rest) = k c (out ++ x ∷ []) rest
round k c out raw (option cmd opt rest) = k (handle_option cmd opt c) out rest
round k c out raw (subneg d rest) = k (handle_subneg d c) out rest
round k c out raw (ignored rest) = k c out rest

loop-cons :
    (f : ℕ) (c : Conn) (out : Bytes) (b : ℕ) (r : Bytes)
    → loop (suc f) c out (b ∷ r) ≡ round (loop f) c out (b ∷ r) (scan b r)
unfolding loop
loop-cons f c out b r = ground arith

-- Two ways to go on that agree on what is left give the same round.
round-eq :
    {k l : Conn → Bytes → Bytes → Conn × Bytes} (n : ℕ) (c : Conn) (out raw : Bytes) (e : Event)
    → rest_length e ≤ n
    → ((c' : Conn) (o r : Bytes) → length r ≤ n → k c' o r ≡ l c' o r)
    → round k c out raw e ≡ round l c out raw e
round-eq n c out raw held h same = refl
round-eq n c out raw (byte x rest) h same = same _ _ rest h
round-eq n c out raw (option cmd opt rest) h same = same _ _ rest h
round-eq n c out raw (subneg d rest) h same = same _ _ rest h
round-eq n c out raw (ignored rest) h same = same _ _ rest h

-- Fuel for each byte is enough: more changes nothing.
pub loop-fuel :
    (f g : ℕ) (c : Conn) (out raw : Bytes)
    → length raw ≤ f
    → length raw ≤ g
    → loop f c out raw ≡ loop g c out raw
loop-fuel zero zero c out raw p q = refl
loop-fuel zero (suc g) c out [] p q = unfold loop in refl
loop-fuel zero (suc g) c out (b ∷ r) p q = elim p [ ]
loop-fuel (suc f) zero c out [] p q = unfold loop in refl
loop-fuel (suc f) zero c out (b ∷ r) p q = elim q [ ]
loop-fuel (suc f) (suc g) c out [] p q = unfold loop in refl
loop-fuel (suc f) (suc g) c out (b ∷ r) p q =
    rw (loop-cons f, loop-cons g)
      (round-eq (length r) c out (b ∷ r) (scan b r) (rest_length-scan b r)
        λ c' o x h. loop-fuel f g c' o x (omega arith) (omega arith))

-- The loop with the fuel that `decode` gives it.
pub run : Conn → Bytes → Bytes → Conn × Bytes
run c out raw = loop (length raw) c out raw

pub run-nil : (c : Conn) (out : Bytes) → run c out [] ≡ (c, out)
unfolding run loop
run-nil c out = refl

pub run-cons :
    (c : Conn) (out : Bytes) (b : ℕ) (r : Bytes)
    → run c out (b ∷ r) ≡ round run c out (b ∷ r) (scan b r)
unfolding run
run-cons c out b r =
    loop-cons (length r) c out b r
    ∙ round-eq (length r) c out (b ∷ r) (scan b r) (rest_length-scan b r)
        (λ c' o x h. loop-fuel (length r) (length x) c' o x h (omega arith))

-- The data so far stands in front of what the rest of the bytes give.
abbrev behind : Bytes → Conn × Bytes → Conn × Bytes
behind o p = (p.0, o ++ p.1)

round-out :
    (n : ℕ) (c : Conn) (o out raw : Bytes) (e : Event)
    → rest_length e ≤ n
    → ((c' : Conn) (o' r : Bytes) → length r ≤ n → run c' (o ++ o') r ≡ behind o (run c' o' r))
    → round run c (o ++ out) raw e ≡ behind o (round run c out raw e)
round-out n c o out raw held h ih = refl
round-out n c o out raw (byte x rest) h ih =
    rw (append_assoc o out (x ∷ [])) (ih c (out ++ x ∷ []) rest h)
round-out n c o out raw (option cmd opt rest) h ih = ih _ out rest h
round-out n c o out raw (subneg d rest) h ih = ih _ out rest h
round-out n c o out raw (ignored rest) h ih = ih _ out rest h

run-out :
    (n : ℕ) (c : Conn) (o out raw : Bytes)
    → length raw ≤ n
    → run c (o ++ out) raw ≡ behind o (run c out raw)
run-out n c o out [] h = rw (run-nil c (o ++ out), run-nil c out)
run-out zero c o out (b ∷ r) h = elim h [ ]
run-out (suc n) c o out (b ∷ r) h =
    rw (run-cons c (o ++ out), run-cons c out)
      (round-out n c o out (b ∷ r) (scan b r) (omega (arith, rest_length-scan b r))
        λ c' o' x q. run-out n c' o o' x q)

pub handle_option-buf : (cmd opt : ℕ) (c : Conn) → (handle_option cmd opt c).buf ≡ c.buf
unfolding handle_option
handle_option-buf cmd opt c = ground arith

pub handle_subneg-buf : (d : Bytes) (c : Conn) → (handle_subneg d c).buf ≡ c.buf
unfolding handle_subneg
handle_subneg-buf d c = ground arith

-- To go on with `s` from a state that may hold the start of a command.
abbrev resume : Bytes → Conn × Bytes → Conn × Bytes
resume s p = run (record p.0 { buf = [] }) p.1 (p.0.buf ++ s)

round-resume :
    (n : ℕ) (c : Conn) (out raw s : Bytes) (e : Event)
    → c.buf ≡ []
    → rest_length e ≤ n
    → ((c' : Conn) (o r : Bytes)
        → c'.buf ≡ []
        → length r ≤ n
        → run c' o (r ++ s) ≡ resume s (run c' o r))
    → (e ≡ held → run c out (raw ++ s) ≡ resume s (record c { buf = c.buf ++ raw }, out))
    → (e ≡ held) ⊎ (run c out (raw ++ s) ≡ round run c out (raw ++ s) (extend s e))
    → run c out (raw ++ s) ≡ resume s (round run c out raw e)
round-resume n c out raw s held none_held h ih cut whole = cut refl
round-resume n c out raw s (byte x rest) p h ih cut (inl e) = cc
round-resume n c out raw s (byte x rest) p h ih cut (inr e) = e ∙ ih c (out ++ x ∷ []) rest p h
round-resume n c out raw s (option cmd opt rest) p h ih cut (inl e) = cc
round-resume n c out raw s (option cmd opt rest) p h ih cut (inr e) =
    e ∙ ih _ out rest (handle_option-buf cmd opt c ∙ p) h
round-resume n c out raw s (subneg d rest) p h ih cut (inl e) = cc
round-resume n c out raw s (subneg d rest) p h ih cut (inr e) =
    e ∙ ih _ out rest (handle_subneg-buf d c ∙ p) h
round-resume n c out raw s (ignored rest) p h ih cut (inl e) = cc
round-resume n c out raw s (ignored rest) p h ih cut (inr e) = e ∙ ih c out rest p h

pub clear_id : (c : Conn) → c.buf ≡ [] → record c { buf = [] } ≡ c
clear_id c p = ground arith

run-append :
    (n : ℕ) (c : Conn) (out x s : Bytes)
    → c.buf ≡ []
    → length x ≤ n
    → run c out (x ++ s) ≡ resume s (run c out x)
run-append n c out [] s p h = rw (run-nil c out, p, clear_id c p)
run-append zero c out (b ∷ r) s p h = elim h [ ]
run-append (suc n) c out (b ∷ r) s p h = rw (run-cons c out b r) (
    round-resume n c out (b ∷ r) s (scan b r) p (omega (arith, rest_length-scan b r))
      (λ c' o x p' q. run-append n c' o x s p' q) (λ e. rw (p, clear_id c p))
      (whole (scan-append b r s)))
  where
    whole :
        (scan b r ≡ held) ⊎ (scan b (r ++ s) ≡ extend s (scan b r))
        → (scan b r ≡ held)
          ⊎ (run c out ((b ∷ r) ++ s) ≡ round run c out ((b ∷ r) ++ s) (extend s (scan b r)))
    whole (inl e) = inl e
    whole (inr e) = inr (run-cons c out b (r ++ s) ∙ rw e)

pub decode-run :
    (c : Conn) (x : ℕ) (xs : Bytes)
    → decode c (x ∷ xs) ≡ run (record c { buf = [] }) [] (c.buf ++ (x ∷ xs))
unfolding decode run
decode-run c x xs = refl

pub decode-nil : (c : Conn) → decode c [] ≡ (c, [])
unfolding decode
decode-nil c = refl

pub decode-eq-run : (c : Conn) (raw : Bytes) → c.buf ≡ [] → decode c raw ≡ run c [] raw
decode-eq-run c [] p = decode-nil c ∙ sym (run-nil c [])
decode-eq-run c (x ∷ xs) p = decode-run c x xs ∙ rw (p, clear_id c p)

-- What two reads in a row deliver, and the state after them.
abbrev pub decode_twice : Conn → Bytes → Bytes → Conn × Bytes
decode_twice c a b =
    let (c', out) = decode c a in let (c'', more) = decode c' b in (c'', out ++ more)

resume-decode :
    (p : Conn × Bytes) (y : ℕ) (ys : Bytes) → resume (y ∷ ys) p ≡ behind p.1 (decode p.0 (y ∷ ys))
resume-decode (c, out) y ys =
    ap (λ o. run (record c { buf = [] }) o (c.buf ++ (y ∷ ys))) (sym (append-nil out))
    ∙ run-out (length (c.buf ++ (y ∷ ys))) (record c { buf = [] }) out [] _ (omega arith)
    ∙ ap (behind out) (sym (decode-run c y ys))

-- Reading a stream in two segments, cut anywhere, leaves the connection in the same state and
-- delivers the same data as reading it in one.
pub decode-append : (c : Conn) (a b : Bytes) → decode c (a ++ b) ≡ decode_twice c a b
decode-append c [] b = rw decode-nil
decode-append c (x ∷ xs) [] = rw (append-nil, decode-nil, append-nil)
decode-append c (x ∷ xs) (y ∷ ys) =
    let raw = c.buf ++ (x ∷ xs) in
    decode-run c x (xs ++ (y ∷ ys))
    ∙ ap (run (record c { buf = [] }) []) (sym (append_assoc c.buf (x ∷ xs) (y ∷ ys)))
    ∙ run-append (length raw) (record c { buf = [] }) [] raw (y ∷ ys) refl (omega arith)
    ∙ resume-decode (run (record c { buf = [] }) [] raw) y ys
    ∙ ap (λ p. behind p.1 (decode p.0 (y ∷ ys))) (sym (decode-run c x xs))
