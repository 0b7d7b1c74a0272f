-- ===== src/Ppl/Parser/Total.antt =====
-- That the parser ends: the rules on what a parser leaves, and the lemmas on the look at the tokens.
pub mod Exprs
pub mod Stmts
pub mod Program
use virt_bbs.Prelude.{
  ℕ, suc, ◌-◌, ◌≤◌, ◌<◌, ◌≡◌, refl, Bool, true, false, List, [], ◌∷◌, arith, length,
}
use virt_bbs.Ppl.Lexer.{Token}
use virt_bbs.Ppl.Parser.{
  Outcome, ok, bad_let, out_of_fuel, P, continue, ◌>>=◌, pure, head, tail, skip, is_newline, peek,
  peek_raw, next, skip_newlines, is_eof,
}

-- An outcome with fuel left, and at most `n` tokens; an error ends the parse.
abbrev pub Fits : {A : Type 0} → ℕ → Outcome A → Type 0
Fits n (ok a rest) = length rest ≤ n
Fits n (bad_let line) = Unit
Fits n out_of_fuel = ⊥

pub Fits-mono : {A : Type 0} (m n : ℕ) (r : Outcome A) → m ≤ n → Fits m r → Fits n r
Fits-mono m n (ok a rest) h f = omega arith
Fits-mono m n (bad_let line) h f = f
Fits-mono m n out_of_fuel h f = f

pub Fits-continue :
    {A B : Type 0} (m n : ℕ) (r : Outcome A) (k : A → P B)
    → Fits m r
    → ((a : A) (rest : List Token) → length rest ≤ m → Fits n (k a rest))
    → Fits n (continue r k)
Fits-continue m n (ok a rest) k f h = h a rest f
Fits-continue m n (bad_let line) k f h = f
Fits-continue m n out_of_fuel k f h = f

pub length-skip : (toks : List Token) → length (skip toks) ≤ length toks
unfolding skip
length-skip [] = omega arith
length-skip (t ∷ ts) = ground (arith, length-skip ts)

pub length-tail : (toks : List Token) → length (tail toks) ≤ length toks - 1
length-tail [] = omega arith
length-tail (t ∷ ts) = omega arith

-- What `next` leaves.
pub length-next : (toks : List Token) → length (tail (skip toks)) ≤ length toks - 1
length-next toks = omega (arith, length-tail (skip toks), length-skip toks)

pub ruleset lengths = (arith, length-tail, length-skip, length-next)

pub skip_idem : (toks : List Token) → skip (skip toks) ≡ skip toks
unfolding skip
skip_idem [] = refl
skip_idem (t ∷ ts) = ground (arith, skip_idem ts)

pub skip_id : (toks : List Token) → is_newline (head toks).kind ≡ false → skip toks ≡ toks
unfolding skip
skip_id [] h = refl
skip_id (t ∷ ts) h = rw (h, skip)
