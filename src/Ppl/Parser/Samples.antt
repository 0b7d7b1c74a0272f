-- ===== src/Ppl/Parser/Samples.antt =====
-- The parser on concrete programs, and its theorems at concrete inputs.
use virt_bbs.Prelude.{
  ◌≡◌, ◌≢◌, refl, arith, ◌++◌, false, some, none, List, [], ◌∷◌, Option, codes, equal, String,
}
use virt_bbs.Prelude.Int.{pos}
use virt_bbs.Ppl.Host.{ascii, no_floats, utf8}
use virt_bbs.Ppl.Lexer.{
  Token, TokenKind, tok_eof, tok_ident, tok_eq, tok_integer, tok_minus, tok_star, tok_newline,
  tokenize, tokens, scan, skip_blanks, skip_comment, scan_string, number_runes, ident_runes,
}
use virt_bbs.Ppl.Ast.{
  op_lt, op_add, op_sub, op_and, op_mul, op_not, Expr, int_lit, str_lit, var_expr, bin_expr,
  unary_expr, no_exprs, cons_expr, Nodes, no_nodes, cons_node, assign_stmt, if_stmt, while_stmt,
  call_stmt, no_else_ifs,
}
use virt_bbs.Ppl.Parser.{Outcome, ok, bad_let, peek, peek_raw, next, skip_newlines, is_newline}
use virt_bbs.Ppl.Parser.Stmt.{parse, parse_assign}
use virt_bbs.Ppl.Parser.Let.{parse_assign-bad_let}
use virt_bbs.Ppl.Parser.Total.Program.{parse-ne-out_of_fuel}
use virt_bbs.Ppl.Parser.Precedence.{
  Tree, int_tree, group, node, written, WellNested, tree_expr, parse_expr-written,
}
use virt_bbs.Ppl.Parser.Expr.{
  tok_op, kind_op, precedence, parse_expr, parse_expr_list, parse_arg_list,
}
use virt_bbs.Prelude.Decimal.{parse_int, digits_value}

abbrev var : String → Expr (Unit {0})
var x = var_expr (codes x) no_exprs

abbrev parsed : Option (List Token) → Outcome (Nodes (Unit {0}))
parsed none = Outcome.out_of_fuel
parsed (some toks) = parse ascii no_floats toks

abbrev source : String
source = "WHILE NOT won AND n < 5 * k\n n = n + 1\nWEND\nIF n < 2 THEN PRINT \"a\", n\n"

abbrev program : Nodes (Unit {0})
program =
    cons_node
      (while_stmt
        (bin_expr op_and (unary_expr op_not (var "WON"))
          (bin_expr op_lt (var "N") (bin_expr op_mul (int_lit (pos 5)) (var "K"))))
        (cons_node
          (assign_stmt (codes "N") no_exprs (bin_expr op_add (var "N") (int_lit (pos 1))) 2)
          no_nodes)
        1)
      (cons_node
        (if_stmt (bin_expr op_lt (var "N") (int_lit (pos 2)))
          (cons_node
            (call_stmt (codes "PRINT")
              (cons_expr (str_lit (codes "a")) (cons_expr (var "N") no_exprs)) 4)
            no_nodes)
          no_else_ifs no_nodes 4)
        no_nodes)

tree_of_sample :
    parsed (tokenize ascii (codes source))
    ≡ ok program (record { kind = tok_eof; text = []; line = 5 } ∷ [])
unfolding tokenize tokens scan skip_blanks skip_comment scan_string number_runes ident_runes utf8
    parse parse_expr peek peek_raw next skip_newlines parse_int digits_value parse_expr_list
    parse_arg_list equal
tree_of_sample = refl

abbrev token : TokenKind → String → Token
token k s = record { kind = k; text = codes s; line = 1 }

abbrev name_x : Token
name_x = token tok_ident "X"

abbrev equals : Token
equals = token tok_eq "="

abbrev five : Token
five = token tok_integer "5"

name_named : is_newline name_x.kind ≡ false
unfolding is_newline
name_named = refl

-- LET X = 5
parse_assign-bad_let_example :
    parse_assign ascii no_floats 3 1 (name_x ∷ equals ∷ five ∷ []) ≡ bad_let 1
parse_assign-bad_let_example =
    parse_assign-bad_let ascii no_floats 3 1 name_x equals five [] name_named refl refl

abbrev int : String → Tree
int s = int_tree (codes s) 1

-- 1 - 2 * (3 - 4) - 5
abbrev sum_tree : Tree
sum_tree =
    node (token tok_minus "-") op_sub
      (node (token tok_minus "-") op_sub (int "1") (
        node (token tok_star "*") op_mul (int "2")
          (group 1 1 (node (token tok_minus "-") op_sub (int "3") (int "4")))))
      (int "5")

sum_nested : WellNested ascii sum_tree
unfolding tok_op kind_op precedence
sum_nested =
    let times : WellNested ascii (node (token tok_minus "-") op_sub (int "3") (int "4")) =
      (refl, omega arith, omega arith, tt, tt) in
    (
      refl,
      omega arith,
      omega arith,
      (refl, omega arith, omega arith, tt, (refl, omega arith, omega arith, tt, times)),
      tt,
    )

newline_ends : tok_op ascii (token tok_newline "") ≡ none
unfolding tok_op kind_op
newline_ends = refl

parse_expr-written_example :
    parse_expr ascii no_floats 6 (written sum_tree ++ token tok_newline "" ∷ [])
    ≡ ok (tree_expr ascii no_floats sum_tree) (token tok_newline "" ∷ [])
parse_expr-written_example =
    parse_expr-written ascii no_floats sum_tree 6 (token tok_newline "" ∷ []) sum_nested
      newline_ends (omega arith)

-- IF without its end, and a LET
parse-ne-out_of_fuel_example :
    parse ascii no_floats
      (token tok_ident "IF" ∷ five ∷ token tok_newline "" ∷ name_x ∷ equals ∷ [])
    ≢ Outcome.out_of_fuel
parse-ne-out_of_fuel_example =
    parse-ne-out_of_fuel ascii no_floats
      (token tok_ident "IF" ∷ five ∷ token tok_newline "" ∷ name_x ∷ equals ∷ [])
