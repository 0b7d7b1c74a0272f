-- ===== src/Lib.antt =====
-- The Telnet connection, the PPL language, ZMODEM, the registry of nodes, and FidoNet parts of
-- VirtBBS.
--
-- VirtBBS is a bulletin board server. A caller comes in through a Telnet connection
-- (internal/telnet), which hands bytes to the session; the session stands in the registry of nodes
-- (internal/node), through which other sessions send it texts or close it, and sends and receives
-- files over the connection by ZMODEM (internal/transfer). The sysop's scripts are programs in PPL
-- (internal/ppl): a source is cut into tokens by the lexer, made into a tree by the parser, and run
-- by the interpreter, which reads and writes the BBS through the functions of its `Environment`.
-- Mail comes and goes in FidoNet packets (internal/fido), whose messages may hold files in uuencoded
-- blocks (internal/fido/uuencode).
--
-- - Prelude: what the modules share: tests on native numbers, lists, byte texts, integers with Go's
--   wrapping `int64` (Prelude/Int), and decimal texts (Prelude/Decimal).
-- - Telnet: internal/telnet/server.go. `Conn` has the fields of the struct and the segments sent so
--   far in place of the socket; `negotiate`, `write`, `handle_option`, `handle_subneg` and `read` are
--   `Negotiate`, `Write`, `handleOption`, `handleSubneg` and `Read`. One call of `read` is given the
--   length of its slice and the segments that wait in the socket, of which `raw_read` takes the first
--   as far as it fits; `decode` is what is done with the bytes of that. `loop` takes the number of
--   those bytes as fuel, and each of its rounds takes a byte at least. Children: Scan, Segments, Reads,
--   Held, Escape and Window.
-- - Ppl/Host: what the language takes from Go's packages: the tables of `unicode`, the functions of
--   `strings` on them, and `float64`, as records that are arguments of the definitions. `ascii` and
--   `no_floats` are instances for the samples.
-- - Ppl/Lexer: internal/ppl/lexer.go. The position in the source is the list of the runes that are
--   left. `scan` takes fuel for its calls of itself, one more than the runes left; `tokens` is the
--   loop of `Tokenize`, whose rounds its fuel bounds. Children: Total and Strings.
-- - Ppl/Ast: internal/ppl/ast.go.
-- - Ppl/Parser: internal/ppl/parser.go. The position is the list of the tokens that are left. Expr has
--   the expressions and Stmt the statements. Loops and recursion share one fuel, one more than the
--   tokens. Children: Total (with Exprs, Stmts and Program), Precedence and Let.
-- - Ppl/Types: internal/ppl/types.go.
-- - Ppl/Interpreter: internal/ppl/interpreter.go. `State` has the variables, the arrays and the fields
--   of `Environment` that a program writes; `Info` has those it only reads; `Host` has the functions
--   of `Environment`, the clock, the files and the random numbers, over a state of the world. An
--   `Outcome` is a result, a Go error with the value that stands beside it, or a panic. Builtins has
--   the functions on values, Eval `evalExpr`, `evalBin`, `evalFuncCall` and `callFunc`, Calls
--   `execCall` and `callProc`, Exec `execStmts`, `execStmt` and `Run`. A part that calls another goes
--   through a `Machine`; `machine n` allows a depth of `n` calls, the next round of a loop being one.
--   A program may run for ever, so no fuel is enough for all: a statement about a run holds at each
--   depth, or at the depth that it names. Children: Scope, Gosub, Loops and Fuel, and of Fuel:
--   Evaluation, Execution, Depth and Endless.
-- - Fido/Address, Fido/Merge: internal/fido/address.go, which stands alone. `strings.TrimSpace` and
--   `sort.Slice` are arguments. Children: Address/RoundTrip and Merge/Union.
-- - Fido/Routes: the patterns and `MatchRoute` of internal/fido/routes.go, on the list of routes that
--   the database holds; it parses addresses by Fido/Address. Children: Best and Patterns.
-- - Fido/Strings: the functions of package `strings` that the next three use, on ASCII texts.
--   Children: Trim and Split.
-- - Fido/Uuencode: internal/fido/uuencode/uuencode.go, the whole file. `decode_lines` is the outer loop
--   of `Decode` and `read_block` the inner one; the outer takes one more than the lines as fuel, and
--   each round takes a line. Children: Lines, Blocks, Parts and RoundTrip.
-- - Fido/Packet: internal/fido/packet.go, with the bodies (Packet/Body) and the line endings of
--   internal/fido/lines.go. The position in a packet is the bytes that are left. `read_messages` takes
--   one more than the bytes as fuel; Packet/Ending shows that more makes no difference. The clock is
--   an argument, `Now`. Children: Body, Fields, RoundTrip and Ending.
-- - Fido/Nodelist: the lines of a nodelist, which internal/fido/nodelistdiff.go reads and
--   internal/fido/nodelistgen.go writes (`nodelistKeyword`, `nlEncode` and `nlDecode` stand in other
--   files there). `Current` is what the pointers to the zone and the net of the lines so far hold.
--   Fido/Nodelist/Diff has the loop of `ApplyNodelistDiff`, the database being an argument: a function
--   that executes a statement or fails. Children: Fields, RoundTrip, Diff, and Entries of Diff.
-- - Transfer: internal/transfer/zmodem.go. Crc has the checksums, Frames what is written, Reader and
--   Scan the reading of frames, Files/Send and Files/Receive `SendFile` and `ReceiveFile`. A reader
--   takes the bytes that the peer sends and returns its value with the bytes behind it; a `Link` has
--   these bytes and those written. The name that is given to `send_file` is the path of an open file,
--   whose contents and time of change are arguments; `receive_file` is given the files of its
--   directory as a function. Every loop that reads takes one more than the bytes left as fuel, and
--   takes a byte at least in each round (Total, Files/Ending). Children: Subpackets, Headers, LineFeed,
--   Total, and of Files: Base, Names, Chunks, Session, Delivery, Cases, Safety, Ending and Empty.
-- - Node: internal/node/registry.go. A handle is an index of a list, so that a session keeps its
--   handle after it has left the registry. `Step` is what sessions and callers do, in any order; the
--   locks make each operation one step. `finish` has no result where `Finish` panics. Children: Safety
--   and Chat.
--
-- Not modelled: the sockets and the accept loop of the Telnet server, memory that runs out, texts that
-- are not valid UTF-8 in the built-in functions on characters, texts that are not ASCII in the
-- functions of Fido/Strings, errors of the disk and of writes in ZMODEM transfers, and the parts of
-- VirtBBS around these: the tosser, most of the nodelists and BinkP of FidoNet, messages, file areas, users, web,
-- doors and configuration, most of which is SQL and I/O.
pub mod Prelude
pub mod Telnet
pub mod Ppl
pub mod Fido
pub mod Transfer
pub mod Node
