-- ===== src/Lib.antt =====
-- mcsh, a C shell: its line editor, extended keys, history list, number texts, expression
-- evaluator, variable tables, command line parser, pattern matcher, list of scheduled events and
-- spelling distance.
--
-- Base holds the Boolean tests, lists, integers and wide-character strings that all parts share. A
-- `Char *` is the list of its characters before the NUL.
--
-- Number is `putn`, `putn1` and `getn` of sh.set.c, and the arithmetic on `tcsh_number_t`, an integer
-- of 64 bits: the operations that the evaluator does in unsigned arithmetic wrap. `strtoll` of the C
-- library is modelled as its manual describes it. Number/RoundTrip has the proofs.
--
-- Expr is sh.exp.c. Expr/Shell has what the evaluator takes from the rest of the shell, a record of
-- functions on a state W: `globone`, which can change it by a command in back quotes, `Gmatch`, the execution of `{ command }` with its status, `stat`
-- and the values of file tests, and the settings `compat_expr` and $parseoctal. `vp` is the list of the
-- words that are left. Isa is `isa` and `isa_next`, FileTest the front part of `filetest`, Arith what
-- each operator computes, Operand `exp6`, Low `exp5` down to `exp2c`, Eval `exp2b` up to `expr`. A loop
-- of a level is `loop`, and a level calls `exp0` again only for a parenthesis, so `expr` hands out one
-- unit of fuel for each word and one more. Expr/Total is about the fuel, Expr/Skip about TEXP_IGNORE.
--
-- Vars is the tables of variables and aliases of sh.set.c. Tree is `struct varent` of sh.h, with the
-- rotations and `balance`; `v_parent` is the way from a node up to the header, a list of frames. Table
-- is `adrof1`, `value1`, `madrof`, `setq`, `unsetv1`, `unsetv` and `unset1`, with `Strcmp` of tc.str.c and
-- `trim` of sh.glob.c. Inorder has the sequence of the variables, Avl the heights, Order the order of
-- names, Lookup the descent, and Update the values of names after each operation. Set is `set1`, with
-- the words that `set -f` and `set -l` take out, and Set/Stored about the value that it stores.
--
-- Parse is sh.parse.c from `syntax` to `syn3`, with `seterror` of sh.err.c, for input that is not a
-- terminal. A pair of pointers into the list of words is the list of the words between them. Simple is
-- the two loops of `syn3`, Syntax the levels. Seven calls lead from one level to the next, so `parse`
-- hands out eight units of fuel for each word, and eight more. Where the end pointer of a group is null
-- or in front of its beginning, the model ends with the result `astray`, which is its own; the source
-- walks on around the circular list of words. Parse/Depth and Parse/Grouped are about the depth of
-- parentheses and the pointers of a group, Parse/Ends about the fuel and the trees.
--
-- Match is `t_pmatch` of sh.glob.c and `globcharcoll` of glob.c, over the locale's functions. Each
-- step takes a character off the pattern, so the fuel is its length and one more. A read behind the
-- end of the pattern or of the string is a result of its own. Match/Chars says which characters are in
-- a class, apart from the code, Sound which pattern matches which string, and Exact that `t_pmatch`
-- tells so.
--
-- Edit is the line editor, the commands of ed.chared.c on the line. Buffer is a buffer of characters
-- with how far it was written, and the loops that copy characters. State has the globals of ed.h, with
-- INBUFSIZE 8192 and InputLim two less, and the kill ring; a pointer that would leave the buffer ends
-- a command with the result `outside`, which is the model's own. Change is `c_insert`, `c_delafter`
-- and `c_delbefore`, Word and Move the words and the motions, Kill the kill ring, Typing the insertion
-- of characters and `InsertStr`, Delete the deletions and yanks, Vi the modes of vi. A command is a
-- function from the editor to the editor and the result (CC_NORM, CC_REFRESH, CC_ERROR, ...);
-- Session is the table of commands, with what the loop of `Inputl` in ed.inputl.c does to Argument
-- after one. The table has more than twice as many commands as are modelled. Edit/Bounds is about the positions in the line, Text and Deleted about its text.
--
-- Keys is the tree of extended keys of ed.xmap.c. `next` and `sibling` are subtrees, as no two nodes
-- share one; the characters that `GetNextChar` reads are a list, whose end is the end of the input.
-- Its functions recurse on the tree and the key, where the code loops over siblings.
--
-- Hist is the history list of sh.hist.c. A pointer to an entry is its position in the list. Hist itself
-- has the list and `discardExcess`, whose loops have the length of the list as fuel, since each turn
-- takes an entry out or goes on by one; Enter has `mergeInsertionPoint`, `enthist` and `savehist`. The
-- answer of the hash table is an argument, the position of what it found. Hash is the table by itself,
-- with the places that an insertion and a search go through; the fuel of the search is the number of
-- places, since further turns come to the same ones.
--
-- Sched is `dosched` of tc.sched.c, over a clock that holds what `time` and `localtime` give, and
-- Sched/Run is `sched_run`, over a record that executes the words of an event; its fuel is the number
-- of events and one more, which counts no event that a command adds. Spell is `spdist` of tw.spell.c.
-- Tests applies the theorems to concrete inputs.
--
-- Not modelled: memory allocation and the unwinding of errors, which are values here; the status
-- values of file tests; alias expansion; the lexer, history references, directory stack and
-- substitutions; the execution of commands and everything behind it; the walk over directories; of
-- the line editor its history and searches, completion, spelling correction, macros, quoting and
-- redrawing; the text of extended keys and the keys of the terminal; of the history the removal
-- from its hash table and the growth of it, its file, printing, the renumbering after a merge and
-- the entries of HIST_PURGE.
pub mod Base
pub mod Number
pub mod Expr
pub mod Vars
pub mod Parse
pub mod Spell
pub mod Sched
pub mod Match
pub mod Tests
pub mod Edit
pub mod Keys
pub mod Hist
