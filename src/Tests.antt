-- ===== src/Tests.antt =====
-- The theorems on concrete inputs.
pub mod Editor
pub mod KeyMap
pub mod Commands
use Prim.Native.String.{String}
use mcsh.Base.{
  All, ◌↔◌, ◌^◌, ℕ, suc, ◌+◌, true, false, none, some, List, [], ◌∷◌, Str, codes, eq, negsuc, sub_ℕ,
  ◌≡◌, refl, arith, ◌⊎◌, ◌<◌, ◌*◌,
}
use mcsh.Number.{putn, getn}
use mcsh.Number.RoundTrip.{getn-putn}
use mcsh.Expr.Shell.{Shell, Ignore, done}
use mcsh.Expr.Eval.{expr, exp0}
use mcsh.Expr.Skip.{Still}
use mcsh.Expr.Skip.Levels.{exp0-Quiet}
use mcsh.Expr.Total.{Ends}
use mcsh.Expr.Total.Whole.{expr-Ends}
use mcsh.Vars.Tree.{Var, Tree, leaf, node, even, Way, from_right, right, plug, balance}
use mcsh.Vars.Table.{s_strcmp, adrof1, setq, unsetv, new_var}
use mcsh.Vars.Inorder.{to_list, to_list-balance}
use mcsh.Vars.Order.{lookup}
use mcsh.Vars.Avl.Table.{OkAvl, setq-OkAvl, unsetv-OkAvl}
use mcsh.Vars.Lookup.{IsSorted, adrof1-eq-lookup}
use mcsh.Vars.Update.{SetqMeets, UnsetvMeets, setq-SetqMeets, unsetv-UnsetvMeets}
use mcsh.Parse.Syntax.{parse, syntax, skip_empty, scan0, split_at, astray}
use mcsh.Parse.Simple.{save_words, word_between, step_in, at_end}
use mcsh.Parse.Command.{seterror, specp, too_many_rp}
use mcsh.Parse.WellFormed.{Good}
use mcsh.Parse.Ends.{parse-Good}
use mcsh.Spell.{Slip, spdist, spdist-Slip}
use mcsh.Sched.{Events, Clock, difference, dosched}
use mcsh.Sched.Order.{Sorted, SortedOutcome, dosched-Sorted, difference-clock}
use mcsh.Sched.Run.{
  Runner, finished, sched_run, due_events, later_events, run_all, sched_run-run_all,
}
use mcsh.Vars.Set.{set1, was_set}
use mcsh.Vars.Set.Stored.{IsUnquoted, Stored, set1-Stored}
use mcsh.Vars.Table.{trim, trim_char}
use mcsh.Match.{Locale, t_pmatch}
use mcsh.Match.Exact.{Told, t_pmatch-Told}
use mcsh.Match.Fuel

abbrev words : List String → List Str
words [] = []
words (s ∷ ss) = codes s ∷ words ss

getn-putn_example : getn true (putn (negsuc 41)) ≡ some (negsuc 41)
getn-putn_example = getn-putn true (negsuc 41) (omega arith, omega arith)

-- A shell whose state counts the commands run.
abbrev counting : Shell ℕ
counting = record {
  compat = false;
  parse_octal = false;
  globone = λ w s. done (s, w);
  gmatch = λ s p. done (eq s p);
  run = λ cs w. done (true, suc w);
  stat = λ w s. false;
  file_value = λ w cp s. done [];
}

abbrev sum : List Str
sum = words ("9" ∷ "-" ∷ "(" ∷ "3" ∷ "-" ∷ "2" ∷ ")" ∷ [])

expr-Ends_example : Ends 7 (expr counting sum 0)
expr-Ends_example = expr-Ends counting sum 0

abbrev skipping : Ignore
skipping = record { skip = true; noglob = false }

abbrev braces : List Str
braces = words ("1" ∷ "||" ∷ "{" ∷ "ls" ∷ "}" ∷ [])

exp0-Quiet_example : Still counting 0 (exp0 counting 6 skipping braces 0)
exp0-Quiet_example = exp0-Quiet counting 6 skipping braces 0 refl

abbrev var : String → ℕ → Var
var s flags = record { name = codes s; vec = []; flags = flags }

abbrev table : Tree
table = node leaf (var "cwd" 0) right (node leaf (var "path" 1) even leaf)

abbrev table_IsSorted : IsSorted table
unfolding to_list s_strcmp
table_IsSorted = ((refl, tt), (tt, tt))

adrof1-eq-lookup_example : adrof1 (codes "path") table ≡ lookup (codes "path") (to_list table)
adrof1-eq-lookup_example = adrof1-eq-lookup (codes "path") table table_IsSorted

setq-SetqMeets_example :
    SetqMeets
      (codes "user")
      (new_var (codes "user") (words ("me" ∷ [])) 0)
      table
      (setq (codes "user") (words ("me" ∷ [])) table 0)
setq-SetqMeets_example = setq-SetqMeets (codes "user") (words ("me" ∷ [])) table 0 table_IsSorted

unsetv-UnsetvMeets_example : UnsetvMeets (codes "cwd") table (unsetv (codes "cwd") table)
unsetv-UnsetvMeets_example = unsetv-UnsetvMeets (codes "cwd") table table_IsSorted

setq-OkAvl_example : OkAvl (setq (codes "user") (words ("me" ∷ [])) table 0)
setq-OkAvl_example =
    setq-OkAvl (codes "user") (words ("me" ∷ [])) table 0 (tt, (tt, tt, refl), refl)

unsetv-OkAvl_example : OkAvl (unsetv (codes "cwd") table)
unsetv-OkAvl_example = unsetv-OkAvl (codes "cwd") table (tt, (tt, tt, refl), refl)

abbrev way_up : Way
way_up = from_right leaf (var "path" 0) right ∷ from_right leaf (var "cwd" 0) right ∷ []

to_list-balance_example :
    to_list (balance false (node leaf (var "user" 0) even leaf) way_up)
    ≡ to_list (plug (node leaf (var "user" 0) even leaf) way_up)
to_list-balance_example = to_list-balance false (node leaf (var "user" 0) even leaf) way_up

abbrev line : List Str
line = words ("(" ∷ "cd" ∷ "a" ∷ "&&" ∷ "ls" ∷ ")" ∷ "|" ∷ "wc" ∷ ">" ∷ "n" ∷ "&" ∷ [])

parse-Good_example : Good true none (parse line)
parse-Good_example = parse-Good line

-- The `)` behind `>` is read as its file name, so the group has no end.
group_no_end : parse (words (">" ∷ ")" ∷ "(" ∷ "a" ∷ [])) ≡ astray (some too_many_rp)
unfolding parse syntax skip_empty scan0 split_at save_words word_between step_in at_end seterror
    specp
group_no_end = refl

spdist-Slip_example :
    (spdist (codes "pirnt") (codes "print") ≡ 1) ↔ Slip 1 (codes "pirnt") (codes "print")
spdist-Slip_example = spdist-Slip 1 (codes "pirnt") (codes "print") (omega arith)

abbrev morning : Clock
morning = record { cur_time = 100000; tm_hour = 10; tm_min = 30; tm_sec = 5 }

abbrev events : Events
events =
    record { when = 99000; lex = words ("ls" ∷ []) }
    ∷ record { when = 120000; lex = words ("date" ∷ []) }
    ∷ []

abbrev events_Sorted : Sorted events
unfolding Sorted
events_Sorted = ((omega arith, tt), (tt, tt))

abbrev command : List Str
command = words ("10:20" ∷ "mail" ∷ [])

dosched-Sorted_example : SortedOutcome (dosched morning command events)
dosched-Sorted_example = dosched-Sorted morning command events events_Sorted

difference-clock_example :
    (let dif = difference morning 10 20 in
      let due = 10 * 60 + 30 + (dif.0 * 60 + dif.1) in
      ((due ≡ 10 * 60 + 20) ⊎ (due ≡ 10 * 60 + 20 + 1440)) × ((dif.0 < 24) × (dif.1 < 60)))
difference-clock_example =
    difference-clock morning 10 20 (omega arith) (omega arith) (omega arith) (omega arith)

abbrev plain : Locale
plain = record { towlower = λ c. c; iswlower = λ c. false; iswupper = λ c. false; wcscoll = sub_ℕ }

t_pmatch-Told_example :
    Told plain true
      (codes "main.c")
      (codes "*.[ch]")
      (t_pmatch plain true (codes "main.c") (codes "*.[ch]"))
t_pmatch-Told_example = t_pmatch-Told plain true (codes "main.c") (codes "*.[ch]")

t_pmatch-Ends_example : Fuel.Ends (t_pmatch plain true (codes "main.c") (codes "*.[ch]"))
t_pmatch-Ends_example = Fuel.t_pmatch-Ends plain true (codes "main.c") (codes "*.[ch]")

abbrev counter : Runner ℕ
counter = record { execute = λ lex es w. some (es, suc w) }

sched_run-run_all_example :
    sched_run counter morning events 0
    ≡ finished (later_events 100000 events) (run_all (λ lex w. suc w) (due_events 100000 events) 0)
sched_run-run_all_example =
    sched_run-run_all counter (λ lex w. suc w) (λ lex es w. refl) morning events 0

abbrev repeated : List Str
repeated = words ("bin" ∷ "sbin" ∷ "bin" ∷ "opt" ∷ "sbin" ∷ [])

repeated-IsUnquoted : All IsUnquoted repeated
unfolding trim_char
repeated-IsUnquoted = (refl, (refl, (refl, (refl, (refl, tt)))))

set1-Stored_example :
    Stored (codes "user") repeated (set1 (λ ws. some ws) table (codes "user") repeated table 64)
set1-Stored_example =
    set1-Stored (λ ws. some ws) table (codes "user") repeated table 64 repeated table_IsSorted refl
      refl repeated-IsUnquoted

-- With a quoted word the value has a word twice.
stored_twice :
    set1 (λ ws. some ws) leaf (codes "user") ((97 ∷ []) ∷ ((97 + 2 ^ 31) ∷ []) ∷ []) leaf 32
    ≡ was_set (
        node leaf
          (record { name = codes "user"; vec = (97 ∷ []) ∷ (97 ∷ []) ∷ []; flags = 0 })
          even
          leaf)
unfolding set1 trim trim_char balance
stored_twice = refl
