-- ===== src/Parse/Simple.antt =====
-- sh.parse.c: the two loops of `syn3`, one that counts the words of a simple command and one that
-- saves them and takes the redirections off.
use mcsh.Base.{
  ℕ, ◌+◌, ◌-◌, Bool, true, false, not, ◌&&◌, ◌||◌, Option, none, some, List, [], ◌∷◌, ◌++◌, ◌==◌,
  if◌then◌else◌, Str, codes, eq, char0, char1, ℤ, pos,
}
use mcsh.Parse.Command.{
  SynError, bad_plp, mis_red, out_red, in_red, red_par, SetErr, seterror, Flags, Redirects, Context,
  inc, dec, is_zero, relpar,
}

-- The first loop's `n++` and `n--`, counted apart.
abbrev pub adds : Bool → ℤ → Str → ℕ
adds specp l w =
    if char0 w == b'(' || char0 w == b')'
    then (if specp then 1 else 0)
    else if char0 w == b'>' || char0 w == b'<'
    then (if not (is_zero l) && specp then 1 else 0)
    else if not specp && not (is_zero l)
    then 0
    else 1

abbrev next_relpar : List Str → Bool
next_relpar [] = true
next_relpar (w ∷ ws) = relpar w

abbrev pub subtracts : ℤ → Str → List Str → ℕ
subtracts l w ws =
    if (char0 w == b'>' || char0 w == b'<') && (is_zero l && not (next_relpar ws)) then 1 else 0

abbrev pub new_depth : Str → ℤ → ℤ
new_depth w l = if char0 w == b'(' then inc l else if char0 w == b')' then dec l else l

unfoldable pub count_adds : Bool → ℤ → List Str → ℕ
count_adds specp l [] = 0
count_adds specp l (w ∷ ws) = adds specp l w + count_adds specp (new_depth w l) ws

unfoldable pub count_subtracts : ℤ → List Str → ℕ
count_subtracts l [] = 0
count_subtracts l (w ∷ ws) = subtracts l w ws + count_subtracts (new_depth w l) ws

-- How many words `av` has room for: `n`, or 0 for a negative one.
unfoldable pub room : Bool → List Str → ℕ
room specp ws = count_adds specp (pos 0) ws - count_subtracts (pos 0) ws

-- Where the second loop is: between words, behind `>`, behind its `&` (or none), behind its `!`
-- (or none), or behind `<`.
pub data Mode : Type 0 where
  between behind_out behind_both behind_bang behind_in : Mode

-- The variables of the second loop; `lp` and `rp` are the words from these pointers on.
pub record Loop : Type 0 where
  pub mode : Mode
  pub l : ℤ
  pub lp : Option (List Str)
  pub rp : Option (List Str)
  pub av : List (Option Str)
  pub redirects : Redirects
  pub err : SetErr

abbrev pub set_err : SynError → Loop → Loop
set_err id s = record s { err = seterror id s.err }

abbrev pub set_flags : Flags → Loop → Loop
set_flags f s = record s { redirects = record s.redirects { flags = f } }

-- `if (seterr == 0) av[n] = Strsave(p->word); n++;`
abbrev pub save : Str → Loop → Loop
save w s = record s { av = s.av ++ (elim s.err [ none ↦ some w | some e ↦ none ] ∷ []) }

-- The label `savep`, and the `default` case.
abbrev pub savep : Bool → Str → Loop → Loop
savep specp w s = if specp then save w s else s

abbrev pub plain : Bool → Str → Loop → Loop
plain specp w s = if not (is_zero s.l) && not specp then s else save w s

abbrev pub open_paren : Bool → List Str → Loop → Loop
open_paren specp ws s =
    let t : Loop = elim s.lp [ none ↦ s | some _ ↦ if specp then s else set_err bad_plp s ] in
    if is_zero s.l then record t { lp = some ws; l = inc s.l } else record s { l = inc s.l }

abbrev pub close_paren : Str → List Str → Loop → Loop
close_paren w ws s =
    if is_zero (dec s.l)
    then record s { l = dec s.l; rp = some (w ∷ ws) }
    else record s { l = dec s.l }

abbrev pub is_some : Option Str → Bool
is_some none = false
is_some (some w) = true

-- The word in place of the file name of `>` and of `<`.
abbrev pub out_file : Context → Str → Loop → Loop
out_file flags w s =
    let t = record s { mode = between } in
    if relpar w
    then set_err mis_red t
    else if (flags.p_out && not flags.p_diag) || is_some s.redirects.rit
    then set_err out_red t
    else record t { redirects = record s.redirects { rit = some w } }

abbrev pub in_file : Context → Str → Loop → Loop
in_file flags w s =
    let t = record s { mode = between } in
    if relpar w
    then set_err mis_red t
    else if flags.here && s.redirects.flags.read
    then set_err red_par t
    else if flags.p_in || is_some s.redirects.lef
    then set_err in_red t
    else record t { redirects = record s.redirects { lef = some w } }

abbrev pub bang_or_file : Context → Str → Loop → Loop
bang_or_file flags w s =
    if eq w (codes "!")
    then set_flags (record s.redirects.flags { overwrite = true }) (record s { mode = behind_bang })
    else out_file flags w s

abbrev pub both : Context → Loop → Loop
both flags s =
    let t = set_flags (record s.redirects.flags { stderr = true }) s in
    if flags.p_out || flags.p_diag
    then set_err out_red (record t { mode = between })
    else record t { mode = behind_both }

-- A word between two redirections.
unfoldable pub word_between : Bool → Str → List Str → Loop → Loop
word_between specp w ws s =
    if char0 w == b'('
    then savep specp w (open_paren specp ws s)
    else if char0 w == b')'
    then savep specp w (close_paren w ws s)
    else if char0 w == b'>'
    then (if not (is_zero s.l)
        then savep specp w s
        else if char1 w == b'>'
        then set_flags (record s.redirects.flags { append = true }) (record s { mode = behind_out })
        else record s { mode = behind_out })
    else if char0 w == b'<'
    then (if not (is_zero s.l)
        then savep specp w s
        else if char1 w == b'<'
        then set_flags (record s.redirects.flags { read = true }) (record s { mode = behind_in })
        else record s { mode = behind_in })
    else plain specp w s

unfoldable pub step_in : Mode → Bool → Context → Str → List Str → Loop → Loop
unfolding word_between
step_in between specp flags w ws s = word_between specp w ws s
step_in behind_out specp flags w ws s =
    if eq w (codes "&") then both flags s else bang_or_file flags w s
step_in behind_both specp flags w ws s = bang_or_file flags w s
step_in behind_bang specp flags w ws s = out_file flags w s
step_in behind_in specp flags w ws s = in_file flags w s

-- `p->next == p2` behind a redirection.
unfoldable pub at_end : Mode → Loop → Loop
at_end between s = s
at_end m s = set_err mis_red s

unfoldable pub save_words : Bool → Context → List Str → Loop → Loop
unfolding step_in at_end
save_words specp flags [] s = at_end s.mode s
save_words specp flags (w ∷ ws) s = save_words specp flags ws (step_in s.mode specp flags w ws s)
