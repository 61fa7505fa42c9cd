-- ===== src/Tests/Editor.antt =====
-- The theorems on the line editor at concrete inputs.
use mcsh.Base.{
  min, max, ◌-◌, true, false, none, [], ◌∷◌, Str, codes, length, get_or, take, drop, ◌≡◌, refl,
  arith, inl, inr,
}
use mcsh.Edit.Buffer.{Buffer}
use mcsh.Edit.State.{Editor, Chars, KillRing, mode_insert, undo_nothing, outside, action_nop, text}
use mcsh.Edit.Change.{c_insert, c_delafter, c_delbefore}
use mcsh.Edit.Kill.{dup_keep, set_kill_ring}
use mcsh.Edit.Typing.{reset_in_line, insert_str, e_insert}
use mcsh.Edit.Delete.{e_yank_kill}
use mcsh.Edit.Move.{e_wordfwd}
use mcsh.Edit.Vi.{v_undo}
use mcsh.Edit.Session.{Cmd, run, settle}
use mcsh.Edit.Text.{InsertMeets, before, after, insert_str-InsertMeets}
use mcsh.Edit.Deleted.{c_delafter-text, c_delbefore-text}
use mcsh.Edit.Ring.{Ring}
use mcsh.Edit.Resize.{recent, set_kill_ring-Ring, set_kill_ring-recent, set_kill_ring-first}
use mcsh.Edit.RoundTrip.{killed, e_yank_kill-killend}
use mcsh.Edit.Undo.{v_undo-c_delafter}
use mcsh.Edit.Bounds.Reach.{Reach, start, next}

abbrev buffer : Str → Buffer
buffer w = record { cells = λ i. get_or w i 0; top = length w }

-- A ring with two of its three slots used, and a full one.
abbrev two_texts : KillRing
two_texts = record {
  slots = λ i. get_or (codes "ls" ∷ codes "cd" ∷ []) i [];
  ring_max = 3;
  ring_len = 2;
  kill_pos = 2;
  yank_pos = 1;
}

abbrev two_texts_Ring : Ring two_texts
two_texts_Ring = record {
  room = omega arith;
  len_le = omega arith;
  kill_in = omega arith;
  yank_in = inr (omega arith);
  filled = inr refl;
}

abbrev full : KillRing
full = record {
  slots = λ i. get_or (codes "ls" ∷ codes "cd" ∷ codes "wc" ∷ []) i [];
  ring_max = 3;
  ring_len = 3;
  kill_pos = 1;
  yank_pos = 0;
}

abbrev full_Ring : Ring full
full_Ring = record {
  room = omega arith;
  len_le = omega arith;
  kill_in = omega arith;
  yank_in = inr (omega arith);
  filled = inl refl;
}

-- `echo hi`, with the cursor behind `echo`.
abbrev echo : Editor
echo = record {
  input_buf = buffer (codes "echo hi");
  cursor = 4;
  last_char = 7;
  mark = none;
  mark_is_set = false;
  vi_mode = true;
  alt_key_map = false;
  input_mode = mode_insert;
  undo_buf = buffer [];
  undo_ptr = 0;
  undo_size = 0;
  undo_action = undo_nothing;
  action_flag = action_nop;
  action_pos = none;
  insert_pos = none;
  argument = 1;
  doing_arg = false;
  kills = two_texts;
}

abbrev ascii : Chars
ascii = record {
  is_word = λ c. true;
  is_space = λ c. false;
  is_alpha = λ c. true;
  is_lower = λ c. true;
  is_upper = λ c. false;
  to_upper = λ c. c - 32;
  to_lower = λ c. c;
}

abbrev typed : Editor
typed = settle (run ascii dup_keep (Cmd.insert b'a') (reset_in_line echo))

abbrev typed_Reach : Reach ascii dup_keep (reset_in_line echo) typed
unfolding run e_insert reset_in_line
typed_Reach = next start (Cmd.insert b'a') tt refl

-- In vi mode a word forward with the argument 0 leads out of the buffer from its start.
abbrev at_start : Editor
at_start = record typed { cursor = 0; argument = 0; vi_mode = true }

leads_out : (run ascii dup_keep Cmd.wordfwd at_start).ret ≡ outside
unfolding run e_wordfwd e_insert reset_in_line settle c_insert
leads_out = refl

insert_str-InsertMeets_example : InsertMeets (codes " -n") echo (insert_str (codes " -n") echo)
insert_str-InsertMeets_example = insert_str-InsertMeets (codes " -n") echo (omega arith)

c_delafter-text_example :
    (before (c_delafter 2 echo) ≡ before echo) × (after (c_delafter 2 echo) ≡ drop 2 (after echo))
c_delafter-text_example = c_delafter-text 2 echo (omega arith)

c_delbefore-text_example :
    (before (c_delbefore 2 echo) ≡ take (4 - 2) (before echo))
    × (after (c_delbefore 2 echo) ≡ after echo)
c_delbefore-text_example = c_delbefore-text 2 echo (omega arith)

set_kill_ring-Ring_example : Ring (set_kill_ring 9 two_texts)
set_kill_ring-Ring_example = set_kill_ring-Ring 9 two_texts two_texts_Ring

set_kill_ring-recent_example :
    ((set_kill_ring 2 full).ring_len ≡ min full.ring_len (max 2 1))
    × ((set_kill_ring 2 full).slots (recent (set_kill_ring 2 full) 1) ≡ full.slots (recent full 1))
set_kill_ring-recent_example = set_kill_ring-recent 2 1 full full_Ring refl (omega arith)

set_kill_ring-first_example : (set_kill_ring 9 two_texts).slots 0 ≡ two_texts.slots 2
set_kill_ring-first_example =
    set_kill_ring-first 9 two_texts (omega arith) refl (omega arith) (omega arith)

e_yank_kill-killend_example : text (e_yank_kill (killed echo)).editor ≡ text echo
e_yank_kill-killend_example =
    e_yank_kill-killend echo two_texts_Ring refl (omega arith) (omega arith)

v_undo-c_delafter_example : text (v_undo (c_delafter 2 echo)).editor ≡ text echo
v_undo-c_delafter_example = v_undo-c_delafter 2 echo refl (omega arith) (omega arith) (omega arith)
