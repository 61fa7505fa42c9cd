-- ===== src/Edit/State.antt =====
-- ed.h: the state of the line editor. Pointers into InputBuf are indices, a null pointer is none.
use mcsh.Base.{ℕ, Bool, Option, Str}
use mcsh.Edit.Buffer.{Buffer, slice}

-- MODE_INSERT, MODE_REPLACE and MODE_REPLACE_1.
pub data InputMode : Type 0 where
  mode_insert mode_replace mode_replace_1 : InputMode

-- `UndoAction`: none, and TCSHOP_INSERT, TCSHOP_DELETE and TCSHOP_CHANGE.
pub data UndoAction : Type 0 where
  undo_nothing undo_insert undo_delete undo_change : UndoAction

-- `ActionFlag`: TCSHOP_NOP, TCSHOP_DELETE, and TCSHOP_DELETE | TCSHOP_INSERT.
pub data ActionFlag : Type 0 where
  action_nop action_delete action_change : ActionFlag

-- The kill ring: its slots, KillRingMax, KillRingLen, KillPos and YankPos. A slot with a null buffer
-- is an empty text.
pub record KillRing : Type 0 where
  pub slots : ℕ → Str
  pub ring_max : ℕ
  pub ring_len : ℕ
  pub kill_pos : ℕ
  pub yank_pos : ℕ

pub record Editor : Type 0 where
  pub input_buf : Buffer
  pub cursor : ℕ
  pub last_char : ℕ
  pub mark : Option ℕ
  pub mark_is_set : Bool
  pub vi_mode : Bool
  pub alt_key_map : Bool
  pub input_mode : InputMode
  pub undo_buf : Buffer
  pub undo_ptr : ℕ
  pub undo_size : ℕ
  pub undo_action : UndoAction
  pub action_flag : ActionFlag
  pub action_pos : Option ℕ
  pub insert_pos : Option ℕ
  pub argument : ℕ
  pub doing_arg : Bool
  pub kills : KillRing

-- INBUFSIZE with BUFSIZE 4096, and `InputLim - InputBuf`.
abbrev pub inbufsize : ℕ
inbufsize = 8192

abbrev pub input_lim : ℕ
input_lim = 8190

-- `CC_NORM` and the other results of a command. `outside` belongs to the model only: a pointer would
-- leave InputBuf.
pub data Ret : Type 0 where
  norm error refresh newline eof preserve_arg list_choices outside : Ret

pub record Done : Type 0 where
  pub ret : Ret
  pub editor : Editor

abbrev pub Command : Type 0
Command = Editor → Done

abbrev pub done : Ret → Editor → Done
done r s = record { ret = r; editor = s }

-- The character functions of the locale, and `isword` with $wordchars.
pub record Chars : Type 0 where
  pub is_word : ℕ → Bool
  pub is_space : ℕ → Bool
  pub is_alpha : ℕ → Bool
  pub is_lower : ℕ → Bool
  pub is_upper : ℕ → Bool
  pub to_upper : ℕ → ℕ
  pub to_lower : ℕ → ℕ

-- The line, and what stands before and after the cursor.
abbrev pub text : Editor → Str
text s = slice s.last_char s.input_buf.cells 0
