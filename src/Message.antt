-- ===== src/Message.antt =====
-- libs/common/message.hpp: what tasks send to one another. The union `arg` is the member that was
-- written last. A `char` array is the list of its bytes, an `int` used as a flag a number, and the
-- coordinates, which the modules here only pass on, are the words that hold them.
use kin_os.Base.{ℕ, List, Bool, true, false, Option, none, some}

pub data MessageType : Type 0 where
  error ready received : MessageType
  interrupt_xhci timer_timeout layer layer_finish window_active pipe expand_task_buffer :
      MessageType
  start_server start_app exit_server exit_app : MessageType
  mouse_move key_push open_window layer_id win_fill_rectangle win_write_char : MessageType
  win_redraw quit close_window mouse_button win_draw_line win_move_rec : MessageType
  write_file open_file open_dir read_file create_task execute_file redirect waiting_key :
      MessageType

-- The members of the union.
pub data Arg : Type 0 where
  unset : Arg
  error_arg : (retry err : ℕ) → Arg
  timer_arg : (timeout value : ℕ) → Arg
  keyboard_arg : (modifier keycode ascii press : ℕ) → Arg
  mouse_move_arg : (x y dx dy buttons : ℕ) → Arg
  mouse_button_arg : (x y press button : ℕ) → Arg
  window_active_arg : (activate : ℕ) → Arg
  pipe_arg : (bytes : List ℕ) (len : ℕ) → Arg
  create_arg : (pid cid : ℕ) → Arg
  start_task_arg : (id : ℕ) → Arg
  expand_arg : (id bytes : ℕ) → Arg
  exit_app_arg : (id result : ℕ) → Arg
  exit_server_arg : (name : List ℕ) → Arg
  open_arg : (filename : List ℕ) (flags exist isdirectory fd : ℕ) → Arg
  open_dir_arg : (dirname : List ℕ) (exist isdirectory fd : ℕ) → Arg
  read_arg : (filename : List ℕ) (fd : ℕ) (bytes : List ℕ) (len count offset cluster : ℕ) → Arg
  write_arg : (filename : List ℕ) (fd : ℕ) (bytes : List ℕ) (len count offset cluster : ℕ) → Arg
  open_window_arg : (w h x y : ℕ) (title : List ℕ) → Arg
  layer_id_arg : (layerid : ℕ) → Arg
  win_fill_rectangle_arg : (layer_id x y w h draw color : ℕ) → Arg
  win_write_char_arg : (layer_id x y draw color c : ℕ) → Arg
  win_draw_line_arg : (layer_id x0 y0 x1 y1 draw color : ℕ) → Arg
  win_move_rec_arg : (layer_id x0 y0 rx0 ry0 rx1 ry1 draw : ℕ) → Arg
  execute_file_arg : (filename arg : List ℕ) (redirect pipe id exist isdirectory : ℕ) → Arg
  redirect_arg : (filename : List ℕ) → Arg
  create_task_arg : (id : ℕ) → Arg

pub record Message : Type 0 where
  pub type : MessageType
  pub src_task : ℕ
  pub arg : Arg

-- The members that are read field by field, as records.
pub record ReadArg : Type 0 where
  pub filename : List ℕ
  pub fd : ℕ
  pub bytes : List ℕ
  pub len : ℕ
  pub count : ℕ
  pub offset : ℕ
  pub cluster : ℕ

pub record WriteArg : Type 0 where
  pub filename : List ℕ
  pub fd : ℕ
  pub bytes : List ℕ
  pub len : ℕ
  pub count : ℕ
  pub offset : ℕ
  pub cluster : ℕ

pub record ExecuteArg : Type 0 where
  pub filename : List ℕ
  pub argument : List ℕ
  pub redirect : ℕ
  pub pipe : ℕ
  pub id : ℕ
  pub exist : ℕ
  pub isdirectory : ℕ

pub record OpenArg : Type 0 where
  pub filename : List ℕ
  pub flags : ℕ
  pub exist : ℕ
  pub isdirectory : ℕ
  pub fd : ℕ

pub record OpenDirArg : Type 0 where
  pub dirname : List ℕ
  pub exist : ℕ
  pub isdirectory : ℕ
  pub fd : ℕ

abbrev pub to_read : ReadArg → Arg
to_read a = read_arg a.filename a.fd a.bytes a.len a.count a.offset a.cluster

abbrev pub to_write : WriteArg → Arg
to_write a = write_arg a.filename a.fd a.bytes a.len a.count a.offset a.cluster

abbrev pub to_execute : ExecuteArg → Arg
to_execute a = execute_file_arg a.filename a.argument a.redirect a.pipe a.id a.exist a.isdirectory

abbrev pub to_open : OpenArg → Arg
to_open a = open_arg a.filename a.flags a.exist a.isdirectory a.fd

abbrev pub to_open_dir : OpenDirArg → Arg
to_open_dir a = open_dir_arg a.dirname a.exist a.isdirectory a.fd

-- Reading a member: `none` if another one was written last.
unfoldable pub read_of : Arg → Option ReadArg
read_of (read_arg f fd b l c o k) =
    some (record { filename = f; fd = fd; bytes = b; len = l; count = c; offset = o; cluster = k })
read_of _ = none

unfoldable pub write_of : Arg → Option WriteArg
write_of (write_arg f fd b l c o k) =
    some (record { filename = f; fd = fd; bytes = b; len = l; count = c; offset = o; cluster = k })
write_of _ = none

unfoldable pub execute_of : Arg → Option ExecuteArg
execute_of (execute_file_arg f a r p i e d) = some (record {
  filename = f;
  argument = a;
  redirect = r;
  pipe = p;
  id = i;
  exist = e;
  isdirectory = d;
})
execute_of _ = none

unfoldable pub open_of : Arg → Option OpenArg
open_of (open_arg f g e d fd) =
    some (record { filename = f; flags = g; exist = e; isdirectory = d; fd = fd })
open_of _ = none

unfoldable pub open_dir_of : Arg → Option OpenDirArg
open_dir_of (open_dir_arg f e d fd) =
    some (record { dirname = f; exist = e; isdirectory = d; fd = fd })
open_dir_of _ = none

-- The members with two numbers or one text: `error` with `retry` and `err`, `exitapp` with `id` and `result`.
unfoldable pub error_of : Arg → Option (ℕ × ℕ)
error_of (error_arg retry err) = some (retry, err)
error_of _ = none

unfoldable pub exit_app_of : Arg → Option (ℕ × ℕ)
exit_app_of (exit_app_arg id result) = some (id, result)
exit_app_of _ = none

unfoldable pub redirect_of : Arg → Option (List ℕ)
redirect_of (redirect_arg f) = some f
redirect_of _ = none

abbrev pub is_read : MessageType → Bool
is_read read_file = true
is_read _ = false

abbrev pub is_write : MessageType → Bool
is_write write_file = true
is_write _ = false
