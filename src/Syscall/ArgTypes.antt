-- ===== src/Syscall/ArgTypes.antt =====
-- The kinds of syscall arguments of src/syscall/arg_types.h and arg_types.c. The name of a context,
-- which only messages use, is left out.
pub mod Listed
use nextgen.Base.{Bool, true, false, Option, none, some}

-- `enum arg_type`.
pub data ArgType : Type 0 where
  file_desc void_buf size file_path open_flag mode stat_fs stat_flag int rusage pid wait_option :
      ArgType
  socket whence offset mount_type dir_path mount_flag unmount_flag recv_flag request mount_path :
      ArgType
  dev ptrace_request message send_flag sockaddr socklen amode chflags : ArgType

-- How an argument is logged.
pub data LogType : Type 0 where
  number pointer path : LogType

-- `struct arg_context`.
pub record ArgContext : Type 0 where
  pub type : ArgType
  pub should_free : Bool
  pub log_type : LogType

abbrev pub file_desc_ctx : ArgContext
file_desc_ctx = record { type = file_desc; should_free = false; log_type = number }

abbrev pub void_buf_ctx : ArgContext
void_buf_ctx = record { type = void_buf; should_free = true; log_type = pointer }

abbrev pub size_ctx : ArgContext
size_ctx = record { type = size; should_free = true; log_type = number }

abbrev pub file_path_ctx : ArgContext
file_path_ctx = record { type = file_path; should_free = false; log_type = path }

abbrev pub open_flag_ctx : ArgContext
open_flag_ctx = record { type = open_flag; should_free = true; log_type = number }

abbrev pub mode_ctx : ArgContext
mode_ctx = record { type = mode; should_free = true; log_type = number }

abbrev pub stat_fs_ctx : ArgContext
stat_fs_ctx = record { type = stat_fs; should_free = true; log_type = pointer }

abbrev pub stat_flag_ctx : ArgContext
stat_flag_ctx = record { type = stat_flag; should_free = true; log_type = number }

abbrev pub int_ctx : ArgContext
int_ctx = record { type = int; should_free = true; log_type = number }

abbrev pub rusage_ctx : ArgContext
rusage_ctx = record { type = rusage; should_free = true; log_type = pointer }

abbrev pub pid_ctx : ArgContext
pid_ctx = record { type = pid; should_free = true; log_type = pointer }

abbrev pub wait_option_ctx : ArgContext
wait_option_ctx = record { type = wait_option; should_free = true; log_type = number }

abbrev pub socket_ctx : ArgContext
socket_ctx = record { type = socket; should_free = true; log_type = number }

abbrev pub whence_ctx : ArgContext
whence_ctx = record { type = whence; should_free = true; log_type = number }

abbrev pub offset_ctx : ArgContext
offset_ctx = record { type = offset; should_free = true; log_type = number }

abbrev pub mount_type_ctx : ArgContext
mount_type_ctx = record { type = mount_type; should_free = true; log_type = pointer }

abbrev pub dir_path_ctx : ArgContext
dir_path_ctx = record { type = dir_path; should_free = false; log_type = pointer }

abbrev pub mount_flag_ctx : ArgContext
mount_flag_ctx = record { type = mount_flag; should_free = true; log_type = number }

abbrev pub unmount_flag_ctx : ArgContext
unmount_flag_ctx = record { type = unmount_flag; should_free = true; log_type = number }

abbrev pub recv_flag_ctx : ArgContext
recv_flag_ctx = record { type = recv_flag; should_free = true; log_type = number }

abbrev pub request_ctx : ArgContext
request_ctx = record { type = request; should_free = true; log_type = number }

abbrev pub mount_path_ctx : ArgContext
mount_path_ctx = record { type = mount_path; should_free = false; log_type = path }

abbrev pub dev_ctx : ArgContext
dev_ctx = record { type = dev; should_free = true; log_type = number }

abbrev pub message_ctx : ArgContext
message_ctx = record { type = message; should_free = true; log_type = pointer }

abbrev pub recv_flags_ctx : ArgContext
recv_flags_ctx = record { type = recv_flag; should_free = true; log_type = number }

abbrev pub send_flags_ctx : ArgContext
send_flags_ctx = record { type = send_flag; should_free = true; log_type = number }

abbrev pub sockaddr_ctx : ArgContext
sockaddr_ctx = record { type = sockaddr; should_free = true; log_type = pointer }

abbrev pub socklen_ctx : ArgContext
socklen_ctx = record { type = socklen; should_free = true; log_type = number }

abbrev pub amode_ctx : ArgContext
amode_ctx = record { type = amode; should_free = true; log_type = number }

abbrev pub chflags_ctx : ArgContext
chflags_ctx = record { type = chflags; should_free = true; log_type = number }

-- `none` is NULL, for the types that the switch does not list.
unfoldable pub get_arg_context : ArgType → Option ArgContext
get_arg_context file_desc = some file_desc_ctx
get_arg_context void_buf = some void_buf_ctx
get_arg_context size = some size_ctx
get_arg_context file_path = some file_path_ctx
get_arg_context open_flag = some open_flag_ctx
get_arg_context mode = some mode_ctx
get_arg_context stat_fs = some stat_fs_ctx
get_arg_context stat_flag = some stat_flag_ctx
get_arg_context int = some int_ctx
get_arg_context rusage = some rusage_ctx
get_arg_context pid = some pid_ctx
get_arg_context wait_option = some wait_option_ctx
get_arg_context socket = some socket_ctx
get_arg_context whence = some whence_ctx
get_arg_context offset = some offset_ctx
get_arg_context mount_type = some mount_type_ctx
get_arg_context dir_path = some dir_path_ctx
get_arg_context mount_flag = some mount_flag_ctx
get_arg_context unmount_flag = some unmount_flag_ctx
get_arg_context recv_flag = some recv_flag_ctx
get_arg_context request = some request_ctx
get_arg_context mount_path = some mount_path_ctx
get_arg_context dev = some dev_ctx
get_arg_context message = some message_ctx
get_arg_context send_flag = some send_flags_ctx
get_arg_context sockaddr = some sockaddr_ctx
get_arg_context socklen = some socklen_ctx
get_arg_context amode = some amode_ctx
get_arg_context chflags = some chflags_ctx
get_arg_context ptrace_request = none
