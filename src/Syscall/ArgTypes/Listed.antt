-- ===== src/Syscall/ArgTypes/Listed.antt =====
-- Which types of arguments get_arg_context of src/syscall/arg_types.c knows.
use nextgen.Base.{◌≡◌, refl, some, ◌≢◌}
use nextgen.Syscall.ArgTypes.{
  ArgType, ArgContext, file_desc_ctx, void_buf_ctx, size_ctx, file_path_ctx, open_flag_ctx,
  mode_ctx, stat_fs_ctx, stat_flag_ctx, int_ctx, rusage_ctx, pid_ctx, wait_option_ctx, socket_ctx,
  whence_ctx, offset_ctx, mount_type_ctx, dir_path_ctx, mount_flag_ctx, unmount_flag_ctx,
  recv_flag_ctx, request_ctx, mount_path_ctx, dev_ctx, message_ctx, send_flags_ctx, sockaddr_ctx,
  socklen_ctx, amode_ctx, chflags_ctx, get_arg_context, file_desc, void_buf, size, file_path,
  open_flag, mode, stat_fs, stat_flag, int, rusage, pid, wait_option, socket, whence, offset,
  mount_type, dir_path, mount_flag, unmount_flag, recv_flag, request, mount_path, dev,
  ptrace_request, message, send_flag, sockaddr, socklen, amode, chflags,
}

-- get_arg_context gives each type but PTRACE_REQUEST a context that bears that type.
get_arg_context-type :
    (t : ArgType)
    → t ≢ ptrace_request
    → (c : ArgContext) × (get_arg_context t ≡ some c) × (c.type ≡ t)
unfolding get_arg_context
get_arg_context-type file_desc h = (file_desc_ctx, refl, refl)
get_arg_context-type void_buf h = (void_buf_ctx, refl, refl)
get_arg_context-type size h = (size_ctx, refl, refl)
get_arg_context-type file_path h = (file_path_ctx, refl, refl)
get_arg_context-type open_flag h = (open_flag_ctx, refl, refl)
get_arg_context-type mode h = (mode_ctx, refl, refl)
get_arg_context-type stat_fs h = (stat_fs_ctx, refl, refl)
get_arg_context-type stat_flag h = (stat_flag_ctx, refl, refl)
get_arg_context-type int h = (int_ctx, refl, refl)
get_arg_context-type rusage h = (rusage_ctx, refl, refl)
get_arg_context-type pid h = (pid_ctx, refl, refl)
get_arg_context-type wait_option h = (wait_option_ctx, refl, refl)
get_arg_context-type socket h = (socket_ctx, refl, refl)
get_arg_context-type whence h = (whence_ctx, refl, refl)
get_arg_context-type offset h = (offset_ctx, refl, refl)
get_arg_context-type mount_type h = (mount_type_ctx, refl, refl)
get_arg_context-type dir_path h = (dir_path_ctx, refl, refl)
get_arg_context-type mount_flag h = (mount_flag_ctx, refl, refl)
get_arg_context-type unmount_flag h = (unmount_flag_ctx, refl, refl)
get_arg_context-type recv_flag h = (recv_flag_ctx, refl, refl)
get_arg_context-type request h = (request_ctx, refl, refl)
get_arg_context-type mount_path h = (mount_path_ctx, refl, refl)
get_arg_context-type dev h = (dev_ctx, refl, refl)
get_arg_context-type ptrace_request h = absurd (h refl)
get_arg_context-type message h = (message_ctx, refl, refl)
get_arg_context-type send_flag h = (send_flags_ctx, refl, refl)
get_arg_context-type sockaddr h = (sockaddr_ctx, refl, refl)
get_arg_context-type socklen h = (socklen_ctx, refl, refl)
get_arg_context-type amode h = (amode_ctx, refl, refl)
get_arg_context-type chflags h = (chflags_ctx, refl, refl)
