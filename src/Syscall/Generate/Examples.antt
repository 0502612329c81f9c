-- ===== src/Syscall/Generate/Examples.antt =====
-- The generators of src/syscall/generate.c where every call succeeds.
use nextgen.Base.{
  ℕ, ◌+◌, ◌≡◌, ◌≤◌, Option, none, some, replicate, length, length-replicate, arith, ltb,
  if◌then◌else◌,
}
use nextgen.Syscall.Child.Context.{Buffer, ChildCtx}
use nextgen.Syscall.Child.Copies.{NoSizes}
use nextgen.Syscall.Child.Toy.{child}
use nextgen.Syscall.Writes.{Source, Headers}

-- A number is drawn from the clock, and cut to the range.
abbrev draw : ℕ → ℕ → Option ℕ × ℕ
draw r w = (some (if ltb r w then r else w), w + 1)

draw-le : (r n w : ℕ) → (draw r w).0 ≡ some n → n ≤ r
draw-le r n w e = ground arith

junk-length : (n : ℕ) (b : Buffer) (w : ℕ) → some (w, replicate n 255) ≡ some b → length b.1 ≡ n
junk-length n b w e = ground (arith, length-replicate {A = ℕ} n 255)

-- Fresh buffers are full of junk.
abbrev clock : Source
clock = record {
  World = ℕ;
  mem_alloc = λ n w. (some (w, replicate n 255), w + 1);
  rand_range = draw;
  getpid = λ w. 77;
  get_desc = λ w. (some 3, w);
  get_socket = λ w. (some 4, w);
  get_filepath = λ w. (none, w);
  get_dirpath = λ w. (none, w);
  length-mem_alloc = junk-length;
  rand_range-le = draw-le;
}

abbrev plain : Headers
plain = record {
  o_rdonly = 0;
  o_wronly = 1;
  o_rdwr = 2;
  o_nonblock = 4;
  o_append = 8;
  o_creat = 512;
  o_trunc = 1024;
  o_excl = 2048;
  mnt_nowait = 2;
  mnt_wait = 1;
  wuntraced = 2;
  wnohang = 1;
  seek_set = 0;
  seek_cur = 1;
  seek_end = 2;
  msg_oob = 1;
  msg_peek = 2;
  msg_waitall = 64;
  msg_dontroute = 4;
  r_ok = 4;
  w_ok = 2;
  x_ok = 1;
  uf_nodump = 1;
  uf_immutable = 2;
  uf_append = 4;
  uf_opaque = 8;
  uf_hidden = 32768;
  sf_archived = 65536;
  sf_immutable = 131072;
  sf_append = 262144;
}

abbrev seven_sizes : ChildCtx
seven_sizes = record child { arg_size_array = replicate 7 0; current_arg = 2 }

NoSizes-seven : NoSizes seven_sizes
NoSizes-seven i s e = ground arith
