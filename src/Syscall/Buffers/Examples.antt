-- ===== src/Syscall/Buffers/Examples.antt =====
-- The buffers of src/syscall/generate.c on a system where every mapping succeeds.
use nextgen.Base.{
  ℕ, ◌≡◌, ◌≤◌, refl, none, some, replicate, length, length-replicate, arith, success, ltb, Option,
  if◌then◌else◌,
}
use nextgen.Syscall.Child.Context.{Buffer, set_arg_size}
use nextgen.Syscall.Child.Toy.{child}
use nextgen.Syscall.Writes.{Source}
use nextgen.Syscall.Buffers.{Mapping, generate_buf, map_buf, generate_buf_bounds}

-- A number is the state, cut to the range.
abbrev pick : ℕ → ℕ → Option ℕ × ℕ
pick r w = (some (if ltb r w then r else w), w)

pick-le : (r n w : ℕ) → (pick r w).0 ≡ some n → n ≤ r
pick-le r n w e = ground arith

zeros-length : (n : ℕ) (b : Buffer) (w : ℕ) → some (w, replicate n 0) ≡ some b → length b.1 ≡ n
zeros-length n b w e = ground (arith, length-replicate {A = ℕ} n 0)

abbrev steady : Source
steady = record {
  World = ℕ;
  mem_alloc = λ n w. (some (w, replicate n 0), w);
  rand_range = pick;
  getpid = λ w. 77;
  get_desc = λ w. (some 3, w);
  get_socket = λ w. (some 4, w);
  get_filepath = λ w. (none, w);
  get_dirpath = λ w. (none, w);
  length-mem_alloc = zeros-length;
  rand_range-le = pick-le;
}

abbrev pages : Mapping steady
pages = record {
  mmap = λ n p w. (some (w, replicate n 0), w);
  prot_read = 1;
  prot_write = 2;
  prot_read_write = 3;
  length-mmap = λ n p w b e. zeros-length n b w e;
}

two_bytes : generate_buf steady pages none child 1 ≡ (success, some (1, replicate 2 0), child, 1)
unfolding generate_buf map_buf set_arg_size
two_bytes = refl

generate_buf_bounds_example :
    (b : Buffer) × (some (1, replicate 2 0) ≡ some b)
    × (1 ≤ length b.1)
    × (length b.1 ≤ 1024)
    × (child.arg_size_array ≡ child.arg_size_array)
generate_buf_bounds_example =
    generate_buf_bounds steady pages none child child 1 1 (some (1, replicate 2 0)) two_bytes
