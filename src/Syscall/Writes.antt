-- ===== src/Syscall/Writes.antt =====
-- What the generators of src/syscall/generate.c stand on: the calls that they make, the constants of
-- the headers, and the writes to a buffer that the cases of their switches do.
use Prim.Native.Nat.{bit_or}
use nextgen.Base.{
  ℕ, zero, suc, ◌/◌, ◌%◌, ◌≡◌, ◌≤◌, Option, some, List, [], ◌∷◌, if◌then◌else◌, ltb, ◌++◌, length,
  Outcome, done, fault,
}
use nextgen.Syscall.Child.Context.{Buffer, drop, word}

-- What the generators call: mem_alloc, rand_range, getpid, and the resources of
-- src/resource/resource.c. `none` is NULL or the return code -1.
pub record Source : Type 1 where
  pub World : Type 0
  pub mem_alloc : ℕ → World → Option Buffer × World
  pub rand_range : ℕ → World → Option ℕ × World
  pub getpid : World → ℕ
  pub get_desc : World → Option ℕ × World
  pub get_socket : World → Option ℕ × World
  pub get_filepath : World → Option Buffer × World
  pub get_dirpath : World → Option Buffer × World
  pub length-mem_alloc :
      (n : ℕ) (b : Buffer) (w : World) → (mem_alloc n w).0 ≡ some b → length b.1 ≡ n
  pub rand_range-le : (r n : ℕ) (w : World) → (rand_range r w).0 ≡ some n → n ≤ r

-- The headers' constants, in the order in which the switches name them.
pub record Headers : Type 0 where
  pub o_rdonly : ℕ
  pub o_wronly : ℕ
  pub o_rdwr : ℕ
  pub o_nonblock : ℕ
  pub o_append : ℕ
  pub o_creat : ℕ
  pub o_trunc : ℕ
  pub o_excl : ℕ
  pub mnt_nowait : ℕ
  pub mnt_wait : ℕ
  pub wuntraced : ℕ
  pub wnohang : ℕ
  pub seek_set : ℕ
  pub seek_cur : ℕ
  pub seek_end : ℕ
  pub msg_oob : ℕ
  pub msg_peek : ℕ
  pub msg_waitall : ℕ
  pub msg_dontroute : ℕ
  pub r_ok : ℕ
  pub w_ok : ℕ
  pub x_ok : ℕ
  pub uf_nodump : ℕ
  pub uf_immutable : ℕ
  pub uf_append : ℕ
  pub uf_opaque : ℕ
  pub uf_hidden : ℕ
  pub sf_archived : ℕ
  pub sf_immutable : ℕ
  pub sf_append : ℕ

-- The low bytes of a number.
unfoldable pub bytes_of : ℕ → ℕ → List ℕ
bytes_of zero v = []
bytes_of (suc n) v = v % 256 ∷ bytes_of n (v / 256)

-- A write of `n` bytes at the start of a buffer.
unfoldable pub store : ℕ → ℕ → Buffer → Outcome Buffer
store n v b = if ltb (length b.1) n then fault else done (b.0, bytes_of n v ++ drop n b.1)

-- What a case of a switch does to `**arg`: `=` or `|=`.
pub data Write : Type 0 where
  assign merge : ℕ → Write

-- `**arg` is a number of 64 bits.
unfoldable pub write_word : Write → Buffer → Outcome Buffer
write_word (assign v) b = store 8 v b
write_word (merge v) b = if ltb (length b.1) 8 then fault else store 8 (bit_or (word 8 b.1) v) b

-- The cases of the switches on four-byte buffers.
abbrev pub recv_flag_cases : Headers → List Write
recv_flag_cases h = assign h.msg_oob ∷ assign h.msg_peek ∷ assign h.msg_waitall ∷ []

abbrev pub amode_cases : Headers → List Write
amode_cases h =
    merge h.r_ok
    ∷ merge h.w_ok
    ∷ merge h.x_ok
    ∷ assign (bit_or h.r_ok h.w_ok)
    ∷ assign (bit_or h.r_ok h.x_ok)
    ∷ assign (bit_or h.w_ok h.x_ok)
    ∷ assign (bit_or h.w_ok h.r_ok)
    ∷ []

abbrev pub chflag_cases : Headers → List Write
chflag_cases h =
    merge h.uf_nodump
    ∷ merge h.uf_immutable
    ∷ merge h.uf_append
    ∷ merge h.uf_opaque
    ∷ merge h.uf_hidden
    ∷ merge h.sf_archived
    ∷ merge h.sf_immutable
    ∷ merge h.sf_append
    ∷ []

-- The modes are written 001 to 007, 010 to 070 (octal), and 100 to 700 (decimal).
abbrev pub mode_cases : List Write
mode_cases =
    assign 1
    ∷ assign 2
    ∷ assign 3
    ∷ assign 4
    ∷ assign 5
    ∷ assign 6
    ∷ assign 7
    ∷ assign 8
    ∷ assign 16
    ∷ assign 24
    ∷ assign 32
    ∷ assign 40
    ∷ assign 48
    ∷ assign 56
    ∷ assign 100
    ∷ assign 200
    ∷ assign 300
    ∷ assign 400
    ∷ assign 500
    ∷ assign 600
    ∷ assign 700
    ∷ []
