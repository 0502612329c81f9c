-- ===== src/Syscall/Generate.antt =====
-- The generators of arguments of src/syscall/generate.c, as they are compiled for FreeBSD and macOS.
-- The constants of the system's headers are parameters. What a fresh buffer holds is not known.
pub mod Values
pub mod Small
mod Examples
use Prim.Native.Nat.{bit_or}
use nextgen.Base.{
  ℕ, ◌-◌, ◌^◌, Option, none, some, List, [], ◌∷◌, if◌then◌else◌, ◌==◌, get_elem?, Outcome, done,
  ◌>>=◌, Status, success, failure,
}
use nextgen.Syscall.Child.Context.{Buffer, ChildCtx, get_arg_size, get_current_arg}
use nextgen.Syscall.Writes.{
  Source, Headers, store, Write, write_word, recv_flag_cases, amode_cases, chflag_cases, mode_cases,
  assign, merge,
}

module _ (s : Source) where
  open s use {World, mem_alloc, rand_range}

  -- A generator's end: its code, what the argument points to, and the world.
  abbrev pub Made : Type 0
  Made = Outcome (Status × Option Buffer × World)

  -- The switch on a number, with its default.
  unfoldable pub switch : List Write → ℕ → Buffer → World → Made
  switch cases number b w = elim (get_elem? cases number) [
    | none ↦ done (failure, some b, w)
    | some c ↦ write_word c b >>= λ b'. done (success, some b', w)
  ]

  -- The common text of the generators that draw a number and then allocate.
  unfoldable pub draw_alloc : ℕ → ℕ → List Write → Option Buffer → World → Made
  draw_alloc range size cases old w =
      let (number, w₁) = rand_range range w in
      elim number [
        | none ↦ done (failure, old, w₁)
        | some n ↦
            let (place, w₂) = mem_alloc size w₁ in
            elim place [ none ↦ done (failure, none, w₂) | some b ↦ switch cases n b w₂ ]
      ]

  -- And of those that allocate first.
  unfoldable pub alloc_draw : ℕ → ℕ → List Write → World → Made
  alloc_draw range size cases w =
      let (place, w₁) = mem_alloc size w in
      elim place [
        | none ↦ done (failure, none, w₁)
        | some b ↦
            let (number, w₂) = rand_range range w₁ in
            elim number [ none ↦ done (failure, some b, w₂) | some n ↦ switch cases n b w₂ ]
      ]

  -- A resource number in a fresh buffer of four bytes.
  unfoldable pub alloc_int : (World → Option ℕ × World) → World → Made
  alloc_int get w =
      let (place, w₁) = mem_alloc 4 w in
      elim place [
        | none ↦ done (failure, none, w₁)
        | some b ↦
            let (desc, w₂) = get w₁ in
            elim desc [
              | none ↦ done (failure, some b, w₂)
              | some d ↦ store 4 d b >>= λ b'. done (success, some b', w₂)
            ]
      ]

  unfoldable pub generate_fd : World → Made
  generate_fd w = alloc_int s.get_desc w

  unfoldable pub generate_socket : World → Made
  generate_socket w = alloc_int s.get_socket w

  -- The size of the argument before, kept in `size` bytes.
  unfoldable pub alloc_size : ℕ → ChildCtx → World → Made
  alloc_size size child w =
      let current = get_current_arg child in
      let last_arg = if current == 0 then 0 else current - 1 in
      let (place, w₁) = mem_alloc size w in
      elim place [
        | none ↦ done (failure, none, w₁)
        | some b ↦ get_arg_size child last_arg >>= λ r. elim r [
          | none ↦ done (failure, some b, w₁)
          | some arg_size ↦ store size arg_size b >>= λ b'. done (success, some b', w₁)
        ]
      ]

  unfoldable pub generate_length : ChildCtx → World → Made
  generate_length child w = alloc_size 8 child w

  unfoldable pub generate_socklen : ChildCtx → World → Made
  generate_socklen child w = alloc_size 4 child w

  unfoldable pub generate_path : World → Made
  generate_path w =
      let (path, w₁) = s.get_filepath w in
      elim path [ none ↦ done (failure, none, w₁) | some p ↦ done (success, some p, w₁) ]

  unfoldable pub generate_dirpath : World → Made
  generate_dirpath w =
      let (path, w₁) = s.get_dirpath w in
      elim path [ none ↦ done (failure, none, w₁) | some p ↦ done (success, some p, w₁) ]

  unfoldable pub generate_mode : Option Buffer → World → Made
  generate_mode old w = draw_alloc 20 12 mode_cases old w

  unfoldable pub generate_pid : World → Made
  generate_pid w =
      let (place, w₁) = mem_alloc 8 w in
      elim place [
        | none ↦ done (failure, none, w₁)
        | some b ↦ store 8 (s.getpid w₁) b >>= λ b'. done (success, some b', w₁)
      ]

  unfoldable pub generate_int : World → Made
  generate_int w =
      let (place, w₁) = mem_alloc 8 w in
      elim place [
        | none ↦ done (failure, none, w₁)
        | some b ↦
            let (number, w₂) = rand_range (2 ^ 31 - 1) w₁ in
            elim number [
              | none ↦ done (failure, some b, w₂)
              | some n ↦ store 8 n b >>= λ b'. done (success, some b', w₂)
            ]
      ]

  -- rand_range writes the low four bytes of the buffer only.
  unfoldable pub generate_offset : World → Made
  generate_offset w =
      let (place, w₁) = mem_alloc 8 w in
      elim place [
        | none ↦ done (failure, none, w₁)
        | some b ↦
            let (number, w₂) = rand_range (2 ^ 31 - 1) w₁ in
            elim number [
              | none ↦ done (failure, some b, w₂)
              | some n ↦ store 4 n b >>= λ b'. done (success, some b', w₂)
            ]
      ]

  -- The two that do nothing.
  unfoldable pub generate_mountpath : Option Buffer → World → Made
  generate_mountpath old w = done (success, old, w)

  unfoldable pub generate_mount_type : Option Buffer → World → Made
  generate_mount_type old w = done (success, old, w)

  module _ (h : Headers) where
    unfoldable pub generate_open_flag : Option Buffer → World → Made
    generate_open_flag old w =
        draw_alloc 7 12
          (merge h.o_rdonly
            ∷ merge h.o_wronly
            ∷ merge h.o_rdwr
            ∷ merge h.o_nonblock
            ∷ merge h.o_append
            ∷ merge h.o_creat
            ∷ merge h.o_trunc
            ∷ merge h.o_excl
            ∷ [])
          old w

    unfoldable pub generate_fs_stat_flag : World → Made
    generate_fs_stat_flag w = alloc_draw 1 12 (assign h.mnt_nowait ∷ assign h.mnt_wait ∷ []) w

    unfoldable pub generate_wait_option : World → Made
    generate_wait_option w = alloc_draw 1 8 (assign h.wuntraced ∷ assign h.wnohang ∷ []) w

    unfoldable pub generate_whence : World → Made
    generate_whence w =
        alloc_draw 2 8 (assign h.seek_set ∷ assign h.seek_cur ∷ assign h.seek_end ∷ []) w

    unfoldable pub generate_recv_flags : World → Made
    generate_recv_flags w = alloc_draw 2 4 (recv_flag_cases h) w

    unfoldable pub generate_send_flags : World → Made
    generate_send_flags w =
        alloc_draw 2 8
          (merge h.msg_oob ∷ merge h.msg_dontroute ∷ assign (bit_or h.msg_oob h.msg_dontroute) ∷ [])
          w

    unfoldable pub generate_amode : World → Made
    generate_amode w = alloc_draw 6 4 (amode_cases h) w

    unfoldable pub generate_chflags : World → Made
    generate_chflags w = alloc_draw 7 4 (chflag_cases h) w
