-- ===== src/Network.antt =====
-- The socket server of src/network/network.c, with the two functions of network-bsd.c that make its
-- sockets, and the clients' side.
pub mod Listening
mod Examples
use nextgen.Base.{
  ℕ, ◌+◌, ◌%◌, ◌^◌, ◌≡◌, ◌≢◌, Bool, true, false, Option, none, some, List, [], ◌∷◌, if◌then◌else◌,
  Status, success, failure, is_success,
}
use nextgen.Mutate.{RandomGenerator}

-- AF_INET and AF_INET6.
pub data Family : Type 0 where
  af_inet af_inet6 : Family

-- `enum network_mode`, and any other number.
pub data NetworkMode : Type 0 where
  socket_server other_mode : NetworkMode

-- The file-scope variables; `none` is a descriptor that was not made.
pub record NetworkModule : Type 0 where
  pub ss_port : ℕ
  pub listen_fd4 : Option ℕ
  pub listen_fd6 : Option ℕ

abbrev pub no_server : NetworkModule
no_server = record { ss_port = 0; listen_fd4 = none; listen_fd6 = none }

-- The calls of the system, on the loopback address of a family. `bound w fd` is the address that a
-- socket is bound to.
pub record SocketCalls : Type 1 where
  pub World : Type 0
  pub socket : Family → World → Option ℕ × World
  pub bind : ℕ → Family → ℕ → World → Bool × World
  pub connect : ℕ → Family → ℕ → World → Bool × World
  pub listen : ℕ → World → Bool × World
  pub accept : ℕ → World → Option ℕ × World
  pub close : ℕ → World → World
  pub pthread_create : World → Bool × World
  pub bound : World → ℕ → Option (Family × ℕ)
  pub socket_fresh :
      (f : Family) (fd : ℕ) (w : World) → (socket f w).0 ≡ some fd → bound w fd ≡ none
  pub bound-socket : (f : Family) (e : ℕ) (w : World) → bound (socket f w).1 e ≡ bound w e
  pub bound-bind_here :
      (fd port : ℕ) (f : Family) (w : World)
      → (bind fd f port w).0 ≡ true
      → bound (bind fd f port w).1 fd ≡ some (f, port)
  pub bound-bind :
      (fd e port : ℕ) (f : Family) (w : World) → e ≢ fd → bound (bind fd f port w).1 e ≡ bound w e
  pub bound-pthread_create : (e : ℕ) (w : World) → bound (pthread_create w).1 e ≡ bound w e

-- `htons`, as the number that is meant: the low 16 bits.
abbrev pub htons : ℕ → ℕ
htons port = port % 2 ^ 16

abbrev pub get_server_port : NetworkModule → ℕ
get_server_port n = n.ss_port

module _ (os : SocketCalls) where
  unfoldable pub connect_ipv4 : NetworkModule → os.World → Option ℕ × os.World
  connect_ipv4 n w =
      let (opened, w₁) = os.socket af_inet w in
      elim opened [
        | none ↦ (none, w₁)
        | some fd ↦
            let (joined, w₂) = os.connect fd af_inet (htons n.ss_port) w₁ in
            if joined then (some fd, w₂) else (none, w₂)
      ]

  unfoldable pub connect_ipv6 : NetworkModule → os.World → Option ℕ × os.World
  connect_ipv6 n w =
      let (opened, w₁) = os.socket af_inet6 w in
      elim opened [
        | none ↦ (none, w₁)
        | some fd ↦
            let (joined, w₂) = os.connect fd af_inet6 (htons ((n.ss_port + 1) % 2 ^ 32)) w₁ in
            if joined then (some fd, w₂) else (none, w₂)
      ]

  unfoldable pub setup_ipv4_tcp_server : NetworkModule → os.World → Status × Option ℕ × os.World
  setup_ipv4_tcp_server n w =
      let (opened, w₁) = os.socket af_inet w in
      elim opened [
        | none ↦ (failure, none, w₁)
        | some fd ↦
            let (rtrn, w₂) = os.bind fd af_inet (htons (get_server_port n)) w₁ in
            if rtrn then (success, some fd, w₂) else (failure, some fd, w₂)
      ]

  unfoldable pub setup_ipv6_tcp_server : NetworkModule → os.World → Status × Option ℕ × os.World
  setup_ipv6_tcp_server n w =
      let (opened, w₁) = os.socket af_inet6 w in
      elim opened [
        | none ↦ (failure, none, w₁)
        | some fd ↦
            let (rtrn, w₂) = os.bind fd af_inet6 (htons ((get_server_port n + 1) % 2 ^ 32)) w₁ in
            if rtrn then (success, some fd, w₂) else (failure, some fd, w₂)
      ]

  unfoldable pub setup_socket_server : NetworkModule → os.World → Status × NetworkModule × os.World
  setup_socket_server n w =
      let (rtrn, fd4, w₁) = setup_ipv4_tcp_server n w in
      let n₁ = record n { listen_fd4 = fd4 } in
      if is_success rtrn
      then (let (second, fd6, w₂) = setup_ipv6_tcp_server n₁ w₁ in
          (second, record n₁ { listen_fd6 = fd6 }, w₂))
      else (failure, n₁, w₁)

  unfoldable pub accept_client : ℕ → os.World → Status × os.World
  accept_client listen_fd w =
      let (client_fd, w₁) = os.accept listen_fd w in
      elim client_fd [ none ↦ (failure, w₁) | some fd ↦ (success, os.close fd w₁) ]

  -- The loop of a thread, over the values of `stop` that it reads; both threads run it.
  unfoldable pub accept_thread_start : ℕ → List Bool → os.World → os.World
  accept_thread_start fd [] w = w
  accept_thread_start fd (true ∷ stops) w = w
  accept_thread_start fd (false ∷ stops) w =
      let (listening, w₁) = os.listen fd w in
      let (accepted, w₂) = accept_client fd w₁ in
      elim listening [
        | false ↦ w₁
        | true ↦ elim accepted [ failure ↦ w₂ | success ↦ accept_thread_start fd stops w₂ ]
      ]

  -- The thread of the server: it starts the one for the other family, and accepts clients itself.
  -- Joining that thread changes nothing here. listen on a socket that was not made fails.
  unfoldable pub start_thread : NetworkModule → List Bool → os.World → os.World
  start_thread n stops w =
      let (created, w₁) = os.pthread_create w in
      if created
      then elim n.listen_fd4 [ none ↦ w₁ | some fd ↦ accept_thread_start fd stops w₁ ]
      else w₁

  -- Whether the allocator, the writer and the generator can be made is a parameter.
  module _ (random : RandomGenerator)
      (get_default_allocator get_console_writter get_default_random_generator : os.World
        → Bool × os.World) where
    unfoldable pub pick_random_port :
        ℕ → random.World → os.World → Status × ℕ × random.World × os.World
    pick_random_port port r w =
        let (allocator, w₁) = get_default_allocator w in
        let (output, w₂) = get_console_writter w₁ in
        let (generator, w₃) = get_default_random_generator w₂ in
        let (offset, r₁) = random.range 10000 r in
        if allocator
        then (if output
            then (if generator
                then elim offset [
                  | none ↦ (failure, port, r₁, w₃)
                  | some n ↦ (success, (1200 + n) % 2 ^ 32, r₁, w₃)
                ]
                else (failure, port, r, w₃))
            else (failure, port, r, w₂))
        else (failure, port, r, w₁)

    unfoldable pub select_port_number :
        NetworkModule → random.World → os.World → Status × NetworkModule × random.World × os.World
    select_port_number n r w =
        let (rtrn, port, r₁, w₁) = pick_random_port n.ss_port r w in
        (rtrn, record n { ss_port = port }, r₁, w₁)

    unfoldable pub start_socket_server :
        NetworkModule → random.World → os.World → Status × NetworkModule × random.World × os.World
    start_socket_server n r w =
        let (rtrn, n₁, r₁, w₁) = select_port_number n r w in
        if is_success rtrn
        then (let (made, n₂, w₂) = setup_socket_server n₁ w₁ in
            if is_success made
            then (let (started, w₃) = os.pthread_create w₂ in
                if started then (success, n₂, r₁, w₃) else (failure, n₂, r₁, w₃))
            else (failure, n₂, r₁, w₂))
        else (failure, n₁, r₁, w₁)

    unfoldable pub setup_network_module :
        NetworkMode
        → NetworkModule
        → random.World
        → os.World
        → Status × NetworkModule × random.World × os.World
    setup_network_module socket_server n r w = start_socket_server n r w
    setup_network_module other_mode n r w = (failure, n, r, w)
