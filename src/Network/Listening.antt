-- ===== src/Network/Listening.antt =====
-- What setup_network_module of src/network/network.c leaves bound.
use nextgen.Base.{
  ℕ, ◌+◌, ◌%◌, ◌^◌, ◌≡◌, ◌≢◌, ◌≤◌, refl, sym, ap, ◌∙◌, Bool, some, arith, Bool-cases, Option-cases,
  inl, inr, Status, success, is_success,
}
use nextgen.Mutate.{RandomGenerator}
use nextgen.Network.{
  af_inet, af_inet6, NetworkModule, NetworkMode, socket_server, other_mode, SocketCalls, htons,
  setup_ipv4_tcp_server, setup_ipv6_tcp_server, setup_socket_server, pick_random_port,
  select_port_number, start_socket_server, setup_network_module,
}

module _ (os : SocketCalls) where
  -- Two sockets are bound, to two neighbouring ports that fit in 16 bits.
  pub record Bound (n : NetworkModule) (w : os.World) : Type 0 where
    pub fd4 : ℕ
    pub fd6 : ℕ
    pub has_fd4 : n.listen_fd4 ≡ some fd4
    pub has_fd6 : n.listen_fd6 ≡ some fd6
    pub bound4 : os.bound w fd4 ≡ some (af_inet, htons n.ss_port)
    pub bound6 : os.bound w fd6 ≡ some (af_inet6, htons ((n.ss_port + 1) % 2 ^ 32))

  setup_socket-Bound :
      (n : NetworkModule) (w : os.World)
      → (setup_socket_server os n w).0 ≡ success
      → Bound (setup_socket_server os n w).1 (setup_socket_server os n w).2
  unfolding setup_socket_server setup_ipv4_tcp_server setup_ipv6_tcp_server
  setup_socket-Bound n w ok =
      let w₁ = (os.socket af_inet w).1 in
      elim (Option-cases (os.socket af_inet w).0) [
        | inl e₁ ↦ ground (arith, e₁, ok)
        | inr (a, e₁) ↦
            let w₂ = (os.bind a af_inet (htons n.ss_port) w₁).1 in
            let w₃ = (os.socket af_inet6 w₂).1 in
            elim (Bool-cases (os.bind a af_inet (htons n.ss_port) w₁).0) [
              | inr e₂ ↦ ground (arith, e₁, e₂, ok)
              | inl e₂ ↦ elim (Option-cases (os.socket af_inet6 w₂).0) [
                | inl e₃ ↦ ground (arith, e₁, e₂, e₃, ok)
                | inr (b, e₃) ↦
                    let port = htons ((n.ss_port + 1) % 2 ^ 32) in
                    let w₄ = (os.bind b af_inet6 port w₃).1 in
                    elim (Bool-cases (os.bind b af_inet6 port w₃).0) [
                      | inr e₄ ↦ ground (arith, e₁, e₂, e₃, e₄, ok)
                      | inl e₄ ↦
                          let first = os.bound-bind_here a (htons n.ss_port) af_inet w₁ e₂ in
                          let fresh = os.socket_fresh af_inet6 b w₂ e₃ in
                          let apart : a ≢ b = λ e.
                            ground (arith, sym first ∙ ap (λ (c : ℕ). os.bound w₂ c) e ∙ fresh) in
                          let n' = record n { listen_fd4 = some a; listen_fd6 = some b } in
                          let ran : setup_socket_server os n w ≡ (success, n', w₄) =
                            ground (arith, e₁, e₂, e₃, e₄) in
                          rw (ran) (record {
                            fd4 = a;
                            fd6 = b;
                            has_fd4 = refl;
                            has_fd6 = refl;
                            bound4 =
                                os.bound-bind b a port af_inet6 w₃ apart
                                ∙ os.bound-socket af_inet6 a w₂
                                ∙ first;
                            bound6 = os.bound-bind_here b port af_inet6 w₃ e₄;
                          })
                    ]
              ]
            ]
      ]

  setup_socket-port :
      (n : NetworkModule) (w : os.World) → (setup_socket_server os n w).1.ss_port ≡ n.ss_port
  unfolding setup_socket_server
  setup_socket-port n w = ground (arith, Bool-cases (is_success (setup_ipv4_tcp_server os n w).0))

  started-Bound : (n : NetworkModule) (w : os.World) → Bound n w → Bound n (os.pthread_create w).1
  started-Bound n w b = record {
    fd4 = b.fd4;
    fd6 = b.fd6;
    has_fd4 = b.has_fd4;
    has_fd6 = b.has_fd6;
    bound4 = os.bound-pthread_create b.fd4 w ∙ b.bound4;
    bound6 = os.bound-pthread_create b.fd6 w ∙ b.bound6;
  }

  -- What the set-up leaves: the ports that the sockets are bound to, and that connect_ipv4 and
  -- connect_ipv6 pass to connect, are the port drawn and the next one, and both fit in 16 bits.
  pub record Listening (n : NetworkModule) (w : os.World) : Type 0 where
    pub sockets : Bound n w
    pub from : 1200 ≤ n.ss_port
    pub up_to : n.ss_port ≤ 11200
    pub whole4 : htons n.ss_port ≡ n.ss_port
    pub whole6 : htons ((n.ss_port + 1) % 2 ^ 32) ≡ n.ss_port + 1

  module _ (random : RandomGenerator)
      (get_default_allocator get_console_writter get_default_random_generator : os.World
        → Bool × os.World) where
    pick-range :
        (port : ℕ) (r : random.World) (w : os.World)
        → let picked =
            pick_random_port os random get_default_allocator get_console_writter
              get_default_random_generator port r w in
          picked.0 ≡ success → (1200 ≤ picked.1) × (picked.1 ≤ 11200)
    unfolding pick_random_port
    pick-range port r w ok =
        let w₁ = (get_default_allocator w).1 in
        let w₂ = (get_console_writter w₁).1 in
        elim (Bool-cases (get_default_allocator w).0) [
          | inr a ↦ ground (arith, a, ok)
          | inl a ↦ elim (Bool-cases (get_console_writter w₁).0) [
            | inr b ↦ ground (arith, a, b, ok)
            | inl b ↦ elim (Bool-cases (get_default_random_generator w₂).0) [
              | inr c ↦ ground (arith, a, b, c, ok)
              | inl c ↦ elim (Option-cases (random.range 10000 r).0) [
                | inl d ↦ ground (arith, a, b, c, d, ok)
                | inr (k, d) ↦
                    let at_most = random.range-le 10000 k r d in
                    (ground (arith, a, b, c, d, at_most), ground (arith, a, b, c, d, at_most))
              ]
            ]
          ]
        ]

    -- When setup_network_module returns 0, whatever mode it was given and whatever port was set
    -- before, a socket of each family is bound on the loopback address, to the port drawn, which lies
    -- from 1200 to 11200, and to the next one; no port is cut off by htons.
    pub setup_network-Listening :
        (mode : NetworkMode) (n : NetworkModule) (r : random.World) (w : os.World)
        → let done_with =
            setup_network_module os random get_default_allocator get_console_writter
              get_default_random_generator mode n r w in
          done_with.0 ≡ success → Listening done_with.1 done_with.3
    unfolding setup_network_module start_socket_server select_port_number
    setup_network-Listening other_mode n r w ok = ground (arith, ok)
    setup_network-Listening socket_server n r w ok =
        let picked =
          pick_random_port os random get_default_allocator get_console_writter
            get_default_random_generator n.ss_port r w in
        let n₁ = record n { ss_port = picked.1 } in
        let made = setup_socket_server os n₁ picked.3 in
        elim (Bool-cases (is_success picked.0)) [
          | inr e₁ ↦ ground (arith, e₁, ok)
          | inl e₁ ↦ elim (Bool-cases (is_success made.0)) [
            | inr e₂ ↦ ground (arith, e₁, e₂, ok)
            | inl e₂ ↦ elim (Bool-cases (os.pthread_create made.2).0) [
              | inr e₃ ↦ ground (arith, e₁, e₂, e₃, ok)
              | inl e₃ ↦
                  let range = pick-range n.ss_port r w (ground (arith, e₁)) in
                  let port = setup_socket-port n₁ picked.3 in
                  let bound = setup_socket-Bound n₁ picked.3 (ground (arith, e₂)) in
                  let last : Status × NetworkModule × random.World × os.World =
                    (success, made.1, picked.2, (os.pthread_create made.2).1) in
                  let ran : setup_network_module os random get_default_allocator get_console_writter
                        get_default_random_generator socket_server n r w
                      ≡ last =
                    ground (arith, e₁, e₂, e₃) in
                  rw ran (record {
                    sockets = started-Bound made.1 made.2 bound;
                    from = omega (arith, port, range.0);
                    up_to = omega (arith, port, range.1);
                    whole4 = omega (arith, port, range.1);
                    whole6 = omega (arith, port, range.1);
                  })
            ]
          ]
        ]
