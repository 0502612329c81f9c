-- ===== src/Network/Examples.antt =====
-- The set-up of src/network/network.c over sockets in a list.
use nextgen.Base.{
  ℕ, suc, ◌≡◌, ◌≢◌, ◌≤◌, refl, Bool, true, false, Option, none, some, arith, ◌==◌, ltb,
  if◌then◌else◌,
}
use nextgen.Mutate.{RandomGenerator}
use nextgen.Network.{Family, SocketCalls, no_server, socket_server, setup_network_module}
use nextgen.Network.Listening.{Listening, setup_network-Listening}

-- The next descriptor, and what the sockets are bound to: nothing from that descriptor on.
abbrev Sockets : Type 0
Sockets = ℕ × (ℕ → Option (Family × ℕ))

abbrev bound : Sockets → ℕ → Option (Family × ℕ)
bound w fd = if ltb fd w.0 then w.1 fd else none

abbrev bind : ℕ → Family → ℕ → Sockets → Bool × Sockets
bind fd f port w =
    if ltb fd w.0 then (true, (w.0, λ e. if e == fd then some (f, port) else w.1 e)) else (false, w)

abbrev socket : Family → Sockets → Option ℕ × Sockets
socket f w = (some w.0, (suc w.0, λ e. if e == w.0 then none else w.1 e))

bound_socket : (f : Family) (e : ℕ) (w : Sockets) → bound (socket f w).1 e ≡ bound w e
bound_socket f e w = ground arith

bound_bind_here :
    (fd port : ℕ) (f : Family) (w : Sockets)
    → (bind fd f port w).0 ≡ true
    → bound (bind fd f port w).1 fd ≡ some (f, port)
bound_bind_here fd port f w ok = ground arith

bound_bind :
    (fd e port : ℕ) (f : Family) (w : Sockets) → e ≢ fd → bound (bind fd f port w).1 e ≡ bound w e
bound_bind fd e port f w ne = ground arith

fresh : (f : Family) (fd : ℕ) (w : Sockets) → (socket f w).0 ≡ some fd → bound w fd ≡ none
fresh f fd w e = ground arith

abbrev sockets : SocketCalls
sockets = record {
  World = Sockets;
  socket = socket;
  bind = bind;
  connect = λ fd f port w. (true, w);
  listen = λ fd w. (true, w);
  accept = λ fd w. (none, w);
  close = λ fd w. w;
  pthread_create = λ w. (true, w);
  bound = bound;
  socket_fresh = fresh;
  bound-socket = bound_socket;
  bound-bind_here = bound_bind_here;
  bound-bind = bound_bind;
  bound-pthread_create = λ e w. refl;
}

abbrev draw : ℕ → ℕ → Option ℕ × ℕ
draw r w = (some (if ltb w r then w else r), w)

draw-le : (r n w : ℕ) → (draw r w).0 ≡ some n → n ≤ r
draw-le r n w e = ground arith

abbrev drawn : RandomGenerator
drawn = record { World = ℕ; range = draw; range-le = draw-le }

abbrev given : Sockets → Bool × Sockets
given w = (true, w)

abbrev none_open : Sockets
none_open = (3, λ e. none)

setup_network-Listening_example :
    let r =
      setup_network_module sockets drawn given given given socket_server no_server 42 none_open in
    Listening sockets r.1 r.3
unfolding setup_network_module nextgen.Network.start_socket_server
    nextgen.Network.select_port_number nextgen.Network.pick_random_port
    nextgen.Network.setup_socket_server nextgen.Network.setup_ipv4_tcp_server
    nextgen.Network.setup_ipv6_tcp_server
setup_network-Listening_example =
    setup_network-Listening sockets drawn given given given socket_server no_server 42 none_open
      refl
