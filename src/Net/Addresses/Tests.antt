-- ===== src/Net/Addresses/Tests.antt =====
-- A system with one socket, number 7: the world says whether it is open. The first of two addresses refuses.
use sockify.Prelude.{
  ℕ, ◌≡◌, refl, Bool, true, false, ◌&&◌, none, some, [], ◌∷◌, ◌==◌, if◌then◌else◌, codes, arith,
}
use sockify.Config.{Endpoint}
use sockify.Net.{other}
use sockify.Net.Addresses.{
  Sockets, net_connect, net_listen, with_addresses, try_addresses, connect_round, connect_on,
  set_nonblocking, set_tcp_nodelay,
}
use sockify.Net.Addresses.Open.{Opened, Opens, Yields, net_sockets-Yields}
use sockify.Status.{ok}

abbrev one_socket : Sockets Bool
one_socket = record {
  o_nonblock = 2048;
  getaddrinfo = λ w e passive. (some (1 ∷ 2 ∷ []), w);
  freeaddrinfo = λ w. w;
  socket = λ w ai. if w then (none, w) else (some 7, true);
  set_reuseaddr = λ w n. (true, w);
  set_nodelay = λ w n. (true, w);
  bind = λ w n ai. (ai == 2, w);
  listen = λ w n backlog. (true, w);
  connect = λ w n ai. (ai == 2, other 111, w);
  get_flags = λ w n. (some 2, w);
  set_flags = λ w n flags. (true, w);
  close = λ w n. if n == 7 then false else w;
}

abbrev is_open : Bool → ℕ → Bool
is_open w g = w && (7 == g)

close_one :
    (w : Bool) (n g : ℕ)
    → is_open (if n == 7 then false else w) g ≡ (if n == g then false else is_open w g)
close_one w n g = ground arith

open_one :
    (w : Bool) (ai : ℕ)
    → Opened (is_open w) (one_socket.socket w ai).0 (is_open (one_socket.socket w ai).1)
open_one true ai = λ g. refl
open_one false ai = (refl, λ g. ground arith)

one_socket-Opens : Opens one_socket is_open
one_socket-Opens = record {
  getaddrinfo = λ w e b g. refl;
  freeaddrinfo = λ w g. refl;
  socket = open_one;
  set_reuseaddr = λ w n g. refl;
  set_nodelay = λ w n g. refl;
  bind = λ w n ai g. refl;
  listen = λ w n backlog g. refl;
  connect = λ w n ai g. refl;
  get_flags = λ w n g. refl;
  set_flags = λ w n f g. refl;
  close = close_one;
}

abbrev endpoint : Endpoint
endpoint = record { host = codes "localhost"; port = codes "5900" }

connect_second : net_connect one_socket false endpoint ≡ (ok, some 7, false, true)
unfolding net_connect with_addresses try_addresses connect_round connect_on set_nonblocking
    set_tcp_nodelay
connect_second = refl

net_sockets-Yields_example :
    Yields is_open false (net_connect one_socket false endpoint)
    × (let r = net_listen one_socket false endpoint 512 in
        Yields is_open false (r.0, r.1, false, r.2))
net_sockets-Yields_example =
    net_sockets-Yields is_open one_socket one_socket-Opens false endpoint 512
