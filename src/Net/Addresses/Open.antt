-- ===== src/Net/Addresses/Open.antt =====
-- Which sockets are open after a listen or a connect.
use sockify.Prelude.{
  ℕ, ◌≡◌, refl, sym, ap, ◌∙◌, Bool, true, false, ◌||◌, Option, none, some, List, [], ◌∷◌, ◌==◌,
  ==_iff, bit_or, Bool-cases, inl, inr, if◌then◌else◌, arith,
}
use sockify.Config.{Endpoint}
use sockify.Net.Addresses.{
  try_addresses, Sockets, is_in_progress, set_nonblocking, set_tcp_nodelay, serve_at, listen_on,
  listen_round, connect_on, connect_round, with_addresses, net_listen, net_connect,
}
use sockify.Status.{Status, ok, err_sys, is_ok}
use sockify.Transport.{Socket}

-- The open sockets of a world with one more that was not open, or as they were.
abbrev pub Opened : (ℕ → Bool) → Option ℕ → (ℕ → Bool) → Type 0
Opened before none after = (g : ℕ) → after g ≡ before g
Opened before (some n) after =
    (before n ≡ false) × ((g : ℕ) → after g ≡ (if n == g then true else before g))

-- POSIX: `socket` opens a socket that was not open, `close` closes one, and no other call changes which are.
pub record Opens {W : Type 0} (sys : Sockets W) (open_in : W → ℕ → Bool) : Type 0 where
  pub getaddrinfo :
      (w : W) (e : Endpoint) (b : Bool) (g : ℕ) → open_in (sys.getaddrinfo w e b).1 g ≡ open_in w g
  pub freeaddrinfo : (w : W) (g : ℕ) → open_in (sys.freeaddrinfo w) g ≡ open_in w g
  pub socket :
      (w : W) (ai : ℕ) → Opened (open_in w) (sys.socket w ai).0 (open_in (sys.socket w ai).1)
  pub set_reuseaddr : (w : W) (n g : ℕ) → open_in (sys.set_reuseaddr w n).1 g ≡ open_in w g
  pub set_nodelay : (w : W) (n g : ℕ) → open_in (sys.set_nodelay w n).1 g ≡ open_in w g
  pub bind : (w : W) (n ai g : ℕ) → open_in (sys.bind w n ai).1 g ≡ open_in w g
  pub listen : (w : W) (n backlog g : ℕ) → open_in (sys.listen w n backlog).1 g ≡ open_in w g
  pub connect : (w : W) (n ai g : ℕ) → open_in (sys.connect w n ai).2 g ≡ open_in w g
  pub get_flags : (w : W) (n g : ℕ) → open_in (sys.get_flags w n).1 g ≡ open_in w g
  pub set_flags : (w : W) (n f g : ℕ) → open_in (sys.set_flags w n f).1 g ≡ open_in w g
  pub close :
      (w : W) (n g : ℕ) → open_in (sys.close w n) g ≡ (if n == g then false else open_in w g)

-- The socket that a round gives.
abbrev pub got : Option (ℕ × Bool) → Option ℕ
got none = none
got (some (fd, in_progress)) = some fd

abbrev pub has_socket : Socket → Bool
has_socket none = false
has_socket (some _) = true

module _ {W : Type 0} (open_in : W → ℕ → Bool) where
  -- A call that gives a socket exactly with SOCKIFY_OK, and opens that one and no other.
  abbrev pub Yields : W → Status × Socket × Bool × W → Type 0
  Yields w r = Opened (open_in w) r.1 (open_in r.3) × (is_ok r.0 ≡ has_socket r.1)

  abbrev Same : W → W → Type 0
  Same w w' = (g : ℕ) → open_in w' g ≡ open_in w g

  Same-trans : (w w1 w2 : W) → Same w w1 → Same w1 w2 → Same w w2
  Same-trans w w1 w2 h k g = k g ∙ h g

  Opened-after :
      (r : Option ℕ) (w w1 w2 : W)
      → Same w w1
      → Opened (open_in w1) r (open_in w2)
      → Opened (open_in w) r (open_in w2)
  Opened-after none w w1 w2 h o = λ g. o g ∙ h g
  Opened-after (some n) w w1 w2 h o =
      (sym (h n) ∙ o.0, λ g. o.1 g ∙ ap (λ (b : Bool). if n == g then true else b) (h g))

  Opened-before :
      (r : Option ℕ) (w w1 w2 : W)
      → Opened (open_in w) r (open_in w1)
      → Same w1 w2
      → Opened (open_in w) r (open_in w2)
  Opened-before none w w1 w2 o h = λ g. h g ∙ o g
  Opened-before (some n) w w1 w2 o h = (o.0, λ g. h g ∙ o.1 g)

  try_addresses-Yields :
      (attempt : W → ℕ → Option (ℕ × Bool) × W)
      → ((w : W) (ai : ℕ) → Opened (open_in w) (got (attempt w ai).0) (open_in (attempt w ai).1))
      → (addresses : List ℕ) (w : W) → Yields w (try_addresses attempt addresses w)
  unfolding try_addresses
  try_addresses-Yields attempt h [] w = ((λ g. refl), refl)
  try_addresses-Yields attempt h (ai ∷ rest) w =
      go (attempt w ai).0 (h w ai) (try_addresses-Yields attempt h rest (attempt w ai).1)
    where
      w1 : W
      w1 = (attempt w ai).1

      later : Status × Socket × Bool × W
      later = try_addresses attempt rest w1

      go :
          (r : Option (ℕ × Bool))
          → Opened (open_in w) (got r) (open_in w1)
          → Yields w1 later
          → Yields w
              (elim r [ none ↦ later | some (fd, in_progress) ↦ (ok, some fd, in_progress, w1) ])
      go none o y = (Opened-after later.1 w w1 later.3 o y.0, y.1)
      go (some (fd, in_progress)) o y = (o, refl)

  module _ (sys : Sockets W) (laws : Opens sys open_in) where
    set_nonblocking-Same : (w : W) (fd : ℕ) → Same w (set_nonblocking sys w fd).1
    unfolding set_nonblocking
    set_nonblocking-Same w fd g = go (sys.get_flags w fd).0
      where
        w1 : W
        w1 = (sys.get_flags w fd).1

        go :
            (flags : Option ℕ)
            → let r : Status × W = elim flags [
              | none ↦ (err_sys, w1)
              | some f ↦
                  let (done, w2) = sys.set_flags w1 fd (bit_or f sys.o_nonblock) in
                  (if done then ok else err_sys, w2)
            ] in
              open_in r.1 g ≡ open_in w g
        go none = laws.get_flags w fd g
        go (some f) = laws.set_flags w1 fd (bit_or f sys.o_nonblock) g ∙ laws.get_flags w fd g

    set_tcp_nodelay-Same : (w : W) (fd : ℕ) → Same w (set_tcp_nodelay sys w fd).1
    unfolding set_tcp_nodelay
    set_tcp_nodelay-Same w fd = laws.set_nodelay w fd

    serve_at-Same : (w : W) (fd ai backlog : ℕ) → Same w (serve_at sys w fd ai backlog).1
    unfolding serve_at
    serve_at-Same w fd ai backlog g =
        let w1 = (sys.bind w fd ai).1 in
        let w2 = (sys.listen w1 fd backlog).1 in
        ground
          (arith, laws.bind w fd ai g, laws.listen w1 fd backlog g, set_nonblocking-Same w2 fd g)

    -- A socket that is opened and closed again.
    close-Same :
        (w w1 w2 : W) (fd : ℕ)
        → Opened (open_in w) (some fd) (open_in w1)
        → Same w1 w2
        → Same w (sys.close w2 fd)
    close-Same w w1 w2 fd o h g = elim (Bool-cases (fd == g)) [
      | inl e ↦ laws.close w2 fd g ∙ rw e (sym (ap (open_in w) (sym ((==_iff fd g).0 e)) ∙ o.0))
      | inr e ↦ laws.close w2 fd g ∙ rw e (h g ∙ o.1 g ∙ rw e refl)
    ]

    listen_on-Opened :
        (w0 w : W) (fd ai backlog : ℕ)
        → Opened (open_in w0) (some fd) (open_in w)
        → Opened
            (open_in w0)
            (got (listen_on sys w fd ai backlog).0)
            (open_in (listen_on sys w fd ai backlog).1)
    unfolding listen_on
    listen_on-Opened w0 w fd ai backlog o =
        let (reusable, w1) = sys.set_reuseaddr w fd in
        let (serving, w2) = serve_at sys w1 fd ai backlog in
        let same : Same w w1 = laws.set_reuseaddr w fd in
        let same' : Same w w2 = Same-trans w w1 w2 same (serve_at-Same w1 fd ai backlog) in
        elim (Bool-cases reusable) [
          | inr e ↦ rw (e, listen_on) (close-Same w0 w w1 fd o same)
          | inl e ↦ elim (Bool-cases serving) [
            | inr f ↦ rw (e, f, listen_on) (close-Same w0 w w2 fd o same')
            | inl f ↦ rw (e, f, listen_on) (Opened-before (some fd) w0 w w2 o same')
          ]
        ]

    connect_on-Opened :
        (w0 w : W) (fd ai : ℕ)
        → Opened (open_in w0) (some fd) (open_in w)
        → Opened (open_in w0) (got (connect_on sys w fd ai).0) (open_in (connect_on sys w fd ai).1)
    unfolding connect_on
    connect_on-Opened w0 w fd ai o =
        let (rc, w1) = set_nonblocking sys w fd in
        let w2 = (set_tcp_nodelay sys w1 fd).1 in
        let (connected, errno, w3) = sys.connect w2 fd ai in
        let same : Same w w1 = set_nonblocking-Same w fd in
        let same' : Same w w3 =
          Same-trans w w1 w3 same
            (Same-trans w1 w2 w3 (set_tcp_nodelay-Same w1 fd) (laws.connect w2 fd ai)) in
        elim (Bool-cases (is_ok rc)) [
          | inr e ↦ rw (e, connect_on) (close-Same w0 w w1 fd o same)
          | inl e ↦ elim (Bool-cases (connected || is_in_progress errno)) [
            | inr f ↦ rw (e, f, connect_on) (close-Same w0 w w3 fd o same')
            | inl f ↦ rw (e, f, connect_on) (Opened-before (some fd) w0 w w3 o same')
          ]
        ]

    -- A round begins with `socket`.
    round-Opened :
        (next : W → ℕ → Option (ℕ × Bool) × W) (w : W) (ai : ℕ)
        → ((n : ℕ)
            → Opened (open_in w) (some n) (open_in (sys.socket w ai).1)
            → Opened
                (open_in w)
                (got (next (sys.socket w ai).1 n).0)
                (open_in (next (sys.socket w ai).1 n).1))
        → let r : Option (ℕ × Bool) × W = elim (sys.socket w ai).0 [
          | none ↦ (none, (sys.socket w ai).1)
          | some n ↦ next (sys.socket w ai).1 n
        ] in
          Opened (open_in w) (got r.0) (open_in r.1)
    round-Opened next w ai h = go (sys.socket w ai).0 (laws.socket w ai)
      where
        go :
            (fd : Option ℕ)
            → Opened (open_in w) fd (open_in (sys.socket w ai).1)
            → let r : Option (ℕ × Bool) × W = elim fd [
              | none ↦ (none, (sys.socket w ai).1)
              | some n ↦ next (sys.socket w ai).1 n
            ] in
              Opened (open_in w) (got r.0) (open_in r.1)
        go none o = o
        go (some n) o = h n o

    with_addresses-Yields :
        (attempt : W → ℕ → Option (ℕ × Bool) × W)
        → ((w : W) (ai : ℕ) → Opened (open_in w) (got (attempt w ai).0) (open_in (attempt w ai).1))
        → (passive : Bool) (w : W) (endpoint : Endpoint)
        → Yields w (with_addresses sys passive attempt w endpoint)
    unfolding with_addresses
    with_addresses-Yields attempt h passive w endpoint = go (sys.getaddrinfo w endpoint passive).0
      where
        w1 : W
        w1 = (sys.getaddrinfo w endpoint passive).1

        go :
            (result : Option (List ℕ))
            → let r : Status × Socket × Bool × W = elim result [
              | none ↦ (err_sys, none, false, w1)
              | some addresses ↦
                  let (rc, fd, in_progress, w2) = try_addresses attempt addresses w1 in
                  (rc, fd, in_progress, sys.freeaddrinfo w2)
            ] in
              Yields w r
        go none = (laws.getaddrinfo w endpoint passive, refl)
        go (some addresses) =
            let (o, e) = try_addresses-Yields attempt h addresses w1 in
            let r = try_addresses attempt addresses w1 in
            (
              Opened-before r.1 w r.3 (sys.freeaddrinfo r.3)
                  (Opened-after r.1 w w1 r.3 (laws.getaddrinfo w endpoint passive) o)
                  (laws.freeaddrinfo r.3),
              e,
            )

    -- `sockify_net_listen` and `sockify_net_connect` on any endpoint and any results of the calls, when `socket`
    -- opens a socket that was not open, `close` closes one and no other call changes which are open. With
    -- SOCKIFY_OK the call stores a socket that was not open before, and that one is open in addition to
    -- what was. With any other code it stores the invalid socket, and what is open is as before: every
    -- socket of a round that failed was closed.
    pub net_sockets-Yields :
        (w : W) (endpoint : Endpoint) (backlog : ℕ)
        → Yields w (net_connect sys w endpoint)
          × (let r = net_listen sys w endpoint backlog in Yields w (r.0, r.1, false, r.2))
    unfolding net_listen net_connect listen_round connect_round
    net_sockets-Yields w endpoint backlog = (
      with_addresses-Yields (connect_round sys)
          (λ v ai.
            round-Opened (λ v' n. connect_on sys v' n ai) v ai
              (λ n o. connect_on-Opened v (sys.socket v ai).1 n ai o))
          false w endpoint,
      with_addresses-Yields (listen_round sys backlog)
          (λ v ai.
            round-Opened (λ v' n. listen_on sys v' n ai backlog) v ai
              (λ n o. listen_on-Opened v (sys.socket v ai).1 n ai backlog o))
          true w endpoint,
    )
