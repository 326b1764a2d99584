-- ===== src/SimpleSocket/Hello/Talk.antt =====
-- The server of the greeting and a client of it.
use iteso_codigos.Common.{
  ℕ, zero, suc, ◌+◌, ◌%◌, ◌^◌, ◌≤◌, ◌<◌, ◌≡◌, refl, ap, ◌∙◌, true, Option, none, some, List, [],
  ◌∷◌, ◌++◌, length, drop, arith,
}
use iteso_codigos.Common.Text.{Bytes, codes, same}
use iteso_codigos.Common.Run.{Run, done}
use iteso_codigos.Device.{Device}
use iteso_codigos.Libc.Number.{strtol}
use iteso_codigos.Libc.Search.{string_of}
use iteso_codigos.Netlib.{Network, Address}
use iteso_codigos.SimpleSocket.EchoServer.{any_address}
use iteso_codigos.SimpleSocket.EchoServer.Session.{IsLockstep}
use iteso_codigos.SimpleSocket.EchoServer.Clients.{Accepts, port_in_range}
use iteso_codigos.SimpleSocket.Hello.{
  hello_text, goodbye_text, Exit, cannot_accept, talked, peer_address, hello_loop, server,
  read_hello, client, main,
}

-- Each of the connections has sent the greeting.
abbrev pub Greeted : (D : Device) → IsLockstep D → List D.State → Type 0
Greeted D L [] = Unit
Greeted D L (s ∷ ss) = (L.sent s ≡ hello_text) × Greeted D L ss

-- What comes in is the greeting, if it is what the first connection has sent.
first_greeting :
    (D : Device) (L : IsLockstep D) (ss : List D.State) (c : D.State) (rest : List Bytes)
    → 0 < length ss
    → Greeted D L ss
    → ((s : D.State) (ss' : List D.State) → ss ≡ s ∷ ss' → L.messages c ≡ L.sent s ∷ rest)
    → L.messages c ≡ hello_text ∷ rest
first_greeting D L [] c rest some_client greeted arrives = absurd (omega arith)
first_greeting D L (s ∷ ss) c rest some_client (greeted, _) arrives =
    arrives s ss refl ∙ ap (λ (b : Bytes). b ∷ rest) greeted

module _ (N : Network) (D : Device) (L : IsLockstep D) (accepted : ℕ → ℕ → D.State) where
  hello_last :
      (rounds i fd : ℕ) (n : N.State)
      → (N.accept n fd).0 ≡ none
      → hello_loop N D accepted (suc rounds) i (some fd) n ≡ done []
  unfolding hello_loop
  hello_last rounds i fd n e = rw (e, hello_loop) refl

  hello_step :
      (rounds i fd c : ℕ) (addr : Address) (n : N.State) (ss : List D.State)
      → (N.accept n fd).0 ≡ some (c, addr)
      → hello_loop N D accepted rounds (i + 1) (some fd) (N.accept n fd).1 ≡ done ss
      → hello_loop N D accepted (suc rounds) i (some fd) n
        ≡ done ((D.write (accepted i c) hello_text).1 ∷ ss)
  unfolding hello_loop
  hello_step rounds i fd c addr n ss e rest = rw (e, hello_loop) (rw rest refl)

  hello_loop-Greeted :
      (rounds k i fd : ℕ) (n : N.State)
      → ((j c : ℕ) → L.sent (accepted j c) ≡ [])
      → Accepts N fd k n
      → k < rounds
      → (ss : List D.State) × (hello_loop N D accepted rounds i (some fd) n ≡ done ss)
        × (length ss ≡ k)
        × Greeted D L ss
  hello_loop-Greeted zero k i fd n fresh accepts enough = absurd (omega arith)
  hello_loop-Greeted (suc rounds) zero i fd n fresh fails enough =
      ([], hello_last rounds i fd n fails, refl, tt)
  hello_loop-Greeted (suc rounds) (suc k) i fd n fresh ((c, addr, e), later) enough =
      let (ss, rest, number, greeted) =
        hello_loop-Greeted rounds k (i + 1) fd (N.accept n fd).1 fresh later (omega arith) in
      (
        (D.write (accepted i c) hello_text).1 ∷ ss,
        hello_step rounds i fd c addr n ss e rest,
        ap suc number,
        (
          L.write-whole (accepted i c) hello_text ∙ ap (λ (b : Bytes). b ++ hello_text) (fresh i c),
          greeted,
        ),
      )

  server_steps :
      (rounds port fd : ℕ) (n : N.State) (ss : List D.State)
      → (N.bind n (some fd) (any_address port)).0 ≡ true
      → (N.listen (N.bind n (some fd) (any_address port)).1 (some fd) 5).0 ≡ true
      → hello_loop N D accepted rounds 0
          (some fd)
          (N.listen (N.bind n (some fd) (any_address port)).1 (some fd) 5).1
        ≡ done ss
      → server N D accepted rounds port (some fd) n ≡ done (cannot_accept ss)
  unfolding server
  server_steps rounds port fd n ss bound listens greeted = rw bound (rw listens (rw greeted refl))

module _ (N : Network) (D : Device) (L : IsLockstep D) (connection : Option ℕ → D.State) where
  hello_string : (memory : Bytes) → string_of (hello_text ++ memory) ≡ codes "HOLA!"
  unfolding string_of
  hello_string memory = refl

  client_steps :
      (memory ip : Bytes) (port fd : ℕ) (n : N.State)
      → (N.connect n (some fd) (peer_address N ip port)).0 ≡ true
      → (D.read (connection (some fd)) 255).0 ≡ some hello_text
      → client N D connection memory port (some fd) ip n
        ≡ done
            (talked (codes "HOLA!") (D.write (D.read (connection (some fd)) 255).1 goodbye_text).1)
  unfolding client read_hello
  client_steps memory ip port fd n connected got =
      rw connected (rw (got, read_hello) (rw (hello_string (drop 6 memory)) refl))

module _ (N : Network) (D : Device) (accepted : ℕ → ℕ → D.State) (connection : Option ℕ → D.State)
    (rounds : ℕ) (memory : Bytes) where
  main-client :
      (a ip : Bytes) (port fd : ℕ) (n : N.State) (r : Run (Exit D.State))
      → strtol a % 2 ^ 32 ≡ port
      → 1 ≤ port
      → port ≤ 65535
      → (N.socket n).0 ≡ some fd
      → client N D connection memory port (some fd) ip (N.socket n).1 ≡ r
      → main N D accepted connection rounds memory (codes "-c" ∷ a ∷ ip ∷ []) n ≡ r
  unfolding main same
  main-client a ip port fd n r number low high opened talks =
      rw number (rw opened (rw (port_in_range port low high) talks))

  main-server :
      (a : Bytes) (more : List Bytes) (port fd : ℕ) (n : N.State) (r : Run (Exit D.State))
      → strtol a % 2 ^ 32 ≡ port
      → 1 ≤ port
      → port ≤ 65535
      → (N.socket n).0 ≡ some fd
      → server N D accepted rounds port (some fd) (N.socket n).1 ≡ r
      → main N D accepted connection rounds memory (codes "-s" ∷ a ∷ more) n ≡ r
  unfolding main same
  main-server a more port fd n r number low high opened serves =
      rw number (rw opened (rw (port_in_range port low high) serves))

module _ (N M : Network) (D : Device) (L : IsLockstep D) (accepted : ℕ → ℕ → D.State)
    (connection : Option ℕ → D.State) (rounds : ℕ) (memory : Bytes) where
  -- Over connections on which each read gives one whole message and every write is taken whole (the
  -- law IsLockstep; the code only prints a write that is partial): the server, with a port from 1 to
  -- 65535 and a system that opens, binds and listens, then accepts k clients, at least one, and then
  -- fails, and with more rounds than clients, ends because `accept` failed, and each of the k
  -- connections, on which nothing was sent before, has sent HOLA! and its zero. If what the server has
  -- sent on the first of them comes in as one message at a client that gets a socket and connects, the
  -- client prints HOLA!, whatever its array held, sends its farewell and ends.
  pub main-Greeted :
      (a ip : Bytes) (more : List Bytes) (port k fd cfd : ℕ) (n : N.State) (m : M.State)
      (rest : List Bytes)
      → strtol a % 2 ^ 32 ≡ port
      → 1 ≤ port
      → port ≤ 65535
      → (N.socket n).0 ≡ some fd
      → (N.bind (N.socket n).1 (some fd) (any_address port)).0 ≡ true
      → (N.listen (N.bind (N.socket n).1 (some fd) (any_address port)).1 (some fd) 5).0 ≡ true
      → Accepts N fd k
          (N.listen (N.bind (N.socket n).1 (some fd) (any_address port)).1 (some fd) 5).1
      → k < rounds
      → ((j c : ℕ) → L.sent (accepted j c) ≡ [])
      → (M.socket m).0 ≡ some cfd
      → (M.connect (M.socket m).1 (some cfd) (peer_address M ip port)).0 ≡ true
      → 0 < k
      → ((s : D.State) (ss : List D.State)
          → main N D accepted connection rounds memory (codes "-s" ∷ a ∷ more) n
            ≡ done (cannot_accept (s ∷ ss))
          → L.messages (connection (some cfd)) ≡ L.sent s ∷ rest)
      → ((ss : List D.State) × (main N D accepted connection rounds memory (codes "-s" ∷ a ∷ more) n
            ≡ done (cannot_accept ss))
          × (length ss ≡ k)
          × Greeted D L ss)
        × ((s' : D.State) × (main M D accepted connection rounds memory (codes "-c" ∷ a ∷ ip ∷ []) m
              ≡ done (talked (codes "HOLA!") s'))
            × (L.sent s' ≡ L.sent (connection (some cfd)) ++ goodbye_text))
  main-Greeted a ip more port k fd cfd n m rest number low high opened bound listens accepts enough
        fresh opened' connected some_client arrives =
      let n1 = (N.bind (N.socket n).1 (some fd) (any_address port)).1 in
      let (ss, greets, count, greeted) =
        hello_loop-Greeted N D L accepted rounds k 0 fd (N.listen n1 (some fd) 5).1 fresh accepts
          enough in
      let serves =
        main-server N D accepted connection rounds memory a more port fd n _ number low high opened
          (server_steps N D L accepted rounds port fd (N.socket n).1 ss bound listens greets) in
      let comes =
        first_greeting D L ss (connection (some cfd)) rest (omega (arith, count, some_client))
          greeted
          (λ s ss' e.
            arrives s ss' (serves ∙ ap (λ (l : List D.State). done (cannot_accept l)) e)) in
      let s = connection (some cfd) in
      let (got, _) = L.read-message s hello_text rest comes (omega arith) in
      (
        (ss, serves, count, greeted),
        (
          (D.write (D.read s 255).1 goodbye_text).1,
          main-client M D accepted connection rounds memory a ip port cfd m _ number low high
              opened'
              (client_steps M D L connection memory ip port cfd (M.socket m).1 connected got),
          L.write-whole (D.read s 255).1 goodbye_text
              ∙ ap (λ (b : Bytes). b ++ goodbye_text) (L.read_keeps-sent s),
        ),
      )
