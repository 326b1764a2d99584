-- ===== src/TcpPing/Program/Echoes.antt =====
-- The server of tcp_ping: every message that comes in goes back.
use iteso_codigos.Common.{
  ℕ, zero, suc, ◌+◌, ◌^◌, ◌<◌, ◌≡◌, refl, ap, ◌∙◌, true, Option, some, List, [], ◌∷◌, ◌++◌, length,
}
use iteso_codigos.Common.Text.{Bytes}
use iteso_codigos.Common.Run.{done}
use iteso_codigos.Device.{Device, IsLawful, IsReliable}
use iteso_codigos.Netlib.{Network, Peer, new_server_socket, wait_connection}
use iteso_codigos.TcpPing.{ping_listen}
use iteso_codigos.TcpPing.Listen.{IsText, ping_listen-text}
use iteso_codigos.TcpPing.Program.{serve_clients, start_server}

-- The i-th connection, and each after it, has sent its text and the zero behind it.
abbrev pub Echoes : (D : Device) → IsLawful D → (ℕ → Bytes) → ℕ → List D.State → Type 0
Echoes D L text i [] = Unit
Echoes D L text i (s ∷ ss) = (L.sent s ≡ text i ++ 0 ∷ []) × Echoes D L text (i + 1) ss

-- The system accepts whenever it is asked to.
abbrev pub Accepts : Network → Type 0
Accepts N =
    (fd : ℕ) (n : N.State) → (peer : Peer) × ((wait_connection N true true fd n).0 ≡ some peer)

module _ (N : Network) (S : Device) (LS : IsLawful S) (RS : IsReliable S)
    (incoming : ℕ → Option ℕ → S.State) (fuel : ℕ) where
  -- What the i-th client sends, on a connection that has sent nothing back yet.
  pub record Offers (text : Bytes) (i : ℕ) : Type 0 where
    pub has_text : IsText text
    pub enough : length text + 1 < fuel
    pub fits : length text + 1 < 2 ^ 32
    pub comes : (fd : ℕ) → LS.pending (incoming i (some fd)) ≡ text ++ 0 ∷ []
    pub fresh : (fd : ℕ) → LS.sent (incoming i (some fd)) ≡ []

  serve_step :
      (server_socket rounds i m : ℕ) (n : N.State) (peer : Peer) (s : S.State) (ss : List S.State)
      → (wait_connection N true true server_socket n).0 ≡ some peer
      → ping_listen S fuel (incoming i (some peer.client)) ≡ done (m, s)
      → serve_clients N S incoming fuel server_socket rounds
          (i + 1)
          (wait_connection N true true server_socket n).1
        ≡ done ss
      → serve_clients N S incoming fuel server_socket (suc rounds) i n ≡ done (s ∷ ss)
  unfolding serve_clients
  serve_step server_socket rounds i m n peer s ss accepted served rest =
      rw accepted (rw (served, rest) refl)

  pub serve_clients-Echoes :
      (text : ℕ → Bytes) (server_socket rounds i : ℕ) (n : N.State)
      → Accepts N
      → ((j : ℕ) → Offers (text j) j)
      → (ss : List S.State) × (serve_clients N S incoming fuel server_socket rounds i n ≡ done ss)
        × (length ss ≡ rounds)
        × Echoes S LS text i ss
  unfolding serve_clients
  serve_clients-Echoes text server_socket zero i n accepts offers = ([], refl, refl, tt)
  serve_clients-Echoes text server_socket (suc rounds) i n accepts offers =
      let (peer, accepted) = accepts server_socket n in
      let o = offers i in
      let (m, s, served, _, _, sent) =
        ping_listen-text S LS RS fuel (text i) (incoming i (some peer.client)) o.has_text
          (o.comes peer.client) o.enough o.fits in
      let (ss, rest, number, echoes) =
        serve_clients-Echoes text server_socket rounds (i + 1)
          (wait_connection N true true server_socket n).1 accepts offers in
      (
        s ∷ ss,
        serve_step server_socket rounds i m n peer s ss accepted served rest,
        ap suc number,
        (sent ∙ ap (λ (b : Bytes). b ++ (text i ++ 0 ∷ [])) (o.fresh peer.client), echoes),
      )

  -- A server that gets its socket, over a system that accepts whenever it is asked to: if the client of
  -- each connection offers a text of its own, then after any number of rounds every connection of these
  -- rounds has sent its text back, with the zero behind it.
  pub start_server-Echoes :
      (text : ℕ → Bytes) (iface : Bytes) (port max_clients server_socket rounds : ℕ) (n : N.State)
      → (new_server_socket N iface port max_clients n).0 ≡ some server_socket
      → Accepts N
      → ((j : ℕ) → Offers (text j) j)
      → (ss : List S.State) × (start_server N S incoming fuel iface port max_clients rounds n
          ≡ done (some ss))
        × (length ss ≡ rounds)
        × Echoes S LS text 0 ss
  unfolding start_server
  start_server-Echoes text iface port max_clients server_socket rounds n listens accepts offers =
      let (ss, served, number, echoes) =
        serve_clients-Echoes text server_socket rounds 0
          (new_server_socket N iface port max_clients n).1 accepts offers in
      (ss, rw (listens, start_server) (rw served refl), number, echoes)
