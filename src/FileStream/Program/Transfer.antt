-- ===== src/FileStream/Program/Transfer.antt =====
-- The two programs together.
use iteso_codigos.Common.{
  ℕ, ◌+◌, ◌^◌, ◌<◌, ◌≡◌, refl, sym, ap, ◌∙◌, true, Option, some, [], ◌++◌, length, arith,
}
use iteso_codigos.Common.Text.{Bytes}
use iteso_codigos.Common.Run.{done}
use iteso_codigos.Device.{Device, IsLawful, IsReliable}
use iteso_codigos.Libc.Array.{array_string-done}
use iteso_codigos.Netlib.{Network, Peer, new_server_socket, new_client_socket, wait_connection}
use iteso_codigos.FileStream.Copy.{Clock, current_time_millis, receive_blocks, send_blocks}
use iteso_codigos.FileStream.Copy.Receives.{receive_blocks-Saves}
use iteso_codigos.FileStream.Copy.Sends.{Ticks, send_blocks-Streams}
use iteso_codigos.FileStream.Program.{start_server, start_client}

module _ (N : Network) (F : Device) (LF : IsLawful F) (RF : IsReliable F) (W : Device)
    (LW : IsLawful W) (RW : IsReliable W) (C : Device) (LC : IsLawful C) (RC : IsReliable C)
    (S : Device) (LS : IsLawful S) (RS : IsReliable S) (clock : Clock)
    (open_read : Bytes → Option F.State) (create : Bytes → Option W.State)
    (outgoing : Option ℕ → C.State) (incoming : Option ℕ → S.State) (stale fuel : ℕ) where
  server_steps :
      (iface filename : Bytes) (port max_clients server_socket : ℕ) (n : N.State) (peer : Peer)
      (w w' : W.State) (t' : S.State)
      → (new_server_socket N iface port max_clients n).0 ≡ some server_socket
      → create filename ≡ some w
      → (wait_connection N true true server_socket
          (new_server_socket N iface port max_clients n).1).0
        ≡ some peer
      → receive_blocks S W fuel fuel 0 (incoming (some peer.client)) w ≡ done (t', w')
      → start_server N S W incoming create fuel iface port max_clients filename n
        ≡ done (true, some (t', w'))
  unfolding start_server
  server_steps iface filename port max_clients server_socket n peer w w' t' listens created accepted
        saved =
      rw (listens, start_server)
        (rw (created, start_server) (rw (accepted, start_server) (rw saved refl)))

  client_steps :
      (ip filename : Bytes) (port fd : ℕ) (n : N.State) (f f' : F.State) (s' : C.State)
      → open_read filename ≡ some f
      → length ip < 18
      → (new_client_socket N ip port n).0 ≡ some fd
      → send_blocks F C clock fuel fuel stale 1 (current_time_millis clock 0) f (outgoing (some fd))
        ≡ done (f', s')
      → start_client N F C outgoing open_read clock stale fuel ip port filename n
        ≡ done (true, some (f', s'))
  unfolding start_client
  client_steps ip filename port fd n f f' s' opened short connected sent =
      rw (opened, start_client)
        (rw (array_string-done 18 ip short) (rw (connected, start_client) (rw sent refl)))

  -- Over reliable devices, a clock that ticks, sockets that are opened on both sides and files that can
  -- be opened, an address shorter than its array of 18 bytes, and a file below 2 GB that has room in
  -- the total that the client starts from: the client ends with the whole file sent, and if what it sends is what comes in at the
  -- connection that the server accepts, then the server ends with exactly the bytes of the file
  -- written behind what its file held. Both return true.
  pub file_arrives :
      (iface ip source target : Bytes) (port peer_port max_clients server_socket fd : ℕ)
      (n m : N.State) (peer : Peer) (f : F.State) (w : W.State)
      → Ticks clock
      → (new_server_socket N iface port max_clients n).0 ≡ some server_socket
      → create target ≡ some w
      → (wait_connection N true true server_socket
          (new_server_socket N iface port max_clients n).1).0
        ≡ some peer
      → open_read source ≡ some f
      → (new_client_socket N ip peer_port m).0 ≡ some fd
      → length ip < 18
      → length (LF.pending f) < fuel
      → length (LF.pending f) < 2 ^ 31
      → stale + length (LF.pending f) < 2 ^ 32
      → ((f' : F.State) (s' : C.State)
          → start_client N F C outgoing open_read clock stale fuel ip peer_port source m
            ≡ done (true, some (f', s'))
          → LC.sent s' ≡ LC.sent (outgoing (some fd)) ++ LS.pending (incoming (some peer.client)))
      → LC.sent (outgoing (some fd)) ≡ []
      → (f' : F.State) × (s' : C.State) × (t' : S.State) × (w' : W.State) × (start_client N F C
            outgoing open_read clock stale fuel ip peer_port source m
          ≡ done (true, some (f', s')))
        × (start_server N S W incoming create fuel iface port max_clients target n
            ≡ done (true, some (t', w')))
        × (LC.sent s' ≡ LF.pending f)
        × (LW.sent w' ≡ LW.sent w ++ LF.pending f)
  file_arrives iface ip source target port peer_port max_clients server_socket fd n m peer f w ticks
        listens created accepted opened connected short enough small room arrives fresh =
      let sends =
        send_blocks-Streams F C clock fuel LF RF LC RC fuel stale 0 f (outgoing (some fd)) ticks
          room enough enough in
      let client =
        client_steps ip source peer_port fd m f sends.file sends.socket opened short connected
          sends.returns in
      let same_bytes : LS.pending (incoming (some peer.client)) ≡ LF.pending f =
        ap (λ (b : Bytes). b ++ LS.pending (incoming (some peer.client))) (sym fresh)
        ∙ sym (arrives sends.file sends.socket client)
        ∙ sends.delivers
        ∙ ap (λ (b : Bytes). b ++ LF.pending f) fresh in
      let saves =
        receive_blocks-Saves S W fuel LS RS LW RW fuel 0 (incoming (some peer.client)) w
          (omega (arith, ap length same_bytes)) (omega (arith, ap length same_bytes))
          (omega (arith, ap length same_bytes)) in
      (
        sends.file,
        sends.socket,
        saves.socket,
        saves.file,
        client,
        server_steps iface target port max_clients server_socket n peer w saves.file saves.socket
            listens created accepted saves.returns,
        sends.delivers ∙ ap (λ (b : Bytes). b ++ LF.pending f) fresh,
        saves.writes ∙ ap (λ (b : Bytes). LW.sent w ++ b) same_bytes,
      )
