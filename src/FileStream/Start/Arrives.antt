-- ===== src/FileStream/Start/Arrives.antt =====
-- A file sent and received by the two programs, from their command lines on.
use iteso_codigos.Common.{
  ℕ, ◌+◌, ◌^◌, ◌<◌, ◌≡◌, refl, true, Bool, Option, some, List, [], ◌++◌, length,
}
use iteso_codigos.Common.Text.{Bytes, codes}
use iteso_codigos.Common.Run.{done}
use iteso_codigos.Device.{Device, IsLawful, IsReliable}
use iteso_codigos.Netlib.{Network, Peer, new_server_socket, new_client_socket, wait_connection}
use iteso_codigos.FileTransfer.Arguments.{ready}
use iteso_codigos.FileStream.Copy.{Clock}
use iteso_codigos.FileStream.Copy.Sends.{Ticks}
use iteso_codigos.FileStream.Arguments.{Settings, server, client, process_arguments}
use iteso_codigos.FileStream.Program.{start_server, start_client}
use iteso_codigos.FileStream.Program.Transfer.{file_arrives}
use iteso_codigos.FileStream.Start.{received, transmitted, run_mode, started, start}

module _ (N : Network) (F D W : Device) (connection : Option ℕ → D.State)
    (open_read : Bytes → Option F.State) (create : Bytes → Option W.State) (clock : Clock)
    (stale fuel : ℕ) (argv : List Bytes) (s : Settings) (n : N.State) where
  receiver_steps :
      (r : Bool × Option (D.State × W.State))
      → process_arguments argv ≡ (some server, ready s)
      → start_server N D W connection create fuel (codes "0.0.0.0") s.port 5 s.filename n ≡ done r
      → start N F D W connection open_read create clock stale fuel argv n ≡ done (received r)
  unfolding start started run_mode
  receiver_steps r e run = rw e (rw run refl)

  sender_steps :
      (r : Bool × Option (F.State × D.State))
      → process_arguments argv ≡ (some client, ready s)
      → start_client N F D connection open_read clock stale fuel s.target s.port s.filename n
        ≡ done r
      → start N F D W connection open_read create clock stale fuel argv n ≡ done (transmitted r)
  unfolding start started run_mode
  sender_steps r e run = rw e (rw run refl)

module _ (N : Network) (F : Device) (LF : IsLawful F) (RF : IsReliable F) (W : Device)
    (LW : IsLawful W) (RW : IsReliable W) (C : Device) (LC : IsLawful C) (RC : IsReliable C)
    (S : Device) (LS : IsLawful S) (RS : IsReliable S) (clock : Clock)
    (open_read : Bytes → Option F.State) (create : Bytes → Option W.State)
    (outgoing : Option ℕ → C.State) (incoming : Option ℕ → S.State) (stale fuel : ℕ) where
  -- Two command lines of file_transfer, one taken for a receiver and one for a sender, over reliable
  -- devices, a clock that ticks, sockets that are opened on both sides, files that can be opened, an
  -- address shorter than its array of 18 bytes, and a file below 2 GB that has room in the total that
  -- the sender starts from (2^31 more than its value, as `stale`), with more fuel than its bytes:
  -- the sender ends with the whole file sent, and if what it sends is what comes in at the connection
  -- that the receiver accepts, then the receiver ends with exactly the bytes of the file written
  -- behind what its file held. Both have done so with success.
  pub start-file_arrives :
      (receiving sending : List Bytes) (r s : Settings) (server_socket fd : ℕ) (n m : N.State)
      (peer : Peer) (f : F.State) (w : W.State)
      → process_arguments receiving ≡ (some server, ready r)
      → process_arguments sending ≡ (some client, ready s)
      → Ticks clock
      → (new_server_socket N (codes "0.0.0.0") r.port 5 n).0 ≡ some server_socket
      → create r.filename ≡ some w
      → (wait_connection N true true server_socket
          (new_server_socket N (codes "0.0.0.0") r.port 5 n).1).0
        ≡ some peer
      → open_read s.filename ≡ some f
      → (new_client_socket N s.target s.port m).0 ≡ some fd
      → length s.target < 18
      → length (LF.pending f) < fuel
      → length (LF.pending f) < 2 ^ 31
      → stale + length (LF.pending f) < 2 ^ 32
      → ((f' : F.State) (s' : C.State)
          → start N F C W outgoing open_read create clock stale fuel sending m
            ≡ done (transmitted (true, some (f', s')))
          → LC.sent s' ≡ LC.sent (outgoing (some fd)) ++ LS.pending (incoming (some peer.client)))
      → LC.sent (outgoing (some fd)) ≡ []
      → (f' : F.State) × (s' : C.State) × (t' : S.State) × (w' : W.State) × (start N F C W outgoing
            open_read create clock stale fuel sending m
          ≡ done (transmitted (true, some (f', s'))))
        × (start N F S W incoming open_read create clock stale fuel receiving n
            ≡ done (received (true, some (t', w'))))
        × (LC.sent s' ≡ LF.pending f)
        × (LW.sent w' ≡ LW.sent w ++ LF.pending f)
  start-file_arrives receiving sending r s server_socket fd n m peer f w receives sends ticks
        listens created accepted opened connected short enough small room arrives fresh =
      let (f', s', t', w', sent, saved, whole_file, same_bytes) =
        file_arrives N F LF RF W LW RW C LC RC S LS RS clock open_read create outgoing incoming
          stale fuel (codes "0.0.0.0") s.target s.filename r.filename r.port s.port 5 server_socket
          fd n m peer f w ticks listens created accepted opened connected short enough small room
          (λ f' s' e.
            arrives f' s' (
              sender_steps N F C W outgoing open_read create clock stale fuel sending s m _ sends
                e))
          fresh in
      (
        f',
        s',
        t',
        w',
        sender_steps N F C W outgoing open_read create clock stale fuel sending s m _ sends sent,
        receiver_steps N F S W incoming open_read create clock stale fuel receiving r n _ receives
            saved,
        whole_file,
        same_bytes,
      )
