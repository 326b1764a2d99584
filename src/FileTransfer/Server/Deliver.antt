-- ===== src/FileTransfer/Server/Deliver.antt =====
-- What the server sends in one run of `sendLine` and of the loop that copies a file.
use iteso_codigos.Common.{
  ℕ, zero, suc, ◌^◌, ◌<◌, ◌≡◌, refl, sym, ap, ◌∙◌, some, [], ◌∷◌, ◌++◌, append_assoc, append-nil,
  length, length-append, arith, lt→ltb,
}
use iteso_codigos.Common.Text.{Bytes}
use iteso_codigos.Common.Run.{Run, done, ◌>>=◌}
use iteso_codigos.Device.{Device, IsLawful, IsReliable}
use iteso_codigos.FileTransfer.Send.{write_while}
use iteso_codigos.FileTransfer.Send.Laws.{write_while-Sends, send_line-Sends}
use iteso_codigos.FileTransfer.Files.{FileSystem, IsFaithful}
use iteso_codigos.FileTransfer.Server.{block_size, print_into, send, copy_file}

-- A run that returns with the text `b` sent since `s` and nothing read.
pub record Answers (D : Device) (L : IsLawful D) (s : D.State) (b : Bytes) (result : Run D.State)
    : Type 0 where
  pub final : D.State
  pub returns : result ≡ done final
  pub delivers : L.sent final ≡ L.sent s ++ b
  pub reads_nothing : L.pending final ≡ L.pending s

pub print_into_fits :
    (room : ℕ) (text : Bytes) → length text < room → print_into room text ≡ done text
unfolding print_into
print_into_fits room text h = rw (lt→ltb _ _ h)

module _ (D : Device) (L : IsLawful D) where
  pub Answers-done : (s : D.State) → Answers D L s [] (done s)
  Answers-done s = record {
    final = s;
    returns = refl;
    delivers = sym (append-nil _);
    reads_nothing = refl;
  }

  -- One text behind another.
  pub Answers-bind :
      (s : D.State) (b c : Bytes) (m : Run D.State) (k : D.State → Run D.State)
      → Answers D L s b m
      → ((s' : D.State) → Answers D L s' c (k s'))
      → Answers D L s (b ++ c) (m >>= k)
  Answers-bind s b c m k first second =
      let then_ = second first.final in
      record {
        final = then_.final;
        returns = rw first.returns then_.returns;
        delivers = then_.delivers ∙ rw first.delivers (append_assoc (L.sent s) b c);
        reads_nothing = then_.reads_nothing ∙ first.reads_nothing;
      }

module _ (FS : FileSystem) (F : IsFaithful FS) (D : Device) (L : IsLawful D) (R : IsReliable D)
    (fuel : ℕ) where
  pub send-Answers :
      (line : Bytes) (s : D.State)
      → 0 < length line
      → length line < 2 ^ 32
      → length line < fuel
      → Answers D L s line (send FS D fuel line s)
  unfolding send
  send-Answers line s some_byte small enough =
      let sends = send_line-Sends D L R line small fuel s some_byte enough in
      record {
        final = sends.final;
        returns = rw sends.returns;
        delivers = sends.delivers;
        reads_nothing = sends.reads_nothing;
      }

  copy_file_eof :
      (rounds : ℕ) (f : FS.File.State) (s : D.State)
      → (FS.File.read f block_size).0 ≡ some []
      → copy_file FS D fuel (suc rounds) f s ≡ done s
  unfolding copy_file
  copy_file_eof rounds f s got = ground (arith, got)

  copy_file_block :
      (rounds c : ℕ) (b : Bytes) (f : FS.File.State) (s : D.State)
      → (FS.File.read f block_size).0 ≡ some (c ∷ b)
      → copy_file FS D fuel (suc rounds) f s ≡ (
          write_while D fuel (c ∷ b) (0, s) >>= λ r.
          copy_file FS D fuel rounds (FS.File.read f block_size).1 (r.1))
  unfolding copy_file
  copy_file_block rounds c b f s got = ground (arith, got)

  -- Over reliable devices and with fuel above the length of the file, the loop ends and has sent the
  -- file whole, however the reads and writes cut it up.
  pub copy_file-Answers :
      (rounds : ℕ) (f : FS.File.State) (s : D.State)
      → length (F.lawful.pending f) < rounds
      → length (F.lawful.pending f) < fuel
      → Answers D L s (F.lawful.pending f) (copy_file FS D fuel rounds f s)
  copy_file-Answers zero f s h enough = absurd (omega arith)
  copy_file-Answers (suc rounds) f s h enough =
      let (b, got) = F.reads f block_size in
      (elim b
          as (λ x.
            (FS.File.read f block_size).0 ≡ some x
            → Answers D L s (F.lawful.pending f) (copy_file FS D fuel (suc rounds) f s)) [
              | [] ↦ λ e.
                  rw (copy_file_eof rounds f s e, F.lawful.read-eof f 102399 e) (Answers-done D L s)
              | c ∷ b' ↦ λ e.
                  let (fits, split) = F.lawful.read-some f block_size e in
                  let f' = (FS.File.read f block_size).1 in
                  let len = ap length split ∙ length-append (c ∷ b') (F.lawful.pending f') in
                  let block = write_while-Sends D L R (c ∷ b') (omega arith) fuel s (omega arith) in
                  let rest = copy_file-Answers rounds f' block.final (omega arith) (omega arith) in
                  rw (copy_file_block rounds c b' f s e, split, block.returns)
                    (record {
                      final = rest.final;
                      returns = rest.returns;
                      delivers =
                          rest.delivers ∙ rw block.delivers (append_assoc (L.sent s) (c ∷ b') _);
                      reads_nothing = rest.reads_nothing ∙ block.reads_nothing;
                    })
            ])
        got
