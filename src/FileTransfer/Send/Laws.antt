-- ===== src/FileTransfer/Send/Laws.antt =====
-- What the write loops deliver over a lawful descriptor.
use iteso_codigos.Common.{
  ℕ, zero, suc, ◌+◌, ◌-◌, ◌^◌, ◌≤◌, ◌<◌, ◌≡◌, refl, ◌≢◌, none, if◌then◌else◌, ltb, arith, [], ◌++◌,
  append_assoc, length, drop, length-drop, take-drop_add, drop-eq-nil, append-nil, ap, sym, ◌∙◌,
  ◌==◌, le→not_ltb, Bool-cases, ltb→lt, not_ltb→le, inl, inr,
}
use iteso_codigos.Common.Text.{Bytes}
use iteso_codigos.Common.Run.{Run, done}
use iteso_codigos.Device.{Device, IsLawful, IsReliable}
use iteso_codigos.FileTransfer.Send.{write_step, write_while, send_line}

-- A run that returns, with the bytes `b` sent since `s` and nothing read.
pub record Sends (D : Device) (L : IsLawful D) (s : D.State) (b : Bytes) (n : ℕ)
    (result : Run (ℕ × D.State)) : Type 0 where
  pub final : D.State
  pub returns : result ≡ done (n, final)
  pub delivers : L.sent final ≡ L.sent s ++ b
  pub reads_nothing : L.pending final ≡ L.pending s

pub drop-ne-nil : (pos : ℕ) (block : Bytes) → pos < length block → drop pos block ≢ []
drop-ne-nil pos block below e = absurd (omega (arith, ap length e, length-drop pos block))

-- One write moves the position forward, and what is sent and what is left still make up the block.
pub record Advances (D : Device) (L : IsLawful D) (block : Bytes) (pos : ℕ) (s : D.State)
    (result : ℕ × D.State) : Type 0 where
  pub next : ℕ
  pub final : D.State
  pub stepped : result ≡ (next, final)
  pub forward : pos < next
  pub within : next ≤ length block
  pub delivers : L.sent final ++ drop next block ≡ L.sent s ++ drop pos block
  pub reads_nothing : L.pending final ≡ L.pending s

module _ (D : Device) (L : IsLawful D) (R : IsReliable D) (block : Bytes)
    (small : length block < 2 ^ 32) where
  pub write_step-Advances :
      (pos : ℕ) (s : D.State)
      → pos < length block
      → Advances D L block pos s (write_step D block (pos, s))
  unfolding write_step
  write_step-Advances pos s below =
      let (k, wrote) = R.writes s (drop pos block) (drop-ne-nil pos block below) in
      let (fits, told) = L.write-some s (drop pos block) wrote in
      let in_block : pos + suc k ≤ length block = omega (arith, length-drop pos block) in
      record {
        next = pos + suc k;
        final = (D.write s (drop pos block)).1;
        stepped = rw wrote (ground arith);
        forward = omega arith;
        within = in_block;
        delivers =
            rw (told, append_assoc)
              (ap (λ (r : Bytes). L.sent s ++ r) (take-drop_add (suc k) pos block));
        reads_nothing = L.write_keeps-pending s (drop pos block);
      }

  write_while_from :
      (fuel pos : ℕ) (s : D.State)
      → pos ≤ length block
      → length block - pos < fuel
      → (s' : D.State) × (write_while D fuel block (pos, s) ≡ done (length block, s'))
        × (L.sent s' ≡ L.sent s ++ drop pos block)
        × (L.pending s' ≡ L.pending s)
  unfolding write_while
  write_while_from zero pos s fits enough = absurd (omega arith)
  write_while_from (suc fuel) pos s fits enough = elim (Bool-cases (ltb pos (length block))) [
    | inl more ↦
        let adv = write_step-Advances pos s (ltb→lt pos _ more) in
        let (s', returns, delivers, kept) =
          write_while_from fuel adv.next adv.final adv.within (omega (arith, adv.forward)) in
        (s', rw (more, adv.stepped) returns, delivers ∙ adv.delivers, kept ∙ adv.reads_nothing)
    | inr over ↦
        let full : pos ≡ length block = omega (arith, not_ltb→le pos _ over) in
        (
          s,
          rw over (ap (λ (n : ℕ). done (n, s)) full),
          sym (
              ap (λ (r : Bytes). L.sent s ++ r) (drop-eq-nil pos block (omega arith))
              ∙ append-nil _),
          refl,
        )
  ]

  -- The loop delivers the whole block, whatever the sizes of the single writes.
  pub write_while-Sends :
      (fuel : ℕ) (s : D.State)
      → length block < fuel
      → Sends D L s block (length block) (write_while D fuel block (0, s))
  write_while-Sends fuel s enough =
      let (s', returns, delivers, kept) = write_while_from fuel 0 s (omega arith) (omega arith) in
      record { final = s'; returns = returns; delivers = delivers; reads_nothing = kept }

  pub send_line-Sends :
      (fuel : ℕ) (s : D.State)
      → 0 < length block
      → length block < fuel
      → Sends D L s block (length block) (send_line D fuel block s)
  unfolding send_line
  send_line-Sends fuel s some_byte enough =
      let adv = write_step-Advances 0 s some_byte in
      let (s', returns, delivers, kept) =
        write_while_from fuel adv.next adv.final adv.within (omega (arith, adv.forward)) in
      record {
        final = s';
        returns = rw adv.stepped returns;
        delivers = delivers ∙ adv.delivers;
        reads_nothing = kept ∙ adv.reads_nothing;
      }

-- A refused write takes the position one byte back, or from 0 to the largest `u_int`.
pub write_step_refused :
    (D : Device) (block : Bytes) (pos : ℕ) (s : D.State)
    → pos < 2 ^ 32
    → (D.write s (drop pos block)).0 ≡ none
    → write_step D block (pos, s)
      ≡ ((if pos == 0 then 2 ^ 32 - 1 else pos - 1), (D.write s (drop pos block)).1)
unfolding write_step
write_step_refused D block pos s fits refused = rw refused (ground arith)

write_while_over :
    (D : Device) (block : Bytes) (fuel pos : ℕ) (s : D.State)
    → length block ≤ pos
    → write_while D (suc fuel) block (pos, s) ≡ done (pos, s)
unfolding write_while
write_while_over D block fuel pos s past = rw (le→not_ltb pos (length block) past)

-- A line whose first write is refused counts as sent: `sendLine` ends with the largest `u_int`, and
-- not a byte of the line went out.
pub send_line_refused :
    (D : Device) (L : IsLawful D) (line : Bytes) (fuel : ℕ) (s : D.State)
    → length line < 2 ^ 32
    → (D.write s line).0 ≡ none
    → Sends D L s [] (2 ^ 32 - 1) (send_line D (suc fuel) line s)
unfolding send_line
send_line_refused D L line fuel s fits refused = record {
  final = (D.write s line).1;
  returns =
      ap (write_while D (suc fuel) line) (write_step_refused D line 0 s (omega arith) refused)
      ∙ write_while_over D line fuel (2 ^ 32 - 1) _ (omega arith);
  delivers = L.write-none s line refused ∙ sym (append-nil _);
  reads_nothing = L.write_keeps-pending s line;
}
