-- ===== src/Device/Memory.antt =====
-- A descriptor in memory that moves at most a fixed number of bytes in a call. It shows that the
-- laws can hold, with calls that are cut short, and it runs in the tests.
use iteso_codigos.Common.{
  ℕ, suc, ◌≤◌, ◌≡◌, refl, sym, ◌≢◌, none, some, [], ◌∷◌, ◌++◌, arith, min, length, take, drop,
  take-append-drop, length-take, ap,
}
use iteso_codigos.Common.Text.{Bytes}
use iteso_codigos.Device.{Device, IsLawful, IsReliable}

pub record Pipe : Type 0 where
  pub pending : Bytes
  pub sent : Bytes

pub some-ne-none {ℓ} : {A : Type ℓ} (a : A) → some a ≢ none
some-ne-none a h = cc

pub read_prefix :
    (n k : ℕ) (p b : Bytes)
    → some (take (min n k) p) ≡ some b
    → (length b ≤ n) × (p ≡ b ++ drop (min n k) p)
read_prefix n k p b h =
    let e : b ≡ take (min n k) p = cc in
    rw e (omega (arith, length-take (min n k) p), sym (take-append-drop (min n k) p))

pub read_end : (n k : ℕ) (p : Bytes) → some (take (min (suc n) (suc k)) p) ≡ some [] → p ≡ []
read_end n k [] h = refl
read_end n k (c ∷ p) h =
    let e : take (min (suc n) (suc k)) (c ∷ p) ≡ [] = cc in
    absurd (omega (arith, ap length e, length-take (min (suc n) (suc k)) (c ∷ p)))

pub write_prefix :
    (k j : ℕ) (b p : Bytes)
    → some (min (suc j) (length b)) ≡ some k
    → (k ≤ length b) × (p ++ take (min (suc j) (length b)) b ≡ p ++ take k b)
write_prefix k j b p h = let e : k ≡ min (suc j) (length b) = cc in rw e (omega arith, refl)

write_progress :
    (j : ℕ) (b : Bytes) → b ≢ [] → (k : ℕ) × (some (min (suc j) (length b)) ≡ some (suc k))
write_progress j [] h = absurd (h refl)
write_progress j (c ∷ b) h = (min j (length b), ap some (omega arith))

-- A call moves at most `suc k` bytes.
module _ (k : ℕ) where
  abbrev pub memory : Device
  memory = record {
    State = Pipe;
    read = λ s n. (
      some (take (min n (suc k)) s.pending),
      record s { pending = drop (min n (suc k)) s.pending },
    );
    write = λ s b. (
      some (min (suc k) (length b)),
      record s { sent = s.sent ++ take (min (suc k) (length b)) b },
    );
  }

  abbrev pub memory-IsLawful : IsLawful memory
  memory-IsLawful = record {
    pending = λ s. s.pending;
    sent = λ s. s.sent;
    read-some = λ s n {b} h. read_prefix n (suc k) s.pending b h;
    read-none = λ s n h. absurd (some-ne-none _ h);
    read-eof = λ s n h. read_end n k s.pending h;
    read_keeps-sent = λ s n. refl;
    write-some = λ s b {k = j} h. write_prefix j k b s.sent h;
    write-none = λ s b h. absurd (some-ne-none _ h);
    write_keeps-pending = λ s b. refl;
  }

  pub memory-IsReliable : IsReliable memory
  memory-IsReliable = record {
    reads = λ s n. (take (min n (suc k)) s.pending, refl);
    writes = λ s b h. write_progress k b h;
  }
